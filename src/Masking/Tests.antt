-- ===== src/Masking/Tests.antt =====
-- Runs of core/masking.py, and the theorems about it at concrete inputs.
use mathlib.Core.Option
use dremio_cdc.Prelude.{◌≡◌, refl, [], ◌∷◌, Text, text_eq, Text-discrete}
use dremio_cdc.Prelude.Chars.{codes}
use dremio_cdc.Prelude.Dict.{Dict, lookup}
use dremio_cdc.Masking.{
  Fn, Hashing, Rules, mask_phone_text, mask_ssn_text, mask_card_text, mask_email_text, digits_of,
  mask_ip_text, mask_name_text, mask_columns,
}
use dremio_cdc.Masking.Privacy.{number_masks_show_four_digits}
use dremio_cdc.Masking.Rows.{IsDict, masked, lookup-mask_columns}
use dremio_cdc.Samples.{plain, person}

abbrev no_hash : Hashing
no_hash = record { sha256_hex = λ t. t; md5_hex = λ t. t }

abbrev people_rules : Rules
people_rules = (codes "ssn", Fn.mask_ssn) ∷ (codes "email", Fn.mask_email) ∷ []

abbrev engine : Dict Text Rules
engine = (codes "people", people_rules) ∷ []

masks_run :
    (mask_phone_text (codes "+1 (555) 010-1234") ≡ codes "***-***-1234")
    × (mask_email_text (codes "alice@example.com") ≡ codes "a***@example.com")
    × (mask_email_text (codes "@") ≡ codes "***@***.***")
    × (mask_ip_text (codes "192.168.4.20") ≡ codes "192.168.*.*")
    × (mask_name_text (codes "  jane") ≡ codes "J***")
unfolding mask_phone_text mask_email_text mask_ip_text mask_name_text
masks_run = (refl, refl, refl, refl, refl)

number_masks_show_four_digits_example :
    (mask_phone_text (codes "123-45-6789") ≡ mask_phone_text (codes "999996789"))
    × (mask_ssn_text (codes "123-45-6789") ≡ mask_ssn_text (codes "999996789"))
    × (mask_card_text (codes "123-45-6789") ≡ mask_card_text (codes "999996789"))
unfolding digits_of
number_masks_show_four_digits_example =
    number_masks_show_four_digits (codes "123-45-6789") (codes "999996789") refl

people_rules-IsDict : IsDict people_rules
unfolding Text-discrete
people_rules-IsDict = (refl, (refl, tt))

lookup-mask_columns_example :
    lookup (codes "ssn") (mask_columns plain no_hash people_rules (person 1 (codes "123-45-6789")))
    ≡ Option.map
        (masked plain no_hash (lookup (codes "ssn") people_rules))
        (lookup (codes "ssn") (person 1 (codes "123-45-6789")))
lookup-mask_columns_example =
    lookup-mask_columns plain no_hash people_rules (person 1 (codes "123-45-6789")) (codes "ssn")
      people_rules-IsDict
