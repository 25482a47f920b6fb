-- ===== src/Secrets/Tests.antt =====
-- core/secrets.py at concrete references, and its theorem at a plain text.
use dremio_cdc.Prelude.{
  ◌≡◌, refl, Option, none, some, Text, Text-discrete, ◌==◌, text_eq, if◌then◌else◌,
}
use dremio_cdc.Prelude.Chars.{codes}
use dremio_cdc.Secrets.{Vault, substitute}

abbrev environ : Text → Option Text
environ name = if name == codes "USER" then some (codes "cdc") else none

-- One variable is set, and the other one is left as it stands.
substitutes : substitute environ (codes "${USER}@${HOST}") ≡ codes "cdc@${HOST}"
unfolding substitute Text-discrete
substitutes = refl

abbrev no_vault : Option Vault
no_vault = none
