-- ===== src/Masking.antt =====
-- core/masking.py: column masking before the sink.
pub mod Privacy
pub mod Rows
mod Tests
use dremio_cdc.Prelude.{
  ℕ, zero, suc, ◌-◌, ◌≡◌, refl, Bool, true, false, Option, none, some, List, [], ◌∷◌, ◌++◌, map,
  Text, length, take, keep, leb, ◌=ℕ◌, contains, nat_eq, text_eq, if◌then◌else◌,
}
use dremio_cdc.Prelude.Chars.{codes, is_digit, is_space, to_upper, strip, last, split, replace}
use dremio_cdc.Prelude.Dict.{Dict, lookup, insert}
use dremio_cdc.Event.{Value, Row, ChangeEvent, Printing, str}

-- `MASKING_FUNCTIONS`; `other` is any other name.
pub data Fn : Type 0 where
  redact hash_sha256 hash_md5 mask nullify tokenize : Fn
  mask_email mask_phone mask_ssn mask_card mask_ip mask_name : Fn
  other : Text → Fn

-- `(@.+)$` from the first '@' on, if anything stands behind it.
at_domain : Text → Option Text
at_domain [] = none
at_domain (c ∷ []) = none
at_domain (c ∷ d ∷ s) = if c =ℕ b'@' then some (c ∷ d ∷ s) else at_domain (d ∷ s)

-- `$` also matches before a final line feed.
chomp : Text → Text
chomp [] = []
chomp (c ∷ []) = if c =ℕ 10 then [] else c ∷ []
chomp (c ∷ d ∷ s) = c ∷ chomp (d ∷ s)

abbrev bad_email : Text
bad_email = codes "***@***.***"

-- `re.match(r'^(.).*?(@.+)$', s)`: no `.` matches a line feed.
email_parts : Text → Text
unfolding at_domain
email_parts [] = bad_email
email_parts (c ∷ s) =
    if contains 10 (c ∷ s)
    then bad_email
    else elim (at_domain s) [ none ↦ bad_email | some domain ↦ c ∷ codes "***" ++ domain ]

unfoldable pub mask_email_text : Text → Text
unfolding email_parts chomp
mask_email_text s = email_parts (chomp s)

-- `re.sub(r'\D', '', s)`
unfoldable pub digits_of : Text → Text
unfolding is_digit
digits_of s = keep is_digit s

-- The last four digits behind a prefix, or a text without digits.
abbrev last_four : Text → Text → Text → Text
last_four shown hidden digits = if leb 4 (length digits) then shown ++ last 4 digits else hidden

unfoldable pub mask_phone_text : Text → Text
unfolding digits_of
mask_phone_text s = last_four (codes "***-***-") (codes "***-***-****") (digits_of s)

unfoldable pub mask_ssn_text : Text → Text
unfolding digits_of
mask_ssn_text s = last_four (codes "***-**-") (codes "***-**-****") (digits_of s)

unfoldable pub mask_card_text : Text → Text
unfolding digits_of
mask_card_text s = last_four (codes "****-****-****-") (codes "****-****-****-****") (digits_of s)

octets : List Text → Text
octets (a ∷ b ∷ c ∷ d ∷ []) = a ++ (b'.' ∷ b ++ codes ".*.*")
octets _ = codes "*.*.*.*"

unfoldable pub mask_ip_text : Text → Text
unfolding octets split
mask_ip_text s = octets (split b'.' s)

initial : Text → Text
unfolding to_upper
initial [] = codes "***"
initial (c ∷ s) = to_upper c ∷ codes "***"

unfoldable pub mask_name_text : Text → Text
unfolding initial strip
mask_name_text s = initial (strip s)

-- hashlib, and how Python prints what is no text.
pub record Hashing : Type 0 where
  pub sha256_hex : Text → Text
  pub md5_hex : Text → Text

-- column -> function, as a table's rules are configured.
abbrev pub Rules : Type 0
Rules = Dict Text Fn

-- `rules = self._rules.get(table, {})`
abbrev pub rules_of : Text → Dict Text Rules → Rules
rules_of table engine = elim (lookup table engine) [ none ↦ [] | some rules ↦ rules ]

module _ (py : Printing) (hash : Hashing) where
  -- The chain of `if fn == ...`, on a value that is not None and its `str`.
  unfoldable pub apply_some : Fn → Value → Text → Value
  apply_some redact v s = Value.text (codes "[REDACTED]")
  apply_some hash_sha256 v s = Value.text (hash.sha256_hex s)
  apply_some hash_md5 v s = Value.text (hash.md5_hex s)
  apply_some mask v s = Value.text (codes "***")
  apply_some nullify v s = Value.null
  apply_some tokenize v s = Value.text (codes "tok_" ++ take 16 (hash.sha256_hex s))
  apply_some mask_email v s = Value.text (mask_email_text s)
  apply_some mask_phone v s = Value.text (mask_phone_text s)
  apply_some mask_ssn v s = Value.text (mask_ssn_text s)
  apply_some mask_card v s = Value.text (mask_card_text s)
  apply_some mask_ip v s = Value.text (mask_ip_text s)
  apply_some mask_name v s = Value.text (mask_name_text s)
  apply_some (other name) v s = v

  unfoldable pub apply_fn : Fn → Value → Value
  unfolding apply_some str
  apply_fn fn Value.null = Value.null
  apply_fn fn v = apply_some fn v (str py v)

  unfoldable pub mask_columns : Rules → Row → Row
  unfolding apply_fn
  mask_columns [] out = out
  mask_columns ((col, fn) ∷ rules) out = elim (lookup col out) [
    | none ↦ mask_columns rules out
    | some v ↦ mask_columns rules (insert col (apply_fn fn v) out)
  ]

  unfoldable pub mask_row : Option Row → Rules → Option Row
  unfolding mask_columns
  mask_row none rules = none
  mask_row (some row) rules = some (mask_columns rules row)

  -- `MaskingEngine.apply`, past the look-up of the rules.
  unfoldable pub mask_event : Rules → ChangeEvent → ChangeEvent
  unfolding mask_row
  mask_event [] event = event
  mask_event (r ∷ rules) event = record event {
    before = mask_row event.before (r ∷ rules);
    after = mask_row event.after (r ∷ rules);
  }

  unfoldable pub apply : Dict Text Rules → Text → ChangeEvent → ChangeEvent
  unfolding mask_event
  apply engine table event = mask_event (rules_of table engine) event

  unfoldable pub apply_batch : Dict Text Rules → Text → List ChangeEvent → List ChangeEvent
  unfolding apply
  apply_batch engine table batch = elim (rules_of table engine) [
    | [] ↦ batch
    | _ ∷ _ ↦ map (apply engine table) batch
  ]
