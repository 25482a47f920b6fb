-- ===== src/Sources/Logminer.antt =====
-- sources/oracle.py: the SQL_REDO and SQL_UNDO of LogMiner become rows. Letters, digits and white
-- space are those of ASCII.
pub mod Rows
pub mod Statement
pub mod Columns
pub mod Insert
pub mod Polls
pub mod Values
mod Tests
use dremio_cdc.Prelude.{
  ℕ, zero, suc, ◌+◌, ◌-◌, Bool, true, false, not, ◌&&◌, ◌||◌, Option, none, some, List, [], ◌∷◌,
  ◌++◌, map, Text, text_eq, length, take, drop, ◌==◌, ltb, leb, ◌=ℕ◌, if◌then◌else◌,
}
use dremio_cdc.Prelude.Int.{ℤ}
use dremio_cdc.Prelude.Dict.{Dict, insert, lookup}
use dremio_cdc.Prelude.Chars.{
  codes, upper, strip, strip_left, strip_right, strip_prefix, ends_with, split, split_at_most,
  is_space, is_digit, to_lower,
}
use dremio_cdc.Event.{Value, Row, Operation}
use dremio_cdc.Sources.Datastream.Offset.{parse_int}

-- `_OP_MAP`
abbrev pub op_map : Dict ℕ Operation
op_map = (1, Operation.insert) ∷ (2, Operation.delete) ∷ (3, Operation.update) ∷ []

-- `_split`: the schema and the table; HR stands for a schema that is left out.
abbrev schema_and_table : List Text → Text × Text
schema_and_table [] = (codes "HR", [])
schema_and_table (t ∷ []) = (codes "HR", t)
schema_and_table (s ∷ t ∷ ts) = (s, t)

unfoldable pub split_table : Text → Text × Text
unfolding split_at_most
split_table table = schema_and_table (split_at_most b'.' 1 (upper table))

abbrev pub quote : ℕ
quote = 39

-- What is in the buffer at the end is a token, unless it is empty.
abbrev pub last_token : Text → List Text
last_token [] = []
last_token (c ∷ buf) = strip (c ∷ buf) ∷ []

-- `_csv_split`, in a text and out of one. Two quotes in a text stand for one, and do not end it.
unfoldable pub csv_from : Bool → Text → Text → List Text
csv_from quoted buf [] = last_token buf
csv_from false buf (c ∷ s) = elim (c =ℕ quote) [
  | true ↦ csv_from true (buf ++ (c ∷ [])) s
  | false ↦ elim (c =ℕ b',') [
    | true ↦ strip buf ∷ csv_from false [] s
    | false ↦ csv_from false (buf ++ (c ∷ [])) s
  ]
]
csv_from true buf (c ∷ []) = last_token (buf ++ (c ∷ []))
csv_from true buf (c ∷ d ∷ s) = elim (c =ℕ quote) [
  | true ↦ elim (d =ℕ quote) [
    | true ↦ csv_from true (buf ++ (c ∷ d ∷ [])) s
    | false ↦ csv_from false (buf ++ (c ∷ [])) (d ∷ s)
  ]
  | false ↦ csv_from true (buf ++ (c ∷ [])) (d ∷ s)
]

unfoldable pub csv_split : Text → List Text
unfolding csv_from
csv_split s = csv_from false [] s

-- `c.isalnum() or c == "_"`
abbrev pub is_word : ℕ → Bool
is_word c = is_digit c || (leb b'A' c && leb c b'Z') || (leb b'a' c && leb c b'z') || c =ℕ b'_'

abbrev pub is_word_at : Option ℕ → Bool
is_word_at none = false
is_word_at (some c) = is_word c

abbrev first : Text → Option ℕ
first [] = none
first (c ∷ s) = some c

-- `_find_kw`: where a keyword stands between characters that are no part of a word, outside of the
-- quoted texts. `prev` is the character before the place; -1 is `none`.
abbrev found : Text → Option ℕ → Text → Bool
found kw prev s =
    upper (take (length kw) s) == upper kw
    && not (is_word_at prev)
    && not (is_word_at (first (drop (length kw) s)))

unfoldable pub find_from : Text → Bool → Option ℕ → ℕ → Text → Option ℕ
unfolding is_digit
find_from kw quoted prev i [] = none
find_from kw false prev i (c ∷ s) = elim (ltb (length (c ∷ s)) (length kw)) [
  | true ↦ none
  | false ↦ elim (c =ℕ quote) [
    | true ↦ find_from kw true (some c) (suc i) s
    | false ↦ elim (found kw prev (c ∷ s)) [
      | true ↦ some i
      | false ↦ find_from kw false (some c) (suc i) s
    ]
  ]
]
find_from kw true prev i (c ∷ []) = none
find_from kw true prev i (c ∷ d ∷ s) = elim (c =ℕ quote) [
  | true ↦ elim (d =ℕ quote) [
    | true ↦ find_from kw true (some d) (i + 2) s
    | false ↦ find_from kw false (some c) (suc i) (d ∷ s)
  ]
  | false ↦ find_from kw true (some c) (suc i) (d ∷ s)
]

unfoldable pub find_kw : Text → Text → Option ℕ
unfolding find_from
find_kw sql kw = find_from kw false none 0 sql

-- `s.replace("''", "'")`
unfoldable pub undouble : Text → Text
undouble [] = []
undouble (c ∷ []) = c ∷ []
undouble (c ∷ d ∷ s) = elim (c =ℕ quote && d =ℕ quote) [
  | true ↦ quote ∷ undouble s
  | false ↦ c ∷ undouble (d ∷ s)
]

-- `s[:-1]`
unfoldable pub but_last : Text → Text
but_last [] = []
but_last (c ∷ []) = []
but_last (c ∷ d ∷ s) = c ∷ but_last (d ∷ s)

-- `float(s)`; `none` is the ValueError.
pub record Floats : Type 0 where
  pub parse_float : Text → Option Text

abbrev starts_with : Text → Text → Bool
starts_with p s = elim (strip_prefix p s) [ none ↦ false | some r ↦ true ]

module _ (floats : Floats) where
  abbrev pub float_or_text : Text → Option Text → Value
  float_or_text s none = Value.text s
  float_or_text s (some f) = Value.float f

  abbrev pub int_or_other : Text → Option ℤ → Value
  int_or_other s (some n) = Value.int n
  int_or_other s none = float_or_text s (floats.parse_float s)

  -- `_parse_val`, of a text without white space around it.
  abbrev pub unquoted : Text → Value
  unquoted s =
      if s == [] || upper s == codes "NULL"
      then Value.null
      else if starts_with (quote ∷ []) s && ends_with (quote ∷ []) s
      then Value.text (undouble (but_last (drop 1 s)))
      else if starts_with (codes "HEXTORAW(") (upper s)
      then Value.text s
      else int_or_other s (parse_int s)

  unfoldable pub parse_val : Text → Value
  unfolding undouble but_last
  parse_val s = unquoted (strip s)
