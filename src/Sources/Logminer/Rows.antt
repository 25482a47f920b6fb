-- ===== src/Sources/Logminer/Rows.antt =====
-- sources/oracle.py: statements of LogMiner as rows, and the events of a poll.
use dremio_cdc.Prelude.{
  ℕ, ◌+◌, ◌-◌, Bool, ◌&&◌, ◌||◌, Option, none, some, List, [], ◌∷◌, ◌++◌, map, Text, text_eq,
  nat_eq, length, take, drop, ◌==◌, ltb, ◌=ℕ◌, if◌then◌else◌,
}
use dremio_cdc.Prelude.Dict.{insert, lookup}
use dremio_cdc.Prelude.Chars.{
  codes, upper, lower, strip, strip_left, strip_right, split, is_space, to_decimal,
}
use dremio_cdc.Event.{Value, Row, Operation, ColumnSchema, ChangeEvent}
use dremio_cdc.Outcome.{Outcome, ok, raised}
use dremio_cdc.Sources.Logminer.{op_map, csv_split, find_kw, Floats, parse_val}

infixl 20 ◌>>=◌
abbrev pub ◌>>=◌ {ℓ κ} : {A : Type ℓ} {B : Type κ} → Option A → (A → Option B) → Option B
none >>= f = none
some a >>= f = f a

-- `s.strip(chars)` and `s.rstrip(chars)`
abbrev pub strip_start : (ℕ → Bool) → Text → Text
strip_start among [] = []
strip_start among (c ∷ s) = let rest = strip_start among s in if among c then rest else c ∷ s

abbrev pub strip_end : (ℕ → Bool) → Text → Text
strip_end among [] = []
strip_end among (c ∷ s) = elim (strip_end among s) [
  | [] ↦ if among c then [] else c ∷ []
  | d ∷ r ↦ c ∷ d ∷ r
]

abbrev pub is_double_quote : ℕ → Bool
is_double_quote c = c =ℕ b'"'

abbrev pub is_paren : ℕ → Bool
is_paren c = c =ℕ b'(' || c =ℕ b')'

abbrev pub column_name : Text → Text
column_name s = strip_end is_double_quote (strip_start is_double_quote (strip s))

unfoldable pub parse_col_list : Text → List Text
parse_col_list s =
    map column_name (split b',' (strip_end is_paren (strip_start is_paren (strip s))))

-- The pattern of `_parse_insert`, piece by piece; none of them has a second way to match.
abbrev pub before_char : ℕ → Option (Text × Text) → Option (Text × Text)
before_char c none = none
before_char c (some (s, rest)) = some (c ∷ s, rest)

unfoldable pub until : ℕ → Text → Option (Text × Text)
until stop [] = none
until stop (c ∷ s) =
    let later = until stop s in if c =ℕ stop then some ([], s) else before_char c later

unfoldable pub word : Text → Text → Option Text
word w s = if lower (take (length w) s) == w then some (drop (length w) s) else none

unfoldable pub spaces : Text → Option Text
unfolding is_space
spaces [] = none
spaces (c ∷ s) = if is_space c then some (strip_left s) else none

abbrev not_empty : Text × Text → Option (Text × Text)
not_empty ([], rest) = none
not_empty (c ∷ s, rest) = some (c ∷ s, rest)

-- A text between a character and the next one of another; it is not empty.
unfoldable pub between : ℕ → ℕ → Text → Option (Text × Text)
unfolding word until
between first stop s = do rest ← word (first ∷ []) s; p ← until stop rest; not_empty p

abbrev pub cons_some : ℕ → Option Text → Option Text
cons_some c none = none
cons_some c (some s) = some (c ∷ s)

unfoldable pub drop_last : ℕ → Text → Option Text
drop_last x [] = none
drop_last x (c ∷ []) = if c =ℕ x then some [] else none
drop_last x (c ∷ d ∷ s) = cons_some c (drop_last x (d ∷ s))

abbrev pub or_same : Text → Option Text → Text
or_same s none = s
or_same s (some t) = t

-- `(.*)\)\s*;?\s*$`
unfoldable pub up_to_end : Text → Option Text
unfolding drop_last
up_to_end s =
    let s' = strip_right s in drop_last b')' (strip_right (or_same s' (drop_last b';' s')))

unfoldable pub match_insert : Text → Option (Text × Text)
unfolding word spaces between up_to_end
match_insert sql = do
  s1 ← word (codes "insert") sql
  s2 ← spaces s1
  s3 ← word (codes "into") s2
  s4 ← spaces s3
  owner ← between b'"' b'"' s4
  s5 ← word (codes ".") owner.1
  table ← between b'"' b'"' s5
  columns ← between b'(' b')' (strip_left table.1)
  s6 ← spaces columns.1
  s7 ← word (codes "values") s6
  s8 ← word (codes "(") (strip_left s7)
  values ← up_to_end s8
  some (columns.0, values)

-- `dict(zip(cols, vals))`
abbrev pub zip_into : List Text → List Value → Row → Row
zip_into (k ∷ ks) (v ∷ vs) row = zip_into ks vs (insert k v row)
zip_into ks vs row = row

-- `_find_kw(sql, ' SET ')` to `_find_kw(sql, ' WHERE ')`, if the latter comes behind the former.
abbrev end_of : Text → ℕ → Option ℕ → ℕ
end_of sql set_pos none = length sql
end_of sql set_pos (some where_pos) = if ltb set_pos where_pos then where_pos else length sql

abbrev is_semicolon : ℕ → Bool
is_semicolon c = c =ℕ b';'

abbrev set_part : Text → ℕ → Text
set_part sql set_pos =
    let size = end_of sql set_pos (find_kw sql (codes " WHERE ")) - (set_pos + 5) in
    strip_end is_semicolon (strip (take size (drop (set_pos + 5) sql)))

module _ (floats : Floats) where
  abbrev pub insert_row : Option (Text × Text) → Row
  insert_row none = []
  insert_row (some (columns, values)) =
      zip_into (parse_col_list (b'(' ∷ (columns ++ (b')' ∷ []))))
        (map (parse_val floats) (csv_split values)) []

  unfoldable pub parse_insert : Text → Row
  unfolding match_insert parse_col_list
  parse_insert sql = insert_row (match_insert (strip sql))

  abbrev set_column : Option (Text × Text) → Row → Row
  set_column none row = row
  set_column (some (left, right)) row =
      let col = column_name left in
      if upper col == codes "ROWID" then row else insert col (parse_val floats (strip right)) row

  abbrev set_columns : List Text → Row → Row
  set_columns [] row = row
  set_columns (item ∷ items) row = set_columns items (set_column (until b'=' item) row)

  abbrev set_row : Text → Option ℕ → Row
  set_row sql none = []
  set_row sql (some set_pos) = set_columns (csv_split (set_part sql set_pos)) []

  unfoldable pub parse_set : Text → Row
  unfolding until find_kw
  parse_set sql = set_row sql (find_kw sql (codes " SET "))

  abbrev text_or_empty : Option Text → Text
  text_or_empty none = []
  text_or_empty (some t) = t

  abbrev row_or_none : Row → Option Row
  row_or_none [] = none
  row_or_none (p ∷ row) = some (p ∷ row)

  -- The new row and the old one. The old row of a deletion is in the statement that undoes it.
  unfoldable pub parse_logminer_row :
      Operation → Option Text → Option Text → Option Row × Option Row
  unfolding parse_insert parse_set
  parse_logminer_row Operation.insert redo undo = (some (parse_insert (text_or_empty redo)), none)
  parse_logminer_row Operation.delete redo undo = (none, some (parse_insert (text_or_empty undo)))
  parse_logminer_row Operation.update redo undo =
      (row_or_none (parse_set (text_or_empty redo)), row_or_none (parse_set (text_or_empty undo)))
  parse_logminer_row Operation.snapshot redo undo = (none, none)

  -- A row of V$LOGMNR_CONTENTS, with the reading of the clock at its event.
  pub record Mined : Type 0 where
    pub scn : ℕ
    pub op_code : ℕ
    pub sql_redo : Option Text
    pub sql_undo : Option Text
    pub now : ℕ

  module _ (source_name table : Text) (schema : List ColumnSchema) where
    abbrev pub event : Operation → Mined → ChangeEvent
    event op m =
        let rows = parse_logminer_row op m.sql_redo m.sql_undo in
        record {
          op = op;
          source_name = source_name;
          source_table = table;
          before = rows.1;
          after = rows.0;
          schema = schema;
          timestamp = some m.now;
          offset = Value.text (to_decimal m.scn);
          tx_id = none;
        }

    abbrev pub cons_event : Option Operation → Mined → List ChangeEvent → List ChangeEvent
    cons_event none m later = later
    cons_event (some op) m later = event op m ∷ later

    unfoldable pub events_of : List Mined → List ChangeEvent
    unfolding parse_logminer_row
    events_of [] = []
    events_of (m ∷ ms) = cons_event (lookup m.op_code op_map) m (events_of ms)

    abbrev pub mined : ℕ → ℕ → Outcome (List Mined) → List ChangeEvent × ℕ
    mined current max_scn (raised message) = ([], current)
    mined current max_scn (ok rows) = (events_of rows, max_scn)

    -- One turn of the loop from a place in the log: the events, and the place for the next turn.
    -- `mine` is the query for the rows from one SCN to another.
    unfoldable pub poll : (ℕ → ℕ → Outcome (List Mined)) → ℕ → ℕ → List ChangeEvent × ℕ
    unfolding events_of
    poll mine current max_scn =
        if ltb 0 current && ltb current max_scn
        then mined current max_scn (mine current max_scn)
        else ([], current)

    -- The turns of the loop, each with the SCN of the database then and the query.
    unfoldable pub polls : List (ℕ × (ℕ → ℕ → Outcome (List Mined))) → ℕ → List ChangeEvent × ℕ
    unfolding poll
    polls [] current = ([], current)
    polls ((max_scn, mine) ∷ turns) current =
        let (events, current') = poll mine current max_scn in
        let (later, last) = polls turns current' in (events ++ later, last)
