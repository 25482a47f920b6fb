-- ===== src/Event.antt =====
-- core/event.py: the change event, and the values of a row.
use dremio_cdc.Prelude.{
  ℕ, zero, suc, [], ◌∷◌, ◌=ℕ◌, ◌||◌, ◌&&◌, not, ◌≡◌, ◌≢◌, Bool, true, false, Option, List, map,
  Text, Eq, discrete_eq, keep, if◌then◌else◌,
}
use native.Mathlib.Decide.{ℕ_discrete}
use dremio_cdc.Prelude.Dict.{Dict}
use dremio_cdc.Prelude.Int.{ℤ, pos, negsuc}
use dremio_cdc.Prelude.Chars.{codes, to_decimal, replace}

-- A Python value in a row, an offset or a JSON document. `list` stands for tuples too. A float and
-- a `Decimal` are carried by what `str` prints of them, a datetime by its microseconds since the
-- epoch, a date by its days.
mutual
  pub data Value : Type 0 where
    null : Value
    bool : Bool → Value
    int : ℤ → Value
    float : Text → Value
    decimal : Text → Value
    text : Text → Value
    bytes : List ℕ → Value
    datetime : ℕ → Value
    date : ℕ → Value
    list : Items → Value
    dict : Fields → Value

  pub data Items : Type 0 where
    nil : Items
    cons : Value → Items → Items

  pub data Fields : Type 0 where
    end : Fields
    field : Text → Value → Fields → Fields

unfoldable pub Values-discrete : Discrete (List Value)
unfolding ℕ_discrete
Values-discrete = hlevel ℕ_discrete

-- Keys are compared as values of their columns' types.
instance abbrev pub values_eq : Eq (List Value)
values_eq = discrete_eq Values-discrete

abbrev pub Row : Type 0
Row = Dict Text Value

-- `v is None`
abbrev pub is_none : Value → Bool
is_none null = true
is_none _ = false

-- What a number prints before its exponent has no digit but 0.
abbrev zero_digits : Text → Bool
zero_digits [] = true
zero_digits (c ∷ t) =
    let rest = zero_digits t in
    if c =ℕ b'e' || c =ℕ b'E' then true else (c =ℕ b'0' || c =ℕ b'.' || c =ℕ b'-') && rest

-- `bool(v)`
unfoldable pub truthy : Value → Bool
truthy null = false
truthy (bool b) = b
truthy (int (pos zero)) = false
truthy (int (pos (suc n))) = true
truthy (int (negsuc n)) = true
truthy (float t) = not (zero_digits t)
truthy (decimal t) = not (zero_digits t)
truthy (text []) = false
truthy (text (c ∷ t)) = true
truthy (bytes []) = false
truthy (bytes (b ∷ bs)) = true
truthy (datetime t) = true
truthy (date d) = true
truthy (list nil) = false
truthy (list (cons x xs)) = true
truthy (dict end) = false
truthy (dict (field k v fs)) = true

pub data Operation : Type 0 where
  insert update delete snapshot : Operation

unfoldable pub Operation-discrete : Discrete Operation
Operation-discrete = hlevel

instance abbrev pub operation_eq : Eq Operation
operation_eq = discrete_eq Operation-discrete

pub record ColumnSchema : Type 0 where
  pub name : Text
  pub data_type : Text
  pub nullable : Bool
  pub primary_key : Bool

pub record ChangeEvent : Type 0 where
  pub op : Operation
  pub source_name : Text
  pub source_table : Text
  pub before : Option Row
  pub after : Option Row
  pub schema : List ColumnSchema
  pub timestamp : Option ℕ
  pub offset : Value
  pub tx_id : Option Text

unfoldable pub primary_keys : ChangeEvent → List Text
primary_keys ev = map (λ c. c.name) (keep (λ c. c.primary_key) ev.schema)

-- `ev.op != Operation.DELETE`
abbrev pub is_upsert : ChangeEvent → Bool
is_upsert ev = elim ev.op [ Operation.delete ↦ false | _ ↦ true ]

-- `ChangeEvent.row`
unfoldable pub row : ChangeEvent → Option Row
row ev = if is_upsert ev then ev.after else ev.before

-- What the program takes of Python's library and does not implement: how values print, and the
-- calendar. `fromisoformat` reads back what `isoformat` writes.
pub record Printing : Type 0 where
  pub isoformat : ℕ → Text
  pub fromisoformat : Text → ℕ
  pub date_isoformat : ℕ → Text
  pub float_of_decimal : Text → Text
  pub repr : Value → Text
  pub fromisoformat-isoformat : (t : ℕ) → fromisoformat (isoformat t) ≡ t
  pub isoformat-ne-empty : (t : ℕ) → isoformat t ≢ []

module _ (py : Printing) where
  -- `str(value)`
  unfoldable pub str : Value → Text
  unfolding to_decimal
  str Value.null = codes "None"
  str (Value.bool true) = codes "True"
  str (Value.bool false) = codes "False"
  str (Value.int (pos n)) = to_decimal n
  str (Value.int (negsuc n)) = b'-' ∷ to_decimal (suc n)
  str (Value.float t) = t
  str (Value.decimal t) = t
  str (Value.text t) = t
  str (Value.datetime t) = replace b'T' (codes " ") (py.isoformat t)
  str (Value.date d) = py.date_isoformat d
  str v = py.repr v
