-- ===== src/Offsets.antt =====
-- core/offset_store.py: the last committed position of each (source, table), behind one interface.
pub mod Sqlite
pub mod Postgres
pub mod Agree
mod Tests
use dremio_cdc.Prelude.{
  ◌≡◌, ◌≢◌, Bool, Option, none, some, [], Text, ◌==◌, pair_eq, if◌then◌else◌, List, ◌∷◌, ℕ, ◌||◌,
  Bool-cases,
}
use dremio_cdc.Prelude.Chars.{codes, strip_prefix}
use dremio_cdc.Event.{Value}

-- json.dumps, which raises on what is no JSON (`none`), and json.loads, which reads it back. JSON is
-- never the empty text.
pub record Json : Type 0 where
  pub dumps : Value → Option Text
  pub loads : Text → Value
  pub loads-dumps : (v : Value) (t : Text) → dumps v ≡ some t → loads t ≡ v
  pub dumps-ne-empty : (v : Value) → dumps v ≢ some []

abbrev pub Key : Type 0
Key = Text × Text

-- What the engine asks of a store. `None` reads as `Value.null`; `set` may raise.
pub record OffsetApi : Type 1 where
  pub Store : Type 0
  pub get : Key → Store → Value
  pub set : Key → Value → Store → Option Store
  pub get-set :
      (k j : Key) (v : Value) (s t : Store)
      → set k v s ≡ some t
      → get j t ≡ (if k == j then v else get j s)

pub data Backend : Type 0 where
  sqlite postgres : Backend

-- `path_or_dsn.startswith(p)`
abbrev starts : Text → Text → Bool
starts p s = is_some (strip_prefix p s)
  where
    is_some : Option Text → Bool
    is_some none = Bool.false
    is_some (some r) = Bool.true

unfoldable pub get_offset_store : Text → Backend
get_offset_store path_or_dsn =
    if starts (codes "postgresql://") path_or_dsn || starts (codes "postgres://") path_or_dsn
    then Backend.postgres
    else Backend.sqlite
