-- ===== src/Offsets/Tests.antt =====
-- The theorems about core/offset_store.py at concrete tables.
use dremio_cdc.Prelude.{◌≡◌, refl, some, List, [], ◌∷◌, Pair-discrete}
use dremio_cdc.Prelude.Chars.{codes}
use dremio_cdc.Event.{Value}
use dremio_cdc.Samples.{toy_json, toy_dumps, toy_loads}
use dremio_cdc.Offsets.{Key, Backend, get_offset_store}
use dremio_cdc.Offsets.Sqlite
use dremio_cdc.Offsets.Postgres
use dremio_cdc.Offsets.Agree.{backends_agree}

abbrev people : Key
people = (codes "pg", codes "people")

abbrev orders : Key
orders = (codes "pg", codes "orders")

abbrev position : Value
position = Value.text (codes "0/16B")

-- A position, a reset to None, and another table.
abbrev writes : List (Key × Value)
writes = (people, position) ∷ (orders, position) ∷ (people, Value.null) ∷ []

sqlite_keeps_the_row : Sqlite.all toy_json ((people, b'n' ∷ []) ∷ []) ≡ (people, Value.null) ∷ []
unfolding Sqlite.all toy_dumps toy_loads
sqlite_keeps_the_row = refl

backend_of_dsn : get_offset_store (codes "postgres://db/cdc") ≡ Backend.postgres
unfolding get_offset_store
backend_of_dsn = refl

backends_agree_example :
    (Sqlite.get toy_json orders ((people, b'n' ∷ []) ∷ (orders, b't' ∷ codes "0/16B") ∷ [])
      ≡ position)
    × (Postgres.get toy_json orders ((orders, some (b't' ∷ codes "0/16B")) ∷ []) ≡ position)
unfolding Sqlite.set Postgres.set Pair-discrete toy_dumps toy_loads
backends_agree_example =
    backends_agree toy_json writes orders
      ((people, b'n' ∷ []) ∷ (orders, b't' ∷ codes "0/16B") ∷ [])
      ((orders, some (b't' ∷ codes "0/16B")) ∷ []) refl refl

sqlite_get-set_example : Sqlite.get toy_json people ((people, b't' ∷ codes "0/16B") ∷ []) ≡ position
unfolding Sqlite.set Pair-discrete toy_dumps toy_loads
sqlite_get-set_example =
    Sqlite.sqlite_get-set toy_json people people position [] ((people, b't' ∷ codes "0/16B") ∷ [])
      refl

postgres_get-set_example :
    Postgres.get toy_json people ((people, some (b't' ∷ codes "0/16B")) ∷ []) ≡ position
unfolding Postgres.set Pair-discrete toy_dumps toy_loads
postgres_get-set_example =
    Postgres.postgres_get-set toy_json people people position []
      ((people, some (b't' ∷ codes "0/16B")) ∷ []) refl
