-- ===== src/Offsets/Agree.antt =====
-- What an offset store promises, whatever its backend: the last write to a key is what is read.
use dremio_cdc.Prelude.{
  ◌≡◌, Option, none, some, List, [], ◌∷◌, arith, ◌==◌, pair_eq, if◌then◌else◌, Option-cases, inl,
  inr,
}
use dremio_cdc.Event.{Value}
use dremio_cdc.Offsets.{Json, Key, OffsetApi}
use dremio_cdc.Offsets.Sqlite
use dremio_cdc.Offsets.Postgres
use dremio_cdc.Offsets.Sqlite.{sqlite_store}
use dremio_cdc.Offsets.Postgres.{postgres_store}

-- The abstract store: the value of a key after a sequence of writes.
abbrev pub last_write : Key → List (Key × Value) → Value → Value
last_write j [] v = v
last_write j ((k, w) ∷ writes) v = last_write j writes (if k == j then w else v)

module _ (api : OffsetApi) where
  open api use {Store, get, set, get-set}

  -- A sequence of writes; `none` if one of them raises.
  abbrev pub set_all : List (Key × Value) → Store → Option Store
  set_all [] s = some s
  set_all ((k, v) ∷ writes) s = elim (set k v s) [ none ↦ none | some t ↦ set_all writes t ]

  pub get-set_all :
      (j : Key) (writes : List (Key × Value)) (s t : Store)
      → set_all writes s ≡ some t
      → get j t ≡ last_write j writes (get j s)
  get-set_all j [] s t h = cc
  get-set_all j ((k, v) ∷ writes) s t h = elim (Option-cases (set k v s)) [
    | inl e ↦ ground arith
    | inr (u, e) ↦ ground (arith, get-set_all j writes u t, get-set k j v s u e)
  ]

-- The two backends are interchangeable: after the same writes, from empty tables, they read the
-- same value at every key, the last one written or None.
pub backends_agree :
    (json : Json) (writes : List (Key × Value)) (j : Key) (s : Sqlite.Table) (p : Postgres.Table)
    → set_all (sqlite_store json) writes [] ≡ some s
    → set_all (postgres_store json) writes [] ≡ some p
    → (Sqlite.get json j s ≡ last_write j writes Value.null)
      × (Postgres.get json j p ≡ last_write j writes Value.null)
unfolding Sqlite.get Postgres.get
backends_agree json writes j s p hs hp = (
  get-set_all (sqlite_store json) j writes [] s hs,
  get-set_all (postgres_store json) j writes [] p hp,
)
