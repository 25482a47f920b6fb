-- ===== src/Offsets/Postgres.antt =====
-- `PostgresOffsetStore`: the value column may be NULL, and None deletes the row.
use dremio_cdc.Prelude.{
  ◌≡◌, refl, Option, none, some, [], ◌∷◌, map, Text, ◌==◌, pair_eq, if◌then◌else◌, arith,
}
use dremio_cdc.Prelude.Dict.{Dict, lookup, insert, erase, lookup-insert, lookup-erase}
use dremio_cdc.Event.{Value}
use dremio_cdc.Offsets.{Json, Key, OffsetApi}

abbrev pub Table : Type 0
Table = Dict Key (Option Text)

module _ (json : Json) where
  -- `json.loads(v) if v else None`: NULL and the empty text are falsy.
  abbrev pub load : Option Text → Value
  load none = Value.null
  load (some []) = Value.null
  load (some (c ∷ t)) = json.loads (c ∷ t)

  unfoldable pub get : Key → Table → Value
  get k s = elim (lookup k s) [ none ↦ Value.null | some row ↦ load row ]

  abbrev store_value : Key → Option Text → Table → Option Table
  store_value k none s = none
  store_value k (some t) s = some (insert k (some t) s)

  unfoldable pub set : Key → Value → Table → Option Table
  set k Value.null s = some (erase k s)
  set k v s = store_value k (json.dumps v) s

  unfoldable pub all : Table → Dict Key Value
  all = map (λ r. (r.0, load r.1))

  stored-get :
      (k j : Key) (v : Value) (s t : Table) (o : Option Text)
      → json.dumps v ≡ o
      → store_value k o s ≡ some t
      → get j t ≡ (if k == j then v else get j s)
  unfolding get
  stored-get k j v s t none e h = cc
  stored-get k j v s t (some []) e h = absurd (json.dumps-ne-empty v e)
  stored-get k j v s t (some (c ∷ x)) e h =
      ground (arith, json.loads-dumps v (c ∷ x) e, lookup-insert k j (some (c ∷ x)) s)

  pub postgres_get-set :
      (k j : Key) (v : Value) (s t : Table)
      → set k v s ≡ some t
      → get j t ≡ (if k == j then v else get j s)
  unfolding set get
  postgres_get-set k j Value.null s t h = ground (arith, lookup-erase k j s)
  postgres_get-set k j v s t h = stored-get k j v s t (json.dumps v) refl h

  -- The PostgreSQL store fills the interface.
  abbrev pub postgres_store : OffsetApi
  postgres_store = record { Store = Table; get = get; set = set; get-set = postgres_get-set }
