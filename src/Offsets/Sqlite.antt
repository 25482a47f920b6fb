-- ===== src/Offsets/Sqlite.antt =====
-- `SQLiteOffsetStore`: a table with the primary key (source_name, source_table).
use dremio_cdc.Prelude.{
  ◌≡◌, refl, Option, none, some, map, Text, ◌==◌, pair_eq, if◌then◌else◌, arith,
}
use dremio_cdc.Prelude.Dict.{Dict, lookup, insert, lookup-insert}
use dremio_cdc.Event.{Value}
use dremio_cdc.Offsets.{Json, Key, OffsetApi}

abbrev pub Table : Type 0
Table = Dict Key Text

module _ (json : Json) where
  unfoldable pub get : Key → Table → Value
  get k s = elim (lookup k s) [ none ↦ Value.null | some row ↦ json.loads row ]

  -- INSERT ... ON CONFLICT DO UPDATE, with the JSON of None for None.
  unfoldable pub set : Key → Value → Table → Option Table
  set k offset s = elim (json.dumps offset) [ none ↦ none | some t ↦ some (insert k t s) ]

  unfoldable pub all : Table → Dict Key Value
  all = map (λ r. (r.0, json.loads r.1))

  pub sqlite_get-set :
      (k j : Key) (v : Value) (s t : Table)
      → set k v s ≡ some t
      → get j t ≡ (if k == j then v else get j s)
  unfolding get set
  sqlite_get-set k j v s t h = go (json.dumps v) refl
    where
      go : (o : Option Text) → json.dumps v ≡ o → get j t ≡ (if k == j then v else get j s)
      go none e = cc (e, h)
      go (some x) e = ground (arith, json.loads-dumps v x e, lookup-insert k j x s)

  -- The SQLite store fills the interface.
  abbrev pub sqlite_store : OffsetApi
  sqlite_store = record { Store = Table; get = get; set = set; get-set = sqlite_get-set }
