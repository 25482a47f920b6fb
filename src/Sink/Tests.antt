-- ===== src/Sink/Tests.antt =====
-- The theorems about core/dremio_sink.py at concrete events.
use dremio_cdc.Prelude.{
  ℕ, inl, inr, ◌≡◌, ◌≢◌, refl, Text-discrete, false, none, some, List, [], ◌∷◌, ◌++◌, Text,
}
use dremio_cdc.Prelude.Chars.{codes}
use dremio_cdc.Prelude.Int.{ℤ, pos}
use dremio_cdc.Prelude.Dict.{lookup, erase}
use dremio_cdc.Event.{Value, ChangeEvent, values_eq, primary_keys}
use dremio_cdc.Outcome.{Outcome, ok}
use dremio_cdc.Samples.{plain, inserted, deleted}
use dremio_cdc.Sink.Sql.{escape, target_path}
use dremio_cdc.Sink.Server.{Server, unauthorized, completed, execute, unauthorized-execute}
use dremio_cdc.Sink.Literal.{read_literal, read_literal-escape}
use dremio_cdc.Sink.Dremio.{Statement, Sink, dedupe, write_table}
use dremio_cdc.Sink.Order.{Target, key_before, merged, in_order, lookup-merged-dedupe}
use dremio_cdc.Sink.Table.{Obeys, reinserted_row_is_lost}

abbrev no_strftime : ℕ → Text
no_strftime t = []

read_literal-escape_example :
    read_literal (escape plain no_strftime (Value.text (codes "O'Hara")) ++ codes ", 1")
    ≡ some (codes "O'Hara", codes ", 1")
read_literal-escape_example =
    read_literal-escape plain no_strftime (codes "O'Hara") (codes ", 1") refl

-- A server that knows no token.
abbrev closed : Server
closed = record {
  State = Unit;
  has_token = λ s. false;
  connect = λ s. s;
  post = λ sql s. (unauthorized, s);
  status = λ job s. (completed, s);
}

unauthorized-execute_example : (execute closed 120 (codes "SELECT 1") tt).0 ≡ ok tt
unauthorized-execute_example = unauthorized-execute closed 120 (codes "SELECT 1") tt (λ s. refl)

abbrev pk : List Text
pk = codes "id" ∷ []

-- A row is written twice and deleted, and another one is written.
abbrev changes : List ChangeEvent
changes =
    inserted 1 (codes "1") 1
    ∷ inserted 1 (codes "2") 2
    ∷ deleted 1 3
    ∷ inserted 2 (codes "3") 4
    ∷ []

abbrev one : List Value
one = Value.int (pos 1) ∷ []

lookup-merged-dedupe_example :
    lookup one (merged pk (dedupe pk changes) []) ≡ lookup one (merged pk changes [])
lookup-merged-dedupe_example = lookup-merged-dedupe pk one changes []

-- A server whose state is the table, which does what each statement says.
abbrev run : Statement → Target → Outcome (Unit {0}) × Target
run (Statement.create_table path cols) t = (ok tt, t)
run (Statement.add_column path col) t = (ok tt, t)
run (Statement.merge_rows path schema pks events) t = (ok tt, merged pks events t)
run (Statement.insert_row path schema ev) t = (ok tt, t)
run (Statement.delete_row path pks ev) t = (ok tt, erase (key_before pks ev) t)

run-Obeys : Obeys Target run (λ t. t) (target_path (codes "cdc") (codes "people")) pk
run-Obeys = record {
  creates = λ cols s. (refl, refl);
  alters = λ col s. (refl, refl);
  merges = λ schema events once whole s. (refl, refl);
  deletes = λ ev whole s. (refl, refl);
}

abbrev empty : Sink Target run (codes "cdc")
empty = record { known = []; state = [] }

int-ne-null : (n : ℤ) → Value.int n ≢ Value.null
int-ne-null n e = cc

-- A row is written, deleted and written again.
abbrev front : List ChangeEvent
front = inserted 1 (codes "1") 1 ∷ deleted 1 3 ∷ []

reinserted_row_is_lost_example :
    let r =
      write_table Target run
        (codes "cdc")
        (codes "people")
        (front ++ (inserted 1 (codes "4") 5 ∷ []))
        empty in
    (r.0 ≡ ok tt)
    × (lookup one r.1.state ≡ none)
    × (lookup one (in_order pk (front ++ (inserted 1 (codes "4") 5 ∷ [])) [])
        ≡ some (inserted 1 (codes "4") 5))
unfolding Text-discrete primary_keys
reinserted_row_is_lost_example =
    reinserted_row_is_lost Target run (λ t. t) (codes "cdc") (codes "people") (codes "id") []
      run-Obeys front (deleted 1 3) (inserted 1 (codes "4") 5) empty refl
      ((int-ne-null _, tt), ((int-ne-null _, tt), tt)) (((int-ne-null _, tt), refl), tt)
      (inr (inl refl)) refl refl refl
