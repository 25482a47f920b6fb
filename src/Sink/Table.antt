-- ===== src/Sink/Table.antt =====
-- What `write_batch` of core/dremio_sink.py does to one table with a primary key, over a server whose
-- statements succeed.
use dremio_cdc.Prelude.{
  ◌≡◌, ◌≢◌, refl, sym, ap, subst, ◌∙◌, true, false, not, none, some, List, [], ◌∷◌, ◌++◌, keep,
  Text, All, text_eq, contains, Bool-cases, inl, inr,
}
use dremio_cdc.Prelude.Dict.{lookup, erase, has_key}
use dremio_cdc.Event.{Value, ColumnSchema, ChangeEvent, values_eq, is_upsert, primary_keys}
use dremio_cdc.Outcome.{Outcome, ok, raised}
use dremio_cdc.Engine.Delivery.{In, In-append_left}
use dremio_cdc.Sink.Sql.{meta_columns, target_path}
use dremio_cdc.Sink.Dremio.{
  Statement, Sink, and_then, side, seed, sql, note, is_nonempty, dedupe, dedupe_into, known_columns,
  merge, ensure_table, add_columns, evolve_schema, write_upserts, write_deletes, write_table,
}
use dremio_cdc.Sink.Order.{
  Target, key_after, key_before, merged, without, in_order, OneEach, dedupe-OneEach, dedupe-All,
}
use dremio_cdc.Sink.Order.Batch.{written, written-deleted, in_order-last}

-- The values of a key, none of them NULL.
abbrev pub Whole : List Value → Type 0
Whole = All (λ v. v ≢ Value.null)

-- An event that MERGE or DELETE finds the row of.
abbrev pub WholeAfter : List Text → ChangeEvent → Type 0
WholeAfter pks ev = Whole (key_after pks ev)

abbrev pub WholeBefore : List Text → ChangeEvent → Type 0
WholeBefore pks ev = Whole (key_before pks ev) × (is_nonempty (side ev.before) ≡ true)

-- Events of one table: the first of them names the key.
abbrev pub NamesKey : List Text → List ChangeEvent → Type 0
NamesKey pks [] = Unit {0}
NamesKey pks (ev ∷ evs) = primary_keys ev ≡ pks

module _ (State : Type 0) (run : Statement → State → Outcome (Unit {0}) × State)
    (view : State → Target) where
  abbrev pub Does : Statement → (Target → Target) → Type 0
  Does statement f =
      (s : State) → ((run statement s).0 ≡ ok tt) × (view (run statement s).1 ≡ f (view s))

  -- What Dremio documents of the statements on one table, and that they succeed. CREATE TABLE IF NOT
  -- EXISTS and ALTER TABLE keep the rows; MERGE, with no key twice and no NULL in a key, inserts or
  -- updates the row of each event; DELETE takes the row of the key away.
  pub record Obeys (path : Text) (pks : List Text) : Type 0 where
    pub creates : (cols : List ColumnSchema) → Does (Statement.create_table path cols) (λ t. t)
    pub alters : (col : ColumnSchema) → Does (Statement.add_column path col) (λ t. t)
    pub merges :
        (schema : List ColumnSchema) (events : List ChangeEvent)
        → OneEach pks events
        → All (WholeAfter pks) events
        → Does (Statement.merge_rows path schema pks events) (merged pks events)
    pub deletes :
        (ev : ChangeEvent)
        → WholeBefore pks ev
        → Does (Statement.delete_row path pks ev) (erase (key_before pks ev))

  module _ (namespace table : Text) where
    abbrev S : Type 0
    S = Sink State run namespace

    -- A call that succeeds and leaves the rows `t`.
    abbrev pub Leaves : Target → Outcome (Unit {0}) × S → Type 0
    Leaves t r = (r.0 ≡ ok tt) × (view r.1.state ≡ t)

    and_then-Leaves :
        (t u : Target) (r : Outcome (Unit {0}) × S) (f : S → Outcome (Unit {0}) × S)
        → Leaves t r
        → ((s : S) → view s.state ≡ t → Leaves u (f s))
        → Leaves u (and_then State run namespace r f)
    and_then-Leaves t u (ok v, s) f h k = k s h.1
    and_then-Leaves t u (raised message, s) f h k = cc

    note-view :
        (name : Text) (known : List Text) (r : Outcome (Unit {0}) × S)
        → view (note State run namespace name known r).1.state ≡ view r.1.state
    note-view name known (ok u, s) = refl
    note-view name known (raised message, s) = refl

    module _ (pk : Text) (more : List Text)
        (o : Obeys (target_path namespace table) (pk ∷ more)) where
      seed-state :
          (cols : List ColumnSchema) (s : S)
          → (seed State run namespace table cols s).state ≡ s.state
      seed-state cols s = elim (Bool-cases (has_key table s.known)) [
        | inl known ↦ rw known
        | inr new ↦ rw new
      ]

      ensure_table-Leaves :
          (schema : List ColumnSchema) (s : S)
          → Leaves (view s.state) (ensure_table State run namespace table schema s)
      unfolding ensure_table
      ensure_table-Leaves schema s =
          let cols = schema ++ meta_columns in
          and_then-Leaves (view s.state) (view s.state) _ _ (o.creates cols s.state)
            (λ s' e. (refl, ap view (seed-state cols s') ∙ e))

      add_columns-view :
          (cols : List ColumnSchema) (known : List Text) (s : S)
          → view (add_columns State run namespace table cols known s).1.state ≡ view s.state
      unfolding add_columns
      add_columns-view [] known s = refl
      add_columns-view (c ∷ cs) known s = elim (Bool-cases (contains c.name known)) [
        | inl there ↦ rw (there, add_columns) (add_columns-view cs known s)
        | inr new ↦
            let added =
              note State run namespace c.name known (
                sql State run namespace (Statement.add_column (target_path namespace table) c) s) in
            rw (new, add_columns)
              (add_columns-view cs added.0 added.1
                ∙ (note-view c.name known (
                      sql State run namespace (Statement.add_column (target_path namespace table) c)
                        s)
                    ∙ (o.alters c s.state).1))
      ]

      evolve_schema-Leaves :
          (schema : List ColumnSchema) (s : S)
          → Leaves (view s.state) (evolve_schema State run namespace table schema s)
      unfolding evolve_schema
      evolve_schema-Leaves schema s =
          (refl, add_columns-view schema (known_columns State run namespace table s) s)

      write_deletes-Leaves :
          (evs : List ChangeEvent) (s : S)
          → All (WholeBefore (pk ∷ more)) evs
          → Leaves
              (without (pk ∷ more) evs (view s.state))
              (write_deletes State run namespace table (pk ∷ more) evs s)
      unfolding write_deletes without
      write_deletes-Leaves [] s h = (refl, refl)
      write_deletes-Leaves (ev ∷ evs) s h = rw (h.0.1) (
          and_then-Leaves (erase (key_before (pk ∷ more) ev) (view s.state)) _ _ _
            (o.deletes ev h.0 s.state)
            (λ s' e.
              let rest = write_deletes-Leaves evs s' h.1 in
              (rest.0, rest.1 ∙ ap (without (pk ∷ more) evs) e)))

      merged-none : (t : Target) → merged (pk ∷ more) (dedupe (pk ∷ more) []) t ≡ t
      unfolding merged dedupe dedupe_into
      merged-none t = refl

      write_upserts-Leaves :
          (schema : List ColumnSchema) (evs : List ChangeEvent) (s : S)
          → All (WholeAfter (pk ∷ more)) evs
          → Leaves
              (merged (pk ∷ more) (dedupe (pk ∷ more) evs) (view s.state))
              (write_upserts State run namespace table schema (pk ∷ more) evs s)
      unfolding write_upserts merge
      write_upserts-Leaves schema [] s h = (refl, sym (merged-none (view s.state)))
      write_upserts-Leaves schema (ev ∷ evs) s h =
          o.merges schema (dedupe (pk ∷ more) (ev ∷ evs)) (dedupe-OneEach (pk ∷ more) (ev ∷ evs))
            (dedupe-All (pk ∷ more) (WholeAfter (pk ∷ more)) (ev ∷ evs) h) s.state

      written-none : (t : Target) → written (pk ∷ more) [] t ≡ t
      unfolding merged without dedupe dedupe_into
      written-none t = refl

      write_rows-Leaves :
          (schema : List ColumnSchema) (evs : List ChangeEvent) (s : S)
          → All (WholeAfter (pk ∷ more)) (keep is_upsert evs)
          → All (WholeBefore (pk ∷ more)) (keep (λ e. not (is_upsert e)) evs)
          → Leaves (written (pk ∷ more) evs (view s.state)) (
              and_then State run namespace
                (write_upserts State run namespace table schema (pk ∷ more) (keep is_upsert evs) s)
                (write_deletes State run namespace table
                  (pk ∷ more)
                  (keep (λ e. not (is_upsert e)) evs)))
      write_rows-Leaves schema evs s up down =
          let deletions = keep (λ e. not (is_upsert e)) evs in
          and_then-Leaves
            (merged (pk ∷ more) (dedupe (pk ∷ more) (keep is_upsert evs)) (view s.state))
            (written (pk ∷ more) evs (view s.state))
            (write_upserts State run namespace table schema (pk ∷ more) (keep is_upsert evs) s)
            (write_deletes State run namespace table (pk ∷ more) deletions)
            (write_upserts-Leaves schema (keep is_upsert evs) s up)
            (λ s' e.
              let r = write_deletes-Leaves deletions s' down in
              (r.0, r.1 ∙ ap (without (pk ∷ more) deletions) e))

      -- What `write_table` leaves of the table.
      pub write_table-Leaves :
          (evs : List ChangeEvent) (s : S)
          → NamesKey (pk ∷ more) evs
          → All (WholeAfter (pk ∷ more)) (keep is_upsert evs)
          → All (WholeBefore (pk ∷ more)) (keep (λ e. not (is_upsert e)) evs)
          → Leaves
              (written (pk ∷ more) evs (view s.state))
              (write_table State run namespace table evs s)
      unfolding write_table
      write_table-Leaves [] s names up down = (refl, sym (written-none (view s.state)))
      write_table-Leaves (ev ∷ evs) s names up down = rw names (
          and_then-Leaves (view s.state) _ (ensure_table State run namespace table ev.schema s) _
            (ensure_table-Leaves ev.schema s)
            (λ s1 e1.
              let evolved = evolve_schema-Leaves ev.schema s1 in
              let rest =
                write_rows-Leaves ev.schema (ev ∷ evs)
                  (evolve_schema State run namespace table ev.schema s1).1 up down in
              (rest.0, rest.1 ∙ ap (written (pk ∷ more) (ev ∷ evs)) (evolved.1 ∙ e1))))

      -- A batch of one table whose key is named by its first event, over a server that does what
      -- Dremio documents and whose statements succeed. Each upsert has a key, and each deletion a
      -- row before, with no NULL in the key. When the last change of the batch writes a row that
      -- an earlier one deletes, `write_table` succeeds and the row is lost: its key is absent
      -- from the table, where the changes in their order would leave the row of the last one.
      pub reinserted_row_is_lost :
          (front : List ChangeEvent) (ev e : ChangeEvent) (s : S)
          → NamesKey (pk ∷ more) (front ++ (e ∷ []))
          → All (WholeAfter (pk ∷ more)) (keep is_upsert (front ++ (e ∷ [])))
          → All (WholeBefore (pk ∷ more)) (keep (λ x. not (is_upsert x)) (front ++ (e ∷ [])))
          → In ev front
          → is_upsert ev ≡ false
          → is_upsert e ≡ true
          → key_after (pk ∷ more) e ≡ key_before (pk ∷ more) ev
          → let r = write_table State run namespace table (front ++ (e ∷ [])) s in
            let k = key_before (pk ∷ more) ev in
            (r.0 ≡ ok tt)
            × (lookup k (view r.1.state) ≡ none)
            × (lookup k (in_order (pk ∷ more) (front ++ (e ∷ [])) (view s.state)) ≡ some e)
      reinserted_row_is_lost front ev e s names up down there deletion upsert same =
          let evs = front ++ (e ∷ []) in
          let left = write_table-Leaves evs s names up down in
          (
            left.0,
            ap (lookup (key_before (pk ∷ more) ev)) left.1
                ∙ written-deleted (pk ∷ more) ev evs (view s.state) deletion
                    (In-append_left ev front (e ∷ []) there),
            subst (λ k. lookup k (in_order (pk ∷ more) evs (view s.state)) ≡ some e) same
                (in_order-last (pk ∷ more) front e (view s.state) upsert),
          )
