-- ===== src/Sources/Logminer/Polls.antt =====
-- What the turns of the stream of sources/oracle.py yield.
use dremio_cdc.Prelude.{
  ℕ, ◌≤◌, ◌<◌, ◌≡◌, refl, sym, subst, ◌&&◌, ◌⊎◌, Option, none, some, List, [], ◌∷◌, All, Text,
  nat_eq, ltb, leb, Bool-cases, inl, inr, arith,
}
use dremio_cdc.Prelude.Dict.{lookup}
use dremio_cdc.Event.{Operation, ColumnSchema, ChangeEvent}
use dremio_cdc.Outcome.{Outcome, ok, raised}
use dremio_cdc.Engine.Delivery.{In, In-append_left, In-append_right}
use dremio_cdc.Sources.Logminer.{op_map, Floats}
use dremio_cdc.Sources.Logminer.Rows.{Mined, event, cons_event, events_of, mined, poll, polls}

module _ (floats : Floats) (source_name table : Text) (schema : List ColumnSchema) where
  -- With `COMMITTED_DATA_ONLY`, a query returns the rows of the transactions that begin and are
  -- committed in its range of SCNs. `begun` and `committed` are those of the row's transaction.
  abbrev pub Shows : Mined floats → ℕ → ℕ → ℕ × (ℕ → ℕ → Outcome (List (Mined floats))) → Type 0
  Shows m begun committed turn =
      (from to : ℕ) (rows : List (Mined floats))
      → turn.1 from to ≡ ok rows
      → from ≤ begun
      → committed ≤ to
      → In m rows

  -- The turn does not end amid the transaction.
  abbrev pub EndsOutside : ℕ → ℕ → ℕ × (ℕ → ℕ → Outcome (List (Mined floats))) → Type 0
  EndsOutside begun committed turn = (turn.0 < begun) ⊎ (committed ≤ turn.0)

  In-cons_event :
      (ev : ChangeEvent) (o : Option Operation) (m : Mined floats) (later : List ChangeEvent)
      → In ev later
      → In ev (cons_event floats source_name table schema o m later)
  In-cons_event ev none m later h = h
  In-cons_event ev (some op) m later h = inr h

  In-events_of :
      (op : Operation) (m : Mined floats) (ms : List (Mined floats))
      → lookup m.op_code op_map ≡ some op
      → In m ms
      → In
          (event floats source_name table schema op m)
          (events_of floats source_name table schema ms)
  unfolding events_of
  In-events_of op m [] e h = elim h [ ]
  In-events_of op m (n ∷ ms) e (inl same) =
      subst
        (λ (k : Mined floats). In (event floats source_name table schema op m) (
          cons_event floats source_name table schema (lookup k.op_code op_map) k
            (events_of floats source_name table schema ms)))
        same
        (subst
          (λ o. In (event floats source_name table schema op m) (
            cons_event floats source_name table schema o m
              (events_of floats source_name table schema ms)))
          (sym e) (inl refl))
  In-events_of op m (n ∷ ms) e (inr h) =
      In-cons_event _ (lookup n.op_code op_map) n (events_of floats source_name table schema ms)
        (In-events_of op m ms e h)

  mined-In :
      (op : Operation) (m : Mined floats) (begun committed current max_scn : ℕ)
      (o : Outcome (List (Mined floats)))
      → lookup m.op_code op_map ≡ some op
      → ((rows : List (Mined floats)) → o ≡ ok rows → committed ≤ max_scn → In m rows)
      → current < committed
      → committed ≤ (mined floats source_name table schema current max_scn o).1
      → In
          (event floats source_name table schema op m)
          (mined floats source_name table schema current max_scn o).0
  mined-In op m begun committed current max_scn (ok rows) e h above below =
      In-events_of op m rows e (h rows refl below)
  mined-In op m begun committed current max_scn (raised message) e h above below =
      absurd (omega arith)

  poll-In :
      (op : Operation) (m : Mined floats) (begun committed current max_scn : ℕ)
      (mine : ℕ → ℕ → Outcome (List (Mined floats)))
      → lookup m.op_code op_map ≡ some op
      → Shows m begun committed (max_scn, mine)
      → current < begun
      → begun ≤ committed
      → committed ≤ (poll floats source_name table schema mine current max_scn).1
      → In
          (event floats source_name table schema op m)
          (poll floats source_name table schema mine current max_scn).0
  unfolding poll
  poll-In op m begun committed current max_scn mine e h above order =
      elim (Bool-cases (ltb 0 current && ltb current max_scn)) [
        | inl go ↦ rw go (λ below.
            mined-In op m begun committed current max_scn (mine current max_scn) e
              (λ rows same under. h current max_scn rows same (omega arith) under) (omega arith)
              below)
        | inr wait ↦ rw wait (λ below. absurd (omega arith))
      ]

  mined_before :
      (begun committed current max_scn : ℕ) (o : Outcome (List (Mined floats)))
      → (max_scn < begun) ⊎ (committed ≤ max_scn)
      → current < begun
      → (mined floats source_name table schema current max_scn o).1 < committed
      → (mined floats source_name table schema current max_scn o).1 < begun
  mined_before begun committed current max_scn (ok rows) (inl before) above below = before
  mined_before begun committed current max_scn (ok rows) (inr after) above below =
      absurd (omega arith)
  mined_before begun committed current max_scn (raised message) outside above below = above

  -- A turn that does not reach the commit does not reach the beginning either.
  poll_before :
      (begun committed current max_scn : ℕ) (mine : ℕ → ℕ → Outcome (List (Mined floats)))
      → EndsOutside begun committed (max_scn, mine)
      → current < begun
      → (poll floats source_name table schema mine current max_scn).1 < committed
      → (poll floats source_name table schema mine current max_scn).1 < begun
  unfolding poll
  poll_before begun committed current max_scn mine outside above =
      elim (Bool-cases (ltb 0 current && ltb current max_scn)) [
        | inl go ↦
            rw go
              (mined_before begun committed current max_scn (mine current max_scn) outside above)
        | inr wait ↦ rw wait (λ below. above)
      ]

  -- A row of an insertion, update or deletion is not missed when the stream starts before its
  -- transaction begins and has come past its commit, no turn ends amid the transaction, and every
  -- query returns the rows of the transactions that begin and are committed in its range. Whatever
  -- queries fail, its event is then among those that were yielded.
  pub polls-In :
      (op : Operation) (m : Mined floats) (begun committed : ℕ)
      (turns : List (ℕ × (ℕ → ℕ → Outcome (List (Mined floats))))) (current : ℕ)
      → lookup m.op_code op_map ≡ some op
      → All (Shows m begun committed) turns
      → All (EndsOutside begun committed) turns
      → begun ≤ committed
      → current < begun
      → committed ≤ (polls floats source_name table schema turns current).1
      → In
          (event floats source_name table schema op m)
          (polls floats source_name table schema turns current).0
  unfolding polls
  polls-In op m begun committed [] current e h outside order above below = absurd (omega arith)
  polls-In op m begun committed ((max_scn, mine) ∷ turns) current e h outside order above below =
      let one = poll floats source_name table schema mine current max_scn in
      elim (Bool-cases (leb committed one.1)) [
        | inl now ↦
            In-append_left _ one.0 (polls floats source_name table schema turns one.1).0
              (poll-In op m begun committed current max_scn mine e h.0 above order (ground arith))
        | inr later ↦
            In-append_right _ one.0 (polls floats source_name table schema turns one.1).0 (
              polls-In op m begun committed turns one.1 e h.1 outside.1 order
                (poll_before begun committed current max_scn mine outside.0 above (ground arith))
                below)
      ]
