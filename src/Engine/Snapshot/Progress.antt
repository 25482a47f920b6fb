-- ===== src/Engine/Snapshot/Progress.antt =====
-- The incremental snapshot of core/engine.py, over a source whose chunks are the rows of a table in
-- the order of the cursor.
use dremio_cdc.Prelude.{
  ℕ, suc, ◌≡◌, ◌≢◌, refl, sym, ap, subst, ◌∙◌, ◌⊎◌, inl, inr, Bool, true, false, ◌||◌, Option, none,
  some, List, [], ◌∷◌, ◌++◌, Text, All, All-map, take, drop, take-append-drop, Bool-cases, pair_eq,
  text_eq,
}
use mathlib.Core.List.{append_assoc}
use dremio_cdc.Prelude.Chars.{codes}
use dremio_cdc.Event.{Value, ChangeEvent}
use dremio_cdc.Outcome.{Outcome, ok, raised}
use dremio_cdc.Engine.Worker.{Env, Config, Worker, key_of}
use dremio_cdc.Engine.Delivery.{Delivery, HasQueue, saved, masked}
use dremio_cdc.Engine.Flush.{flush, store}
use dremio_cdc.Engine.Flush.Safety.{flush_keeps}
use dremio_cdc.Engine.Cursor.{snap_position}
use dremio_cdc.Engine.Snapshot.{
  SnapshotSource, SnapshotConfig, Ending, hear_stop, save, mark, save_done, last_event,
  cursor_value, take_chunk, after_chunks, chunks,
}
use dremio_cdc.Engine.Snapshot.Chunks.{
  Outcome-cases, Paged, Took, take_chunk-Took, last_event-split, All-mid,
}
use dremio_cdc.Engine.Snapshot.Full.{SafeIn, flush-SafeIn, flush_null-saved, store-saved}

module _ {env : Env} (cfg : Config) (d : Delivery env) (source : SnapshotSource env)
    (conf : SnapshotConfig) (col : Text) (p : Paged env cfg source col) where
  -- The position is the one before the snapshot, or that of the last row of `done`.
  abbrev pub Position : Value → List ChangeEvent → Value → Type 0
  Position start done v =
      (v ≡ start)
      ⊎ ((init : List ChangeEvent) × (r : ChangeEvent) × ((init ++ (r ∷ []) ≡ done)
            × (v ≡ Value.text (snap_position col (p.cursor r)))))

  -- Before a reading of the stop flag: `done` is delivered, and the source goes on with `rest`.
  pub record At (start : Value) (v : Option Text) (done rest : List ChangeEvent) (w : Worker env)
      : Type 0 where
    pub split : done ++ rest ≡ p.table_rows
    pub queue : HasQueue w
    pub safe : SafeIn cfg d w done
    pub position : Position start done (saved (key_of cfg) w)
    pub chunk :
        (n : ℕ) (s : env.Source) (rows : List ChangeEvent)
        → (source.incremental_snapshot col v n s).0 ≡ ok rows
        → rows ≡ take n rest

  -- However it ends: a first part of the rows is delivered, all of them if the snapshot is
  -- complete, and the position saved is at most that of the last row of this part.
  pub record Progress (start : Value) (r : Ending × Worker env) : Type 0 where
    pub done : List ChangeEvent
    pub rest : List ChangeEvent
    pub split : done ++ rest ≡ p.table_rows
    pub safe : SafeIn cfg d r.1 done
    pub position :
        ((rest ≡ []) × (saved (key_of cfg) r.1 ≡ Value.text (codes "snap:done")))
        ⊎ ((r.0 ≢ Ending.complete) × Position start done (saved (key_of cfg) r.1))

  -- The stop flag and the state of the source do not matter here.
  pub reset-At :
      (start : Value) (v : Option Text) (done rest : List ChangeEvent) (w : Worker env) (b : Bool)
      (s : env.Source)
      → At start v done rest w
      → At start v done rest (record w { stopped = b; source = s })
  reset-At start v done rest w b s at = record {
    split = at.split;
    queue = at.queue;
    safe = at.safe;
    position = at.position;
    chunk = at.chunk;
  }

  stay :
      (start : Value) (v : Option Text) (done rest : List ChangeEvent) (w : Worker env) (e : Ending)
      → At start v done rest w
      → e ≢ Ending.complete
      → Progress start (e, w)
  stay start v done rest w e at ne = record {
    done = done;
    rest = rest;
    split = at.split;
    safe = at.safe;
    position = inr (ne, at.position);
  }

  -- The source is at its end.
  mark-Progress :
      (start : Value) (v : Option Text) (done : List ChangeEvent) (w : Worker env)
      (o : Option env.offset_api.Store)
      → env.offset_api.set (key_of cfg) (Value.text (codes "snap:done")) w.offsets ≡ o
      → At start v done [] w
      → Progress start (mark env cfg Ending.complete (store env cfg o w))
  mark-Progress start v done w none e at = stay start v done [] w _ at (λ q. cc)
  mark-Progress start v done w (some s) e at = record {
    done = done;
    rest = [];
    split = at.split;
    safe = at.safe;
    position = inl (refl, store-saved cfg d _ w (some s) e refl);
  }

  after_chunks-Progress :
      (start : Value) (v : Option Text) (done : List ChangeEvent) (signals : List Bool)
      (w : Worker env)
      → At start v done [] w
      → Progress start (after_chunks env cfg signals w)
  unfolding after_chunks save_done save
  after_chunks-Progress start v done [] w at = stay start v done [] w _ at (λ q. cc)
  after_chunks-Progress start v done (stop ∷ signals) w at =
      let at' = reset-At start v done [] w (w.stopped || stop) w.source at in
      elim (Bool-cases (w.stopped || stop)) [
        | inl left ↦
            rw (left, after_chunks)
              (stay start v done [] (hear_stop env cfg stop w) _ at' (λ q. cc))
        | inr go ↦
            rw (go, after_chunks) (mark-Progress start v done (hear_stop env cfg stop w) _ refl at')
      ]

  stopped-Progress :
      (start : Value) (v : Option Text) (done rest : List ChangeEvent) (signals : List Bool)
      (w : Worker env)
      → At start v done rest w
      → Progress start (after_chunks env cfg signals (record w { stopped = true }))
  unfolding after_chunks
  stopped-Progress start v done rest [] w at =
      stay start v done rest _ _ (reset-At start v done rest w true w.source at) (λ q. cc)
  stopped-Progress start v done rest (stop ∷ signals) w at =
      stay start v done rest _ _ (reset-At start v done rest w true w.source at) (λ q. cc)

  -- The rows behind a chunk that is `ev ∷ evs`.
  next-At :
      (start : Value) (done evs rest : List ChangeEvent) (ev : ChangeEvent) (w : Worker env)
      (r : Outcome Text × Worker env)
      → done ++ (ev ∷ (evs ++ rest)) ≡ p.table_rows
      → HasQueue w
      → SafeIn cfg d w done
      → Took cfg d col (p.cursor (last_event ev evs)) (flush env cfg (ev ∷ evs) Value.null w) r
      → saved (key_of cfg) r.1 ≡ Value.text (snap_position col (p.cursor (last_event ev evs)))
      → At start (some (p.cursor (last_event ev evs))) (done ++ (ev ∷ evs)) rest r.1
  next-At start done evs rest ev w r rows q safe took pos =
      let (init, h) = last_event-split ev evs in
      let last = last_event ev evs in
      let upto = append_assoc done init (last ∷ []) ∙ ap (λ l. done ++ l) h in
      let whole =
        sym (append_assoc (done ++ init) (last ∷ []) rest)
        ∙ (ap (λ l. l ++ rest) upto ∙ (append_assoc done (ev ∷ evs) rest ∙ rows)) in
      record {
        split = append_assoc done (ev ∷ evs) rest ∙ rows;
        queue = took.queue;
        safe = took.safe (done ++ (ev ∷ evs)) (flush-SafeIn cfg d done (ev ∷ evs) w q safe);
        position = inr (done ++ init, last, (upto, pos));
        chunk = λ n s got. p.next_chunk (done ++ init) rest last n s got whole;
      }

  Position-keep :
      (start : Value) (done : List ChangeEvent) (u v : Value)
      → v ≡ u
      → Position start done u
      → Position start done v
  Position-keep start done u v e h = subst (Position start done) (sym e) h

  -- What the loop does with the rest of the signals.
  abbrev Later : Value → List Bool → Type 0
  Later start signals =
      (v : Option Text) (done rest : List ChangeEvent) (w : Worker env)
      → At start v done rest w
      → Progress start (chunks env cfg source conf signals col v w)

  abbrev pub go_on : List Bool → Outcome Text × Worker env → Ending × Worker env
  go_on signals r = elim r.0 [
    | raised message ↦ (Ending.crashed message, r.1)
    | ok val ↦ chunks env cfg source conf signals col (some val) r.1
  ]

  -- A chunk is taken and the loop goes on, or the save of its last value raises.
  pub taken-cases :
      (start : Value) (v : Option Text) (done evs rest : List ChangeEvent) (ev : ChangeEvent)
      (w : Worker env)
      → At start v done (ev ∷ (evs ++ rest)) w
      → (((take_chunk env cfg col v ev evs w).0 ≡ ok (p.cursor (last_event ev evs)))
          × At start
              (some (p.cursor (last_event ev evs)))
              (done ++ (ev ∷ evs))
              rest
              (take_chunk env cfg col v ev evs w).1)
        ⊎ ((message : Text) × (((take_chunk env cfg col v ev evs w).0 ≡ raised message)
              × Progress start (Ending.crashed message, (take_chunk env cfg col v ev evs w).1)))
  taken-cases start v done evs rest ev w at =
      let r = take_chunk env cfg col v ev evs w in
      let (init, h) = last_event-split ev evs in
      let whole : (done ++ init) ++ (last_event ev evs ∷ rest) ≡ p.table_rows =
        append_assoc done init (last_event ev evs ∷ rest)
        ∙ (ap (λ l. done ++ l)
              (sym (append_assoc init (last_event ev evs ∷ []) rest) ∙ ap (λ l. l ++ rest) h)
            ∙ at.split) in
      let has =
        All-mid (λ x. (u : Option Text) → cursor_value env cfg col u x.after ≡ ok (p.cursor x))
          (done ++ init) rest (last_event ev evs) (subst (All _) (sym whole) p.has_cursor) in
      let took =
        take_chunk-Took cfg d col (p.cursor (last_event ev evs)) v ev evs w (has v) at.queue in
      elim took.result [
        | inl saved ↦
            inl (saved.0, next-At start done evs rest ev w r at.split at.queue at.safe took saved.1)
        | inr failed ↦ inr (
          failed.0,
          (
            failed.1.0,
            record {
              done = done;
              rest = ev ∷ (evs ++ rest);
              split = at.split;
              safe = took.safe done (
                  All-map _ _
                    (λ e h. flush_keeps cfg d (ev ∷ evs) Value.null w (masked env cfg e) h) done
                    at.safe);
              position = inr (
                λ q. cc,
                Position-keep start done _ _ (failed.1.1 ∙ flush_null-saved cfg d (ev ∷ evs) w)
                    at.position,
              );
            },
          ),
        )
      ]

  taken-Progress :
      (start : Value) (signals : List Bool) (v : Option Text) (done evs rest : List ChangeEvent)
      (ev : ChangeEvent) (w : Worker env)
      → Later start signals
      → At start v done (ev ∷ (evs ++ rest)) w
      → Progress start (go_on signals (take_chunk env cfg col v ev evs w))
  taken-Progress start signals v done evs rest ev w later at =
      elim (taken-cases start v done evs rest ev w at) [
        | inl taken ↦ rw (taken.0) (later _ _ rest _ taken.1)
        | inr failed ↦ rw (failed.1.0) failed.1.1
      ]

  -- The query gives the next chunk.
  given-Progress :
      (start : Value) (m : ℕ) (signals : List Bool) (v : Option Text) (done rest : List ChangeEvent)
      (w : Worker env)
      → Later start signals
      → At start v done rest w
      → (source.incremental_snapshot col v conf.snap_chunk_size w.source).0 ≡ ok (take (suc m) rest)
      → Progress start
          (chunks env cfg source conf (false ∷ signals) col v (record w { stopped = false }))
  unfolding chunks
  given-Progress start m signals v done [] w later at given =
      rw (given, chunks)
        (after_chunks-Progress start v done signals _ (reset-At start v done [] w false _ at))
  given-Progress start m signals v done (ev ∷ rest) w later at given =
      rw (given, chunks)
        (taken-Progress start signals v done (take m rest) (drop m rest) ev _ later (
          reset-At start v done _ w false _ (
            subst (λ (l : List ChangeEvent). At start v done (ev ∷ l) w)
              (sym (take-append-drop m rest)) at)))

  turn-Progress :
      (start : Value) (m : ℕ) (signals : List Bool) (v : Option Text) (done rest : List ChangeEvent)
      (w : Worker env)
      → conf.snap_chunk_size ≡ suc m
      → Later start signals
      → At start v done rest w
      → Progress start
          (chunks env cfg source conf (false ∷ signals) col v (record w { stopped = false }))
  unfolding chunks
  turn-Progress start m signals v done rest w size later at =
      elim (Outcome-cases (source.incremental_snapshot col v conf.snap_chunk_size w.source).0) [
        | inl got ↦ given-Progress start m signals v done rest w later at (
            got.1
            ∙ ap ok
                (at.chunk conf.snap_chunk_size w.source got.0 got.1 ∙ ap (λ n. take n rest) size))
        | inr failed ↦
            rw (failed.1, chunks)
              (stay start v done rest _ _ (reset-At start v done rest w false _ at) (λ q. cc))
      ]

  -- Whether the stop flag was up before or goes up now is the same.
  heard-Progress :
      (start : Value) (m : ℕ) (b : Bool) (signals : List Bool) (v : Option Text)
      (done rest : List ChangeEvent) (w : Worker env)
      → conf.snap_chunk_size ≡ suc m
      → Later start signals
      → At start v done rest w
      → Progress start
          (chunks env cfg source conf (b ∷ signals) col v (record w { stopped = false }))
  unfolding chunks
  heard-Progress start m true signals v done rest w size later at =
      stopped-Progress start v done rest signals w at
  heard-Progress start m false signals v done rest w size later at =
      turn-Progress start m signals v done rest w size later at

  chunks-Progress :
      (start : Value) (m : ℕ) (signals : List Bool)
      → conf.snap_chunk_size ≡ suc m
      → Later start signals
  unfolding chunks
  chunks-Progress start m [] size v done rest w at = stay start v done rest w _ at (λ q. cc)
  chunks-Progress start m (stop ∷ signals) size v done rest w at =
      heard-Progress start m (w.stopped || stop) signals v done rest w size
        (chunks-Progress start m signals size) at

  -- An incremental snapshot, with chunks of at least one row, from the start of a table that does
  -- not change and has no two rows with one cursor value, and whose query, when it does not
  -- raise, gives the next rows in the order of the cursor. However the stop flag goes and
  -- whatever the query, the sink and the stores raise, a first part of the rows is delivered. If
  -- the snapshot is complete, this is every row and "snap:done" is saved; else the saved position
  -- is as before or that of the last row of the part.
  pub incremental_snapshot_advances :
      (m : ℕ) (signals : List Bool) (w : Worker env)
      → conf.snap_chunk_size ≡ suc m
      → HasQueue w
      → Progress (saved (key_of cfg) w) (chunks env cfg source conf signals col none w)
  incremental_snapshot_advances m signals w size q =
      chunks-Progress (saved (key_of cfg) w) m signals size none [] p.table_rows w
        record { split = refl; queue = q; safe = tt; position = inl refl; chunk = p.first_chunk }

  -- An incremental snapshot, with chunks of at least one row, that goes on after a row of such a
  -- table as `incremental_snapshot_advances` is about, when the rows up to this one are
  -- delivered. However the stop flag goes and whatever the query, the sink and the stores raise,
  -- a first part of all rows is delivered, with those up to this one or more. If the snapshot is
  -- complete, this is every row and "snap:done" is saved; else the saved position is as before or
  -- that of the last row of the part.
  pub incremental_snapshot_resumes :
      (m : ℕ) (signals : List Bool) (w : Worker env) (pre rest : List ChangeEvent) (r : ChangeEvent)
      → conf.snap_chunk_size ≡ suc m
      → HasQueue w
      → pre ++ (r ∷ rest) ≡ p.table_rows
      → SafeIn cfg d w (pre ++ (r ∷ []))
      → Progress
          (saved (key_of cfg) w)
          (chunks env cfg source conf signals col (some (p.cursor r)) w)
  incremental_snapshot_resumes m signals w pre rest r size q rows safe =
      chunks-Progress (saved (key_of cfg) w) m signals size (some (p.cursor r)) (pre ++ (r ∷ []))
        rest w
        record {
          split = append_assoc pre (r ∷ []) rest ∙ rows;
          queue = q;
          safe = safe;
          position = inl refl;
          chunk = λ n s got. p.next_chunk pre rest r n s got rows;
        }
