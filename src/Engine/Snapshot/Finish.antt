-- ===== src/Engine/Snapshot/Finish.antt =====
-- The incremental snapshot of core/engine.py comes to an end.
use dremio_cdc.Prelude.{
  ℕ, suc, ◌+◌, ◌≤◌, ◌≡◌, ◌≢◌, refl, sym, ap, subst, ◌∙◌, inl, inr, Bool, true, false, ◌||◌, Option,
  none, some, List, [], ◌∷◌, ◌++◌, arith, Text, take, drop, take-append-drop, length, length-drop,
  Bool-cases, pair_eq, text_eq,
}
use dremio_cdc.Event.{Value, ChangeEvent}
use dremio_cdc.Outcome.{ok}
use dremio_cdc.Engine.Worker.{Env, Config, Worker, key_of}
use dremio_cdc.Engine.Delivery.{Delivery, HasQueue, saved}
use dremio_cdc.Engine.Flush.{store}
use dremio_cdc.Engine.Snapshot.{
  SnapshotSource, SnapshotConfig, Ending, save, mark, save_done, take_chunk, after_chunks, chunks,
}
use dremio_cdc.Engine.Snapshot.Chunks.{Outcome-cases, Paged}
use dremio_cdc.Engine.Snapshot.Progress.{At, reset-At, taken-cases, go_on}

module _ {env : Env} (cfg : Config) (d : Delivery env) (source : SnapshotSource env)
    (conf : SnapshotConfig) (col : Text) (p : Paged env cfg source col) where
  abbrev Over : Ending × Worker env → Type 0
  Over r = r.0 ≢ Ending.unfinished

  mark-Over :
      (w : Worker env) (o : Option env.offset_api.Store)
      → Over (mark env cfg Ending.complete (store env cfg o w))
  mark-Over w none = λ q. cc
  mark-Over w (some s) = λ q. cc

  after_chunks-Over :
      (signals : List Bool) (w : Worker env)
      → 1 ≤ length signals
      → Over (after_chunks env cfg signals w)
  unfolding after_chunks save_done save
  after_chunks-Over [] w long = absurd (omega arith)
  after_chunks-Over (stop ∷ signals) w long = elim (Bool-cases (w.stopped || stop)) [
    | inl left ↦ rw (left, after_chunks) (λ q. cc)
    | inr go ↦ rw (go, after_chunks) (mark-Over _ _)
  ]

  abbrev Ends : Value → List Bool → Type 0
  Ends start signals =
      (v : Option Text) (done rest : List ChangeEvent) (w : Worker env)
      → At cfg d source conf col p start v done rest w
      → length rest + 2 ≤ length signals
      → Over (chunks env cfg source conf signals col v w)

  taken-Over :
      (start : Value) (signals : List Bool) (v : Option Text) (done evs rest : List ChangeEvent)
      (ev : ChangeEvent) (w : Worker env)
      → Ends start signals
      → At cfg d source conf col p start v done (ev ∷ (evs ++ rest)) w
      → length rest + 2 ≤ length signals
      → Over (go_on cfg d source conf col p signals (take_chunk env cfg col v ev evs w))
  taken-Over start signals v done evs rest ev w later at long =
      elim (taken-cases cfg d source conf col p start v done evs rest ev w at) [
        | inl taken ↦ rw (taken.0) (later _ _ rest _ taken.1 long)
        | inr failed ↦ rw (failed.1.0) (λ q. cc)
      ]

  given-Over :
      (start : Value) (m : ℕ) (signals : List Bool) (v : Option Text) (done rest : List ChangeEvent)
      (w : Worker env)
      → Ends start signals
      → At cfg d source conf col p start v done rest w
      → length rest + 2 ≤ suc (length signals)
      → (source.incremental_snapshot col v conf.snap_chunk_size w.source).0 ≡ ok (take (suc m) rest)
      → Over (chunks env cfg source conf (false ∷ signals) col v (record w { stopped = false }))
  unfolding chunks
  given-Over start m signals v done [] w later at long given =
      rw (given, chunks) (after_chunks-Over signals _ (omega arith))
  given-Over start m signals v done (ev ∷ rest) w later at long given =
      rw (given, chunks)
        (taken-Over start signals v done (take m rest) (drop m rest) ev _ later
          (reset-At cfg d source conf col p start v done _ w false _ (
            subst (λ (l : List ChangeEvent). At cfg d source conf col p start v done (ev ∷ l) w)
              (sym (take-append-drop m rest)) at))
          (omega (arith, length-drop m rest)))

  heard-Over :
      (start : Value) (m : ℕ) (b : Bool) (signals : List Bool) (v : Option Text)
      (done rest : List ChangeEvent) (w : Worker env)
      → conf.snap_chunk_size ≡ suc m
      → Ends start signals
      → At cfg d source conf col p start v done rest w
      → length rest + 2 ≤ suc (length signals)
      → Over (chunks env cfg source conf (b ∷ signals) col v (record w { stopped = false }))
  unfolding chunks
  heard-Over start m true signals v done rest w size later at long =
      after_chunks-Over signals _ (omega arith)
  heard-Over start m false signals v done rest w size later at long =
      elim (Outcome-cases (source.incremental_snapshot col v conf.snap_chunk_size w.source).0) [
        | inl got ↦ given-Over start m signals v done rest w later at long (
            got.1
            ∙ ap ok
                (at.chunk conf.snap_chunk_size w.source got.0 got.1 ∙ ap (λ n. take n rest) size))
        | inr failed ↦ rw (failed.1, chunks) (λ q. cc)
      ]

  chunks-Over :
      (start : Value) (m : ℕ) (signals : List Bool)
      → conf.snap_chunk_size ≡ suc m
      → Ends start signals
  unfolding chunks
  chunks-Over start m [] size v done rest w at long = absurd (omega arith)
  chunks-Over start m (stop ∷ signals) size v done rest w at long =
      heard-Over start m (w.stopped || stop) signals v done rest w size
        (chunks-Over start m signals size) at long

  -- The incremental snapshot ends: two readings of the stop flag more than the table has rows are
  -- always enough, whatever they give, when the size of a chunk is not 0.
  pub incremental_snapshot_ends :
      (m : ℕ) (signals : List Bool) (w : Worker env)
      → conf.snap_chunk_size ≡ suc m
      → HasQueue w
      → length p.table_rows + 2 ≤ length signals
      → (chunks env cfg source conf signals col none w).0 ≢ Ending.unfinished
  incremental_snapshot_ends m signals w size q long =
      chunks-Over (saved (key_of cfg) w) m signals size none [] p.table_rows w
        record { split = refl; queue = q; safe = tt; position = inl refl; chunk = p.first_chunk }
        long
