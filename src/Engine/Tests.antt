-- ===== src/Engine/Tests.antt =====
-- The theorems about core/engine.py at a concrete worker.
use dremio_cdc.Prelude.{
  ℕ, suc, ◌+◌, ◌*◌, ◌/◌, ◌≤◌, ◌≡◌, ◌≢◌, refl, ◌⊎◌, inl, inr, Bool, true, false, Option, none, some,
  List, [], ◌∷◌, ◌++◌, foldl, arith, Text, Text-discrete, Pair-discrete, All, length,
}
use dremio_cdc.Prelude.Chars.{codes, to_decimal}
use dremio_cdc.Prelude.Int.{pos}
use dremio_cdc.Event.{Value, ChangeEvent, str, is_none}
use dremio_cdc.Samples.{id_column}
use dremio_cdc.Outcome.{ok}
use dremio_cdc.Engine.Worker.{Worker, key_of}
use dremio_cdc.Engine.Delivery.{Safe, saved, masked}
use dremio_cdc.Engine.Flush.{flush}
use dremio_cdc.Engine.Flush.Safety.{flush_loses_nothing, flush_commits_own}
use dremio_cdc.Engine.Stream.{Arrival, read, begin, stream}
use dremio_cdc.Engine.Stream.Delivered.{Delivered, stream_at_least_once, stream_delivers_all}
use dremio_cdc.Engine.Snapshot.{SnapshotConfig, Ending, full_snapshot, chunks}
use dremio_cdc.Engine.Snapshot.Full.{SafeIn, full_snapshot_complete, full_snapshot_restarts}
use dremio_cdc.Engine.Snapshot.Progress.{
  Progress, incremental_snapshot_advances, incremental_snapshot_resumes,
}
use dremio_cdc.Engine.Snapshot.Finish.{incremental_snapshot_ends}
use dremio_cdc.Engine.Cursor.{canonical, resume, snap_position}
use dremio_cdc.Engine.Run.{snap_in_progress}
use dremio_cdc.Engine.Restart.{resume-snap_position}
use dremio_cdc.Engine.Tuner.{Tuner, Sample, new_tuner, tune}
use dremio_cdc.Engine.Tuner.Bounds.{InRange, new_tuner-InRange, tune_step}
use dremio_cdc.Engine.Tuner.Growth.{IsBusy, busy_reaches_max}
use dremio_cdc.Engine.Sample.{
  toy, toy_config, toy_delivery, toy_worker, toy_queue, first_row, second_row, two_rows,
  two_rows-Paged,
}

abbrev both : List ChangeEvent
both = first_row ∷ second_row ∷ []

flush_loses_nothing_example :
    All
      (λ ev.
        Safe toy_delivery
          (flush toy toy_config both (Value.int (pos 2)) toy_worker)
          (masked toy toy_config ev))
      both
flush_loses_nothing_example =
    flush_loses_nothing toy_config toy_delivery both (Value.int (pos 2)) toy_worker
      (toy_queue, refl)

-- One row was stored before, and stays.
abbrev stored_worker : Worker toy
stored_worker = record toy_worker { sink = (true, first_row ∷ []) }

abbrev up_worker : Worker toy
up_worker = record toy_worker { sink = (false, []) }

flush_commits_own_example :
    ((saved (key_of toy_config) (flush toy toy_config both (Value.int (pos 2)) up_worker)
        ≡ Value.null)
      ⊎ ((is_none (Value.int (pos 2)) ≡ false)
          × (saved (key_of toy_config) (flush toy toy_config both (Value.int (pos 2)) up_worker)
              ≡ Value.int (pos 2))))
    × ((codes "pg", codes "orders") ≢ key_of toy_config
        → saved
            (codes "pg", codes "orders")
            (flush toy toy_config both (Value.int (pos 2)) up_worker)
          ≡ Value.null)
flush_commits_own_example =
    flush_commits_own toy_config toy_delivery both (Value.int (pos 2)) up_worker
      (codes "pg", codes "orders")

-- A change, a heartbeat, and a change.
abbrev arrivals : List Arrival
arrivals =
    record { stop = false; item = some first_row }
    ∷ record { stop = false; item = none }
    ∷ record { stop = false; item = some second_row }
    ∷ []

stream_at_least_once_example :
    Delivered toy_config toy_delivery Value.null both
      (stream toy toy_config arrivals (some (codes "gone")) toy_worker)
stream_at_least_once_example =
    stream_at_least_once toy_config toy_delivery arrivals (some (codes "gone")) toy_worker
      (toy_queue, refl)

stream_delivers_all_example :
    All
      (λ ev.
        Safe toy_delivery
          (stream toy toy_config arrivals none toy_worker)
          (masked toy toy_config ev))
      both
unfolding read begin dremio_cdc.Engine.Stream.turn
stream_delivers_all_example =
    stream_delivers_all toy_config toy_delivery arrivals toy_worker (toy_queue, refl) refl

abbrev rows : List (Bool × ChangeEvent)
rows = (false, first_row) ∷ (false, second_row) ∷ []

full_snapshot_complete_example :
    SafeIn toy_config toy_delivery (full_snapshot toy toy_config rows none [] toy_worker).1 both
    × (saved (key_of toy_config) (full_snapshot toy toy_config rows none [] toy_worker).1
        ≡ Value.text (codes "snap:done"))
unfolding full_snapshot
full_snapshot_complete_example =
    full_snapshot_complete toy_config toy_delivery rows none toy_worker (toy_queue, refl) refl

complete-ne-crashed : (t : Text) → Ending.crashed t ≢ Ending.complete
complete-ne-crashed t e = cc

full_snapshot_restarts_example :
    saved
      (key_of toy_config)
      (full_snapshot toy toy_config rows (some (codes "gone")) [] toy_worker).1
    ≡ Value.null
unfolding full_snapshot
full_snapshot_restarts_example =
    full_snapshot_restarts toy_config toy_delivery rows (some (codes "gone")) [] toy_worker
      (complete-ne-crashed (codes "gone"))

abbrev conf : SnapshotConfig
conf = record {
  incr_snapshot = true;
  overrides = true;
  snap_chunk_size = 1;
  snap_cursor_col = none;
}

abbrev signals : List Bool
signals = false ∷ false ∷ false ∷ false ∷ []

incremental_snapshot_advances_example :
    Progress toy_config toy_delivery two_rows conf
      (codes "id")
      two_rows-Paged
      Value.null
      (chunks toy toy_config two_rows conf signals (codes "id") none toy_worker)
incremental_snapshot_advances_example =
    incremental_snapshot_advances toy_config toy_delivery two_rows conf (codes "id") two_rows-Paged
      0 signals toy_worker refl (toy_queue, refl)

incremental_snapshot_resumes_example :
    Progress toy_config toy_delivery two_rows conf (codes "id") two_rows-Paged Value.null (
      chunks toy toy_config two_rows conf signals
        (codes "id")
        (some (codes "1"))
        (record toy_worker { sink = (true, masked toy toy_config first_row ∷ []) }))
unfolding Text-discrete str
incremental_snapshot_resumes_example =
    incremental_snapshot_resumes toy_config toy_delivery two_rows conf (codes "id") two_rows-Paged 0
      signals (record toy_worker { sink = (true, masked toy toy_config first_row ∷ []) }) []
      (second_row ∷ []) first_row refl (toy_queue, refl) refl (inl (inl refl), tt)

incremental_snapshot_ends_example :
    (chunks toy toy_config two_rows conf signals (codes "id") none toy_worker).0 ≢ Ending.unfinished
incremental_snapshot_ends_example =
    incremental_snapshot_ends toy_config toy_delivery two_rows conf (codes "id") two_rows-Paged 0
      signals toy_worker refl (toy_queue, refl) (omega arith)

-- A value with a colon, and a column that is spelt in another case.
resume-snap_position_example :
    resume
      (snap_in_progress (Value.text (snap_position (codes "ID") (codes "10:30"))))
      (codes "k")
      (ok (id_column ∷ []))
    ≡ (codes "id", some (codes "10:30"))
unfolding canonical Text-discrete dremio_cdc.Prelude.Chars.to_lower
resume-snap_position_example =
    resume-snap_position (codes "ID") (codes "10:30") (codes "id") (codes "k") (id_column ∷ [])
      (refl, (refl, tt)) refl

abbrev slow : Sample
slow = record { flush_count = 100; flush_duration = 1; lag = none }

abbrev small_tuner : Tuner
small_tuner = record { batch_size = 2; min_size = 1; max_size = 4; timeout = 10 }

small-InRange : InRange small_tuner
small-InRange = omega arith

new_tuner-InRange_example : InRange (new_tuner 500 100 5000 10)
new_tuner-InRange_example = new_tuner-InRange 500 100 5000 10 (omega arith)

tune_step_example :
    InRange (tune toy.rate slow small_tuner)
    × (2 * 67 / 100 ≤ (tune toy.rate slow small_tuner).batch_size)
    × ((tune toy.rate slow small_tuner).batch_size ≤ 2 * 3 / 2)
tune_step_example = tune_step toy.rate slow small_tuner small-InRange

slow-IsBusy : IsBusy toy.rate 10 4 slow
slow-IsBusy = record {
  took_time = omega arith;
  wrote = omega arith;
  lags = refl;
  fast = omega arith;
}

busy_reaches_max_example :
    (foldl (λ r s. tune toy.rate s r) small_tuner (slow ∷ slow ∷ [])).batch_size ≡ 4
busy_reaches_max_example =
    busy_reaches_max toy.rate (slow ∷ slow ∷ []) small_tuner small-InRange (omega arith)
      (slow-IsBusy, (slow-IsBusy, tt)) (omega arith)
