-- ===== src/Dlq/Worker.antt =====
-- `DLQWorker` of core/dlq.py: one pass over the waiting entries, and the passes of its loop.
pub mod Ends
use dremio_cdc.Prelude.{ℕ, zero, suc, List, [], ◌∷◌, Text}
use dremio_cdc.Event.{ChangeEvent, Printing}
use dremio_cdc.Outcome.{Outcome, ok, raised, SinkApi}
use dremio_cdc.Dlq.{Entry, Dlq, get_pending, get_events, discard, mark_replayed, mark_failed}

module _ (api : SinkApi) (py : Printing) (now : ℕ) where
  open api use {Sink, write_batch}

  -- The sink has answered: the entry is done, or it has failed once more.
  abbrev pub settle : ℕ → Dlq → Outcome (Unit {0}) × Sink → Dlq × Sink
  settle eid q (ok done, s) = (mark_replayed eid q, s)
  settle eid q (raised message, s) = (mark_failed eid message q, s)

  abbrev pub attempt : ℕ → Dlq → Sink → Outcome (List ChangeEvent) → Dlq × Sink
  attempt eid q s (raised message) = (mark_failed eid message q, s)
  attempt eid q s (ok []) = (discard eid q, s)
  attempt eid q s (ok (ev ∷ events)) = settle eid q (write_batch (ev ∷ events) s)

  -- The body of the `for` loop in `_retry_pending`.
  unfoldable pub retry_entry : ℕ → Dlq × Sink → Dlq × Sink
  retry_entry eid (q, s) = attempt eid q s (get_events py now eid q)

  unfoldable pub retry_all : List Entry → Dlq × Sink → Dlq × Sink
  retry_all [] w = w
  retry_all (e ∷ es) w = retry_all es (retry_entry e.id w)

  unfoldable pub retry_pending : Dlq × Sink → Dlq × Sink
  unfolding retry_all
  retry_pending w = retry_all (get_pending 10 w.0) w

  -- The loop of `run`, for a number of wake-ups.
  unfoldable pub rounds : ℕ → Dlq × Sink → Dlq × Sink
  rounds zero w = w
  rounds (suc n) w = rounds n (retry_pending w)
