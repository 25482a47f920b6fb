-- ===== src/Status/Tests.antt =====
-- The theorems about core/status_store.py at a store of two workers.
use dremio_cdc.Prelude.{◌+◌, ◌≡◌, refl, none, some, [], ◌∷◌, Text-discrete}
use dremio_cdc.Prelude.Chars.{codes}
use dremio_cdc.Status.{StatusStore, EngineState, fresh, key, record_flush, snapshot}
use dremio_cdc.Status.Laws.{snapshot-record_flush, key_collides}

abbrev two_workers : StatusStore
two_workers = record {
  workers =
      (codes "pg/a", fresh 0 (codes "pg") (codes "a"))
      ∷ (codes "pg/b", fresh 0 (codes "pg") (codes "b"))
      ∷ [];
  engine_state = EngineState.running;
  engine_started_at = some 0;
}

snapshot-record_flush_example :
    let st = record_flush 9 (codes "pg") (codes "b") 3 none none 2 two_workers in
    let after = snapshot 9 st in
    let before = snapshot 9 two_workers in
    (after.total_events ≡ before.total_events + 3)
    × (after.total_errors ≡ before.total_errors)
    × (after.total_workers ≡ before.total_workers)
unfolding Text-discrete
snapshot-record_flush_example =
    snapshot-record_flush 9 9 3 2 (codes "pg") (codes "b") none none two_workers
      {w = fresh 0 (codes "pg") (codes "b")} refl

key_collides_example : key (codes "a/b") (codes "c") ≡ key (codes "a") (codes "b/c")
key_collides_example = key_collides (codes "a") (codes "b") (codes "c")
