-- ===== src/Status/Laws.antt =====
-- The status store of core/status_store.py: its totals, its bounds, and the names of its workers.
use dremio_cdc.Prelude.{
  ℕ, ◌+◌, ◌-◌, ◌≤◌, ◌≡◌, ◌≢◌, ap, Option, none, some, List, [], ◌∷◌, ◌++◌, arith, Text, text_eq,
  ◌==◌, All, length, length-drop, append_assoc, ltb, Bool-cases, Option-cases, subst, inl, inr,
}
use dremio_cdc.Prelude.Dict.{Dict, lookup, insert, values}
use dremio_cdc.Status.{
  WorkerStatus, StatusStore, key, flushed, record_flush, snapshot, sum_of, with_worker, minute,
  append_rate,
}

module _ (f : WorkerStatus → ℕ) where
  -- A sum over the workers when one of them is replaced.
  sum_of-insert :
      (k : Text) (w v : WorkerStatus) (d : Dict Text WorkerStatus)
      → lookup k d ≡ some w
      → sum_of f (values (insert k v d)) + f w ≡ sum_of f (values d) + f v
  sum_of-insert k w v [] h = cc
  sum_of-insert k w v ((j, u) ∷ d) h = elim (Bool-cases (j == k)) [
    | inl hit ↦
        let found : some u ≡ some w = rw hit at h in
        let same : u ≡ w = cc in rw hit (omega (arith, ap f same))
    | inr miss ↦
        let found : lookup k d ≡ some w = rw miss at h in
        rw miss (omega (arith, sum_of-insert k w v d found))
  ]

length-insert :
    (k : Text) (w v : WorkerStatus) (d : Dict Text WorkerStatus)
    → lookup k d ≡ some w
    → length (values (insert k v d)) ≡ length (values d)
length-insert k w v [] h = cc
length-insert k w v ((j, u) ∷ d) h = ground (arith, length-insert k w v d)

written-flushed :
    (now count duration : ℕ) (offset : Option Text) (source_ts : Option ℕ) (w : WorkerStatus)
    → ((flushed now count offset source_ts duration w).events_written ≡ w.events_written + count)
      × ((flushed now count offset source_ts duration w).error_count ≡ w.error_count)
unfolding flushed
written-flushed now count duration offset source_ts w = ground arith

record_flush_known :
    (now count duration : ℕ) (source table : Text) (offset : Option Text) (ts : Option ℕ)
    (st : StatusStore) {w : WorkerStatus}
    → lookup (key source table) st.workers ≡ some w
    → record_flush now source table count offset ts duration st ≡ record st {
      workers = insert (key source table) (flushed now count offset ts duration w) st.workers;
    }
unfolding record_flush
record_flush_known now count duration source table offset ts st h = rw (h, with_worker)

-- A flush of a registered worker raises the total of events by its count, and leaves the total of
-- errors and the number of workers alone.
pub snapshot-record_flush :
    (t now count duration : ℕ) (source table : Text) (offset : Option Text) (ts : Option ℕ)
    (st : StatusStore) {w : WorkerStatus}
    → lookup (key source table) st.workers ≡ some w
    → let after = snapshot t (record_flush now source table count offset ts duration st) in
      let before = snapshot t st in
      (after.total_events ≡ before.total_events + count)
      × (after.total_errors ≡ before.total_errors)
      × (after.total_workers ≡ before.total_workers)
unfolding snapshot
snapshot-record_flush t now count duration source table offset ts st {w} h =
    let k = key source table in
    let v = flushed now count offset ts duration w in
    let counts = written-flushed now count duration offset ts w in
    rw (record_flush_known now count duration source table offset ts st h) (
      omega (arith, counts.0, sum_of-insert (λ x. x.events_written) k w v st.workers h),
      omega (arith, counts.1, sum_of-insert (λ x. x.error_count) k w v st.workers h),
      length-insert k w v st.workers h,
    )

-- A worker that was not registered is not counted: the flush changes nothing.
pub record_flush_unknown :
    (now count duration : ℕ) (source table : Text) (offset : Option Text) (ts : Option ℕ)
    (st : StatusStore)
    → lookup (key source table) st.workers ≡ none
    → record_flush now source table count offset ts duration st ≡ st
unfolding record_flush
record_flush_unknown now count duration source table offset ts st h = rw (h, with_worker)

append_rate-length :
    (history : List (ℕ × ℕ)) (sample : ℕ × ℕ) → length (append_rate history sample) ≤ 20
append_rate-length history sample =
    let all = history ++ (sample ∷ []) in omega (arith, length-drop (length all - 20) all)

flushed-history :
    (now count duration : ℕ) (offset : Option Text) (ts : Option ℕ) (w : WorkerStatus)
    → length w.rate_history ≤ 20
    → length (flushed now count offset ts duration w).rate_history ≤ 20
unfolding flushed
flushed-history now count duration offset ts w h =
    elim (Bool-cases (ltb minute (now - w.bucket_start))) [
      | inl over ↦ rw over (append_rate-length w.rate_history (w.bucket_start, w.minute_bucket))
      | inr still ↦ rw still h
    ]

-- A bound on every worker survives the change of one.
All-insert :
    (P : WorkerStatus → Type 0) (k : Text) (v : WorkerStatus) (d : Dict Text WorkerStatus)
    → P v
    → All (λ p. P p.1) d
    → All (λ p. P p.1) (insert k v d)
All-insert P k v [] h a = (h, tt)
All-insert P k v ((j, u) ∷ d) h a = elim (Bool-cases (j == k)) [
  | inl hit ↦ rw hit (h, a.1)
  | inr miss ↦ rw miss (a.0, All-insert P k v d h a.1)
]

lookup-All :
    (P : WorkerStatus → Type 0) (k : Text) (w : WorkerStatus) (d : Dict Text WorkerStatus)
    → All (λ p. P p.1) d
    → lookup k d ≡ some w
    → P w
lookup-All P k w [] a h = cc
lookup-All P k w ((j, u) ∷ d) a h = elim (Bool-cases (j == k)) [
  | inl hit ↦
      (let found : some u ≡ some w = rw hit at h in let same : u ≡ w = cc in subst P same a.0)
  | inr miss ↦ (let found : lookup k d ≡ some w = rw miss at h in lookup-All P k w d a.1 found)
]

-- At most twenty samples of its rate.
abbrev pub HasShortHistory : WorkerStatus → Type 0
HasShortHistory w = length w.rate_history ≤ 20

-- No flush lets the history of any worker grow past twenty samples.
pub record_flush-history :
    (now count duration : ℕ) (source table : Text) (offset : Option Text) (ts : Option ℕ)
    (st : StatusStore)
    → All (λ p. HasShortHistory p.1) st.workers
    → All
        (λ p. HasShortHistory p.1)
        (record_flush now source table count offset ts duration st).workers
record_flush-history now count duration source table offset ts st a =
    elim (Option-cases (lookup (key source table) st.workers)) [
      | inl absent ↦ rw (record_flush_unknown now count duration source table offset ts st absent) a
      | inr (w, present) ↦
          rw (record_flush_known now count duration source table offset ts st present) (
            All-insert HasShortHistory (key source table) _ st.workers
              (flushed-history now count duration offset ts w
                (lookup-All HasShortHistory (key source table) w st.workers a present))
              a)
    ]

-- The key of a worker determines its source and table, as long as no source name holds a '/'.
pub key_injective :
    (s t a b : Text)
    → All (λ c. c ≢ b'/') s
    → All (λ c. c ≢ b'/') t
    → key s a ≡ key t b
    → (s ≡ t) × (a ≡ b)
key_injective [] [] a b hs ht h = ground arith
key_injective [] (d ∷ t) a b hs ht h = ground arith
key_injective (c ∷ s) [] a b hs ht h = ground arith
key_injective (c ∷ s) (d ∷ t) a b hs ht h =
    let heads : c ≡ d = cc in
    let tails : key s a ≡ key t b = cc in
    let rest = key_injective s t a b hs.1 ht.1 tails in (cc (heads, rest.0), rest.1)

-- Two workers share one entry of the store when a source name ends as the other's table begins.
pub key_collides : (s m a : Text) → key (s ++ (b'/' ∷ m)) a ≡ key s (m ++ (b'/' ∷ a))
key_collides s m a = append_assoc s (b'/' ∷ m) (b'/' ∷ a)
