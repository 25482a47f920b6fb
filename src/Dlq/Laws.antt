-- ===== src/Dlq/Laws.antt =====
-- The queue of core/dlq.py under every sequence of calls.
use dremio_cdc.Prelude.{
  ℕ, suc, ◌+◌, ◌≤◌, ◌<◌, ◌≡◌, ◌≢◌, refl, sym, ◌∙◌, ◌⊎◌, inl, inr, Bool, true, false, List, [], ◌∷◌,
  ◌++◌, map, append-nil, arith, Text, All, All-append, if◌then◌else◌,
}
use mathlib.Core.List.{map-append}
use dremio_cdc.Event.{ChangeEvent, Printing}
use dremio_cdc.Dlq.Serial.{Stored, serialize_event}
use dremio_cdc.Dlq
use dremio_cdc.Dlq.{Status, pending, exhausted, Entry, Dlq, update_where, new_entry, fail}

-- The ids ascend from `lo`, and all are below `next`.
abbrev pub Ascending : ℕ → ℕ → List Entry → Type 0
Ascending lo next [] = lo ≤ next
Ascending lo next (e ∷ es) = (lo ≤ e.id) × Ascending (suc e.id) next es

-- An entry that waits has retries left, or has not been retried; an exhausted one has none left.
pub record IsSound (e : Entry) : Type 0 where
  pub waiting : e.status ≡ pending → (e.retry_count < e.max_retries) ⊎ (e.retry_count ≡ 0)
  pub spent : e.status ≡ exhausted → e.max_retries ≤ e.retry_count

pub record IsValid (q : Dlq) : Type 0 where
  pub ids : Ascending 0 q.next_id q.entries
  pub sound : All IsSound q.entries

-- The calls that change a queue.
pub data Call : Type 0 where
  push : Text → Text → List ChangeEvent → Text → Call
  mark_replayed : ℕ → Call
  mark_failed : ℕ → Text → Call
  reset_to_pending : ℕ → Call
  discard : ℕ → Call
  discard_all : Call
  reset_all_exhausted : Call

module _ (py : Printing) where
  abbrev pub call : Call → Dlq → Dlq
  call (push source table batch error) q = (Dlq.push py source table batch error q).1
  call (mark_replayed i) q = Dlq.mark_replayed i q
  call (mark_failed i error) q = Dlq.mark_failed i error q
  call (reset_to_pending i) q = Dlq.reset_to_pending i q
  call (discard i) q = Dlq.discard i q
  call discard_all q = Dlq.discard_all q
  call reset_all_exhausted q = Dlq.reset_all_exhausted q

  abbrev pub run : List Call → Dlq → Dlq
  run [] q = q
  run (c ∷ cs) q = run cs (call c q)

-- What an entry was parked with: its id and its events.
abbrev pub payload : Entry → ℕ × Text × Text × List Stored
payload e = (e.id, e.source, e.tbl, e.events)

module _ (test : Entry → Bool) (change : Entry → Entry) where
  update_where-payload :
      ((e : Entry) → payload (change e) ≡ payload e)
      → (es : List Entry) → map payload (update_where test change es) ≡ map payload es
  update_where-payload h [] = refl
  update_where-payload h (e ∷ es) = ground (arith, h e, update_where-payload h es)

  pub update_where-Ascending :
      ((e : Entry) → (change e).id ≡ e.id)
      → (lo next : ℕ) (es : List Entry) → Ascending lo next es
      → Ascending lo next (update_where test change es)
  update_where-Ascending h lo next [] a = a
  update_where-Ascending h lo next (e ∷ es) a =
      rw (kept (test e)) (a.0, update_where-Ascending h (suc e.id) next es a.1)
    where
      kept : (b : Bool) → (if b then change e else e).id ≡ e.id
      kept true = h e
      kept false = refl

  update_where-IsSound :
      ((e : Entry) → IsSound e → IsSound (change e))
      → (es : List Entry) → All IsSound es
      → All IsSound (update_where test change es)
  update_where-IsSound h [] a = tt
  update_where-IsSound h (e ∷ es) a = (go (test e), update_where-IsSound h es a.1)
    where
      go : (b : Bool) → IsSound (if b then change e else e)
      go true = h e a.0
      go false = a.0

Ascending-append :
    (lo next : ℕ) (es : List Entry) (e : Entry)
    → Ascending lo next es
    → e.id ≡ next
    → Ascending lo (next + 1) (es ++ (e ∷ []))
Ascending-append lo next [] e a h = omega arith
Ascending-append lo next (x ∷ es) e a h = (a.0, Ascending-append (suc x.id) next es e a.1 h)

fail-IsSound : (error : Text) (e : Entry) → IsSound e → IsSound (fail error e)
unfolding fail
fail-IsSound error e h = record { waiting = λ p. inl (ground arith); spent = λ p. ground arith }

new_entry-IsSound :
    (q : Dlq) (source table : Text) (events : List Stored) (error : Text)
    → IsSound (new_entry q source table events error)
new_entry-IsSound q source table events error = record { waiting = λ p. inr refl; spent = λ p. cc }

reset-IsSound : (e : Entry) → IsSound (record e { status = pending; retry_count = 0 })
reset-IsSound e = record { waiting = λ p. inr refl; spent = λ p. cc }

closed-IsSound :
    (s : Status) (e : Entry) → s ≢ pending → s ≢ exhausted → IsSound (record e { status = s })
closed-IsSound s e np ne = record { waiting = λ p. absurd (np p); spent = λ p. absurd (ne p) }

update-IsValid :
    (test : Entry → Bool) (change : Entry → Entry) (q : Dlq)
    → ((e : Entry) → (change e).id ≡ e.id)
    → ((e : Entry) → IsSound e → IsSound (change e))
    → IsValid q
    → IsValid (record q { entries = update_where test change q.entries })
update-IsValid test change q keeps sound h = record {
  ids = update_where-Ascending test change keeps 0 q.next_id q.entries h.ids;
  sound = update_where-IsSound test change sound q.entries h.sound;
}

module _ (py : Printing) where
  call-IsValid : (c : Call) (q : Dlq) → IsValid q → IsValid (call py c q)
  unfolding Dlq.push Dlq.mark_replayed Dlq.mark_failed Dlq.reset_to_pending Dlq.discard
      Dlq.discard_all Dlq.reset_all_exhausted
  call-IsValid (push source table batch error) q h =
      let e = new_entry q source table (map (serialize_event py) batch) error in
      record {
        ids = Ascending-append 0 q.next_id q.entries e h.ids refl;
        sound =
            All-append IsSound q.entries (e ∷ []) h.sound
              (new_entry-IsSound q source table _ error, tt);
      }
  call-IsValid (mark_replayed i) q h =
      update-IsValid _ _ q (λ e. refl) (λ e s. closed-IsSound _ e (λ p. cc) (λ p. cc)) h
  call-IsValid (mark_failed i error) q h =
      update-IsValid _ (fail error) q (λ e. refl) (fail-IsSound error) h
  call-IsValid (reset_to_pending i) q h =
      update-IsValid _ _ q (λ e. refl) (λ e s. reset-IsSound e) h
  call-IsValid (discard i) q h =
      update-IsValid _ _ q (λ e. refl) (λ e s. closed-IsSound _ e (λ p. cc) (λ p. cc)) h
  call-IsValid discard_all q h =
      update-IsValid _ _ q (λ e. refl) (λ e s. closed-IsSound _ e (λ p. cc) (λ p. cc)) h
  call-IsValid reset_all_exhausted q h = update-IsValid _ _ q (λ e. refl) (λ e s. reset-IsSound e) h

  -- After any calls, pushes included, on a valid queue: the ids ascend below the next id, an entry
  -- that waits for a retry has retries left or was never retried, and an exhausted one has none.
  pub run-IsValid : (calls : List Call) (q : Dlq) → IsValid q → IsValid (run py calls q)
  run-IsValid [] q h = h
  run-IsValid (c ∷ calls) q h = run-IsValid calls (call py c q) (call-IsValid c q h)

  -- What a call parks.
  abbrev pub parked : Call → Dlq → List (ℕ × Text × Text × List Stored)
  parked (push source table batch error) q =
      (q.next_id, source, table, map (serialize_event py) batch) ∷ []
  parked _ q = []

  -- No call loses an entry or touches what it was parked with: the entries are those of before,
  -- with their events, and behind them what a push parks.
  pub call-payload :
      (c : Call) (q : Dlq) → map payload (call py c q).entries ≡ map payload q.entries ++ parked c q
  unfolding Dlq.push Dlq.mark_replayed Dlq.mark_failed Dlq.reset_to_pending Dlq.discard
      Dlq.discard_all Dlq.reset_all_exhausted
  call-payload (push source table batch error) q = map-append payload q.entries _
  call-payload _ q = update_where-payload _ _ (λ e. refl) q.entries ∙ sym (append-nil _)
