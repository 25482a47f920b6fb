-- ===== src/Dlq/Worker/Ends.antt =====
-- The retries of core/dlq.py end: whatever the sink answers, every pass uses up some of the budget
-- of the waiting entries.
use dremio_cdc.Prelude.{
  ℕ, zero, suc, ◌+◌, ◌-◌, ◌≤◌, ◌<◌, ◌≡◌, ◌≢◌, refl, subst, ap, sym, ◌∙◌, inl, inr, Bool, true,
  false, some, List, [], ◌∷◌, arith, Text, All, All-map, keep, take, length, length-take,
  if◌then◌else◌, Bool-cases,
}
use dremio_cdc.Event.{ChangeEvent, Printing}
use dremio_cdc.Outcome.{Outcome, ok, raised, SinkApi}
use dremio_cdc.Dlq.{
  Status, pending, replayed, discarded, is_status, Entry, Dlq, update_where, has_id, find_id, fail,
  get_pending, pending_count, mark_replayed, mark_failed, discard, get_events,
}
use dremio_cdc.Dlq.Laws.{Ascending, update_where-Ascending}
use dremio_cdc.Dlq.Worker.{settle, attempt, retry_entry, retry_all, retry_pending, rounds}

-- What an entry may still cost: one attempt and the retries left, while it waits.
abbrev pub weight : Entry → ℕ
weight e = if is_status pending e.status then 1 + (e.max_retries - e.retry_count) else 0

abbrev pub budget : List Entry → ℕ
budget [] = 0
budget (e ∷ es) = weight e + budget es

-- A change of one entry that an attempt makes.
record IsAttempt (change : Entry → Entry) : Type 0 where
  keeps_id : (e : Entry) → (change e).id ≡ e.id
  cheaper : (e : Entry) → is_status pending e.status ≡ true → weight (change e) < weight e

fail-IsAttempt : (message : Text) → IsAttempt (fail message)
unfolding fail
fail-IsAttempt message = record { keeps_id = λ e. refl; cheaper = λ e h. ground arith }

status-IsAttempt :
    (s : Status) → is_status pending s ≡ false → IsAttempt (λ e. record e { status = s })
status-IsAttempt s h = record { keeps_id = λ e. refl; cheaper = λ e p. ground arith }

module _ (change : Entry → Entry) (a : IsAttempt change) (i : ℕ) where
  -- Ids below those of the list are not in it.
  update_where_absent :
      (lo next : ℕ) (es : List Entry)
      → Ascending lo next es
      → i < lo
      → update_where (has_id i) change es ≡ es
  update_where_absent lo next [] asc h = refl
  update_where_absent lo next (e ∷ es) asc h =
      ground (arith, update_where_absent (suc e.id) next es asc.1)

  find_id-update_ne :
      (j : ℕ) (es : List Entry)
      → i ≢ j
      → find_id j (update_where (has_id i) change es) ≡ find_id j es
  find_id-update_ne j [] h = refl
  find_id-update_ne j (e ∷ es) h = ground (arith, a.keeps_id e, find_id-update_ne j es h)

  budget-update :
      (lo next : ℕ) (es : List Entry) (e : Entry)
      → Ascending lo next es
      → find_id i es ≡ some e
      → is_status pending e.status ≡ true
      → budget (update_where (has_id i) change es) < budget es
  budget-update lo next [] e asc h p = cc
  budget-update lo next (x ∷ es) e asc h p = elim (Bool-cases (has_id i x)) [
    | inl hit ↦
        let found : some x ≡ some e = rw hit at h in
        let same : x ≡ e = cc in
        let cheap : weight (change x) < weight x =
          a.cheaper x (ap (λ (y : Entry). is_status pending y.status) same ∙ p) in
        rw hit
          (rw (update_where_absent (suc x.id) next es asc.1 (ground arith)) (omega (arith, cheap)))
    | inr miss ↦
        let found : find_id i es ≡ some e = rw miss at h in
        rw miss (omega (arith, budget-update (suc x.id) next es e asc.1 found p))
  ]

-- An entry of the table that waits.
abbrev Waiting : List Entry → Entry → Type 0
Waiting es e = (find_id e.id es ≡ some e) × (is_status pending e.status ≡ true)

-- Each id is below those that follow it.
abbrev Chain : List Entry → Type 0
Chain [] = Unit
Chain (e ∷ es) = All (λ x. e.id < x.id) es × Chain es

still-Waiting :
    (change : Entry → Entry) (a : IsAttempt change) (i : ℕ) (table es : List Entry)
    → All (λ (x : Entry). i < x.id) es
    → All (Waiting table) es
    → All (Waiting (update_where (has_id i) change table)) es
still-Waiting change a i table [] above waits = tt
still-Waiting change a i table (e ∷ es) above waits = (
  (find_id-update_ne change a i e.id table (omega (arith, above.0)) ∙ waits.0.0, waits.0.1),
  still-Waiting change a i table es above.1 waits.1,
)

module _ {ℓ} (P : Entry → Type ℓ) where
  All-keep : (test : Entry → Bool) (es : List Entry) → All P es → All P (keep test es)
  All-keep test [] h = tt
  All-keep test (e ∷ es) h = elim (Bool-cases (test e)) [
    | inl p ↦ rw p (h.0, All-keep test es h.1)
    | inr p ↦ rw p (All-keep test es h.1)
  ]

  All-take : (n : ℕ) (es : List Entry) → All P es → All P (take n es)
  All-take zero es h = tt
  All-take (suc n) [] h = tt
  All-take (suc n) (e ∷ es) h = (h.0, All-take n es h.1)

Chain-take : (n : ℕ) (es : List Entry) → Chain es → Chain (take n es)
Chain-take zero es h = tt
Chain-take (suc n) [] h = tt
Chain-take (suc n) (e ∷ es) h = (All-take _ n es h.0, Chain-take n es h.1)

Chain-keep : (test : Entry → Bool) (es : List Entry) → Chain es → Chain (keep test es)
Chain-keep test [] h = tt
Chain-keep test (e ∷ es) h = elim (Bool-cases (test e)) [
  | inl p ↦ rw p (All-keep _ test es h.0, Chain-keep test es h.1)
  | inr p ↦ rw p (Chain-keep test es h.1)
]

-- Every id of an ascending list is at least its bound.
Ascending-above :
    (lo next : ℕ) (es : List Entry) → Ascending lo next es → All (λ (e : Entry). lo ≤ e.id) es
Ascending-above lo next [] asc = tt
Ascending-above lo next (e ∷ es) asc = (
  asc.0,
  All-map _ _ (λ x h. omega (arith, h, asc.0)) es (Ascending-above (suc e.id) next es asc.1),
)

Ascending-Chain : (lo next : ℕ) (es : List Entry) → Ascending lo next es → Chain es
Ascending-Chain lo next [] asc = tt
Ascending-Chain lo next (e ∷ es) asc =
    (Ascending-above (suc e.id) next es asc.1, Ascending-Chain (suc e.id) next es asc.1)

find_id-cons :
    (x : Entry) (table es : List Entry)
    → All (λ (e : Entry). x.id < e.id) es
    → All (Waiting table) es
    → All (Waiting (x ∷ table)) es
find_id-cons x table [] above h = tt
find_id-cons x table (e ∷ es) above h =
    ((ground (arith, above.0, h.0.0), h.0.1), find_id-cons x table es above.1 h.1)

waiting_entries : List Entry → List Entry
waiting_entries = keep (λ e. is_status pending e.status)

-- The entries that the query finds are in the table, and wait.
keep-Waiting :
    (lo next : ℕ) (es : List Entry) → Ascending lo next es → All (Waiting es) (waiting_entries es)
unfolding waiting_entries
keep-Waiting lo next [] asc = tt
keep-Waiting lo next (e ∷ es) asc =
    let rest =
      find_id-cons e es (waiting_entries es)
        (All-keep _ (λ x. is_status pending x.status) es (Ascending-above (suc e.id) next es asc.1))
        (keep-Waiting (suc e.id) next es asc.1) in
    elim (Bool-cases (is_status pending e.status)) [
      | inl p ↦ rw p ((ground arith, p), rest)
      | inr p ↦ rw p rest
    ]

waiting-budget : (es : List Entry) → length (waiting_entries es) ≤ budget es
unfolding waiting_entries
waiting-budget [] = omega arith
waiting-budget (e ∷ es) = ground (arith, waiting-budget es)

budget-idle : (es : List Entry) → length (waiting_entries es) ≡ 0 → budget es ≡ 0
unfolding waiting_entries
budget-idle [] h = refl
budget-idle (e ∷ es) h = ground (arith, budget-idle es)

module _ (api : SinkApi) (py : Printing) (now : ℕ) where
  open api use {Sink, write_batch}

  -- What an attempt at the entry `i` does to the table.
  abbrev Attempted : ℕ → Dlq → Dlq → Type 0
  Attempted i q q' =
      (change : Entry → Entry) × IsAttempt change
      × (q' ≡ record q { entries = update_where (has_id i) change q.entries })

  settle-Attempted :
      (i : ℕ) (q : Dlq) (answer : Outcome (Unit {0}) × Sink)
      → Attempted i q (settle api py now i q answer).0
  unfolding mark_replayed mark_failed
  settle-Attempted i q (ok done, s) = (_, status-IsAttempt replayed refl, refl)
  settle-Attempted i q (raised message, s) = (_, fail-IsAttempt message, refl)

  attempt-Attempted :
      (i : ℕ) (q : Dlq) (s : Sink) (events : Outcome (List ChangeEvent))
      → Attempted i q (attempt api py now i q s events).0
  unfolding mark_failed discard
  attempt-Attempted i q s (raised message) = (_, fail-IsAttempt message, refl)
  attempt-Attempted i q s (ok []) = (_, status-IsAttempt discarded refl, refl)
  attempt-Attempted i q s (ok (ev ∷ events)) = settle-Attempted i q (write_batch (ev ∷ events) s)

  retry_entry-Attempted :
      (i : ℕ) (q : Dlq) (s : Sink) → Attempted i q (retry_entry api py now i (q, s)).0
  unfolding retry_entry
  retry_entry-Attempted i q s = attempt-Attempted i q s (get_events py now i q)

  retry_all-budget :
      (es : List Entry) (q : Dlq) (s : Sink)
      → Ascending 0 q.next_id q.entries
      → Chain es
      → All (Waiting q.entries) es
      → budget (retry_all api py now es (q, s)).0.entries + length es ≤ budget q.entries
  unfolding retry_all
  retry_all-budget [] q s asc chain waits = omega arith
  retry_all-budget (e ∷ es) q s asc chain waits =
      let (change, a, eq) = retry_entry-Attempted e.id q s in
      let s' = (retry_entry api py now e.id (q, s)).1 in
      let q' : Dlq = record q { entries = update_where (has_id e.id) change q.entries } in
      let rest : budget (retry_all api py now es (q', s')).0.entries + length es
          ≤ budget q'.entries =
        retry_all-budget es q' s'
          (update_where-Ascending (has_id e.id) change a.keeps_id 0 q.next_id q.entries asc) chain.1
          (still-Waiting change a e.id q.entries es chain.0 waits.1) in
      let step : budget q'.entries < budget q.entries =
        budget-update change a e.id 0 q.next_id q.entries e asc waits.0.0 waits.0.1 in
      subst
        (λ (d : Dlq).
          budget (retry_all api py now es (d, s')).0.entries + suc (length es) ≤ budget q.entries)
        (sym eq) (omega (arith, rest, step))

  retry_all-Ascending :
      (es : List Entry) (q : Dlq) (s : Sink)
      → Ascending 0 q.next_id q.entries
      → let q' = (retry_all api py now es (q, s)).0 in Ascending 0 q'.next_id q'.entries
  unfolding retry_all
  retry_all-Ascending [] q s asc = asc
  retry_all-Ascending (e ∷ es) q s asc =
      let (change, a, eq) = retry_entry-Attempted e.id q s in
      let s' = (retry_entry api py now e.id (q, s)).1 in
      let q' : Dlq = record q { entries = update_where (has_id e.id) change q.entries } in
      subst
        (λ (d : Dlq).
          let r = (retry_all api py now es (d, s')).0 in Ascending 0 r.next_id r.entries)
        (sym eq)
        (retry_all-Ascending es q' s'
          (update_where-Ascending (has_id e.id) change a.keeps_id 0 q.next_id q.entries asc))

  -- A pass lowers the budget by at least one for each entry that it tries.
  retry_pending-budget :
      (q : Dlq) (s : Sink)
      → Ascending 0 q.next_id q.entries
      → budget (retry_pending api py now (q, s)).0.entries + length (get_pending 10 q)
        ≤ budget q.entries
  unfolding retry_pending get_pending waiting_entries
  retry_pending-budget q s asc =
      let wait = waiting_entries q.entries in
      retry_all-budget (take 10 wait) q s asc
        (Chain-take 10 wait (
          Chain-keep (λ e. is_status pending e.status) q.entries
            (Ascending-Chain 0 q.next_id q.entries asc)))
        (All-take _ 10 wait (keep-Waiting 0 q.next_id q.entries asc))

  pass-spends :
      (n : ℕ) (q : Dlq) (s : Sink)
      → Ascending 0 q.next_id q.entries
      → budget q.entries ≤ suc n
      → budget (retry_pending api py now (q, s)).0.entries ≤ n
  unfolding get_pending waiting_entries
  pass-spends n q s asc h = grind (
    arith,
    retry_pending-budget q s asc,
    length-take 10 (waiting_entries q.entries),
    budget-idle q.entries,
  )

  -- Whatever the sink answers, and whatever it does to its state, the worker comes to an end: after
  -- as many passes as the budget of the waiting entries, with no call from outside between them, no
  -- entry waits any more.
  pub rounds_settle :
      (n : ℕ) (q : Dlq) (s : Sink)
      → Ascending 0 q.next_id q.entries
      → budget q.entries ≤ n
      → pending_count (rounds api py now n (q, s)).0 ≡ 0
  unfolding rounds pending_count waiting_entries
  rounds_settle zero q s asc h = omega (arith, h, waiting-budget q.entries)
  rounds_settle (suc n) q s asc h =
      let w = retry_pending api py now (q, s) in
      rounds_settle n w.0 w.1
        (unfold retry_pending in retry_all-Ascending (get_pending 10 q) q s asc)
        (pass-spends n q s asc h)
