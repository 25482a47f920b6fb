-- ===== src/Sources/Pgoutput/Thread/Kept.antt =====
-- What the replication thread of sources/postgres.py and its queues keep, action by action.
use dremio_cdc.Prelude.{
  ℕ, suc, ◌≤◌, ◌≡◌, refl, sym, ap, subst, ◌∙◌, inl, inr, true, false, Option, none, some, List, [],
  ◌∷◌, ◌++◌, map, append_assoc, append-nil, Text, text_eq, ◌==◌, length, arith, Bool-cases,
}
use dremio_cdc.Prelude.Dict.{Dict, lookup, insert}
use dremio_cdc.Event.{ChangeEvent}
use dremio_cdc.Sources.Pgoutput.Thread.{
  Queue, Work, Thread, or_empty, queue_of, tables_of, has_room, put, advance, disturbed, breaks,
  taken,
}
use dremio_cdc.Sources.Pgoutput.Thread.Order.{
  events_of, yielded_by, pending, own, own_events, copies-targets, own_events-snoc, yielded_by-snoc,
  queue_of-insert, put-events, put-mark, when,
}

-- The events of the message that are not given out yet.
abbrev pub waiting : Work → List ChangeEvent
waiting (Work.routing evs start) = evs
waiting (Work.putting own ev ts evs start) = evs
waiting w = []

length-snoc : (q : Queue) (item : Option ChangeEvent) → length (q ++ (item ∷ [])) ≡ suc (length q)
length-snoc [] item = refl
length-snoc (i ∷ q) item = ap suc (length-snoc q item)

firsts-snoc :
    (l : List (ChangeEvent × List Text)) (ev : ChangeEvent) (tables : List Text)
    (evs : List ChangeEvent)
    → map (λ p. p.0) (l ++ ((ev, tables) ∷ [])) ++ evs ≡ map (λ p. p.0) l ++ (ev ∷ evs)
firsts-snoc [] ev tables evs = refl
firsts-snoc (p ∷ l) ev tables evs = ap (λ r. p.0 ∷ r) (firsts-snoc l ev tables evs)

module _ (key : Text) where
  -- For the stream of a table: what it has yielded, what waits in its queue and what is still to be
  -- put there are its own events of those given out, in their order. All that came is given out or
  -- waits, and the queue holds 500 at most.
  pub record Keeps (w : Work) (s : Thread) : Type 0 where
    pub order :
        yielded_by key s.yielded ++ (events_of (queue_of key s.queues) ++ pending key w)
        ≡ own_events key s.routed
    pub all : map (λ p. p.0) s.routed ++ waiting w ≡ s.received
    pub bounded : length (queue_of key s.queues) ≤ 500

  abbrev pub Kept : Thread → Type 0
  Kept s = Keeps s.work s

  pub back : (w : Work) (s : Thread) → s.work ≡ w → Keeps w s → Kept s
  back w s e h = subst (λ v. Keeps v s) (sym e) h

  put-bounded :
      (t : Text) (item : Option ChangeEvent) (queues : Dict Text Queue)
      → has_room t queues ≡ true
      → length (queue_of key queues) ≤ 500
      → length (queue_of key (put t item queues)) ≤ 500
  put-bounded t item queues room h =
      subst (λ (q : Queue). length q ≤ 500)
        (sym (queue_of-insert key t (queue_of t queues ++ (item ∷ [])) queues))
        (elim (Bool-cases (t == key)) [
          | inl e ↦ rw e (rw (length-snoc (queue_of t queues) item) (ground (arith, room)))
          | inr e ↦ rw e h
        ])

  give_out :
      (ev : ChangeEvent) (evs : List ChangeEvent) (start : ℕ) (s : Thread)
      → Keeps (Work.routing (ev ∷ evs) start) s
      → Kept (advance (Work.routing (ev ∷ evs) start) s)
  unfolding advance
  give_out ev evs start s h =
      let y = yielded_by key s.yielded in
      let q = events_of (queue_of key s.queues) in
      let tables = tables_of s.queues in
      let mine = own key ev tables in
      record {
        order =
            ap (λ c. y ++ (q ++ c)) (copies-targets key ev tables)
            ∙ (ap (λ l. y ++ (l ++ mine)) (sym (append-nil q))
                ∙ (sym (append_assoc y (q ++ []) mine)
                    ∙ (ap (λ l. l ++ mine) h.order
                        ∙ sym (own_events-snoc key s.routed ev tables))));
        all = firsts-snoc s.routed ev tables evs ∙ h.all;
        bounded = h.bounded;
      }

  pub advance-Kept : (w : Work) (s : Thread) → s.work ≡ w → Keeps w s → Kept (advance w s)
  unfolding advance
  advance-Kept Work.idle s e h = back _ s e h
  advance-Kept (Work.routing [] start) s e h = record {
    order = h.order;
    all = h.all;
    bounded = h.bounded;
  }
  advance-Kept (Work.routing (ev ∷ evs) start) s e h = give_out ev evs start s h
  advance-Kept (Work.putting own ev [] evs start) s e h = record {
    order = h.order;
    all = h.all;
    bounded = h.bounded;
  }
  advance-Kept (Work.putting own ev (t ∷ ts) evs start) s e h =
      elim (Bool-cases (has_room t s.queues)) [
        | inl room ↦ rw room (record {
          order =
              ap (λ l. yielded_by key s.yielded ++ l) (put-events key t ev ts s.queues) ∙ h.order;
          all = h.all;
          bounded = put-bounded t (some ev) s.queues room h.bounded;
        })
        | inr full ↦ rw full (back _ s e h)
      ]
  advance-Kept (Work.breaking ev []) s e h = record {
    order = h.order;
    all = h.all;
    bounded = h.bounded;
  }
  advance-Kept (Work.breaking ev (t ∷ ts)) s e h = elim (Bool-cases (has_room t s.queues)) [
    | inl room ↦ rw room (record {
      order = ap (λ l. yielded_by key s.yielded ++ l) (put-events key t ev ts s.queues) ∙ h.order;
      all = h.all;
      bounded = put-bounded t (some ev) s.queues room h.bounded;
    })
    | inr full ↦ rw full (back _ s e h)
  ]
  advance-Kept (Work.closing []) s e h = record {
    order = h.order;
    all = h.all;
    bounded = h.bounded;
  }
  advance-Kept (Work.closing (t ∷ ts)) s e h = elim (Bool-cases (has_room t s.queues)) [
    | inl room ↦ rw room (record {
      order = ap (λ l. yielded_by key s.yielded ++ (l ++ [])) (put-mark key t s.queues) ∙ h.order;
      all = h.all;
      bounded = put-bounded t none s.queues room h.bounded;
    })
    | inr full ↦ rw full (back _ s e h)
  ]
  advance-Kept Work.over s e h = back _ s e h

  pub disturbed-Keeps :
      (w : Work) (s : Thread) → breaks w ≡ false → Keeps w s → Keeps (disturbed w) s
  disturbed-Keeps Work.idle s e h = h
  disturbed-Keeps (Work.routing evs start) s e h = h
  disturbed-Keeps (Work.putting true ev ts evs start) s e h = h
  disturbed-Keeps (Work.putting false ev ts evs start) s e h = cc
  disturbed-Keeps (Work.breaking ev ts) s e h = h
  disturbed-Keeps (Work.closing ts) s e h = record {
    order = h.order;
    all = h.all;
    bounded = h.bounded;
  }
  disturbed-Keeps Work.over s e h = h

  pub queue_of-new :
      (t : Text) (queues : Dict Text Queue)
      → lookup t queues ≡ none
      → queue_of key (insert t [] queues) ≡ queue_of key queues
  queue_of-new t queues e = queue_of-insert key t [] queues ∙ elim (Bool-cases (t == key)) [
    | inl same ↦ rw same (
        sym (ap (λ u. queue_of u queues) (sym ((text_eq.agrees_iff t key).0 same)) ∙ ap or_empty e))
    | inr other ↦ rw other
  ]

  pub taken-Kept :
      (t : Text) (q : Queue) (s : Thread) → queue_of t s.queues ≡ q → Kept s → Kept (taken t q s)
  taken-Kept t [] s e h = h
  taken-Kept t (none ∷ q) s e h = h
  taken-Kept t (some ev ∷ q) s e h =
      let y = yielded_by key s.yielded in
      let p = pending key s.work in
      let left = queue_of-insert key t q s.queues in
      elim (Bool-cases (t == key)) [
        | inl same ↦
            let here : queue_of key s.queues ≡ some ev ∷ q =
              ap (λ u. queue_of u s.queues) (sym ((text_eq.agrees_iff t key).0 same)) ∙ e in
            let now : queue_of key (insert t q s.queues) ≡ q = left ∙ rw same in
            let one : when (t == key) ev [] ≡ ev ∷ [] = rw same in
            record {
              order =
                  ap (λ l. yielded_by key (s.yielded ++ ((t, ev) ∷ [])) ++ (events_of l ++ p)) now
                  ∙ (ap (λ l. l ++ (events_of q ++ p))
                        (yielded_by-snoc key s.yielded t ev ∙ ap (λ l. y ++ l) one)
                      ∙ (append_assoc y (ev ∷ []) (events_of q ++ p)
                          ∙ (ap (λ l. y ++ (events_of l ++ p)) (sym here) ∙ h.order)));
              all = h.all;
              bounded =
                  subst (λ (l : Queue). length l ≤ 500) (sym now)
                    (let long = subst (λ (l : Queue). length l ≤ 500) here h.bounded in
                      omega (arith, long));
            }
        | inr other ↦
            let now : queue_of key (insert t q s.queues) ≡ queue_of key s.queues =
              left ∙ rw other in
            let one : when (t == key) ev [] ≡ [] = rw other in
            record {
              order =
                  ap (λ l. yielded_by key (s.yielded ++ ((t, ev) ∷ [])) ++ (events_of l ++ p)) now
                  ∙ (ap (λ l. l ++ (events_of (queue_of key s.queues) ++ p))
                        (yielded_by-snoc key s.yielded t ev ∙ (ap (λ l. y ++ l) one ∙ append-nil y))
                      ∙ h.order);
              all = h.all;
              bounded = subst (λ (l : Queue). length l ≤ 500) (sym now) h.bounded;
            }
      ]
