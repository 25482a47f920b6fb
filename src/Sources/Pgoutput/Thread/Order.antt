-- ===== src/Sources/Pgoutput/Thread/Order.antt =====
-- The replication thread of sources/postgres.py and its queues keep the order of the log.
use dremio_cdc.Prelude.{
  ◌≡◌, refl, sym, ap, ◌∙◌, inl, inr, Bool, ◌&&◌, none, some, List, [], ◌∷◌, ◌++◌, keep,
  append_assoc, append-nil, Text, text_eq, ◌==◌, contains, if◌then◌else◌, Bool-cases,
}
use dremio_cdc.Prelude.Dict.{Dict, insert, lookup-insert}
use dremio_cdc.Event.{ChangeEvent}
use dremio_cdc.Sources.Pgoutput.Fanout.{short_match, targets}
use dremio_cdc.Sources.Pgoutput.Thread.{Queue, Work, or_empty, queue_of, put}

-- The events that wait in a queue.
abbrev pub events_of : Queue → List ChangeEvent
events_of [] = []
events_of (none ∷ q) = events_of q
events_of (some ev ∷ q) = ev ∷ events_of q

abbrev pub when : Bool → ChangeEvent → List ChangeEvent → List ChangeEvent
when b ev evs = if b then ev ∷ evs else evs

module _ (key : Text) where
  -- What the stream of the table has yielded.
  abbrev pub yielded_by : List (Text × ChangeEvent) → List ChangeEvent
  yielded_by [] = []
  yielded_by ((t, ev) ∷ rest) = when (t == key) ev (yielded_by rest)

  -- The event, as often as the table is among those it is still to be put for.
  abbrev pub copies : ChangeEvent → List Text → List ChangeEvent
  copies ev [] = []
  copies ev (t ∷ ts) = when (t == key) ev (copies ev ts)

  abbrev pub pending : Work → List ChangeEvent
  pending (Work.putting own ev ts evs start) = copies ev ts
  pending (Work.breaking ev ts) = copies ev ts
  pending w = []

  -- The event, if the table is one that it matches in short.
  abbrev pub in_short : ChangeEvent → List Text → List ChangeEvent
  in_short ev [] = []
  in_short ev (t ∷ ts) = when (t == key && short_match ev.source_table t) ev (in_short ev ts)

  -- Whose an event is: of its own table, if that has a queue, else of those that match it in short.
  abbrev pub own : ChangeEvent → List Text → List ChangeEvent
  own ev tables =
      if contains ev.source_table tables
      then when (ev.source_table == key) ev []
      else in_short ev tables

  abbrev pub own_events : List (ChangeEvent × List Text) → List ChangeEvent
  own_events [] = []
  own_events ((ev, tables) ∷ rest) = own ev tables ++ own_events rest

  copies-keep :
      (ev : ChangeEvent) (tables : List Text)
      → copies ev (keep (short_match ev.source_table) tables) ≡ in_short ev tables
  copies-keep ev [] = refl
  copies-keep ev (t ∷ ts) = elim (Bool-cases (short_match ev.source_table t)) [
    | inl e ↦ elim (Bool-cases (t == key)) [
      | inl f ↦ rw (e, f) (ap (λ l. ev ∷ l) (copies-keep ev ts))
      | inr f ↦ rw (e, f) (copies-keep ev ts)
    ]
    | inr e ↦ elim (Bool-cases (t == key)) [
      | inl f ↦ rw (e, f) (copies-keep ev ts)
      | inr f ↦ rw (e, f) (copies-keep ev ts)
    ]
  ]

  pub copies-targets :
      (ev : ChangeEvent) (tables : List Text)
      → copies ev (targets ev.source_table tables) ≡ own ev tables
  unfolding targets
  copies-targets ev tables = elim (Bool-cases (contains ev.source_table tables)) [
    | inl e ↦ rw e
    | inr e ↦ rw e (copies-keep ev tables)
  ]

  pub own_events-snoc :
      (l : List (ChangeEvent × List Text)) (ev : ChangeEvent) (tables : List Text)
      → own_events (l ++ ((ev, tables) ∷ [])) ≡ own_events l ++ own ev tables
  own_events-snoc [] ev tables = append-nil (own ev tables)
  own_events-snoc ((e, ts) ∷ l) ev tables =
      ap (λ r. own e ts ++ r) (own_events-snoc l ev tables)
      ∙ sym (append_assoc (own e ts) (own_events l) (own ev tables))

  pub yielded_by-snoc :
      (l : List (Text × ChangeEvent)) (t : Text) (ev : ChangeEvent)
      → yielded_by (l ++ ((t, ev) ∷ [])) ≡ yielded_by l ++ when (t == key) ev []
  yielded_by-snoc [] t ev = refl
  yielded_by-snoc ((u, e) ∷ l) t ev = elim (Bool-cases (u == key)) [
    | inl same ↦ rw same (ap (λ r. e ∷ r) (yielded_by-snoc l t ev))
    | inr other ↦ rw other (yielded_by-snoc l t ev)
  ]

  events_of-snoc :
      (q : Queue) (ev : ChangeEvent) → events_of (q ++ (some ev ∷ [])) ≡ events_of q ++ (ev ∷ [])
  events_of-snoc [] ev = refl
  events_of-snoc (none ∷ q) ev = events_of-snoc q ev
  events_of-snoc (some e ∷ q) ev = ap (λ r. e ∷ r) (events_of-snoc q ev)

  events_of-mark : (q : Queue) → events_of (q ++ (none ∷ [])) ≡ events_of q
  events_of-mark [] = refl
  events_of-mark (none ∷ q) = events_of-mark q
  events_of-mark (some e ∷ q) = ap (λ r. e ∷ r) (events_of-mark q)

  pub queue_of-insert :
      (t : Text) (q : Queue) (queues : Dict Text Queue)
      → queue_of key (insert t q queues) ≡ (if t == key then q else queue_of key queues)
  queue_of-insert t q queues =
      ap or_empty (lookup-insert t key q queues)
      ∙ elim (Bool-cases (t == key)) [ inl e ↦ rw e | inr e ↦ rw e ]

  -- A put moves the event from the calls to make into the queue.
  pub put-events :
      (t : Text) (ev : ChangeEvent) (ts : List Text) (queues : Dict Text Queue)
      → events_of (queue_of key (put t (some ev) queues)) ++ copies ev ts
        ≡ events_of (queue_of key queues) ++ copies ev (t ∷ ts)
  put-events t ev ts queues =
      ap (λ q. events_of q ++ copies ev ts)
        (queue_of-insert t (queue_of t queues ++ (some ev ∷ [])) queues)
      ∙ elim (Bool-cases (t == key)) [
        | inl e ↦ rw e (
            ap (λ u. events_of (queue_of u queues ++ (some ev ∷ [])) ++ copies ev ts)
              ((text_eq.agrees_iff t key).0 e)
            ∙ (ap (λ l. l ++ copies ev ts) (events_of-snoc (queue_of key queues) ev)
                ∙ append_assoc (events_of (queue_of key queues)) (ev ∷ []) (copies ev ts)))
        | inr e ↦ rw e
      ]

  pub put-mark :
      (t : Text) (queues : Dict Text Queue)
      → events_of (queue_of key (put t none queues)) ≡ events_of (queue_of key queues)
  put-mark t queues =
      ap events_of (queue_of-insert t (queue_of t queues ++ (none ∷ [])) queues)
      ∙ elim (Bool-cases (t == key)) [
        | inl e ↦ rw e (
            ap (λ u. events_of (queue_of u queues ++ (none ∷ []))) ((text_eq.agrees_iff t key).0 e)
            ∙ events_of-mark (queue_of key queues))
        | inr e ↦ rw e
      ]
