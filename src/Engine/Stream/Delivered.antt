-- ===== src/Engine/Stream/Delivered.antt =====
-- The streaming loop of core/engine.py delivers at least once.
use dremio_cdc.Prelude.{
  ℕ, ◌+◌, ◌≡◌, refl, sym, ap, subst, ◌∙◌, ◌⊎◌, inl, inr, Bool, true, false, ◌||◌, Option, none,
  some, List, [], ◌∷◌, ◌++◌, Text, text_eq, pair_eq, All, All-map, All-append, Bool-cases,
}
use mathlib.Core.List.{append-nil, append_assoc}
use dremio_cdc.Event.{Value, ChangeEvent}
use dremio_cdc.Engine.Worker.{Env, Config, Worker, key_of}
use dremio_cdc.Engine.Delivery.{Delivery, Safe, HasQueue, saved, masked}
use dremio_cdc.Engine.Flush.{flush}
use dremio_cdc.Engine.Flush.Safety.{
  flush_loses_nothing, flush_keeps, flush-HasQueue, flush_commits_own,
}
use dremio_cdc.Engine.Stream.{
  Arrival, Loop, advance, flush_loop, tick, add_event, flush_if, receive, turn, hear, read,
  set_state, finish, begin, stream,
}

abbrev pub item_events : Option ChangeEvent → List ChangeEvent
item_events none = []
item_events (some ev) = ev ∷ []

-- The changes that the source yields, without the heartbeats.
abbrev pub events : List Arrival → List ChangeEvent
events [] = []
events (a ∷ later) = item_events a.item ++ events later

-- The last offset among the changes, None if there is none.
abbrev pub position : Value → List ChangeEvent → Value
position v [] = v
position v (ev ∷ evs) = position (advance v ev) evs

position-append :
    (v : Value) (xs ys : List ChangeEvent) → position v (xs ++ ys) ≡ position (position v xs) ys
position-append v [] ys = refl
position-append v (x ∷ xs) ys = position-append (advance v x) xs ys

-- The saved position is the one before the loop, or that of the first changes of `done`.
abbrev pub CoveredBy : {env : Env} → Config → Value → List ChangeEvent → Worker env → Type 0
CoveredBy cfg start done w =
    (saved (key_of cfg) w ≡ start)
    ⊎ ((pre : List ChangeEvent) × (post : List ChangeEvent) × ((pre ++ post ≡ done)
          × (saved (key_of cfg) w ≡ position Value.null pre)))

module _ {env : Env} (cfg : Config) (d : Delivery env) where
  CoveredBy-append :
      (start : Value) (done more : List ChangeEvent) (u w : Worker env)
      → saved (key_of cfg) w ≡ saved (key_of cfg) u
      → CoveredBy cfg start done u
      → CoveredBy cfg start (done ++ more) w
  CoveredBy-append start done more u w same (inl e) = inl (same ∙ e)
  CoveredBy-append start done more u w same (inr (pre, post, h)) =
      inr (
        pre,
        post ++ more,
        (sym (append_assoc pre post more) ∙ ap (λ l. l ++ more) h.0, same ∙ h.1),
      )

  -- What the turns of the loop keep: `done` is delivered, the saved position covers no more than
  -- `done`, and the offset of the next flush is that of the last change read.
  pub record Inv (start : Value) (done : List ChangeEvent) (l : Loop env) : Type 0 where
    pub queue : HasQueue l.worker
    pub safe : All (λ ev. Safe d l.worker (masked env cfg ev)) done
    pub covered : CoveredBy cfg start done l.worker
    pub last : l.last_offset ≡ position Value.null (done ++ l.batch)

  flushed :
      (start : Value) (done batch : List ChangeEvent) (offset : Value) (w : Worker env)
      → HasQueue w
      → All (λ ev. Safe d w (masked env cfg ev)) done
      → CoveredBy cfg start done w
      → offset ≡ position Value.null (done ++ batch)
      → All (λ ev. Safe d (flush env cfg batch offset w) (masked env cfg ev)) (done ++ batch)
        × CoveredBy cfg start (done ++ batch) (flush env cfg batch offset w)
  flushed start done batch offset w q safe covered last = (
    All-append _ done batch
        (All-map _ _ (λ ev h. flush_keeps cfg d batch offset w (masked env cfg ev) h) done safe)
        (flush_loses_nothing cfg d batch offset w q),
    elim (flush_commits_own cfg d batch offset w (key_of cfg)).0 [
      | inl same ↦ CoveredBy-append start done batch w (flush env cfg batch offset w) same covered
      | inr new ↦ inr (done ++ batch, [], (append-nil (done ++ batch), new.1 ∙ last))
    ],
  )

  flush_loop-Inv :
      (start : Value) (done : List ChangeEvent) (now : ℕ) (l : Loop env)
      → Inv start done l
      → Inv start (done ++ l.batch) (flush_loop env cfg now l)
  unfolding flush_loop
  flush_loop-Inv start done now l inv =
      let after =
        flushed start done l.batch l.last_offset l.worker inv.queue inv.safe inv.covered inv.last in
      record {
        queue = flush-HasQueue cfg d l.batch l.last_offset l.worker inv.queue;
        safe = after.0;
        covered = after.1;
        last = inv.last ∙ ap (position Value.null) (sym (append-nil (done ++ l.batch)));
      }

  -- Some of the events read are delivered, and the others wait in the batch.
  pub record Read (start : Value) (seen : List ChangeEvent) (l : Loop env) : Type 0 where
    pub done : List ChangeEvent
    pub split : done ++ l.batch ≡ seen
    pub inv : Inv start done l

  pub flush_if-Read :
      (start : Value) (seen : List ChangeEvent) (now : ℕ) (b : Bool) (l : Loop env)
      → Read start seen l
      → Read start seen (flush_if env cfg b now l)
  unfolding flush_loop
  flush_if-Read start seen now true l r = record {
    done = r.done ++ l.batch;
    split = append-nil (r.done ++ l.batch) ∙ r.split;
    inv = flush_loop-Inv start r.done now l r.inv;
  }
  flush_if-Read start seen now false l r = r

  pub add_event-Read :
      (start : Value) (seen : List ChangeEvent) (ev : ChangeEvent) (l : Loop env)
      → Read start seen l
      → Read start (seen ++ (ev ∷ [])) (add_event env cfg ev l)
  add_event-Read start seen ev l r =
      let assoc = append_assoc r.done l.batch (ev ∷ []) in
      record {
        done = r.done;
        split = sym assoc ∙ ap (λ s. s ++ (ev ∷ [])) r.split;
        inv = record {
          queue = r.inv.queue;
          safe = r.inv.safe;
          covered = r.inv.covered;
          last =
              ap (λ v. advance v ev) r.inv.last
              ∙ (sym (position-append Value.null (r.done ++ l.batch) (ev ∷ []))
                  ∙ ap (position Value.null) assoc);
        };
      }

  receive-Read :
      (start : Value) (seen : List ChangeEvent) (now : ℕ) (item : Option ChangeEvent) (l : Loop env)
      → Read start seen l
      → Read start (seen ++ item_events item) (receive env cfg now item l)
  unfolding receive
  receive-Read start seen now none l r =
      subst (λ (s : List ChangeEvent). Read start s (receive env cfg now none l))
        (sym (append-nil seen)) (flush_if-Read start seen now _ l r)
  receive-Read start seen now (some ev) l r =
      flush_if-Read start (seen ++ (ev ∷ [])) now _ (add_event env cfg ev l)
        (add_event-Read start seen ev l r)

  -- The clock and the stop flag do not matter to the invariant.
  pub reset-Read :
      (start : Value) (seen : List ChangeEvent) (t : ℕ) (b : Bool) (l : Loop env)
      → Read start seen l
      → Read start seen (record l { worker = record l.worker { ticks = t; stopped = b } })
  reset-Read start seen t b l r = record {
    done = r.done;
    split = r.split;
    inv = record {
      queue = r.inv.queue;
      safe = r.inv.safe;
      covered = r.inv.covered;
      last = r.inv.last;
    };
  }

  -- Nor does the state of the source.
  pub source-Read :
      (start : Value) (seen : List ChangeEvent) (s : env.Source) (l : Loop env)
      → Read start seen l
      → Read start seen (record l { worker = record l.worker { source = s } })
  source-Read start seen s l r = record {
    done = r.done;
    split = r.split;
    inv = record {
      queue = r.inv.queue;
      safe = r.inv.safe;
      covered = r.inv.covered;
      last = r.inv.last;
    };
  }

  turn-Read :
      (start : Value) (seen : List ChangeEvent) (item : Option ChangeEvent) (l : Loop env)
      → Read start seen l
      → Read start (seen ++ item_events item) (turn env cfg item l)
  unfolding turn
  turn-Read start seen item l r =
      receive-Read start seen (env.clock l.worker.ticks) item (tick env cfg l)
        (reset-Read start seen (l.worker.ticks + 1) l.worker.stopped l r)

  -- The loop has read the first of the events, and all of them unless the stop flag ended it.
  record Ran (start : Value) (all : List ChangeEvent) (r : Bool × Loop env) : Type 0 where
    seen : List ChangeEvent
    rest : List ChangeEvent
    parts : seen ++ rest ≡ all
    whole : r.0 ≡ false → rest ≡ []
    reading : Read start seen r.1

  read-Ran :
      (start : Value) (seen : List ChangeEvent) (arrivals : List Arrival) (l : Loop env)
      → Read start seen l
      → Ran start (seen ++ events arrivals) (read env cfg arrivals l)
  unfolding read
  read-Ran start seen [] l r = record {
    seen = seen;
    rest = [];
    parts = refl;
    whole = λ e. refl;
    reading = r;
  }
  read-Ran start seen (a ∷ later) l r =
      let r' = reset-Read start seen l.worker.ticks (l.worker.stopped || a.stop) l r in
      elim (Bool-cases (l.worker.stopped || a.stop)) [
        | inl stop ↦
            rw (stop, read)
              record {
                seen = seen;
                rest = item_events a.item ++ events later;
                parts = refl;
                whole = λ e. cc;
                reading = r';
              }
        | inr go ↦
            rw (go, read)
              (subst
                (λ (s : List ChangeEvent).
                  Ran start s (read env cfg later (turn env cfg a.item (hear env cfg a.stop l))))
                (append_assoc seen (item_events a.item) (events later))
                (read-Ran start (seen ++ item_events a.item) later _
                  (turn-Read start seen a.item (hear env cfg a.stop l) r')))
      ]

  pub begin-Read : (w : Worker env) → HasQueue w → Read (saved (key_of cfg) w) [] (begin env cfg w)
  unfolding begin set_state
  begin-Read w q = record {
    done = [];
    split = refl;
    inv = record { queue = q; safe = tt; covered = inl refl; last = refl };
  }

  -- What a stream leaves: the events of `seen` are delivered, and the position saved is at most
  -- that of the last of them.
  pub record Delivered (start : Value) (all : List ChangeEvent) (w : Worker env) : Type 0 where
    pub seen : List ChangeEvent
    pub rest : List ChangeEvent
    pub parts : seen ++ rest ≡ all
    pub safe : All (λ ev. Safe d w (masked env cfg ev)) seen
    pub covered : CoveredBy cfg start seen w

  flush-Delivered :
      (start : Value) (all : List ChangeEvent) (r : Bool × Loop env) (ran : Ran start all r)
      → (All
          (λ ev. Safe d (flush env cfg r.1.batch r.1.last_offset r.1.worker) (masked env cfg ev))
          ran.seen)
        × CoveredBy cfg start ran.seen (flush env cfg r.1.batch r.1.last_offset r.1.worker)
  flush-Delivered start all r ran =
      let inv = ran.reading.inv in
      subst
        (λ (s : List ChangeEvent).
          All
            (λ ev. Safe d (flush env cfg r.1.batch r.1.last_offset r.1.worker) (masked env cfg ev))
            s
          × CoveredBy cfg start s (flush env cfg r.1.batch r.1.last_offset r.1.worker))
        ran.reading.split
        (flushed start ran.reading.done r.1.batch r.1.last_offset r.1.worker inv.queue inv.safe
          inv.covered inv.last)

  finish-Delivered :
      (start : Value) (all : List ChangeEvent) (ending : Option Text) (r : Bool × Loop env)
      → Ran start all r
      → Delivered start all (finish env cfg ending r)
  unfolding finish set_state
  finish-Delivered start all none (broke, l) ran =
      let last = flush-Delivered start all (broke, l) ran in
      record {
        seen = ran.seen;
        rest = ran.rest;
        parts = ran.parts;
        safe = last.0;
        covered = last.1;
      }
  finish-Delivered start all (some message) (true, l) ran =
      let last = flush-Delivered start all (true, l) ran in
      record {
        seen = ran.seen;
        rest = ran.rest;
        parts = ran.parts;
        safe = last.0;
        covered = last.1;
      }
  finish-Delivered start all (some message) (false, l) ran = record {
    seen = ran.reading.done;
    rest = l.batch ++ ran.rest;
    parts =
        sym (append_assoc ran.reading.done l.batch ran.rest)
        ∙ (ap (λ s. s ++ ran.rest) ran.reading.split ∙ ran.parts);
    safe = ran.reading.inv.safe;
    covered = ran.reading.inv.covered;
  }

  -- With a dead letter queue the stream delivers at least once: whatever the source yields and
  -- however it ends, whenever the worker is stopped and whatever calls raise, a first part of the
  -- events is, as masked, in the sink or in the queue, and the position saved for the next start is
  -- the one before the stream or that of events of this part. No event before the saved position is
  -- lost.
  pub stream_at_least_once :
      (arrivals : List Arrival) (ending : Option Text) (w : Worker env)
      → HasQueue w
      → Delivered (saved (key_of cfg) w) (events arrivals) (stream env cfg arrivals ending w)
  unfolding stream
  stream_at_least_once arrivals ending w q =
      finish-Delivered (saved (key_of cfg) w) (events arrivals) ending
        (read env cfg arrivals (begin env cfg w))
        (read-Ran (saved (key_of cfg) w) [] arrivals (begin env cfg w) (begin-Read w q))

  -- When the source ends and the stop flag did not end the loop, each event that it yielded is, as
  -- masked, in the sink or in the queue: the last flush leaves none behind.
  pub stream_delivers_all :
      (arrivals : List Arrival) (w : Worker env)
      → HasQueue w
      → (read env cfg arrivals (begin env cfg w)).0 ≡ false
      → All (λ ev. Safe d (stream env cfg arrivals none w) (masked env cfg ev)) (events arrivals)
  unfolding stream finish set_state
  stream_delivers_all arrivals w q go =
      let r = read env cfg arrivals (begin env cfg w) in
      let ran = read-Ran (saved (key_of cfg) w) [] arrivals (begin env cfg w) (begin-Read w q) in
      let whole =
        sym (append-nil ran.seen) ∙ (ap (λ s. ran.seen ++ s) (sym (ran.whole go)) ∙ ran.parts) in
      subst (All (λ ev. Safe d (stream env cfg arrivals none w) (masked env cfg ev))) whole
        (flush-Delivered (saved (key_of cfg) w) (events arrivals) r ran).0
