-- ===== src/Sources/PubSub/Acked.antt =====
-- What sources/pubsub.py has acknowledged when a batch is flushed, while core/engine.py reads from it.
pub mod Turns
use dremio_cdc.Prelude.{
  ℕ, ◌+◌, ◌≡◌, refl, sym, ap, subst, ◌∙◌, ◌⊎◌, inl, inr, Bool, true, false, ◌||◌, Option, none,
  some, List, [], ◌∷◌, ◌++◌, append-nil, All, All-map, All-append, Text, text_eq, Bool-cases,
}
use dremio_cdc.Prelude.Dict.{lookup, insert, lookup-insert_self}
use dremio_cdc.Event.{Value, ChangeEvent}
use dremio_cdc.Outcome.{ok}
use dremio_cdc.Engine.Worker.{Env, Worker, key_of}
use dremio_cdc.Engine.Worker
use dremio_cdc.Engine.Delivery.{
  Delivery, In, In-append_left, In-head, Safe, HasQueue, saved, masked,
}
use dremio_cdc.Engine.Flush.{flush}
use dremio_cdc.Engine.Flush.Safety.{flush_keeps, flush_source}
use dremio_cdc.Engine.Stream.{
  Loop, flush_loop, flush_if, tick, add_event, receive, turn, hear, begin,
}
use dremio_cdc.Engine.Stream.Delivered.{
  Read, item_events, flush_if-Read, add_event-Read, reset-Read, source-Read, begin-Read,
}
use dremio_cdc.Sources.PubSub.{Config, Received}
use dremio_cdc.Sources.PubSub.Acks.{
  PubSub, acknowledge, acknowledge-acked, acked_ids, add_pending, pending_of, or_empty,
  on_batch_committed, on_batch_committed-Held, on_batch_committed-requested, Held,
}
use dremio_cdc.Sources.PubSub.Loop.{
  Google, Turn, env, Result, with_source, hand_over, refuse, event_at, take_message, take_item,
  read_pulled,
}

pub All-In : {A : Type 0} (P : A → Type 0) (xs : List A) (x : A) → All P xs → In x xs → P x
All-In P [] x h i = absurd i
All-In P (y ∷ ys) x h (inl e) = subst P (sym e) h.0
All-In P (y ∷ ys) x h (inr i) = All-In P ys x h.1 i

module _ (base : Env) (g : Google) (conf : Config) (cfg : Worker.Config)
    (d : Delivery (env base g conf)) (pulled : List Received) where
  -- The id may be acknowledged: it is that of a message that was pulled and cannot be decoded, or
  -- whose event is delivered.
  abbrev pub Done : Worker (env base g conf) → Received → Type 0
  Done w m =
      (event_at base g conf cfg m ≡ none)
      ⊎ ((ev : ChangeEvent) × (event_at base g conf cfg m ≡ some ev)
          × Safe d w (masked (env base g conf) cfg ev))

  abbrev pub MayAck : Worker (env base g conf) → Text → Type 0
  MayAck w id = (m : Received) × (In m pulled × (m.ack_id ≡ id)) × Done w m

  -- The id is one of an event among those read.
  abbrev WasRead : List ChangeEvent → Text → Type 0
  WasRead seen id =
      (m : Received) × (In m pulled × (m.ack_id ≡ id))
      × (ev : ChangeEvent) × (event_at base g conf cfg m ≡ some ev)
      × In ev seen

  abbrev pub Acked : Loop (env base g conf) → Type 0
  Acked l = All (MayAck l.worker) (acked_ids l.worker.source.requests)

  abbrev Pending : List ChangeEvent → Loop (env base g conf) → Type 0
  Pending seen l = All (WasRead seen) (pending_of cfg.table l.worker.source)

  -- What the turns of the loop keep.
  record Acking (start : Value) (seen : List ChangeEvent) (l : Loop (env base g conf))
      : Type 0 where
    reading : Read cfg d start seen l
    acked : Acked l
    pending : Pending seen l

  flushed_worker : Loop (env base g conf) → Worker (env base g conf)
  flushed_worker l = flush (env base g conf) cfg l.batch l.last_offset l.worker

  seen_safe :
      (start : Value) (seen : List ChangeEvent) (now : ℕ) (l : Loop (env base g conf))
      → Read cfg d start seen l
      → All (λ ev. Safe d (flushed_worker l) (masked (env base g conf) cfg ev)) seen
  unfolding flushed_worker flush_loop
  seen_safe start seen now l r =
      let r' = flush_if-Read cfg d start seen now true l r in
      subst (All (λ ev. Safe d (flushed_worker l) (masked (env base g conf) cfg ev)))
        (sym (append-nil r'.done) ∙ r'.split) r'.inv.safe

  MayAck-flush :
      (l : Loop (env base g conf)) (id : Text) → MayAck l.worker id → MayAck (flushed_worker l) id
  unfolding flushed_worker
  MayAck-flush l id (m, e, inl bad) = (m, e, inl bad)
  MayAck-flush l id (m, e, inr (ev, q, safe)) =
      (m, e, inr (ev, q, flush_keeps cfg d l.batch l.last_offset l.worker _ safe))

  WasRead-MayAck :
      (seen : List ChangeEvent) (w : Worker (env base g conf)) (id : Text)
      → All (λ ev. Safe d w (masked (env base g conf) cfg ev)) seen
      → WasRead seen id
      → MayAck w id
  WasRead-MayAck seen w id safe (m, e, ev, q, i) = (m, e, inr (ev, q, All-In _ seen ev safe i))

  -- A flush that commits acknowledges what is pending, and by then all that was read is delivered.
  flush_if-Acking :
      (start : Value) (seen : List ChangeEvent) (now : ℕ) (b : Bool) (l : Loop (env base g conf))
      → Acking start seen l
      → Acking start seen (flush_if (env base g conf) cfg b now l)
  unfolding flushed_worker flush_loop
  flush_if-Acking start seen now true l a =
      let w' = flushed_worker l in
      let safe = seen_safe start seen now l a.reading in
      let held =
        flush_source cfg d (Held (MayAck w') g.server cfg.table) l.batch l.last_offset l.worker
          (λ s h. on_batch_committed-Held (MayAck w') g.server cfg.table l.last_offset s h)
          (
            All-map (MayAck l.worker) (MayAck w') (MayAck-flush l)
                (acked_ids l.worker.source.requests) a.acked,
            All-map (WasRead seen) (MayAck w') (λ id. WasRead-MayAck seen w' id safe)
                (pending_of cfg.table l.worker.source) a.pending,
          ) in
      record {
        reading = flush_if-Read cfg d start seen now true l a.reading;
        acked = held.0;
        pending =
            flush_source cfg d (λ s. All (WasRead seen) (pending_of cfg.table s)) l.batch
              l.last_offset l.worker
              (λ s h.
                subst (All (WasRead seen))
                  (sym (on_batch_committed-requested g.server cfg.table l.last_offset s).2) tt)
              a.pending;
      }
  flush_if-Acking start seen now false l a = a

  receive-Acking :
      (start : Value) (seen : List ChangeEvent) (now : ℕ) (item : Option ChangeEvent)
      (l : Loop (env base g conf))
      → Read cfg d start seen l
      → Acked l
      → Pending (seen ++ item_events item) l
      → Acking start (seen ++ item_events item) (receive (env base g conf) cfg now item l)
  unfolding receive
  receive-Acking start seen now none l r a p =
      subst (λ (s : List ChangeEvent). Acking start s (receive (env base g conf) cfg now none l))
        (sym (append-nil seen))
        (flush_if-Acking start seen now _ l (record {
          reading = r;
          acked = a;
          pending = subst (λ (s : List ChangeEvent). Pending s l) (append-nil seen) p;
        }))
  receive-Acking start seen now (some ev) l r a p =
      flush_if-Acking start (seen ++ (ev ∷ [])) now _ (add_event (env base g conf) cfg ev l)
        (record { reading = add_event-Read cfg d start seen ev l r; acked = a; pending = p })

  turn-Acking :
      (start : Value) (seen : List ChangeEvent) (item : Option ChangeEvent)
      (l : Loop (env base g conf))
      → Read cfg d start seen l
      → Acked l
      → Pending (seen ++ item_events item) l
      → Acking start (seen ++ item_events item) (turn (env base g conf) cfg item l)
  unfolding turn
  turn-Acking start seen item l r a p =
      receive-Acking start seen (base.clock l.worker.ticks) item (tick (env base g conf) cfg l)
        (reset-Read cfg d start seen (l.worker.ticks + 1) l.worker.stopped l r) a p
