-- ===== src/Sources/PubSub/Acked/Turns.antt =====
-- What sources/pubsub.py acknowledges while core/engine.py reads from it, turn by turn.
use dremio_cdc.Prelude.{
  ◌≡◌, refl, sym, ap, subst, inl, inr, Bool, true, false, ◌||◌, Option, none, some, List, [], ◌∷◌,
  ◌++◌, append-nil, All, All-map, All-append, Text, text_eq, Bool-cases,
}
use dremio_cdc.Prelude.Dict.{lookup, lookup-insert_self}
use dremio_cdc.Event.{Value, ChangeEvent}
use dremio_cdc.Engine.Worker.{Env, Worker, key_of}
use dremio_cdc.Engine.Worker
use dremio_cdc.Engine.Delivery.{Delivery, In, In-append_left, In-head, HasQueue, saved}
use dremio_cdc.Engine.Stream.{Loop, hear, begin}
use dremio_cdc.Engine.Stream.Delivered.{Read, item_events, reset-Read, source-Read, begin-Read}
use dremio_cdc.Sources.PubSub.{Config, Received}
use dremio_cdc.Sources.PubSub.Acks.{
  PubSub, acknowledge, acknowledge-acked, acked_ids, add_pending, pending_of, or_empty,
}
use dremio_cdc.Sources.PubSub.Loop.{
  Google, Turn, env, Result, with_source, hand_over, refuse, event_at, take_message, take_item,
  read_pulled,
}
use dremio_cdc.Sources.PubSub.Acked.{
  All-In, Done, Acked, Acking, MayAck, Pending, WasRead, turn-Acking,
}

module _ (base : Env) (g : Google) (conf : Config) (cfg : Worker.Config)
    (d : Delivery (env base g conf)) (pulled : List Received) where
  abbrev pub ResultAcked : Result base g conf cfg → Type 0
  ResultAcked r = Acked base g conf cfg d pulled r.1.1

  -- The rest of the reading keeps to the rule.
  abbrev Later : Value → (Loop (env base g conf) → Result base g conf cfg) → Type 0
  Later start later =
      (seen : List ChangeEvent) (l : Loop (env base g conf))
      → Acking base g conf cfg d pulled start seen l
      → ResultAcked (later l)

  hand_over-Acked :
      (start : Value) (seen : List ChangeEvent) (stop : Bool) (item : Option ChangeEvent)
      (later : Loop (env base g conf) → Result base g conf cfg) (l : Loop (env base g conf))
      → Later start later
      → Read cfg d start seen l
      → Acked base g conf cfg d pulled l
      → Pending base g conf cfg d pulled (seen ++ item_events item) l
      → ResultAcked (hand_over base g conf cfg stop item later l)
  hand_over-Acked start seen stop item later l ih r a p =
      elim (Bool-cases (l.worker.stopped || stop)) [
        | inl halt ↦ rw (halt, hand_over) a
        | inr go ↦
            rw (go, hand_over)
              (ih (seen ++ item_events item) _ (
                turn-Acking base g conf cfg d pulled start seen item
                  (hear (env base g conf) cfg stop l)
                  (reset-Read cfg d start seen l.worker.ticks (l.worker.stopped || stop) l r) a p))
      ]

  refuse-Acked :
      (start : Value) (seen : List ChangeEvent) (b : Bool) (s : PubSub)
      (later : Loop (env base g conf) → Result base g conf cfg) (l : Loop (env base g conf))
      → Later start later
      → Read cfg d start seen l
      → Acked base g conf cfg d pulled (with_source base g conf cfg s l)
      → Pending base g conf cfg d pulled seen (with_source base g conf cfg s l)
      → ResultAcked (refuse base g conf cfg (b, s) later l)
  refuse-Acked start seen true s later l ih r a p =
      ih seen (with_source base g conf cfg s l)
        (record { reading = source-Read cfg d start seen s l r; acked = a; pending = p })
  refuse-Acked start seen false s later l ih r a p = a

  WasRead-snoc :
      (seen : List ChangeEvent) (ev : ChangeEvent) (ids : List Text)
      → All (WasRead base g conf cfg d pulled seen) ids
      → All (WasRead base g conf cfg d pulled (seen ++ (ev ∷ []))) ids
  WasRead-snoc seen ev ids h =
      All-map (WasRead base g conf cfg d pulled seen)
        (WasRead base g conf cfg d pulled (seen ++ (ev ∷ [])))
        (λ id w. (w.0, w.1, w.2, w.3, In-append_left w.2 seen (ev ∷ []) w.4)) ids h

  pending_of-add_pending :
      (table id : Text) (s : PubSub)
      → pending_of table (add_pending table id s) ≡ pending_of table s ++ (id ∷ [])
  unfolding add_pending
  pending_of-add_pending table id s =
      ap or_empty (lookup-insert_self table (pending_of table s ++ (id ∷ [])) s.pending)

  acknowledge-pending :
      (ids : List Text) (s : PubSub) → (acknowledge g.server ids s).1.pending ≡ s.pending
  unfolding acknowledge
  acknowledge-pending ids s = refl

  add_pending-requests :
      (table id : Text) (s : PubSub) → (add_pending table id s).requests ≡ s.requests
  unfolding add_pending
  add_pending-requests table id s = refl

  take_message-Acked :
      (start : Value) (seen : List ChangeEvent) (stop : Bool) (m : Received)
      (o : Option ChangeEvent) (later : Loop (env base g conf) → Result base g conf cfg)
      (l : Loop (env base g conf))
      → event_at base g conf cfg m ≡ o
      → In m pulled
      → Later start later
      → Acking base g conf cfg d pulled start seen l
      → ResultAcked (take_message base g conf cfg stop m o later l)
  take_message-Acked start seen stop m none later l e i ih a =
      let s = l.worker.source in
      let r = acknowledge g.server (m.ack_id ∷ []) s in
      refuse-Acked start seen r.0 r.1 later l ih a.reading
        (acknowledge-acked (MayAck base g conf cfg d pulled l.worker) g.server (m.ack_id ∷ []) s
          ((m, (i, refl), inl e), tt) a.acked)
        (subst (λ p. All (WasRead base g conf cfg d pulled seen) (or_empty (lookup cfg.table p)))
          (sym (acknowledge-pending (m.ack_id ∷ []) s)) a.pending)
  take_message-Acked start seen stop m (some ev) later l e i ih a =
      let s = add_pending cfg.table m.ack_id l.worker.source in
      hand_over-Acked start seen stop (some ev) later (with_source base g conf cfg s l) ih
        (source-Read cfg d start seen s l a.reading)
        (subst (λ q. All (MayAck base g conf cfg d pulled l.worker) (acked_ids q))
          (sym (add_pending-requests cfg.table m.ack_id l.worker.source)) a.acked)
        (subst (All (WasRead base g conf cfg d pulled (seen ++ (ev ∷ []))))
          (sym (pending_of-add_pending cfg.table m.ack_id l.worker.source))
          (All-append (WasRead base g conf cfg d pulled (seen ++ (ev ∷ [])))
            (pending_of cfg.table l.worker.source) (m.ack_id ∷ [])
            (WasRead-snoc seen ev (pending_of cfg.table l.worker.source) a.pending)
            ((m, (i, refl), ev, e, In-head seen [] ev), tt)))

  -- What the turn takes is among what was pulled.
  abbrev Takes : Option Received → Type 0
  Takes none = Unit {0}
  Takes (some m) = In m pulled

  take_item-Acked :
      (start : Value) (seen : List ChangeEvent) (stop : Bool) (item : Option Received)
      (later : Loop (env base g conf) → Result base g conf cfg) (l : Loop (env base g conf))
      → Takes item
      → Later start later
      → Acking base g conf cfg d pulled start seen l
      → ResultAcked (take_item base g conf cfg stop item later l)
  take_item-Acked start seen stop none later l i ih a =
      hand_over-Acked start seen stop none later l ih a.reading a.acked (
        subst (λ (s : List ChangeEvent). Pending base g conf cfg d pulled s l)
          (sym (append-nil seen)) a.pending)
  take_item-Acked start seen stop (some m) later l i ih a =
      take_message-Acked start seen stop m (event_at base g conf cfg m) later l refl i ih a

  read_pulled-Acked :
      (start : Value) (seen : List ChangeEvent) (turns : List Turn) (l : Loop (env base g conf))
      → All (λ t. Takes t.item) turns
      → Acking base g conf cfg d pulled start seen l
      → ResultAcked (read_pulled base g conf cfg turns l)
  unfolding read_pulled
  read_pulled-Acked start seen [] l i a = a.acked
  read_pulled-Acked start seen (t ∷ ts) l i a =
      take_item-Acked start seen t.stop t.item (λ l'. read_pulled base g conf cfg ts l') l i.0
        (λ s l' h. read_pulled-Acked start s ts l' i.1 h) a

-- The messages of the turns, and that the server gave each an id of its own.
abbrev pub with_item : Option Received → List Received → List Received
with_item none ms = ms
with_item (some m) ms = m ∷ ms

abbrev pub messages : List Turn → List Received
messages [] = []
messages (t ∷ ts) = with_item t.item (messages ts)

abbrev pub OwnIds : List Received → Type 0
OwnIds ms = (m n : Received) → In m ms → In n ms → m.ack_id ≡ n.ack_id → m ≡ n

module _ (base : Env) (g : Google) (conf : Config) (cfg : Worker.Config)
    (d : Delivery (env base g conf)) where
  Takes-with_item :
      (o p : Option Received) (ms : List Received)
      → Takes base g conf cfg d ms p
      → Takes base g conf cfg d (with_item o ms) p
  Takes-with_item none p ms h = h
  Takes-with_item (some m) none ms h = tt
  Takes-with_item (some m) (some n) ms h = inr h

  Takes-first :
      (o : Option Received) (ms : List Received) → Takes base g conf cfg d (with_item o ms) o
  Takes-first none ms = tt
  Takes-first (some m) ms = inl refl

  Takes-messages :
      (turns : List Turn) → All (λ t. Takes base g conf cfg d (messages turns) t.item) turns
  Takes-messages [] = tt
  Takes-messages (t ∷ ts) = (
    Takes-first t.item (messages ts),
    All-map (λ (u : Turn). Takes base g conf cfg d (messages ts) u.item)
        (λ (u : Turn). Takes base g conf cfg d (with_item t.item (messages ts)) u.item)
        (λ u h. Takes-with_item t.item u.item (messages ts) h) ts (Takes-messages ts),
  )

  -- A worker with a dead letter queue that starts to read from a subscription, with no message
  -- pending and none acknowledged, acknowledges none too early. Whatever is pulled, each message
  -- with an id of its own, whatever calls raise and whenever the worker is stopped, after any number
  -- of turns of the loop, before the flush that follows it: when the server has taken the id of a
  -- pulled message as acknowledged, that message cannot be decoded, or its event is, as masked, in
  -- the sink or in the dead letter queue.
  pub acknowledged_is_delivered :
      (turns : List Turn) (w : Worker (env base g conf)) (m : Received)
      → HasQueue w
      → w.source.requests ≡ []
      → pending_of cfg.table w.source ≡ []
      → OwnIds (messages turns)
      → In m (messages turns)
      → let l = (read_pulled base g conf cfg turns (begin (env base g conf) cfg w)).1.1 in
        In m.ack_id (acked_ids l.worker.source.requests)
        → Done base g conf cfg d (messages turns) l.worker m
  unfolding begin
  acknowledged_is_delivered turns w m q sent waiting own here acked =
      let pulled = messages turns in
      let kept =
        read_pulled-Acked base g conf cfg d pulled (saved (key_of cfg) w) [] turns
          (begin (env base g conf) cfg w) (Takes-messages turns)
          (record {
            reading = begin-Read cfg d w q;
            acked =
                subst
                  (λ r.
                    All (MayAck base g conf cfg d pulled (begin (env base g conf) cfg w).worker)
                      (acked_ids r))
                  (sym sent) tt;
            pending = subst (All (WasRead base g conf cfg d pulled [])) (sym waiting) tt;
          }) in
      let l = (read_pulled base g conf cfg turns (begin (env base g conf) cfg w)).1.1 in
      let of_id = All-In (MayAck base g conf cfg d pulled l.worker) _ m.ack_id kept acked in
      subst (Done base g conf cfg d pulled l.worker) (own of_id.0 m of_id.1.0 here of_id.1.1)
        of_id.2
