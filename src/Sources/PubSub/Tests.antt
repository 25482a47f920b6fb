-- ===== src/Sources/PubSub/Tests.antt =====
-- sources/pubsub.py on concrete input: a bad message and two good ones, read by the worker of the
-- engine's tests.
use dremio_cdc.Prelude.{
  ℕ, ◌≡◌, ◌≢◌, ◌==◌, ◌∙◌, refl, sym, ap, inl, inr, text_eq, Text-discrete, Bool, true, false,
  Option, none, some, List, [], ◌∷◌, ◌++◌, map, All, Text, arith, length,
}
use dremio_cdc.Prelude.Chars.{codes}
use dremio_cdc.Event.{Value, Row}
use dremio_cdc.Outcome.{ok}
use dremio_cdc.Engine.Worker.{Worker}
use dremio_cdc.Engine.Delivery.{Delivery, In}
use dremio_cdc.Engine.Stream.{begin}
use dremio_cdc.Engine.Sample.{
  toy, toy_config, toy_worker, toy_queue, toy_keeps, toy_stores, toy_never_evolves,
}
use dremio_cdc.Samples.{toy_json}
use dremio_cdc.Sources.PubSub.{
  PublishTime, Received, Config, default_op_map, merge_op_map, parse_pk_fields, event_of,
}
use dremio_cdc.Sources.PubSub.Acks.{
  PubSub, acked_ids, pending_of, requested, Small, on_batch_committed, on_batch_committed-requested,
}
use dremio_cdc.Sources.PubSub.Loop.{Google, Turn, env, read_pulled, stream}
use dremio_cdc.Sources.PubSub.Acked.{All-In, Done}
use dremio_cdc.Sources.PubSub.Acked.Turns.{messages, OwnIds, acknowledged_is_delivered}

-- A payload that is empty cannot be read; any other is the value of the column `id`.
abbrev loads_id : List ℕ → Option Row
loads_id [] = none
loads_id (b ∷ bs) = some ((codes "id", Value.text (b ∷ bs)) ∷ [])

abbrev google : Google
google = record {
  server = λ n. true;
  peek = λ table. ok none;
  nack = λ m. true;
  json = toy_json;
  decoding = record { loads = loads_id };
  clock_at = λ m. 5;
}

abbrev conf : Config
conf = record {
  name = codes "ps";
  op_field = some (codes "op");
  op_map = default_op_map;
  pk_fields = codes "id" ∷ [];
}

abbrev message : Text → List ℕ → Received
message id payload = record {
  ack_id = id;
  message_id = id;
  payload = payload;
  publish_time = PublishTime.missing;
}

abbrev pulled : Text → List ℕ → Bool → Turn
pulled id payload stop = record { stop = stop; item = some (message id payload) }

abbrev delivery : Delivery (env toy google conf)
delivery = record {
  InSink = λ s ev. In ev s.1;
  keeps = toy_keeps;
  stores = toy_stores;
  evolve_keeps = toy_never_evolves;
}

abbrev worker : Worker (env toy google conf)
worker = record {
  batch_size = 2;
  tuner = none;
  flush_count = 0;
  stopped = false;
  sink = (false, []);
  source = record { pending = (codes "people", []) ∷ []; requests = [] };
  offsets = [];
  schemas = none;
  status = toy_worker.status;
  dlq = some toy_queue;
  ticks = 0;
}

-- A message that cannot be read, and three that fill a batch and begin another.
abbrev third : Turn
third = pulled (codes "c") (codes "2") false

abbrev fourth : Turn
fourth = pulled (codes "d") (codes "3") false

abbrev good_turns : List Turn
good_turns = pulled (codes "b") (codes "1") false ∷ third ∷ fourth ∷ []

abbrev turns : List Turn
turns = pulled (codes "a") [] false ∷ good_turns

other_ids : (s t : Text) → (s == t) ≡ false → s ≢ t
other_ids s t differ e = let same = (text_eq.agrees_iff s t).1 e in cc

OwnIds-cons :
    (m : Received) (ms : List Received)
    → All (λ n. m.ack_id ≢ n.ack_id) ms
    → OwnIds ms
    → OwnIds (m ∷ ms)
OwnIds-cons m ms new own x y (inl e) (inl f) same = e ∙ sym f
OwnIds-cons m ms new own x y (inl e) (inr f) same =
    absurd (All-In (λ n. m.ack_id ≢ n.ack_id) ms y new f (sym (ap (λ r. r.ack_id) e) ∙ same))
OwnIds-cons m ms new own x y (inr e) (inl f) same =
    absurd (All-In (λ n. m.ack_id ≢ n.ack_id) ms x new e (sym (ap (λ r. r.ack_id) f) ∙ sym same))
OwnIds-cons m ms new own x y (inr e) (inr f) same = own x y e f same

turns-OwnIds : OwnIds (messages turns)
unfolding Text-discrete
turns-OwnIds =
    OwnIds-cons (message (codes "a") []) (messages good_turns)
      (other_ids _ _ refl, (other_ids _ _ refl, (other_ids _ _ refl, tt)))
      (OwnIds-cons (message (codes "b") (codes "1")) (messages (third ∷ fourth ∷ []))
        (other_ids _ _ refl, (other_ids _ _ refl, tt))
        (OwnIds-cons (message (codes "c") (codes "2")) (messages (fourth ∷ []))
          (other_ids _ _ refl, tt)
          (OwnIds-cons (message (codes "d") (codes "3")) [] tt (λ x y e. absurd e))))

second_is_acked : In (codes "b") (
    acked_ids
      (read_pulled toy google conf toy_config turns
        (begin (env toy google conf) toy_config worker)).1.1.worker.source.requests)
unfolding stream event_of dremio_cdc.Sources.Record.normalise dremio_cdc.Engine.Stream.turn
    dremio_cdc.Engine.Worker.◌>>=◌ dremio_cdc.Engine.Worker.time dremio_cdc.Engine.Flush.write
    dremio_cdc.Engine.Flush.after_write dremio_cdc.Engine.Flush.commit_offset
    dremio_cdc.Engine.Flush.notify_source on_batch_committed dremio_cdc.Engine.Flush.count_flush
    dremio_cdc.Sources.PubSub.Acks.add_pending dremio_cdc.Prelude.Text-discrete
    dremio_cdc.Engine.Flush.mask_batch dremio_cdc.Masking.apply_batch begin read_pulled
    dremio_cdc.Engine.Stream.flush_loop
second_is_acked = inr (inl refl)

acknowledged_is_delivered_example :
    Done toy google conf toy_config delivery
      (messages turns)
      (read_pulled toy google conf toy_config turns
        (begin (env toy google conf) toy_config worker)).1.1.worker
      (message (codes "b") (codes "1"))
unfolding Text-discrete
acknowledged_is_delivered_example =
    acknowledged_is_delivered toy google conf toy_config delivery turns worker
      (message (codes "b") (codes "1")) (toy_queue, refl) refl refl turns-OwnIds (inr (inl refl))
      second_is_acked

abbrev ids_at : Worker (env toy google conf) → List Text × List Value
ids_at w = (acked_ids w.source.requests, map (λ ev. ev.offset) w.sink.1)

-- The worker is stopped while the third message is handed over.
abbrev stopped_turns : List Turn
stopped_turns = pulled (codes "b") (codes "1") false ∷ pulled (codes "c") (codes "2") true ∷ []

-- The message in hand is acknowledged by the last flush, and is nowhere.
stop_loses_the_message_in_hand :
    ids_at (stream toy google conf toy_config stopped_turns worker)
    ≡ (codes "b" ∷ codes "c" ∷ [], Value.text (codes "b") ∷ [])
unfolding stream event_of dremio_cdc.Sources.Record.normalise dremio_cdc.Engine.Stream.turn
    dremio_cdc.Engine.Worker.◌>>=◌ dremio_cdc.Engine.Worker.time dremio_cdc.Engine.Flush.write
    dremio_cdc.Engine.Flush.after_write dremio_cdc.Engine.Flush.commit_offset
    dremio_cdc.Engine.Flush.notify_source on_batch_committed dremio_cdc.Engine.Flush.count_flush
    dremio_cdc.Sources.PubSub.Acks.add_pending dremio_cdc.Prelude.Text-discrete
    dremio_cdc.Engine.Flush.mask_batch dremio_cdc.Masking.apply_batch
stop_loses_the_message_in_hand = refl

abbrev two_pending : PubSub
two_pending = record { pending = (codes "people", codes "b" ∷ codes "c" ∷ []) ∷ []; requests = [] }

on_batch_committed-requested_example :
    let s = (on_batch_committed google.server (codes "people") Value.null two_pending).1 in
    (requested s.requests ≡ codes "b" ∷ codes "c" ∷ [])
    × (All Small [] → All Small s.requests)
    × (pending_of (codes "people") s ≡ [])
unfolding dremio_cdc.Prelude.Text-discrete
on_batch_committed-requested_example =
    on_batch_committed-requested google.server (codes "people") Value.null two_pending
