-- ===== src/Sources/PubSub/Loop.antt =====
-- The generator `stream` of sources/pubsub.py under the loop of core/engine.py: it pulls messages,
-- and the worker takes the events one by one.
use dremio_cdc.Prelude.{ℕ, Bool, true, false, Option, none, some, List, [], ◌∷◌, Text, text_eq}
use dremio_cdc.Prelude.Chars.{codes}
use dremio_cdc.Event.{ColumnSchema, ChangeEvent, Row}
use dremio_cdc.Outcome.{Outcome, ok, raised}
use dremio_cdc.Offsets.{Json}
use dremio_cdc.Engine.Worker.{Env, Worker}
use dremio_cdc.Engine.Worker
use dremio_cdc.Engine.Stream.{Loop, turn, hear, begin, finish}
use dremio_cdc.Sources.Record.{infer_schema}
use dremio_cdc.Sources.PubSub.{Config, Decoding, Received, decode, event_of}
use dremio_cdc.Sources.PubSub.Acks.{PubSub, Server, acknowledge, add_pending, on_batch_committed}

-- The server and the libraries: whether a request to acknowledge is taken, the message that
-- `get_schema` looks at and whether it can be given back, how payloads are read, and the clock at a
-- message.
pub record Google : Type 0 where
  pub server : Server
  pub peek : Text → Outcome (Option Received)
  pub nack : Received → Bool
  pub json : Json
  pub decoding : Decoding
  pub clock_at : Received → ℕ

-- What comes next: the generator finds nothing or fails to pull, or it takes a message; and whether
-- `stop()` was called before the worker looks at what is yielded.
pub record Turn : Type 0 where
  pub stop : Bool
  pub item : Option Received

module _ (base : Env) (g : Google) (conf : Config) where
  abbrev pub schema_from : Option Row → Outcome (List ColumnSchema)
  schema_from none = ok []
  schema_from (some row) = ok (infer_schema conf.pk_fields row)

  abbrev pub peeked : Outcome (Option Received) → Outcome (List ColumnSchema)
  peeked (raised message) = ok []
  peeked (ok none) = ok []
  peeked (ok (some m)) = elim (g.nack m) [
    | true ↦ schema_from (decode base.py g.json g.decoding conf (g.clock_at m) m)
    | false ↦ raised (codes "modify_ack_deadline")
  ]

  unfoldable pub get_schema : Text → PubSub → Outcome (List ColumnSchema)
  get_schema table s = peeked (g.peek table)

  -- The worker's surroundings with this source.
  abbrev pub env : Env
  env = record base {
    Source = PubSub;
    get_schema = get_schema;
    on_batch_committed = on_batch_committed g.server;
  }

  module _ (cfg : Worker.Config) where
    -- How the generator ends, whether the stop flag broke the loop, and the loop's state.
    abbrev pub Result : Type 0
    Result = Option Text × (Bool × Loop env)

    abbrev pub with_source : PubSub → Loop env → Loop env
    with_source s l = record l { worker = record l.worker { source = s } }

    -- The worker looks at its stop flag, and takes what is yielded.
    abbrev pub hand_over : Bool → Option ChangeEvent → (Loop env → Result) → Loop env → Result
    hand_over stop item later l =
        let heard = hear env cfg stop l in
        elim heard.worker.stopped [
          | true ↦ (none, (true, heard))
          | false ↦ later (turn env cfg item heard)
        ]

    -- A message that cannot be decoded is acknowledged at once; what this raises ends the generator.
    abbrev pub refuse : Bool × PubSub → (Loop env → Result) → Loop env → Result
    refuse (true, s) later l = later (with_source s l)
    refuse (false, s) later l = (some (codes "acknowledge"), (false, with_source s l))

    abbrev pub event_at : Received → Option ChangeEvent
    event_at m = event_of base.py g.json g.decoding conf (g.clock_at m) cfg.table m

    abbrev pub take_message :
        Bool → Received → Option ChangeEvent → (Loop env → Result) → Loop env → Result
    take_message stop m none later l =
        refuse (acknowledge g.server (m.ack_id ∷ []) l.worker.source) later l
    take_message stop m (some ev) later l =
        hand_over stop (some ev) later
          (with_source (add_pending cfg.table m.ack_id l.worker.source) l)

    abbrev pub take_item : Bool → Option Received → (Loop env → Result) → Loop env → Result
    take_item stop none later l = hand_over stop none later l
    take_item stop (some m) later l = take_message stop m (event_at m) later l

    unfoldable pub read_pulled : List Turn → Loop env → Result
    read_pulled [] l = (none, (false, l))
    read_pulled (t ∷ ts) l = take_item t.stop t.item (λ l'. read_pulled ts l') l

    unfoldable pub stream : List Turn → Worker.Worker env → Worker.Worker env
    unfolding read_pulled begin finish
    stream turns w =
        let (ending, r) = read_pulled turns (begin env cfg w) in finish env cfg ending r
