-- ===== src/Sources/Pgoutput/Thread.antt =====
-- The shared replication thread of sources/postgres.py and the streams that read its queues, one
-- action after the other: `stream` registers a queue of at most 500 while the thread may run,
-- `_consume` puts the events of a message, waiting where a queue is full, and a stream takes.
pub mod Order
pub mod Kept
pub mod Streams
use dremio_cdc.Prelude.{
  ℕ, Bool, true, false, ◌||◌, Option, none, some, List, [], ◌∷◌, ◌++◌, map, take, Text, text_eq,
  contains, length, ltb, if◌then◌else◌,
}
use dremio_cdc.Prelude.Dict.{Dict, lookup, insert, has_key}
use dremio_cdc.Event.{ChangeEvent}
use dremio_cdc.Outcome.{Outcome, ok, raised}
use dremio_cdc.Sources.Pgoutput.{Bytes, Utf8, Relations}
use dremio_cdc.Sources.Pgoutput.Message.{parse_message}
use dremio_cdc.Sources.Pgoutput.Fanout.{targets}

-- What a queue holds; the `None` that ends a stream is `none`.
abbrev pub Queue : Type 0
Queue = List (Option ChangeEvent)

-- A message with its place in the log, and the reading of the clock at its event.
pub record Message : Type 0 where
  pub payload : Bytes
  pub data_start : ℕ
  pub now : ℕ

-- What the thread is about to do: nothing, as it waits for a message; give out the events of the
-- message at a place of the log; make the calls of `put` for one of them, for its own table or in the
-- loop over the tables by their short names; make the last of them, since that loop raises then; put
-- the `None` into each queue; or nothing any more.
pub data Work : Type 0 where
  idle : Work
  routing : List ChangeEvent → ℕ → Work
  putting : Bool → ChangeEvent → List Text → List ChangeEvent → ℕ → Work
  breaking : ChangeEvent → List Text → Work
  closing : List Text → Work
  over : Work

-- `confirmed` is the place of the last feedback. The others are for the record: the events of the
-- messages that came, each with the tables that had a queue when its turn came, what each stream
-- has yielded, and whether a registration made the loop over the short names raise.
pub record Thread : Type 0 where
  pub relations : Relations
  pub queues : Dict Text Queue
  pub work : Work
  pub confirmed : Option ℕ
  pub received : List ChangeEvent
  pub routed : List (ChangeEvent × List Text)
  pub yielded : List (Text × ChangeEvent)
  pub broke : Bool

abbrev pub fresh : Thread
fresh = record {
  relations = [];
  queues = [];
  work = Work.idle;
  confirmed = none;
  received = [];
  routed = [];
  yielded = [];
  broke = false;
}

abbrev pub or_empty : Option Queue → Queue
or_empty none = []
or_empty (some q) = q

abbrev pub queue_of : Text → Dict Text Queue → Queue
queue_of table queues = or_empty (lookup table queues)

abbrev pub tables_of : Dict Text Queue → List Text
tables_of queues = map (λ p. p.0) queues

-- `queue.Queue(maxsize=500)`
abbrev pub has_room : Text → Dict Text Queue → Bool
has_room table queues = ltb (length (queue_of table queues)) 500

abbrev pub put : Text → Option ChangeEvent → Dict Text Queue → Dict Text Queue
put table item queues = insert table (queue_of table queues ++ (item ∷ [])) queues

-- One action of the thread. A put into a full queue waits: nothing changes yet.
unfoldable pub advance : Work → Thread → Thread
unfolding targets
advance Work.idle s = s
advance (Work.routing [] start) s = record s { work = Work.idle; confirmed = some start }
advance (Work.routing (ev ∷ evs) start) s =
    let tables = tables_of s.queues in
    record s {
      work =
          Work.putting (contains ev.source_table tables) ev (targets ev.source_table tables) evs
            start;
      routed = s.routed ++ ((ev, tables) ∷ []);
    }
advance (Work.putting own ev [] evs start) s = record s { work = Work.routing evs start }
advance (Work.putting own ev (t ∷ ts) evs start) s =
    if has_room t s.queues
    then record s { work = Work.putting own ev ts evs start; queues = put t (some ev) s.queues }
    else s
advance (Work.breaking ev []) s = record s { work = Work.closing (tables_of s.queues) }
advance (Work.breaking ev (t ∷ ts)) s =
    if has_room t s.queues
    then record s { work = Work.breaking ev ts; queues = put t (some ev) s.queues }
    else s
advance (Work.closing []) s = record s { work = Work.over }
advance (Work.closing (t ∷ ts)) s =
    if has_room t s.queues
    then record s { work = Work.closing ts; queues = put t none s.queues }
    else s
advance Work.over s = s

-- A dictionary that grows during a loop over it makes the next turn of the loop raise.
abbrev pub disturbed : Work → Work
disturbed (Work.putting false ev ts evs start) = Work.breaking ev (take 1 ts)
disturbed (Work.closing ts) = Work.closing (take 1 ts)
disturbed w = w

abbrev pub breaks : Work → Bool
breaks (Work.putting false ev ts evs start) = true
breaks w = false

-- The start of `stream`. There is one worker for each table, which calls it once.
unfoldable pub register : Text → Thread → Thread
register table s = if has_key table s.queues then s else record s {
  queues = insert table [] s.queues;
  work = disturbed s.work;
  broke = s.broke || breaks s.work;
}

-- `q.get`: a heartbeat if there is nothing, the end of the stream at its mark, or an event.
abbrev pub taken : Text → Queue → Thread → Thread
taken table [] s = s
taken table (none ∷ q) s = s
taken table (some ev ∷ q) s = record s {
  queues = insert table q s.queues;
  yielded = s.yielded ++ ((table, ev) ∷ []);
}

pub data Action : Type 0 where
  registers : Text → Action
  message : Message → Action
  advances : Action
  takes : Text → Action

module _ (utf : Utf8) (source_name : Text) where
  -- `_consume` begins, or what it raises ends the stream of messages.
  abbrev pub parsed : ℕ → Outcome (List ChangeEvent) × Relations → Thread → Thread
  parsed start (ok evs, rels) s = record s {
    relations = rels;
    work = Work.routing evs start;
    received = s.received ++ evs;
  }
  parsed start (raised error, rels) s = record s { work = Work.closing (tables_of s.queues) }

  -- The next message is read when the thread is done with the one before.
  abbrev pub receive : Work → Message → Thread → Thread
  receive Work.idle m s =
      parsed m.data_start (parse_message utf source_name m.now m.payload s.relations) s
  receive w m s = s

  unfoldable pub act : Action → Thread → Thread
  unfolding advance register
  act (Action.registers table) s = register table s
  act (Action.message m) s = receive s.work m s
  act Action.advances s = advance s.work s
  act (Action.takes table) s = taken table (queue_of table s.queues) s

  unfoldable pub run : List Action → Thread → Thread
  run [] s = s
  run (a ∷ rest) s = run rest (act a s)
