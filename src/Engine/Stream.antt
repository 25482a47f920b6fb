-- ===== src/Engine/Stream.antt =====
-- The streaming loop of `TableWorker.run` in core/engine.py.
pub mod Delivered
use dremio_cdc.Prelude.{
  ℕ, ◌+◌, Bool, true, false, ◌||◌, ◌&&◌, not, Option, none, some, List, [], ◌∷◌, ◌++◌, Text,
  text_eq, pair_eq, length, leb, if◌then◌else◌,
}
use dremio_cdc.Event.{Value, ChangeEvent, is_none}
use dremio_cdc.Status
use dremio_cdc.Engine.Worker.{Env, Config, Worker}
use dremio_cdc.Engine.Flush.{flush}

-- One turn of the loop: whether `stop()` was called since the last turn, and what the source yields,
-- a change or the `None` of a heartbeat.
pub record Arrival : Type 0 where
  pub stop : Bool
  pub item : Option ChangeEvent

-- The locals of the loop.
pub record Loop (env : Env) : Type 0 where
  pub batch : List ChangeEvent
  pub last_flush : ℕ
  pub last_offset : Value
  pub worker : Worker env

-- `if ev.offset is not None: last_offset = ev.offset`
abbrev pub advance : Value → ChangeEvent → Value
advance last ev = if is_none ev.offset then last else ev.offset

abbrev pub is_empty : List ChangeEvent → Bool
is_empty [] = true
is_empty (ev ∷ evs) = false

module _ (env : Env) (cfg : Config) where
  -- `self._flush(batch, last_offset)`, `batch = []`, `last_flush = now`
  unfoldable pub flush_loop : ℕ → Loop env → Loop env
  unfolding flush
  flush_loop now l = record l {
    batch = [];
    last_flush = now;
    worker = flush env cfg l.batch l.last_offset l.worker;
  }

  abbrev pub tick : Loop env → Loop env
  tick l = record l { worker = record l.worker { ticks = l.worker.ticks + 1 } }

  abbrev pub add_event : ChangeEvent → Loop env → Loop env
  add_event ev l = record l { batch = l.batch ++ (ev ∷ []); last_offset = advance l.last_offset ev }

  -- `(now - last_flush) >= self.batch_timeout`
  abbrev pub timed_out : ℕ → Loop env → Bool
  timed_out now l = leb (l.last_flush + cfg.batch_timeout) now

  abbrev pub flush_if : Bool → ℕ → Loop env → Loop env
  flush_if true now l = flush_loop now l
  flush_if false now l = l

  unfoldable pub receive : ℕ → Option ChangeEvent → Loop env → Loop env
  receive now none l = flush_if (not (is_empty l.batch) && timed_out now l) now l
  receive now (some ev) l =
      let l' = add_event ev l in
      flush_if (leb l'.worker.batch_size (length l'.batch) || timed_out now l') now l'

  -- A turn that the stop flag does not end.
  unfoldable pub turn : Option ChangeEvent → Loop env → Loop env
  unfolding receive
  turn item l = receive (env.clock l.worker.ticks) item (tick l)

  abbrev pub hear : Bool → Loop env → Loop env
  hear stop l = record l { worker = record l.worker { stopped = l.worker.stopped || stop } }

  -- The loop over what the source yields, and whether the stop flag ended it.
  unfoldable pub read : List Arrival → Loop env → Bool × Loop env
  read [] l = (false, l)
  read (a ∷ later) l =
      let heard = hear a.stop l in
      elim heard.worker.stopped [ true ↦ (true, heard) | false ↦ read later (turn a.item heard) ]

  unfoldable pub set_state : Status.State → Option Text → Worker env → Worker env
  set_state state message w = record w {
    status = Status.set_state cfg.source_name cfg.table state message w.status;
  }

  -- Past the loop: the source returned or the loop broke off, or the source raised and the handler
  -- of `run` takes over.
  unfoldable pub finish : Option Text → Bool × Loop env → Worker env
  unfolding flush set_state
  finish none (broke, l) =
      set_state Status.State.paused none (flush env cfg l.batch l.last_offset l.worker)
  finish (some message) (true, l) =
      set_state Status.State.paused none (flush env cfg l.batch l.last_offset l.worker)
  finish (some message) (false, l) = set_state Status.State.error (some message) l.worker

  -- The state becomes streaming; then the first reading of the clock, and empty locals.
  unfoldable pub begin : Worker env → Loop env
  unfolding set_state
  begin w = record {
    batch = [];
    last_flush = env.clock w.ticks;
    last_offset = Value.null;
    worker = set_state Status.State.streaming none (record w { ticks = w.ticks + 1 });
  }

  unfoldable pub stream : List Arrival → Option Text → Worker env → Worker env
  unfolding read finish begin
  stream arrivals ending w = finish ending (read arrivals (begin w))
