-- ===== src/Engine/Snapshot.antt =====
-- The two snapshots of `TableWorker` in core/engine.py.
pub mod Full
pub mod Chunks
pub mod Progress
pub mod Finish
use dremio_cdc.Prelude.{
  ℕ, ◌+◌, Bool, true, false, ◌||◌, Option, none, some, List, [], ◌∷◌, ◌++◌, Text, text_eq, pair_eq,
  length, leb, if◌then◌else◌,
}
use dremio_cdc.Prelude.Chars.{codes}
use dremio_cdc.Prelude.Dict.{lookup}
use dremio_cdc.Event.{Value, ColumnSchema, Row, ChangeEvent, str}
use dremio_cdc.Outcome.{Outcome, ok, raised}
use dremio_cdc.Engine.Worker.{Env, Config, Worker, key_of}
use dremio_cdc.Engine.Flush.{flush, store}
use dremio_cdc.Engine.Stream.{is_empty}
use dremio_cdc.Engine.Cursor.{cursor_column, resume, snap_position}

-- What the source of the worker yields for snapshots: its rows with, before each, whether `stop()`
-- was called, and how the rows end; and its reader of chunks.
pub record SnapshotSource (env : Env) : Type 0 where
  pub rows : List (Bool × ChangeEvent)
  pub ending : Option Text
  pub incremental_snapshot :
      Text → Option Text → ℕ → env.Source → Outcome (List ChangeEvent) × env.Source

pub record SnapshotConfig : Type 0 where
  pub incr_snapshot : Bool
  pub overrides : Bool
  pub snap_chunk_size : ℕ
  pub snap_cursor_col : Option Text

-- How a snapshot leaves its place: it is complete, the stop flag made `run` return, it came
-- back without the mark that it is done, a call raised, or the chunks are not yet at their end.
pub data Ending : Type 0 where
  complete : Ending
  returned : Ending
  unmarked : Ending
  crashed : Text → Ending
  unfinished : Ending

-- `chunk[-1]`
abbrev pub last_event : ChangeEvent → List ChangeEvent → ChangeEvent
last_event ev [] = ev
last_event ev (e ∷ es) = last_event e es

module _ (env : Env) (cfg : Config) where
  abbrev pub hear_stop : Bool → Worker env → Worker env
  hear_stop stop w = record w { stopped = w.stopped || stop }

  -- `self.offset_store.set(source_name, table, text)`, outside a flush.
  unfoldable pub save : Text → Worker env → Outcome (Unit {0}) × Worker env
  save text w = store env cfg (env.offset_api.set (key_of cfg) (Value.text text) w.offsets) w

  abbrev pub mark : Ending → Outcome (Unit {0}) × Worker env → Ending × Worker env
  mark ending (ok done, w) = (ending, w)
  mark ending (raised message, w) = (crashed message, w)

  unfoldable pub save_done : Worker env → Ending × Worker env
  unfolding save
  save_done w = mark complete (save (codes "snap:done") w)

  abbrev pub flush_now : Bool → List ChangeEvent → Worker env → List ChangeEvent × Worker env
  flush_now true batch w = ([], flush env cfg batch Value.null w)
  flush_now false batch w = (batch, w)

  unfoldable pub flush_full : List ChangeEvent → Worker env → List ChangeEvent × Worker env
  unfolding flush
  flush_full batch w = flush_now (leb w.batch_size (length batch)) batch w

  -- The loop over `self.source.snapshot(table)` and what follows it.
  unfoldable pub full_snapshot :
      List (Bool × ChangeEvent) → Option Text → List ChangeEvent → Worker env → Ending × Worker env
  unfolding flush_full save_done flush
  full_snapshot [] none batch w = save_done (flush env cfg batch Value.null w)
  full_snapshot [] (some message) batch w = (crashed message, w)
  full_snapshot ((stop, ev) ∷ rows) ending batch w =
      let heard = hear_stop stop w in
      let next = flush_full (batch ++ (ev ∷ [])) heard in
      elim heard.stopped [
        | true ↦ (returned, heard)
        | false ↦ full_snapshot rows ending next.0 next.1
      ]

  -- The fall back without a cursor column: the rows are read, and nothing is done with them.
  unfoldable pub no_cursor :
      List (Bool × ChangeEvent) → Option Text → Worker env → Ending × Worker env
  no_cursor [] none w = (unmarked, w)
  no_cursor [] (some message) w = (crashed message, w)
  no_cursor ((stop, ev) ∷ rows) ending w =
      let heard = hear_stop stop w in
      elim heard.stopped [ true ↦ (unmarked, heard) | false ↦ no_cursor rows ending heard ]

  -- `str(chunk[-1].after.get(cursor_col, last_val))`; a row without `after` raises.
  abbrev pub old_value : Option Text → Text
  old_value none = codes "None"
  old_value (some v) = v

  unfoldable pub cursor_value : Text → Option Text → Option Row → Outcome Text
  cursor_value col last_val none = raised (codes "'NoneType' object has no attribute 'get'")
  cursor_value col last_val (some row) = elim (lookup col row) [
    | none ↦ ok (old_value last_val)
    | some v ↦ ok (str env.py v)
  ]

  abbrev pub give : Text → Outcome (Unit {0}) × Worker env → Outcome Text × Worker env
  give val (ok done, w) = (ok val, w)
  give val (raised message, w) = (raised message, w)

  abbrev pub save_value : Text → Outcome Text → Worker env → Outcome Text × Worker env
  save_value col (raised message) w = (raised message, w)
  save_value col (ok val) w = give val (save (snap_position col val) w)

  -- A chunk that is not empty: it is flushed, and its last value is saved.
  unfoldable pub take_chunk :
      Text → Option Text → ChangeEvent → List ChangeEvent → Worker env → Outcome Text × Worker env
  unfolding cursor_value save snap_position flush
  take_chunk col last_val ev evs w =
      save_value col (cursor_value col last_val (last_event ev evs).after)
        (flush env cfg (ev ∷ evs) Value.null w)

  -- `if not self._stop_flag.is_set()` after the loop.
  unfoldable pub after_chunks : List Bool → Worker env → Ending × Worker env
  unfolding save_done
  after_chunks [] w = (unfinished, w)
  after_chunks (stop ∷ signals) w =
      let heard = hear_stop stop w in
      elim heard.stopped [ true ↦ (unmarked, heard) | false ↦ save_done heard ]

  module _ (source : SnapshotSource env) (conf : SnapshotConfig) where
    abbrev pub read_chunk :
        Text → Option Text → Worker env → Outcome (List ChangeEvent) × Worker env
    read_chunk col last_val w =
        let (r, s) = source.incremental_snapshot col last_val conf.snap_chunk_size w.source in
        (r, record w { source = s })

    -- The loop, one reading of the stop flag after the other: whether `stop()` was called before
    -- each. The list bounds what is looked at, and `unfinished` says that it was too short.
    unfoldable pub chunks : List Bool → Text → Option Text → Worker env → Ending × Worker env
    unfolding after_chunks take_chunk save_done
    chunks [] col last_val w = (unfinished, w)
    chunks (stop ∷ signals) col last_val w =
        let heard = hear_stop stop w in
        elim heard.stopped [
          | true ↦ after_chunks signals heard
          | false ↦
              let (chunk, w') = read_chunk col last_val heard in
              elim chunk [
                | raised message ↦ (crashed message, w')
                | ok events ↦ elim events [
                  | [] ↦ after_chunks signals w'
                  | ev ∷ evs ↦
                      let (value, w'') = take_chunk col last_val ev evs w' in
                      elim value [
                        | raised message ↦ (crashed message, w'')
                        | ok val ↦ chunks signals col (some val) w''
                      ]
                ]
              ]
        ]

    abbrev pub start_chunks :
        List Bool
        → Option Text
        → Option Text
        → Outcome (List ColumnSchema)
        → Worker env
        → Ending × Worker env
    start_chunks signals none offset schema w = no_cursor source.rows source.ending w
    start_chunks signals (some col) offset schema w =
        let (col', last_val) = resume offset col schema in chunks signals col' last_val w

    -- `_run_incremental_snapshot`
    unfoldable pub run_incremental_snapshot :
        List Bool → Option Text → Worker env → Ending × Worker env
    unfolding cursor_column resume chunks no_cursor
    run_incremental_snapshot signals offset w =
        let schema = env.get_schema cfg.table w.source in
        start_chunks signals (cursor_column conf.snap_cursor_col schema) offset schema w
