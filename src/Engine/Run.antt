-- ===== src/Engine/Run.antt =====
-- `TableWorker.run` of core/engine.py: the snapshot when one is due, then the stream.
use dremio_cdc.Prelude.{
  Bool, true, false, ◌||◌, ◌&&◌, Option, none, some, List, [], Text, text_eq, pair_eq, ◌==◌,
  if◌then◌else◌,
}
use dremio_cdc.Prelude.Chars.{codes, strip_prefix}
use dremio_cdc.Event.{Value, is_none}
use dremio_cdc.Status
use dremio_cdc.Engine.Worker.{Env, Config, Worker, key_of}
use dremio_cdc.Engine.Delivery.{saved}
use dremio_cdc.Engine.Stream.{Arrival, set_state, stream}
use dremio_cdc.Engine.Snapshot.{
  SnapshotSource, SnapshotConfig, Ending, full_snapshot, run_incremental_snapshot,
}

-- `isinstance(offset, str) and offset.startswith("snap:")`
abbrev pub snap_text : Value → Option Text
snap_text (Value.text t) = elim (strip_prefix (codes "snap:") t) [ none ↦ none | some r ↦ some t ]
snap_text v = none

abbrev pub not_done : Option Text → Option Text
not_done none = none
not_done (some t) = if t == codes "snap:done" then none else some t

-- The saved position of a snapshot in progress.
unfoldable pub snap_in_progress : Value → Option Text
snap_in_progress offset = not_done (snap_text offset)

abbrev pub is_some : Option Text → Bool
is_some none = false
is_some (some t) = true

unfoldable pub need_snapshot : Config → Value → Bool
unfolding snap_in_progress
need_snapshot cfg offset = (is_none offset || is_some (snap_in_progress offset)) && cfg.do_snapshot

-- A position of the snapshot is none for the stream.
unfoldable pub stream_offset : Value → Value
stream_offset offset = elim (snap_text offset) [ none ↦ offset | some t ↦ Value.null ]

-- What the source yields, and the calls of `stop()` that come meanwhile. The stream depends on the
-- position that it starts from.
pub record Feed (env : Env) : Type 0 where
  pub snapshots : SnapshotSource env
  pub signals : List Bool
  pub arrivals : Value → List Arrival
  pub ending : Value → Option Text

module _ (env : Env) (cfg : Config) (conf : SnapshotConfig) (feed : Feed env) where
  unfoldable pub stream_from : Value → Worker env → Worker env
  unfolding stream_offset stream
  stream_from offset w =
      let start = stream_offset offset in stream env cfg (feed.arrivals start) (feed.ending start) w

  unfoldable pub take_snapshot : Value → Worker env → Ending × Worker env
  unfolding full_snapshot run_incremental_snapshot snap_in_progress
  take_snapshot offset w =
      if conf.incr_snapshot && conf.overrides
      then run_incremental_snapshot env cfg feed.snapshots conf feed.signals
          (snap_in_progress offset) w
      else full_snapshot env cfg feed.snapshots.rows feed.snapshots.ending [] w

  unfoldable pub after_snapshot : Ending × Worker env → Worker env
  unfolding stream_from set_state
  after_snapshot (Ending.complete, w) = stream_from (saved (key_of cfg) w) w
  after_snapshot (Ending.unmarked, w) = stream_from (saved (key_of cfg) w) w
  after_snapshot (Ending.returned, w) = w
  after_snapshot (Ending.crashed message, w) = set_state env cfg Status.State.error (some message) w
  after_snapshot (Ending.unfinished, w) = w

  unfoldable pub run : Worker env → Worker env
  unfolding need_snapshot after_snapshot take_snapshot stream_from set_state
  run w =
      let offset = saved (key_of cfg) w in
      if need_snapshot cfg offset
      then after_snapshot
          (take_snapshot offset (set_state env cfg Status.State.snapshotting none w))
      else stream_from offset w
