-- ===== src/Alerts.antt =====
-- core/alert_manager.py. Times are microseconds, a lag is in hundredths of a second.
pub mod Cooldown
mod Tests
use dremio_cdc.Prelude.{
  ℕ, ◌+◌, ◌-◌, Bool, true, false, Option, none, some, List, [], ◌∷◌, ◌++◌, Text, text_eq, length,
  drop, ltb, leb, if◌then◌else◌,
}
use dremio_cdc.Prelude.Chars.{codes, to_decimal}
use dremio_cdc.Prelude.Int.{ℤ, pos, ltb_ℤ}
use dremio_cdc.Prelude.Dict.{Dict, lookup, insert}
use dremio_cdc.Status
use dremio_cdc.Status.{WorkerStatus, StatusStore, State, View, snapshot}

-- The `record` of `_maybe_fire`.
pub record Alert : Type 0 where
  pub time : ℕ
  pub type : Text
  pub source : Text
  pub table : Text
  pub message : Text

-- The thresholds are in the units of what they are compared with.
pub record AlertManager : Type 0 where
  pub enabled : Bool
  pub lag_threshold : ℕ
  pub error_threshold : ℕ
  pub cooldown : ℕ
  pub last_fired : Dict Text ℕ
  pub recent : List Alert

-- What `_maybe_fire` is called with.
pub record Request : Type 0 where
  pub key : Text
  pub alert_type : Text
  pub worker : WorkerStatus
  pub message : Text

-- `{x:.1f}` of a lag and `{x:.0f}` of the threshold.
pub record Formats : Type 0 where
  pub one_digit : ℤ → Text
  pub no_digit : ℕ → Text

abbrev pub or_zero : Option ℕ → ℕ
or_zero none = 0
or_zero (some t) = t

-- `self._last_fired.get(key, 0)`
abbrev pub last_time : Text → AlertManager → ℕ
last_time key m = or_zero (lookup key m.last_fired)

-- `deque(maxlen=200).append`
abbrev pub append_recent : List Alert → Alert → List Alert
append_recent recent alert = let all = recent ++ (alert ∷ []) in drop (length all - 200) all

abbrev pub alert_of : ℕ → Request → Alert
alert_of now r = record {
  time = now;
  type = r.alert_type;
  source = r.worker.source_name;
  table = r.worker.table;
  message = r.message;
}

-- `_maybe_fire`, and the alert that it sends to the channels, with its key.
unfoldable pub maybe_fire : ℕ → Request → AlertManager → Option (Text × Alert) × AlertManager
maybe_fire now r m = if ltb now (last_time r.key m + m.cooldown) then (none, m) else (
  some (r.key, alert_of now r),
  record m {
    last_fired = insert r.key now m.last_fired;
    recent = append_recent m.recent (alert_of now r);
  },
)

module _ (formats : Formats) where
  abbrev worker_key : Text → WorkerStatus → Text
  worker_key kind w = kind ++ (w.source_name ++ (b'/' ∷ w.table))

  abbrev pub request : Text → Text → WorkerStatus → Text → Request
  request kind alert_type w message = record {
    key = worker_key kind w;
    alert_type = alert_type;
    worker = w;
    message = message;
  }

  -- `if lag is not None and lag > self._lag_threshold`
  unfoldable pub lag_requests : ℕ → View → List Request
  lag_requests threshold v = elim v.lag_seconds [
    | none ↦ []
    | some lag ↦
        if ltb_ℤ (pos threshold) lag
        then request (codes "lag:") (codes "lag") v.worker (
            codes "Lag "
            ++ (formats.one_digit lag
                ++ (codes "s exceeds threshold " ++ (formats.no_digit threshold ++ codes "s"))))
          ∷ []
        else []
  ]

  unfoldable pub error_requests : ℕ → View → List Request
  unfolding to_decimal
  error_requests threshold v =
      if leb threshold v.worker.error_count
      then request (codes "errors:") (codes "errors") v.worker (
          codes "Error count "
          ++ (to_decimal v.worker.error_count
              ++ (codes " reached threshold " ++ to_decimal threshold)))
        ∷ []
      else []

  abbrev error_text : Option Text → Text
  error_text none = codes "None"
  error_text (some t) = t

  unfoldable pub state_requests : View → List Request
  state_requests v = elim v.worker.state [
    | State.error ↦
        request (codes "state:") (codes "worker_error") v.worker
          (codes "Worker entered error state: " ++ error_text v.worker.error)
        ∷ []
    | _ ↦ []
  ]

  unfoldable pub requests : AlertManager → List View → List Request
  unfolding lag_requests error_requests state_requests
  requests m [] = []
  requests m (v ∷ views) =
      lag_requests m.lag_threshold v
      ++ (error_requests m.error_threshold v ++ (state_requests v ++ requests m views))

abbrev pub add_fired : Option (Text × Alert) → List (Text × Alert) → List (Text × Alert)
add_fired none log = log
add_fired (some a) log = a ∷ log

-- One request after the other, with the log of what was sent, the latest first.
unfoldable pub fire_all :
    ℕ → List Request → List (Text × Alert) × AlertManager → List (Text × Alert) × AlertManager
unfolding maybe_fire
fire_all now [] w = w
fire_all now (r ∷ rs) (log, m) =
    let (fired, m') = maybe_fire now r m in fire_all now rs (add_fired fired log, m')

-- `_check`, at the time `now` by the clock.
unfoldable pub check :
    Formats
    → ℕ
    → StatusStore
    → List (Text × Alert) × AlertManager
    → List (Text × Alert) × AlertManager
unfolding fire_all requests
check formats now status (log, m) =
    fire_all now (requests formats m (snapshot now status).workers) (log, m)

-- The turns of `_loop`: a disabled manager checks nothing.
unfoldable pub loop :
    Formats
    → List (ℕ × StatusStore)
    → List (Text × Alert) × AlertManager
    → List (Text × Alert) × AlertManager
unfolding check
loop formats [] w = w
loop formats ((now, status) ∷ turns) (log, m) =
    let next = check formats now status (log, m) in
    loop formats turns (if m.enabled then next else (log, m))

-- What of a configuration the checks use.
pub record AlertConfig : Type 0 where
  pub enabled : Bool
  pub lag_threshold : ℕ
  pub error_threshold : ℕ
  pub cooldown : ℕ

-- `reconfigure`: what was fired is kept.
unfoldable pub reconfigure : AlertConfig → AlertManager → AlertManager
reconfigure cfg m = record m {
  enabled = cfg.enabled;
  lag_threshold = cfg.lag_threshold;
  error_threshold = cfg.error_threshold;
  cooldown = cfg.cooldown;
}

abbrev pub get_recent : AlertManager → List Alert
get_recent m = m.recent
