-- ===== src/Engine/Tuner/Growth.antt =====
-- How fast the tuner of core/engine.py reaches its largest size, and where it cannot grow.
use dremio_cdc.Prelude.{
  ℕ, ◌+◌, ◌*◌, ◌/◌, ◌≤◌, ◌≡◌, ◌≢◌, ◌||◌, false, arith, List, [], ◌∷◌, foldl, max, min, ◌=ℕ◌, All,
  length, ◌∙◌,
}
use dremio_cdc.Engine.Tuner.{Tuner, Sample, tune, ideal, clamp, is_current}
use dremio_cdc.Engine.Tuner.Bounds.{InRange, tune_step}

-- A flush of a worker that lags, at a rate that fills the largest batch within the timeout, as the
-- floats have it.
pub record IsBusy (rate : ℕ → ℕ → ℕ → ℕ) (timeout max_size : ℕ) (s : Sample) : Type 0 where
  pub took_time : s.flush_duration ≢ 0
  pub wrote : s.flush_count ≢ 0
  pub lags : is_current s.lag ≡ false
  pub fast : max_size ≤ rate s.flush_count s.flush_duration timeout

full_speed :
    (lo hi b x : ℕ)
    → lo ≤ b
    → b ≤ hi
    → hi ≤ x
    → clamp (max lo (b * 67 / 100)) (min hi (b * 3 / 2)) (clamp lo hi x) ≡ min hi (b * 3 / 2)
full_speed lo hi b x p q r = omega arith

tune_busy :
    (rate : ℕ → ℕ → ℕ → ℕ) (s : Sample) (t : Tuner)
    → InRange t
    → IsBusy rate t.timeout t.max_size s
    → (tune rate s t).batch_size ≡ min t.max_size (t.batch_size * 3 / 2)
unfolding tune
tune_busy rate s t h busy =
    let fast : t.max_size ≤ ideal rate t s = unfold ideal in rw busy.lags busy.fast in
    let awake : (s.flush_duration =ℕ 0 || s.flush_count =ℕ 0) ≡ false =
      ground (arith, busy.took_time, busy.wrote) in
    rw awake (full_speed t.min_size t.max_size t.batch_size (ideal rate t s) h.above h.below fast)

tune_config :
    (rate : ℕ → ℕ → ℕ → ℕ) (s : Sample) (t : Tuner)
    → ((tune rate s t).max_size ≡ t.max_size) × ((tune rate s t).timeout ≡ t.timeout)
unfolding tune
tune_config rate s t = ground arith

-- From a batch of two or more within its limits, as many busy flushes as the distance to the
-- largest size reach it. A flush is busy when the worker lags and the events of one timeout, counted
-- in floats and rounded down as the code counts them, are at least the largest size.
pub busy_reaches_max :
    (rate : ℕ → ℕ → ℕ → ℕ) (samples : List Sample) (t : Tuner)
    → InRange t
    → 2 ≤ t.batch_size
    → All (IsBusy rate t.timeout t.max_size) samples
    → t.max_size ≤ t.batch_size + length samples
    → (foldl (λ r s. tune rate s r) t samples).batch_size ≡ t.max_size
busy_reaches_max rate [] t h two busy enough = omega (arith, h.below)
busy_reaches_max rate (s ∷ samples) t h two busy enough =
    let grown = tune_busy rate s t h busy.0 in
    let same = tune_config rate s t in
    busy_reaches_max rate samples (tune rate s t) (tune_step rate s t h).0
      (omega (arith, grown, two, h.below)) (rw (same.0, same.1) busy.1)
      (omega (arith, grown, same.0, enough, h.below))
    ∙ same.0

-- For a tuner within its limits, a batch of at most one event never grows past one, at whatever rate the events come.
pub one_never_grows :
    (rate : ℕ → ℕ → ℕ → ℕ) (samples : List Sample) (t : Tuner)
    → InRange t
    → t.batch_size ≤ 1
    → (foldl (λ r s. tune rate s r) t samples).batch_size ≤ 1
one_never_grows rate [] t h one = one
one_never_grows rate (s ∷ samples) t h one =
    let step = tune_step rate s t h in
    one_never_grows rate samples (tune rate s t) step.0 (omega (arith, step.2))
