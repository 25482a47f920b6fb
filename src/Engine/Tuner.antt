-- ===== src/Engine/Tuner.antt =====
-- `AdaptiveBatchTuner` of core/engine.py. Durations are microseconds and a lag is in hundredths of
-- a second. The rate is a product of floats, which is rounded: `rate` is
-- `int(flush_count / flush_duration * batch_timeout)` as the floats have it. The products with 0.67
-- and 1.50 are fractions, rounded down as `int` does.
pub mod Bounds
pub mod Growth
use dremio_cdc.Prelude.{
  ℕ, ◌+◌, ◌*◌, ◌/◌, ◌||◌, Bool, true, false, Option, none, some, min, max, ◌=ℕ◌, if◌then◌else◌,
}
use dremio_cdc.Prelude.Int.{ℤ, pos, ltb_ℤ}

pub record Tuner : Type 0 where
  pub batch_size : ℕ
  pub min_size : ℕ
  pub max_size : ℕ
  pub timeout : ℕ

-- `max(lo, min(hi, x))`
abbrev pub clamp : ℕ → ℕ → ℕ → ℕ
clamp lo hi x = max lo (min hi x)

-- `AdaptiveBatchTuner(...)`
unfoldable pub new_tuner : ℕ → ℕ → ℕ → ℕ → Tuner
new_tuner initial min_size max_size batch_timeout = record {
  batch_size = clamp min_size max_size initial;
  min_size = min_size;
  max_size = max_size;
  timeout = batch_timeout;
}

-- One flush, as the tuner sees it.
pub record Sample : Type 0 where
  pub flush_count : ℕ
  pub flush_duration : ℕ
  pub lag : Option ℤ

-- `lag_s is not None and lag_s < 2.0`
abbrev pub is_current : Option ℤ → Bool
is_current none = false
is_current (some lag) = ltb_ℤ lag (pos 200)

abbrev pub lowest : Tuner → ℕ
lowest t = max t.min_size (t.batch_size * 67 / 100)

abbrev pub highest : Tuner → ℕ
highest t = min t.max_size (t.batch_size * 3 / 2)

module _ (rate : ℕ → ℕ → ℕ → ℕ) where
  -- The events that arrive in one timeout, held down while the worker is current.
  unfoldable pub ideal : Tuner → Sample → ℕ
  ideal t s =
      let events = rate s.flush_count s.flush_duration t.timeout in
      if is_current s.lag then min events (t.min_size * 2) else events

  unfoldable pub tune : Sample → Tuner → Tuner
  unfolding ideal
  tune s t = if s.flush_duration =ℕ 0 || s.flush_count =ℕ 0 then t else record t {
    batch_size = clamp (lowest t) (highest t) (clamp t.min_size t.max_size (ideal t s));
  }
