-- ===== src/Engine/Tuner/Bounds.antt =====
-- The batch size of core/engine.py's tuner stays in its range, and how far one step moves it.
use dremio_cdc.Prelude.{
  ℕ, ◌*◌, ◌/◌, ◌≤◌, ◌||◌, arith, List, [], ◌∷◌, foldl, max, min, Bool-cases, inl, inr, ◌=ℕ◌,
}
use dremio_cdc.Engine.Tuner.{Tuner, Sample, new_tuner, tune, ideal, clamp}

pub record InRange (t : Tuner) : Type 0 where
  pub ordered : t.min_size ≤ t.max_size
  pub above : t.min_size ≤ t.batch_size
  pub below : t.batch_size ≤ t.max_size

-- A new tuner is in range, whatever size it is started with.
pub new_tuner-InRange :
    (initial min_size max_size timeout : ℕ)
    → min_size ≤ max_size
    → InRange (new_tuner initial min_size max_size timeout)
unfolding new_tuner
new_tuner-InRange initial min_size max_size timeout h = omega arith

-- The arithmetic of one step, for any target.
step_range :
    (lo hi b x : ℕ)
    → lo ≤ b
    → b ≤ hi
    → let y = clamp (max lo (b * 67 / 100)) (min hi (b * 3 / 2)) (clamp lo hi x) in
      (lo ≤ y) × (y ≤ hi) × (b * 67 / 100 ≤ y) × (y ≤ b * 3 / 2)
step_range lo hi b x p q = omega arith

-- For a tuner within its limits, one step stays within the configured sizes, and between the batch
-- size times 67/100 and times 3/2, both rounded down, at whatever rate the events come.
pub tune_step :
    (rate : ℕ → ℕ → ℕ → ℕ) (s : Sample) (t : Tuner)
    → InRange t
    → InRange (tune rate s t)
      × (t.batch_size * 67 / 100 ≤ (tune rate s t).batch_size)
      × ((tune rate s t).batch_size ≤ t.batch_size * 3 / 2)
unfolding tune
tune_step rate s t h = elim (Bool-cases (s.flush_duration =ℕ 0 || s.flush_count =ℕ 0)) [
  | inl skipped ↦ rw skipped (h, omega arith, omega arith)
  | inr tuned ↦
      let step = step_range t.min_size t.max_size t.batch_size (ideal rate t s) h.above h.below in
      rw tuned (record { ordered = h.ordered; above = step.0; below = step.1 }, step.2, step.3)
]

-- After any sequence of flushes the batch size is within the configured sizes.
pub tune_all-InRange :
    (rate : ℕ → ℕ → ℕ → ℕ) (samples : List Sample) (t : Tuner)
    → InRange t
    → InRange (foldl (λ r s. tune rate s r) t samples)
tune_all-InRange rate [] t h = h
tune_all-InRange rate (s ∷ samples) t h =
    tune_all-InRange rate samples (tune rate s t) (tune_step rate s t h).0
