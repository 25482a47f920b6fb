-- ===== src/Alerts/Cooldown.antt =====
-- The alerts of core/alert_manager.py keep their distance, and few are held.
use dremio_cdc.Prelude.{
  ℕ, ◌+◌, ◌-◌, ◌≤◌, ◌≡◌, refl, sym, ap, subst, ◌∙◌, Bool, true, false, Option, some, List, [], ◌∷◌,
  ◌++◌, arith, Text, text_eq, length, length-drop, All, All-map, ltb, ◌==◌, Bool-cases, inl, inr,
  if◌then◌else◌, if_same,
}
use dremio_cdc.Prelude.Dict.{lookup, insert, lookup-insert}
use dremio_cdc.Status.{StatusStore, snapshot}
use dremio_cdc.Alerts.{
  Alert, AlertManager, Request, Formats, last_time, or_zero, append_recent, alert_of, maybe_fire,
  add_fired, requests, fire_all, check, loop,
}

-- The latest alert first: each is at least the cooldown behind those of its key.
abbrev pub Spaced : ℕ → List (Text × Alert) → Type 0
Spaced cooldown [] = Unit
Spaced cooldown (a ∷ log) =
    All (λ b. b.0 ≡ a.0 → b.1.time + cooldown ≤ a.1.time) log × Spaced cooldown log

-- The manager knows, for the key of each alert, a time that is not before it.
abbrev pub Known : AlertManager → List (Text × Alert) → Type 0
Known m log = All (λ b. b.1.time ≤ last_time b.0 m) log

pub record IsQuiet (w : List (Text × Alert) × AlertManager) : Type 0 where
  pub spaced : Spaced w.1.cooldown w.0
  pub known : Known w.1 w.0
  pub few : length w.1.recent ≤ 200

append_recent-length : (recent : List Alert) (a : Alert) → length (append_recent recent a) ≤ 200
append_recent-length recent a =
    let all = recent ++ (a ∷ []) in omega (arith, length-drop (length all - 200) all)

test-≤ : (a b : ℕ) → ltb a b ≡ false → b ≤ a
test-≤ a b h = ground (arith, h)

-- The manager that has fired.
abbrev after_fire : ℕ → Request → AlertManager → AlertManager
after_fire now r m = record m {
  last_fired = insert r.key now m.last_fired;
  recent = append_recent m.recent (alert_of now r);
}

or_zero-if :
    (b : Bool) (now : ℕ) (old : Option ℕ)
    → or_zero (if b then some now else old) ≡ (if b then now else or_zero old)
or_zero-if true now old = refl
or_zero-if false now old = refl

last_time-fired :
    (m : AlertManager) (r : Request) (now : ℕ) (k : Text)
    → last_time k (after_fire now r m) ≡ (if r.key == k then now else last_time k m)
last_time-fired m r now k =
    ap or_zero (lookup-insert r.key k now m.last_fired)
    ∙ or_zero-if (r.key == k) now (lookup k m.last_fired)

-- Firing at a time that is not before the last one of the key.
last_time-grows :
    (m : AlertManager) (r : Request) (now : ℕ) (k : Text) (t : ℕ)
    → last_time r.key m ≤ now
    → t ≤ last_time k m
    → t ≤ last_time k (after_fire now r m)
last_time-grows m r now k t h le = elim (Bool-cases (r.key == k)) [
  | inl same ↦
      let at : r.key ≡ k = (text_eq.agrees_iff r.key k).0 same in
      let before = subst (λ (j : Text). last_time j m ≤ now) at h in
      subst (λ (n : ℕ). t ≤ n)
        (sym (last_time-fired m r now k ∙ ap (λ b. if b then now else last_time k m) same))
        (omega (arith, le, before))
  | inr other ↦
      subst (λ (n : ℕ). t ≤ n)
        (sym (last_time-fired m r now k ∙ ap (λ b. if b then now else last_time k m) other)) le
]

last_time_self :
    (m : AlertManager) (r : Request) (now : ℕ) → last_time r.key (after_fire now r m) ≡ now
last_time_self m r now = last_time-fired m r now r.key ∙ if_same r.key now (last_time r.key m)

fired-IsQuiet :
    (now : ℕ) (r : Request) (log : List (Text × Alert)) (m : AlertManager)
    → IsQuiet (log, m)
    → last_time r.key m + m.cooldown ≤ now
    → IsQuiet ((r.key, alert_of now r) ∷ log, after_fire now r m)
fired-IsQuiet now r log m h late = record {
  spaced = (
    All-map (λ b. b.1.time ≤ last_time b.0 m) (λ b. b.0 ≡ r.key → b.1.time + m.cooldown ≤ now)
        (λ b le same.
          let before = subst (λ (k : Text). b.1.time ≤ last_time k m) same le in
          omega (arith, before, late))
        log h.known,
    h.spaced,
  );
  known = (
    subst (λ (n : ℕ). now ≤ n) (sym (last_time_self m r now)) (omega arith),
    All-map (λ b. b.1.time ≤ last_time b.0 m) (λ b. b.1.time ≤ last_time b.0 (after_fire now r m))
        (λ b le. last_time-grows m r now b.0 b.1.time (omega (arith, late)) le) log h.known,
  );
  few = append_recent-length m.recent (alert_of now r);
}

fire-IsQuiet :
    (now : ℕ) (r : Request) (log : List (Text × Alert)) (m : AlertManager)
    → IsQuiet (log, m)
    → IsQuiet (add_fired (maybe_fire now r m).0 log, (maybe_fire now r m).1)
unfolding maybe_fire
fire-IsQuiet now r log m h = elim (Bool-cases (ltb now (last_time r.key m + m.cooldown))) [
  | inl early ↦ rw (early, maybe_fire) h
  | inr late ↦
      rw (late, maybe_fire)
        (fired-IsQuiet now r log m h (test-≤ now (last_time r.key m + m.cooldown) late))
]

fire_all-IsQuiet :
    (now : ℕ) (rs : List Request) (w : List (Text × Alert) × AlertManager)
    → IsQuiet w
    → IsQuiet (fire_all now rs w)
unfolding fire_all
fire_all-IsQuiet now [] w h = h
fire_all-IsQuiet now (r ∷ rs) (log, m) h = fire_all-IsQuiet now rs _ (fire-IsQuiet now r log m h)

if-IsQuiet :
    (b : Bool) (u w : List (Text × Alert) × AlertManager)
    → IsQuiet u
    → IsQuiet w
    → IsQuiet (if b then u else w)
if-IsQuiet true u w hu hw = hu
if-IsQuiet false u w hu hw = hw

-- For a manager and its log of alerts the following is kept by any turns, whatever the workers
-- report and whatever the clock does between the turns: two alerts of one key are at least the
-- cooldown apart, no alert is later than the time that the manager holds for its key, and at most
-- two hundred alerts are held.
pub loop-IsQuiet :
    (formats : Formats) (turns : List (ℕ × StatusStore)) (w : List (Text × Alert) × AlertManager)
    → IsQuiet w
    → IsQuiet (loop formats turns w)
unfolding loop check
loop-IsQuiet formats [] w h = h
loop-IsQuiet formats ((now, status) ∷ turns) (log, m) h = loop-IsQuiet formats turns _ (
    if-IsQuiet m.enabled (check formats now status (log, m)) (log, m)
      (fire_all-IsQuiet now (requests formats m (snapshot now status).workers) (log, m) h) h)
