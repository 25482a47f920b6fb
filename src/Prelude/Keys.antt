-- ===== src/Prelude/Keys.antt =====
-- Equality as an interface: what a dictionary asks of its keys.
use Prim.Native.Nat.{ℕ}
use mathlib.Core.Path.{◌≡◌, refl, sym}
use mathlib.Core.Logic.{◌↔◌, ◌≢◌, inl, inr}
use mathlib.Core.Bool.{Bool, true, false, false≢true}
use mathlib.Core.List.{List}
use native.Mathlib.Decide.{ℕ_discrete}
use dremio_cdc.Prelude.Tests.{◌=ℕ◌, =ℕ_iff, if◌then◌else◌, Bool-cases}

pub record Eq {ℓ} (A : Type ℓ) : Type ℓ where
  pub agrees : A → A → Bool
  pub agrees_iff : (x y : A) → (agrees x y ≡ true) ↔ (x ≡ y)

-- Decisions as Boolean tests.
abbrev pub is_yes {ℓ} : {P : Type ℓ} → Dec P → Bool
is_yes (yes p) = true
is_yes (no p) = false

pub is_yes_iff {ℓ} : {P : Type ℓ} (d : Dec P) → (is_yes d ≡ true) ↔ P
is_yes_iff (yes p) = (λ h. p, λ h. refl)
is_yes_iff (no n) = (λ h. absurd (false≢true h), λ p. absurd (n p))

abbrev pub discrete_eq {ℓ} : {A : Type ℓ} → Discrete A → Eq A
discrete_eq d = record { agrees = λ a b. is_yes (d a b); agrees_iff = λ a b. is_yes_iff (d a b) }

instance abbrev pub nat_eq : Eq ℕ
nat_eq = record { agrees = ◌=ℕ◌; agrees_iff = =ℕ_iff }

-- `x == y`
infix 50 ◌==◌
abbrev pub ◌==◌ {ℓ} : {A : Type ℓ} ⦃e : Eq A⦄ → A → A → Bool
◌==◌ ⦃e⦄ = e.agrees

-- A text is the list of its code points.
abbrev pub Text : Type 0
Text = List ℕ

unfoldable pub Text-discrete : Discrete Text
unfolding ℕ_discrete
Text-discrete = hlevel ℕ_discrete

instance abbrev pub text_eq : Eq Text
text_eq = discrete_eq Text-discrete

unfoldable pub Pair-discrete : Discrete (Text × Text)
unfolding Text-discrete
Pair-discrete = hlevel Text-discrete

-- The key of a table with the primary key (source_name, source_table).
instance abbrev pub pair_eq : Eq (Text × Text)
pair_eq = discrete_eq Pair-discrete

module _ {ℓ} {A : Type ℓ} ⦃e : Eq A⦄ where
  pub eq_refl : (a : A) → (a == a) ≡ true
  eq_refl a = (e.agrees_iff a a).1 refl

  pub ne_of_test : (a b : A) → (a == b) ≡ false → a ≢ b
  ne_of_test a b h same = cc (h, (e.agrees_iff a b).1 same)

  -- `a in xs`
  abbrev pub contains : A → List A → Bool
  contains a List.[] = false
  contains a (List.◌∷◌ x xs) = elim (a == x) [ true ↦ true | false ↦ contains a xs ]

module _ {ℓ κ} {A : Type ℓ} {B : Type κ} ⦃e : Eq A⦄ where
  pub if_same : (k : A) (x y : B) → (if k == k then x else y) ≡ x
  if_same k x y = rw (eq_refl k)

  pub if_other : (k j : A) (x y : B) → j ≢ k → (if k == j then x else y) ≡ y
  if_other k j x y h = elim (Bool-cases (k == j)) [
    | inl same ↦ absurd (h (sym ((e.agrees_iff k j).0 same)))
    | inr different ↦ rw different
  ]
