-- ===== src/Sources/Datastream/Names.antt =====
-- Python's order of texts, by code points, and `sorted`.
use dremio_cdc.Prelude.{
  ◌≡◌, ◌≢◌, refl, ap, ◌∙◌, Bool, true, false, List, [], ◌∷◌, ◌++◌, All, All-map, Text, keep,
  keep-append, ltb, if◌then◌else◌, arith, ℕ_discrete, Bool-cases, inl, inr,
}

-- `s < t`
unfoldable pub lt_text : Text → Text → Bool
lt_text s [] = false
lt_text [] (d ∷ t) = true
lt_text (c ∷ s) (d ∷ t) =
    let rest = lt_text s t in if ltb c d then true else if ltb d c then false else rest

abbrev pub Less : Text → Text → Type 0
Less s t = lt_text s t ≡ true

lt_text_trans : (s t u : Text) → Less s t → Less t u → Less s u
unfolding lt_text
lt_text_trans s t [] p q = q
lt_text_trans s [] (e ∷ u) p q = cc
lt_text_trans [] (d ∷ t) (e ∷ u) p q = refl
lt_text_trans (c ∷ s) (d ∷ t) (e ∷ u) p q = ground (arith, lt_text_trans s t u)

lt_text-asym : (s t : Text) → Less s t → lt_text t s ≡ false
unfolding lt_text
lt_text-asym [] [] p = refl
lt_text-asym (c ∷ s) [] p = cc
lt_text-asym [] (d ∷ t) p = refl
lt_text-asym (c ∷ s) (d ∷ t) p = ground (arith, lt_text-asym s t)

lt_text-total : (s t : Text) → s ≢ t → lt_text s t ≡ false → Less t s
unfolding lt_text
lt_text-total [] [] n p = absurd (n refl)
lt_text-total (c ∷ s) [] n p = refl
lt_text-total [] (d ∷ t) n p = cc
lt_text-total (c ∷ s) (d ∷ t) n p = elim (ℕ_discrete c d) [
  | yes same ↦ ground (arith, lt_text-total s t (λ e. n (λ i. same i ∷ e i)))
  | no other ↦ ground arith
]

-- `sorted(names)`: each name before the first that is greater.
unfoldable pub insert_sorted : Text → List Text → List Text
insert_sorted x [] = x ∷ []
insert_sorted x (y ∷ ys) =
    let rest = insert_sorted x ys in if lt_text x y then x ∷ y ∷ ys else y ∷ rest

unfoldable pub sorted : List Text → List Text
unfolding insert_sorted
sorted [] = []
sorted (x ∷ xs) = insert_sorted x (sorted xs)

-- The names are in ascending order, and no two are the same.
abbrev pub Ascending : List Text → Type 0
Ascending [] = Unit {0}
Ascending (x ∷ xs) = All (Less x) xs × Ascending xs

abbrev pub Unique : List Text → Type 0
Unique [] = Unit {0}
Unique (x ∷ xs) = All (λ (y : Text). x ≢ y) xs × Unique xs

All-insert_sorted {κ} :
    (P : Text → Type κ) (x : Text) (ys : List Text) → P x → All P ys → All P (insert_sorted x ys)
unfolding insert_sorted
All-insert_sorted P x [] p h = (p, tt)
All-insert_sorted P x (y ∷ ys) p h = elim (Bool-cases (lt_text x y)) [
  | inl before ↦ rw before (p, h)
  | inr behind ↦ rw behind (h.0, All-insert_sorted P x ys p h.1)
]

All-sorted {κ} : (P : Text → Type κ) (xs : List Text) → All P xs → All P (sorted xs)
unfolding sorted
All-sorted P [] h = tt
All-sorted P (x ∷ xs) h = All-insert_sorted P x (sorted xs) h.0 (All-sorted P xs h.1)

insert_sorted-Ascending :
    (x : Text) (ys : List Text)
    → All (λ (y : Text). x ≢ y) ys
    → Ascending ys
    → Ascending (insert_sorted x ys)
unfolding insert_sorted
insert_sorted-Ascending x [] n a = (tt, tt)
insert_sorted-Ascending x (y ∷ ys) n a = elim (Bool-cases (lt_text x y)) [
  | inl before ↦
      rw before
        ((before, All-map (Less y) (Less x) (λ z h. lt_text_trans x y z before h) ys a.0), a)
  | inr behind ↦ rw behind (
    All-insert_sorted (Less y) x ys (lt_text-total x y n.0 behind) a.0,
    insert_sorted-Ascending x ys n.1 a.1,
  )
]

-- `sorted` puts names that differ into ascending order.
pub sorted-Ascending : (xs : List Text) → Unique xs → Ascending (sorted xs)
unfolding sorted
sorted-Ascending [] u = tt
sorted-Ascending (x ∷ xs) u =
    insert_sorted-Ascending x (sorted xs) (All-sorted _ xs u.0) (sorted-Ascending xs u.1)

keep-none : (f : Text) (xs : List Text) → All (λ p. Less p f) xs → keep (lt_text f) xs ≡ []
keep-none f [] h = refl
keep-none f (x ∷ xs) h = rw (lt_text-asym x f h.0) (keep-none f xs h.1)

keep-all : (f : Text) (xs : List Text) → All (Less f) xs → keep (lt_text f) xs ≡ xs
keep-all f [] h = refl
keep-all f (x ∷ xs) h = rw h.0 (ap (λ l. x ∷ l) (keep-all f xs h.1))

lt_text_irrefl : (f : Text) → lt_text f f ≡ false
unfolding lt_text
lt_text_irrefl [] = refl
lt_text_irrefl (c ∷ f) = ground (arith, lt_text_irrefl f)

All-at {κ} :
    (P : Text → Type κ) (f : Text) (before after : List Text) → All P (before ++ (f ∷ after)) → P f
All-at P f [] after h = h.0
All-at P f (b ∷ before) after h = All-at P f before after h.1

Ascending-at :
    (f : Text) (before after : List Text)
    → Ascending (before ++ (f ∷ after))
    → All (λ p. Less p f) before × All (Less f) after
Ascending-at f [] after a = (tt, a.0)
Ascending-at f (b ∷ before) after a =
    let rest = Ascending-at f before after a.1 in
    ((All-at (λ p. Less b p) f before after a.0, rest.0), rest.1)

-- Of an ascending list, the names greater than one of them are those behind it.
pub keep-after :
    (f : Text) (before after : List Text)
    → Ascending (before ++ (f ∷ after))
    → keep (lt_text f) (before ++ (f ∷ after)) ≡ after
keep-after f before after a =
    let at = Ascending-at f before after a in
    keep-append (lt_text f) before (f ∷ after)
    ∙ rw (keep-none f before at.0, lt_text_irrefl f) (keep-all f after at.1)
