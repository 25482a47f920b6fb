-- ===== src/Iceberg/Newest.antt =====
-- Which rows core/iceberg_sink.py appends: the newest of each key.
use dremio_cdc.Prelude.{
  ◌≡◌, refl, sym, ap, ◌∙◌, Bool, true, false, Option, none, some, List, [], ◌∷◌, Text, ◌==◌,
  contains, Bool-cases, inl, inr, if◌then◌else◌,
}
use mathlib.Core.List.{reverse}
use dremio_cdc.Event.{Value, Row, ChangeEvent, values_eq}
use dremio_cdc.Sink.Dremio.{key_at}
use dremio_cdc.Iceberg.{place, newest}

test-flip : (j k : List Value) → (j == k) ≡ false → (k == j) ≡ false
test-flip j k h = elim (Bool-cases (k == j)) [
  | inl same ↦ cc (h, (values_eq.agrees_iff j k).1 (sym ((values_eq.agrees_iff k j).0 same)))
  | inr other ↦ other
]

contains_other :
    (k j : List Value) (seen : List (List Value))
    → (k == j) ≡ false
    → contains k (j ∷ seen) ≡ contains k seen
contains_other k j seen h = rw (h, contains) refl

contains_head :
    (k j : List Value) (seen : List (List Value)) → (k == j) ≡ true → contains k (j ∷ seen) ≡ true
contains_head k j seen h = rw (h, contains) refl

module _ (pks : List Text) where
  abbrev row_has : List Value → Option Row → Bool
  row_has k none = false
  row_has k (some r) = key_at pks r == k

  -- The event has a new row, with the key.
  unfoldable pub writes : List Value → ChangeEvent → Bool
  writes k ev = row_has k ev.after

  writes-row_has :
      (k : List Value) (ev : ChangeEvent) (o : Option Row)
      → ev.after ≡ o
      → writes k ev ≡ row_has k o
  unfolding writes
  writes-row_has k ev o e = ap (row_has k) e

  -- The first of the events that writes the key.
  abbrev pub first_writer : List Value → List ChangeEvent → Option ChangeEvent
  first_writer k [] = none
  first_writer k (ev ∷ evs) = if writes k ev then some ev else first_writer k evs

  placed :
      (k : List Value) (ev : ChangeEvent) (o : Option Row) (found : Option ChangeEvent)
      (seen : List (List Value)) (rest : List (List Value) → List ChangeEvent)
      → ((s : List (List Value)) → first_writer k (rest s) ≡ (if contains k s then none else found))
      → writes k ev ≡ row_has k o
      → first_writer k (place pks ev o seen rest)
        ≡ (if contains k seen then none else if writes k ev then some ev else found)
  placed k ev none found seen rest h w = rw w (h seen)
  placed k ev (some r) found seen rest h w = elim (Bool-cases (key_at pks r == k)) [
    | inl same ↦
        let at : key_at pks r ≡ k = (values_eq.agrees_iff (key_at pks r) k).0 same in
        let both = ap (λ i. contains i seen) at in
        elim (Bool-cases (contains (key_at pks r) seen)) [
          | inl old ↦ rw old (
              h seen
              ∙ (ap (λ b. if b then none else found) (sym both ∙ old)
                  ∙ ap (λ b. if b then none else if writes k ev then some ev else found)
                      (sym (sym both ∙ old))))
          | inr new ↦ rw (new, w ∙ same, sym both ∙ new) refl
        ]
    | inr other ↦ elim (Bool-cases (contains (key_at pks r) seen)) [
      | inl old ↦ rw (old, w ∙ other) (h seen)
      | inr new ↦
          rw (new, w ∙ other)
            (h (key_at pks r ∷ seen)
              ∙ ap (λ b. if b then none else found)
                  (contains_other k (key_at pks r) seen (test-flip (key_at pks r) k other)))
    ]
  ]

  unseen :
      (k : List Value) (evs : List ChangeEvent) (seen : List (List Value))
      → first_writer k (newest pks evs seen)
        ≡ (if contains k seen then none else first_writer k evs)
  unfolding newest
  unseen k [] seen = elim (Bool-cases (contains k seen)) [
    | inl old ↦ rw old refl
    | inr new ↦ rw new refl
  ]
  unseen k (ev ∷ evs) seen =
      placed k ev ev.after (first_writer k evs) seen (newest pks evs) (unseen k evs)
        (writes-row_has k ev ev.after refl)

  -- No key is written twice.
  abbrev pub Once : List ChangeEvent → Type 0
  Once [] = Unit
  Once (ev ∷ evs) = ((k : List Value) → writes k ev ≡ true → first_writer k evs ≡ none) × Once evs

  placed-Once :
      (ev : ChangeEvent) (o : Option Row) (evs : List ChangeEvent) (seen : List (List Value))
      → ev.after ≡ o
      → ((s : List (List Value)) → Once (newest pks evs s))
      → Once (place pks ev o seen (newest pks evs))
  placed-Once ev none evs seen e h = h seen
  placed-Once ev (some r) evs seen e h = elim (Bool-cases (contains (key_at pks r) seen)) [
    | inl old ↦ rw old (h seen)
    | inr new ↦ rw new (
      λ k hit.
          let same = sym (writes-row_has k ev (some r) e) ∙ hit in
          let at = (values_eq.agrees_iff (key_at pks r) k).0 same in
          let back = (values_eq.agrees_iff k (key_at pks r)).1 (sym at) in
          unseen k evs (key_at pks r ∷ seen)
          ∙ ap (λ b. if b then none else first_writer k evs)
              (contains_head k (key_at pks r) seen back),
      h (key_at pks r ∷ seen),
    )
  ]

  newest-Once : (evs : List ChangeEvent) (seen : List (List Value)) → Once (newest pks evs seen)
  unfolding newest
  newest-Once [] seen = tt
  newest-Once (ev ∷ evs) seen = placed-Once ev ev.after evs seen refl (newest-Once evs)

  -- Of the upserts of a batch, read from the newest on, no key is kept twice, and the one that is
  -- kept for a key is the first that writes it, which is the last of the batch; a key that no event
  -- writes has none.
  pub newest_of_each_key :
      (k : List Value) (upserts : List ChangeEvent)
      → Once (newest pks (reverse upserts) [])
        × (first_writer k (newest pks (reverse upserts) []) ≡ first_writer k (reverse upserts))
  newest_of_each_key k upserts = (newest-Once (reverse upserts) [], unseen k (reverse upserts) [])
