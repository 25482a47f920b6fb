-- ===== src/Sink/Order.antt =====
-- What a batch of core/dremio_sink.py does to a table with a primary key, against the changes in
-- their order.
pub mod Batch
use dremio_cdc.Prelude.{
  ne_of_test, ◌≡◌, ◌≢◌, refl, sym, ap, subst, ◌∙◌, Bool, true, false, not, Option, none, some, List,
  [], ◌∷◌, ◌++◌, keep, Text, All, ◌==◌, Bool-cases, if_same, inl, inr, if◌then◌else◌,
}
use dremio_cdc.Prelude.Dict.{
  Dict, lookup, insert, erase, values, lookup-insert, lookup-erase, lookup-insert_ne,
  lookup-insert_self,
}
use dremio_cdc.Event.{Value, ChangeEvent, values_eq, is_upsert}
use dremio_cdc.Engine.Delivery.{In}
use dremio_cdc.Sink.Dremio.{key_at, side, dedupe_into, dedupe}

-- The target as MERGE and DELETE see it: by the values of the key, the last event of a row. The
-- columns of a key hold no NULL, which SQL would not find.
abbrev pub Target : Type 0
Target = Dict (List Value) ChangeEvent

abbrev pub key_after : List Text → ChangeEvent → List Value
key_after pks ev = key_at pks (side ev.after)

abbrev pub key_before : List Text → ChangeEvent → List Value
key_before pks ev = key_at pks (side ev.before)

module _ (pks : List Text) where
  -- MERGE with the rows of the events.
  unfoldable pub merged : List ChangeEvent → Target → Target
  merged [] t = t
  merged (ev ∷ evs) t = merged evs (insert (key_after pks ev) ev t)

  -- One DELETE after the other.
  unfoldable pub without : List ChangeEvent → Target → Target
  without [] t = t
  without (ev ∷ evs) t = without evs (erase (key_before pks ev) t)

  -- The specification: the changes one after the other.
  unfoldable pub in_order : List ChangeEvent → Target → Target
  in_order [] t = t
  in_order (ev ∷ evs) t =
      in_order evs
        (if is_upsert ev then insert (key_after pks ev) ev t else erase (key_before pks ev) t)

  -- The event of a key that is last, or the one that was there.
  abbrev last_for : List Value → List ChangeEvent → Option ChangeEvent → Option ChangeEvent
  last_for k [] old = old
  last_for k (ev ∷ evs) old = last_for k evs (if key_after pks ev == k then some ev else old)

  lookup-merged :
      (k : List Value) (evs : List ChangeEvent) (t : Target)
      → lookup k (merged evs t) ≡ last_for k evs (lookup k t)
  unfolding merged
  lookup-merged k [] t = refl
  lookup-merged k (ev ∷ evs) t =
      lookup-merged k evs (insert (key_after pks ev) ev t)
      ∙ ap (last_for k evs) (lookup-insert (key_after pks ev) k ev t)

  lookup-dedupe_into :
      (k : List Value) (evs : List ChangeEvent) (seen : Target)
      → lookup k (dedupe_into pks evs seen) ≡ last_for k evs (lookup k seen)
  unfolding dedupe_into
  lookup-dedupe_into k [] seen = refl
  lookup-dedupe_into k (ev ∷ evs) seen =
      lookup-dedupe_into k evs (insert (key_after pks ev) ev seen)
      ∙ ap (last_for k evs) (lookup-insert (key_after pks ev) k ev seen)

  -- Each event stands at its own key, and each key once.
  abbrev Keyed : Target → Type 0
  Keyed [] = Unit
  Keyed ((j, ev) ∷ d) = (key_after pks ev ≡ j) × ((lookup j d ≡ none) × Keyed d)

  insert-Keyed : (ev : ChangeEvent) (d : Target) → Keyed d → Keyed (insert (key_after pks ev) ev d)
  insert-Keyed ev [] h = (refl, (refl, tt))
  insert-Keyed ev ((j, e) ∷ d) h = elim (Bool-cases (j == key_after pks ev)) [
    | inl same ↦ rw same (sym ((values_eq.agrees_iff j (key_after pks ev)).0 same), (h.1.0, h.1.1))
    | inr other ↦ rw other (
      h.0,
      (
        lookup-insert_ne (key_after pks ev) j ev d
              (λ same. ne_of_test j (key_after pks ev) other (sym same))
            ∙ h.1.0,
        insert-Keyed ev d h.1.1,
      ),
    )
  ]

  dedupe_into-Keyed :
      (evs : List ChangeEvent) (seen : Target) → Keyed seen → Keyed (dedupe_into pks evs seen)
  unfolding dedupe_into
  dedupe_into-Keyed [] seen h = h
  dedupe_into-Keyed (ev ∷ evs) seen h =
      dedupe_into-Keyed evs (insert (key_after pks ev) ev seen) (insert-Keyed ev seen h)

  abbrev or_old : Option ChangeEvent → Option ChangeEvent → Option ChangeEvent
  or_old none old = old
  or_old (some ev) old = some ev

  last_for-values :
      (k : List Value) (d : Target) (old : Option ChangeEvent)
      → Keyed d
      → last_for k (values d) old ≡ or_old (lookup k d) old
  last_for-values k [] old h = refl
  last_for-values k ((j, ev) ∷ d) old h =
      ap (λ i. last_for k (values d) (if i == k then some ev else old)) h.0
      ∙ elim (Bool-cases (j == k)) [
        | inl same ↦ rw same (
            last_for-values k d (some ev) h.1.1
            ∙ ap (λ o. or_old o (some ev))
                (ap (λ i. lookup i d) (sym ((values_eq.agrees_iff j k).0 same)) ∙ h.1.0))
        | inr other ↦ rw other (last_for-values k d old h.1.1)
      ]

  last_for-some :
      (k : List Value) (evs : List ChangeEvent) (ev : ChangeEvent) (old : Option ChangeEvent)
      → or_old (last_for k evs (some ev)) old ≡ last_for k evs (some ev)
  last_for-some k [] ev old = refl
  last_for-some k (e ∷ evs) ev old = elim (Bool-cases (key_after pks e == k)) [
    | inl same ↦ rw same (last_for-some k evs e old)
    | inr other ↦ rw other (last_for-some k evs ev old)
  ]

  last_for-old :
      (k : List Value) (evs : List ChangeEvent) (old : Option ChangeEvent)
      → or_old (last_for k evs none) old ≡ last_for k evs old
  last_for-old k [] old = refl
  last_for-old k (ev ∷ evs) old = elim (Bool-cases (key_after pks ev == k)) [
    | inl same ↦ rw same (last_for-some k evs ev old)
    | inr other ↦ rw other (last_for-old k evs old)
  ]

  -- The events that MERGE is given, one for each key, leave the table as all of them would: at
  -- every key the same event, with its row.
  pub lookup-merged-dedupe :
      (k : List Value) (evs : List ChangeEvent) (t : Target)
      → lookup k (merged (dedupe pks evs) t) ≡ lookup k (merged evs t)
  unfolding dedupe
  lookup-merged-dedupe k evs t =
      let seen = dedupe_into pks evs [] in
      lookup-merged k (values seen) t
      ∙ (last_for-values k seen (lookup k t) (dedupe_into-Keyed evs [] tt)
          ∙ (ap (λ o. or_old o (lookup k t)) (lookup-dedupe_into k evs [])
              ∙ (last_for-old k evs (lookup k t) ∙ sym (lookup-merged k evs t))))

  -- No key twice.
  abbrev pub OneEach : List ChangeEvent → Type 0
  OneEach [] = Unit
  OneEach (ev ∷ evs) = All (λ e. (key_after pks e == key_after pks ev) ≡ false) evs × OneEach evs

  absent-All :
      (j : List Value) (d : Target)
      → Keyed d
      → lookup j d ≡ none
      → All (λ e. (key_after pks e == j) ≡ false) (values d)
  absent-All j [] h a = tt
  absent-All j ((i, ev) ∷ d) h a = elim (Bool-cases (i == j)) [
    | inl same ↦ let there : some ev ≡ none = rw same at a in cc
    | inr other ↦ (
      ap (λ k. k == j) h.0 ∙ other,
      absent-All j d h.1.1 (let rest : lookup j d ≡ none = rw other at a in rest),
    )
  ]

  Keyed-OneEach : (d : Target) → Keyed d → OneEach (values d)
  Keyed-OneEach [] h = tt
  Keyed-OneEach ((j, ev) ∷ d) h = (
    subst (λ k. All (λ e. (key_after pks e == k) ≡ false) (values d)) (sym h.0)
        (absent-All j d h.1.1 h.1.0),
    Keyed-OneEach d h.1.1,
  )

  pub dedupe-OneEach : (evs : List ChangeEvent) → OneEach (dedupe pks evs)
  unfolding dedupe
  dedupe-OneEach evs = Keyed-OneEach (dedupe_into pks evs []) (dedupe_into-Keyed evs [] tt)

  insert-All :
      (P : ChangeEvent → Type 0) (k : List Value) (ev : ChangeEvent) (d : Target)
      → P ev
      → All P (values d)
      → All P (values (insert k ev d))
  insert-All P k ev [] p h = (p, tt)
  insert-All P k ev ((j, e) ∷ d) p h = elim (Bool-cases (j == k)) [
    | inl same ↦ rw same (p, h.1)
    | inr other ↦ rw other (h.0, insert-All P k ev d p h.1)
  ]

  dedupe_into-All :
      (P : ChangeEvent → Type 0) (evs : List ChangeEvent) (seen : Target)
      → All P evs
      → All P (values seen)
      → All P (values (dedupe_into pks evs seen))
  unfolding dedupe_into
  dedupe_into-All P [] seen h s = s
  dedupe_into-All P (ev ∷ evs) seen h s =
      dedupe_into-All P evs _ h.1 (insert-All P (key_after pks ev) ev seen h.0 s)

  pub dedupe-All :
      (P : ChangeEvent → Type 0) (evs : List ChangeEvent) → All P evs → All P (dedupe pks evs)
  unfolding dedupe
  dedupe-All P evs h = dedupe_into-All P evs [] h tt
