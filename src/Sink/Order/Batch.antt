-- ===== src/Sink/Order/Batch.antt =====
-- What a batch of core/dremio_sink.py leaves of a table with a primary key: upserts first, then
-- deletions.
use dremio_cdc.Prelude.{
  ◌≡◌, ◌≢◌, refl, sym, ap, subst, ◌∙◌, Bool, true, false, not, Option, none, some, List, [], ◌∷◌,
  ◌++◌, keep, Text, All, ◌==◌, Bool-cases, if_same, inl, inr, if◌then◌else◌,
}
use dremio_cdc.Prelude.Dict.{lookup, insert, erase, lookup-erase, lookup-insert_self}
use dremio_cdc.Event.{Value, ChangeEvent, values_eq, is_upsert}
use dremio_cdc.Engine.Delivery.{In}
use dremio_cdc.Sink.Dremio.{dedupe}
use dremio_cdc.Sink.Order.{
  key_after, key_before, Target, merged, without, in_order, last_for, lookup-merged,
  lookup-merged-dedupe,
}

if_same_value : (b : Bool) → ◌≡◌ {A = Option ChangeEvent} (if b then none else none) none
if_same_value true = refl
if_same_value false = refl

module _ (pks : List Text) where
  -- No row is written again behind its deletion in the batch.
  abbrev pub NoReinsert : List ChangeEvent → Type 0
  NoReinsert [] = Unit
  NoReinsert (ev ∷ evs) =
      (is_upsert ev ≡ false
        → All (λ e. is_upsert e ≡ true → key_after pks e ≢ key_before pks ev) evs)
      × NoReinsert evs

  abbrev pub is_deletion : ChangeEvent → Bool
  is_deletion ev = not (is_upsert ev)

  abbrev pub Same : Target → Target → Type 0
  Same s t = (k : List Value) → lookup k s ≡ lookup k t

  without-Same :
      (evs : List ChangeEvent) (s t : Target)
      → Same s t
      → Same (without pks evs s) (without pks evs t)
  unfolding without
  without-Same [] s t h = h
  without-Same (ev ∷ evs) s t h = without-Same evs _ _ (λ k.
      lookup-erase (key_before pks ev) k s
      ∙ (ap (λ o. if key_before pks ev == k then none else o) (h k)
          ∙ sym (lookup-erase (key_before pks ev) k t)))

  last_for-absent :
      (k : List Value) (evs : List ChangeEvent) (old : Option ChangeEvent)
      → All (λ e. is_upsert e ≡ true → key_after pks e ≢ k) evs
      → last_for pks k (keep is_upsert evs) old ≡ old
  last_for-absent k [] old h = refl
  last_for-absent k (e ∷ evs) old h = elim (Bool-cases (is_upsert e)) [
    | inl upsert ↦ rw upsert (elim (Bool-cases (key_after pks e == k)) [
      | inl same ↦ absurd (h.0 upsert ((values_eq.agrees_iff (key_after pks e) k).0 same))
      | inr other ↦ rw (other, last_for) (last_for-absent k evs old h.1)
    ])
    | inr deletion ↦ rw deletion (last_for-absent k evs old h.1)
  ]

  -- A deletion may be moved behind writes of other rows.
  erase-merged :
      (ev : ChangeEvent) (evs : List ChangeEvent) (t : Target)
      → All (λ e. is_upsert e ≡ true → key_after pks e ≢ key_before pks ev) evs
      → Same
          (erase (key_before pks ev) (merged pks (keep is_upsert evs) t))
          (merged pks (keep is_upsert evs) (erase (key_before pks ev) t))
  erase-merged ev evs t h k =
      let b = key_before pks ev in
      lookup-erase b k (merged pks (keep is_upsert evs) t)
      ∙ (ap (λ o. if b == k then none else o) (lookup-merged pks k (keep is_upsert evs) t)
          ∙ (elim (Bool-cases (b == k)) [
            | inl same ↦ rw same (
                sym (
                  last_for-absent k evs none (
                    subst
                      (λ (i : List Value). All (λ e. is_upsert e ≡ true → key_after pks e ≢ i) evs)
                      ((values_eq.agrees_iff b k).0 same) h)))
            | inr other ↦ rw other refl
          ]
              ∙ (ap (last_for pks k (keep is_upsert evs)) (sym (lookup-erase b k t))
                  ∙ sym (lookup-merged pks k (keep is_upsert evs) (erase b t)))))

  batch-in_order :
      (evs : List ChangeEvent) (t : Target) (k : List Value)
      → NoReinsert evs
      → lookup k (without pks (keep is_deletion evs) (merged pks (keep is_upsert evs) t))
        ≡ lookup k (in_order pks evs t)
  unfolding merged without in_order
  batch-in_order [] t k h = refl
  batch-in_order (ev ∷ evs) t k h = elim (Bool-cases (is_upsert ev)) [
    | inl upsert ↦ rw upsert (batch-in_order evs (insert (key_after pks ev) ev t) k h.1)
    | inr deletion ↦ rw deletion (
        without-Same (keep is_deletion evs) _ _ (erase-merged ev evs t (h.0 deletion)) k
        ∙ batch-in_order evs (erase (key_before pks ev) t) k h.1)
  ]

  -- The last event of each key by MERGE, then the deletions: what a batch leaves of a table.
  abbrev pub written : List ChangeEvent → Target → Target
  written evs t =
      without pks (keep is_deletion evs) (merged pks (dedupe pks (keep is_upsert evs)) t)

  pub written-in_order :
      (evs : List ChangeEvent) (t : Target) (k : List Value)
      → NoReinsert evs
      → lookup k (written evs t) ≡ lookup k (in_order pks evs t)
  written-in_order evs t k h =
      without-Same (keep is_deletion evs) _ _
        (λ j. lookup-merged-dedupe pks j (keep is_upsert evs) t) k
      ∙ batch-in_order evs t k h

  stays_erased :
      (k : List Value) (evs : List ChangeEvent) (t : Target)
      → lookup k t ≡ none
      → lookup k (without pks evs t) ≡ none
  unfolding without
  stays_erased k [] t h = h
  stays_erased k (ev ∷ evs) t h = stays_erased k evs _ (
      lookup-erase (key_before pks ev) k t
      ∙ (ap (λ o. if key_before pks ev == k then none else o) h
          ∙ if_same_value (key_before pks ev == k)))

  lookup-without :
      (ev : ChangeEvent) (evs : List ChangeEvent) (t : Target)
      → In ev evs
      → lookup (key_before pks ev) (without pks evs t) ≡ none
  unfolding without
  lookup-without ev [] t h = absurd h
  lookup-without ev (e ∷ evs) t (inl same) =
      let k = key_before pks ev in
      stays_erased k evs _ (
        ap (λ x. lookup k (erase (key_before pks x) t)) (sym same)
        ∙ (lookup-erase k k t ∙ if_same k none _))
  lookup-without ev (e ∷ evs) t (inr h) = lookup-without ev evs _ h

  In-keep :
      (ev : ChangeEvent) (evs : List ChangeEvent)
      → is_upsert ev ≡ false
      → In ev evs
      → In ev (keep is_deletion evs)
  In-keep ev [] deletion h = absurd h
  In-keep ev (e ∷ evs) deletion (inl same) =
      let deleted : is_upsert e ≡ false = ap is_upsert (sym same) ∙ deletion in
      rw deleted (inl same)
  In-keep ev (e ∷ evs) deletion (inr h) = elim (Bool-cases (is_upsert e)) [
    | inl upsert ↦ rw upsert (In-keep ev evs deletion h)
    | inr deleted ↦ rw deleted (inr (In-keep ev evs deletion h))
  ]

  pub written-deleted :
      (ev : ChangeEvent) (evs : List ChangeEvent) (t : Target)
      → is_upsert ev ≡ false
      → In ev evs
      → lookup (key_before pks ev) (written evs t) ≡ none
  written-deleted ev evs t deletion h =
      lookup-without ev (keep is_deletion evs) _ (In-keep ev evs deletion h)

  pub in_order-last :
      (evs : List ChangeEvent) (e : ChangeEvent) (t : Target)
      → is_upsert e ≡ true
      → lookup (key_after pks e) (in_order pks (evs ++ (e ∷ [])) t) ≡ some e
  unfolding in_order
  in_order-last [] e t upsert = rw upsert (lookup-insert_self (key_after pks e) e t)
  in_order-last (ev ∷ evs) e t upsert = in_order-last evs e _ upsert
