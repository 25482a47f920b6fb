-- ===== src/Masking/Rows.antt =====
-- What `_mask_row` and `MaskingEngine` of core/masking.py do to a row, an event and a batch.
use mathlib.Core.Option
use dremio_cdc.Prelude.{
  ◌≡◌, refl, sym, ◌∙◌, Option, none, some, List, [], ◌∷◌, map, arith, Text, text_eq, Option-cases,
  inl, inr,
}
use dremio_cdc.Prelude.Dict.{Dict, lookup, insert, keys, lookup-insert}
use dremio_cdc.Event.{Value, Row, ChangeEvent, Printing}
use dremio_cdc.Masking.{
  Fn, Hashing, Rules, rules_of, apply_fn, mask_columns, mask_row, mask_event, apply, apply_batch,
}

-- A Python dict has each key once.
abbrev pub IsDict {ℓ} : {V : Type ℓ} → Dict Text V → Type ℓ
IsDict [] = Unit
IsDict ((k, v) ∷ d) = (lookup k d ≡ none) × IsDict d

module _ (py : Printing) (hash : Hashing) where
  -- The value of a column by its rule, if it has one.
  abbrev pub masked : Option Fn → Value → Value
  masked none v = v
  masked (some fn) v = apply_fn py hash fn v

  -- After the rules of a table, each column that the row has holds its value under its own rule,
  -- and a column without a rule, or that the row lacks, is as it was.
  pub lookup-mask_columns :
      (rules : Rules) (row : Row) (col : Text)
      → IsDict rules
      → lookup col (mask_columns py hash rules row)
        ≡ Option.map (masked (lookup col rules)) (lookup col row)
  unfolding mask_columns
  lookup-mask_columns [] row col h = ground arith
  lookup-mask_columns ((c, fn) ∷ rules) row col h = elim (Option-cases (lookup c row)) [
    | inl e ↦ ground (arith, lookup-mask_columns rules row col h.1, text_eq.agrees_iff c col)
    | inr (v, e) ↦ ground (
      arith,
      lookup-mask_columns rules (insert c (apply_fn py hash fn v) row) col h.1,
      lookup-insert c col (apply_fn py hash fn v) row,
      text_eq.agrees_iff c col,
    )
  ]

  keys-insert :
      (k : Text) (v w : Value) (d : Row) → lookup k d ≡ some w → keys (insert k v d) ≡ keys d
  keys-insert k v w [] h = cc
  keys-insert k v w ((j, u) ∷ d) h = ground (arith, keys-insert k v w d)

  -- No column is added, dropped or moved.
  pub keys-mask_columns :
      (rules : Rules) (row : Row) → keys (mask_columns py hash rules row) ≡ keys row
  unfolding mask_columns
  keys-mask_columns [] row = refl
  keys-mask_columns ((c, fn) ∷ rules) row = elim (Option-cases (lookup c row)) [
    | inl e ↦ rw (e, mask_columns) (keys-mask_columns rules row)
    | inr (v, e) ↦
        rw (e, mask_columns)
          (keys-mask_columns rules (insert c (apply_fn py hash fn v) row)
            ∙ keys-insert c (apply_fn py hash fn v) v row e)
  ]

  mask_row_none : (r : Option Row) → mask_row py hash r [] ≡ r
  unfolding mask_row
  mask_row_none none = refl
  mask_row_none (some r) = refl

  -- Whatever the configuration, an event keeps all but its two rows, and each of these is the row
  -- under the rules of the table.
  pub apply_lem :
      (engine : Dict Text Rules) (table : Text) (ev : ChangeEvent)
      → apply py hash engine table ev ≡ record ev {
        before = mask_row py hash ev.before (rules_of table engine);
        after = mask_row py hash ev.after (rules_of table engine);
      }
  unfolding apply mask_event
  apply_lem engine table ev = go (rules_of table engine)
    where
      go :
          (rules : Rules)
          → mask_event py hash rules ev ≡ record ev {
            before = mask_row py hash ev.before rules;
            after = mask_row py hash ev.after rules;
          }
      go [] = cc (mask_row_none ev.before, mask_row_none ev.after)
      go (r ∷ rules) = refl

  map-apply_none :
      (engine : Dict Text Rules) (table : Text) (batch : List ChangeEvent)
      → rules_of table engine ≡ []
      → map (apply py hash engine table) batch ≡ batch
  unfolding apply mask_event
  map-apply_none engine table [] e = refl
  map-apply_none engine table (ev ∷ batch) e = ground (arith, map-apply_none engine table batch e)

  -- The short cut of `apply_batch` for a table without rules changes nothing: a batch is masked
  -- event by event.
  pub apply_batch-eq-map :
      (engine : Dict Text Rules) (table : Text) (batch : List ChangeEvent)
      → apply_batch py hash engine table batch ≡ map (apply py hash engine table) batch
  unfolding apply_batch
  apply_batch-eq-map engine table batch = go (rules_of table engine) refl
    where
      go :
          (rules : Rules)
          → rules_of table engine ≡ rules
          → apply_batch py hash engine table batch ≡ map (apply py hash engine table) batch
      go [] e = rw (e, apply_batch) (sym (map-apply_none engine table batch e))
      go (r ∷ rules) e = rw (e, apply_batch)
