-- ===== src/Engine/Restart.antt =====
-- What a start of core/engine.py makes of the position that an earlier run has saved.
use dremio_cdc.Prelude.{
  ◌≡◌, ◌≢◌, refl, sym, ap, subst, ◌∙◌, Bool, false, ◌||◌, Option, none, some, List, [], ◌∷◌, ◌++◌,
  Text, text_eq, pair_eq, ◌=ℕ◌, All, Bool-cases, drop, if_other, inl, inr,
}
use dremio_cdc.Prelude.Chars.{codes, split_at_most}
use dremio_cdc.Event.{Value, ColumnSchema, ChangeEvent}
use dremio_cdc.Outcome.{ok}
use dremio_cdc.Engine.Worker.{Env, Config, Worker}
use dremio_cdc.Engine.Cursor.{canonical, find_column, resume, resume_parts, snap_position}
use dremio_cdc.Engine.Snapshot.{Ending, no_cursor, hear_stop}
use dremio_cdc.Engine.Run.{snap_text, not_done, snap_in_progress}

-- No character of the name is a colon.
abbrev pub NoColon : Text → Type 0
NoColon = All (λ c. (c =ℕ b':') ≡ false)

split_colon :
    (col val : Text) → NoColon col → split_at_most b':' 1 (col ++ (b':' ∷ val)) ≡ col ∷ val ∷ []
unfolding split_at_most
split_colon [] [] h = refl
split_colon [] (v ∷ val) h = refl
split_colon (c ∷ col) val h = rw (h.0, split_at_most, split_colon col val h.1) refl

split_position :
    (col val : Text)
    → NoColon col
    → split_at_most b':' 2 (snap_position col val) ≡ codes "snap" ∷ col ∷ val ∷ []
unfolding split_at_most snap_position
split_position col val h = ap (λ l. codes "snap" ∷ l) (split_colon col val h)

colon-within : (xs ys : Text) → ¬ NoColon (xs ++ (b':' ∷ ys))
colon-within [] ys h = cc (h.0)
colon-within (x ∷ xs) ys h = colon-within xs ys h.1

-- A saved place within a snapshot is never taken for its end.
position-ne-done : (col val : Text) → snap_position col val ≢ codes "snap:done"
unfolding snap_position
position-ne-done col val e =
    colon-within col val (subst NoColon (sym (ap (drop 5) e)) (refl, (refl, (refl, (refl, tt)))))

snap_text-snap_position :
    (col val : Text) → snap_text (Value.text (snap_position col val)) ≡ some (snap_position col val)
unfolding snap_position
snap_text-snap_position col val = refl

snap_in_progress-snap_position :
    (col val : Text)
    → snap_in_progress (Value.text (snap_position col val)) ≡ some (snap_position col val)
unfolding snap_in_progress
snap_in_progress-snap_position col val =
    ap not_done (snap_text-snap_position col val)
    ∙ if_other (snap_position col val) (codes "snap:done") none (some (snap_position col val))
        (λ e. position-ne-done col val (sym e))

-- A place within a snapshot that was saved is read back as it was: the next start goes on in the
-- same column, in the spelling of the table, after the same value, and does not start over. The
-- name of the column has no colon; the value may have some.
pub resume-snap_position :
    (col val c cursor : Text) (schema : List ColumnSchema)
    → NoColon col
    → canonical col schema ≡ some c
    → resume (snap_in_progress (Value.text (snap_position col val))) cursor (ok schema)
      ≡ (c, some val)
unfolding resume find_column snap_position
resume-snap_position col val c cursor schema h found =
    ap (λ o. resume o cursor (ok schema)) (snap_in_progress-snap_position col val)
    ∙ (ap (λ l. resume_parts l cursor (ok schema)) (split_position col val h)
        ∙ rw (found, find_column) refl)

module _ {env : Env} (cfg : Config) where
  -- What the fall back of an incremental snapshot without a cursor column has changed.
  abbrev pub Untouched : Worker env → Ending × Worker env → Type 0
  Untouched w r =
      (r.0 ≢ Ending.complete)
      × ((r.1.sink ≡ w.sink) × ((r.1.dlq ≡ w.dlq) × (r.1.offsets ≡ w.offsets)))

  -- Without a cursor column the incremental snapshot stores nothing: whatever rows the source
  -- yields, the sink, the dead letter queue and the saved positions are as before, and the snapshot
  -- is never marked as done.
  pub no_cursor_stores_nothing :
      (rows : List (Bool × ChangeEvent)) (ending : Option Text) (w : Worker env)
      → Untouched w (no_cursor env cfg rows ending w)
  unfolding no_cursor
  no_cursor_stores_nothing [] none w = (λ q. cc, (refl, (refl, refl)))
  no_cursor_stores_nothing [] (some message) w = (λ q. cc, (refl, (refl, refl)))
  no_cursor_stores_nothing ((stop, ev) ∷ rows) ending w = elim (Bool-cases (w.stopped || stop)) [
    | inl left ↦ rw (left, no_cursor) (λ q. cc, (refl, (refl, refl)))
    | inr go ↦ rw (go, no_cursor) (no_cursor_stores_nothing rows ending (hear_stop env cfg stop w))
  ]
