-- ===== src/Engine/Snapshot/Full.antt =====
-- The full snapshot of core/engine.py: complete, or as if it had not begun.
use dremio_cdc.Prelude.{
  ◌≡◌, ◌≢◌, refl, sym, ap, subst, ◌∙◌, inl, inr, Bool, true, false, ◌||◌, Option, none, some, List,
  [], ◌∷◌, ◌++◌, map, Text, All, All-map, All-append, length, leb, Bool-cases, if_same, pair_eq,
  text_eq,
}
use mathlib.Core.List.{append-nil, append_assoc}
use dremio_cdc.Prelude.Chars.{codes}
use dremio_cdc.Event.{Value, ChangeEvent}
use dremio_cdc.Outcome.{ok, raised}
use dremio_cdc.Engine.Worker.{Env, Config, Worker, key_of}
use dremio_cdc.Engine.Delivery.{Delivery, Safe, HasQueue, saved, masked}
use dremio_cdc.Engine.Flush.{flush, store}
use dremio_cdc.Engine.Flush.Safety.{
  flush_loses_nothing, flush_keeps, flush-HasQueue, flush_commits_own,
}
use dremio_cdc.Engine.Snapshot.{
  Ending, flush_now, hear_stop, save, mark, save_done, flush_full, full_snapshot,
}

abbrev pub row_events : List (Bool × ChangeEvent) → List ChangeEvent
row_events = map (λ r. r.1)

module _ {env : Env} (cfg : Config) (d : Delivery env) where
  -- `offset=None` saves nothing.
  pub flush_null-saved :
      (batch : List ChangeEvent) (w : Worker env)
      → saved (key_of cfg) (flush env cfg batch Value.null w) ≡ saved (key_of cfg) w
  flush_null-saved batch w = elim (flush_commits_own cfg d batch Value.null w (key_of cfg)).0 [
    | inl same ↦ same
    | inr new ↦ cc (new.0)
  ]

  -- The events of `done` are delivered.
  abbrev pub SafeIn : Worker env → List ChangeEvent → Type 0
  SafeIn w done = All (λ ev. Safe d w (masked env cfg ev)) done

  pub flush-SafeIn :
      (done batch : List ChangeEvent) (w : Worker env)
      → HasQueue w
      → SafeIn w done
      → SafeIn (flush env cfg batch Value.null w) (done ++ batch)
  flush-SafeIn done batch w q safe =
      All-append _ done batch
        (All-map _ _ (λ ev h. flush_keeps cfg d batch Value.null w (masked env cfg ev) h) done safe)
        (flush_loses_nothing cfg d batch Value.null w q)

  -- A save at the worker's key does not touch the sink and the queue; when it returns, the position
  -- is the new one.
  pub store-saved :
      (v : Value) (w : Worker env) (o : Option env.offset_api.Store)
      → env.offset_api.set (key_of cfg) v w.offsets ≡ o
      → (store env cfg o w).0 ≡ ok tt
      → saved (key_of cfg) (store env cfg o w).1 ≡ v
  store-saved v w none e h = cc
  store-saved v w (some s) e h =
      env.offset_api.get-set (key_of cfg) (key_of cfg) v w.offsets s e
      ∙ if_same (key_of cfg) v (saved (key_of cfg) w)

  store_failed-saved :
      (w : Worker env) (o : Option env.offset_api.Store) (t : Text)
      → (store env cfg o w).0 ≡ raised t
      → saved (key_of cfg) (store env cfg o w).1 ≡ saved (key_of cfg) w
  store_failed-saved w none t h = refl
  store_failed-saved w (some s) t h = cc

  pub store-SafeIn :
      (w : Worker env) (o : Option env.offset_api.Store) (done : List ChangeEvent)
      → SafeIn w done
      → SafeIn (store env cfg o w).1 done
  store-SafeIn w none done h = h
  store-SafeIn w (some s) done h = h

  mark-complete :
      (w : Worker env) (o : Option env.offset_api.Store) (v : Value) (done : List ChangeEvent)
      → env.offset_api.set (key_of cfg) v w.offsets ≡ o
      → SafeIn w done
      → (mark env cfg Ending.complete (store env cfg o w)).0 ≡ Ending.complete
      → SafeIn (mark env cfg Ending.complete (store env cfg o w)).1 done
        × (saved (key_of cfg) (mark env cfg Ending.complete (store env cfg o w)).1 ≡ v)
  mark-complete w none v done e safe h = cc
  mark-complete w (some s) v done e safe h = (safe, store-saved v w (some s) e refl)

  pub save_done-complete :
      (w : Worker env) (done : List ChangeEvent)
      → SafeIn w done
      → (save_done env cfg w).0 ≡ Ending.complete
      → SafeIn (save_done env cfg w).1 done
        × (saved (key_of cfg) (save_done env cfg w).1 ≡ Value.text (codes "snap:done"))
  unfolding save_done save
  save_done-complete w done safe h =
      mark-complete w (env.offset_api.set (key_of cfg) (Value.text (codes "snap:done")) w.offsets)
        (Value.text (codes "snap:done")) done refl safe h

  -- The rows read: those of `done` are delivered, the others wait in the batch.
  record Waiting (all batch : List ChangeEvent) (w : Worker env) : Type 0 where
    done : List ChangeEvent
    split : done ++ batch ≡ all
    queue : HasQueue w
    safe : SafeIn w done

  flush_now-Waiting :
      (b : Bool) (all batch : List ChangeEvent) (w : Worker env)
      → Waiting all batch w
      → Waiting all (flush_now env cfg b batch w).0 (flush_now env cfg b batch w).1
  flush_now-Waiting true all batch w h = record {
    done = h.done ++ batch;
    split = append-nil (h.done ++ batch) ∙ h.split;
    queue = flush-HasQueue cfg d batch Value.null w h.queue;
    safe = flush-SafeIn h.done batch w h.queue h.safe;
  }
  flush_now-Waiting false all batch w h = h

  flush_now-saved :
      (b : Bool) (batch : List ChangeEvent) (w : Worker env)
      → saved (key_of cfg) (flush_now env cfg b batch w).1 ≡ saved (key_of cfg) w
  flush_now-saved true batch w = flush_null-saved batch w
  flush_now-saved false batch w = refl

  add-Waiting :
      (all batch : List ChangeEvent) (ev : ChangeEvent) (stop : Bool) (w : Worker env)
      → Waiting all batch w
      → Waiting (all ++ (ev ∷ [])) (batch ++ (ev ∷ [])) (hear_stop env cfg stop w)
  add-Waiting all batch ev stop w h = record {
    done = h.done;
    split = sym (append_assoc h.done batch (ev ∷ [])) ∙ ap (λ s. s ++ (ev ∷ [])) h.split;
    queue = h.queue;
    safe = h.safe;
  }

  -- If the snapshot is complete, the rows are delivered and its end is saved.
  abbrev Whole : List ChangeEvent → Ending × Worker env → Type 0
  Whole all r =
      r.0 ≡ Ending.complete
      → SafeIn r.1 all × (saved (key_of cfg) r.1 ≡ Value.text (codes "snap:done"))

  full-Whole :
      (rows : List (Bool × ChangeEvent)) (ending : Option Text) (all batch : List ChangeEvent)
      (w : Worker env)
      → Waiting all batch w
      → Whole (all ++ row_events rows) (full_snapshot env cfg rows ending batch w)
  unfolding full_snapshot flush_full
  full-Whole [] none all batch w h =
      save_done-complete (flush env cfg batch Value.null w) (all ++ []) (
        subst (SafeIn (flush env cfg batch Value.null w)) (h.split ∙ sym (append-nil all))
          (flush-SafeIn h.done batch w h.queue h.safe))
  full-Whole [] (some message) all batch w h = λ e. cc
  full-Whole ((stop, ev) ∷ rows) ending all batch w h =
      let heard = hear_stop env cfg stop w in
      let next = flush_full env cfg (batch ++ (ev ∷ [])) heard in
      elim (Bool-cases (w.stopped || stop)) [
        | inl left ↦ rw (left, full_snapshot) (λ e. cc)
        | inr go ↦
            rw (go, full_snapshot)
              (subst
                (λ (s : List ChangeEvent).
                  Whole s (full_snapshot env cfg rows ending next.0 next.1))
                (append_assoc all (ev ∷ []) (row_events rows))
                (full-Whole rows ending (all ++ (ev ∷ [])) next.0 next.1
                  (flush_now-Waiting _ _ _ heard (add-Waiting all batch ev stop w h))))
      ]

  -- A full snapshot that ends as complete has delivered every row that the source yielded, as
  -- masked, to the sink or to the queue, and has saved "snap:done".
  pub full_snapshot_complete :
      (rows : List (Bool × ChangeEvent)) (ending : Option Text) (w : Worker env)
      → HasQueue w
      → (full_snapshot env cfg rows ending [] w).0 ≡ Ending.complete
      → SafeIn (full_snapshot env cfg rows ending [] w).1 (row_events rows)
        × (saved (key_of cfg) (full_snapshot env cfg rows ending [] w).1
            ≡ Value.text (codes "snap:done"))
  full_snapshot_complete rows ending w q =
      full-Whole rows ending [] [] w record { done = []; split = refl; queue = q; safe = tt }

  pub mark-saved :
      (w : Worker env) (o : Option env.offset_api.Store)
      → (mark env cfg Ending.complete (store env cfg o w)).0 ≢ Ending.complete
      → saved (key_of cfg) (mark env cfg Ending.complete (store env cfg o w)).1
        ≡ saved (key_of cfg) w
  mark-saved w none h = refl
  mark-saved w (some s) h = absurd (h refl)

  -- A full snapshot that does not end as complete, since the worker is stopped, the source raises
  -- or the mark cannot be saved, leaves the saved position: the next start takes it again.
  pub full_snapshot_restarts :
      (rows : List (Bool × ChangeEvent)) (ending : Option Text) (batch : List ChangeEvent)
      (w : Worker env)
      → (full_snapshot env cfg rows ending batch w).0 ≢ Ending.complete
      → saved (key_of cfg) (full_snapshot env cfg rows ending batch w).1 ≡ saved (key_of cfg) w
  unfolding full_snapshot flush_full save_done save
  full_snapshot_restarts [] none batch w =
      λ h. mark-saved (flush env cfg batch Value.null w) _ h ∙ flush_null-saved batch w
  full_snapshot_restarts [] (some message) batch w = λ h. refl
  full_snapshot_restarts ((stop, ev) ∷ rows) ending batch w =
      let heard = hear_stop env cfg stop w in
      let next = flush_full env cfg (batch ++ (ev ∷ [])) heard in
      elim (Bool-cases (w.stopped || stop)) [
        | inl left ↦ rw (left, full_snapshot) (λ h. refl)
        | inr go ↦
            rw (go, full_snapshot)
              (λ h.
                full_snapshot_restarts rows ending next.0 next.1 h
                ∙ flush_now-saved (leb w.batch_size (length (batch ++ (ev ∷ []))))
                    (batch ++ (ev ∷ [])) heard)
      ]
