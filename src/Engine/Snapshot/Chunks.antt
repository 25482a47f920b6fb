-- ===== src/Engine/Snapshot/Chunks.antt =====
-- The incremental snapshot of core/engine.py, over a source whose chunks are the rows of a table in
-- the order of the cursor.
use dremio_cdc.Prelude.{
  ℕ, ◌≡◌, refl, ap, ◌⊎◌, inl, inr, Option, none, some, List, [], ◌∷◌, ◌++◌, Text, All, take,
  pair_eq, text_eq,
}
use dremio_cdc.Event.{Value, ChangeEvent}
use dremio_cdc.Outcome.{Outcome, ok, raised}
use dremio_cdc.Engine.Worker.{Env, Config, Worker, key_of}
use dremio_cdc.Engine.Delivery.{Delivery, HasQueue, saved}
use dremio_cdc.Engine.Flush.{flush, store}
use dremio_cdc.Engine.Flush.Safety.{flush-HasQueue}
use dremio_cdc.Engine.Cursor.{snap_position}
use dremio_cdc.Engine.Snapshot.{SnapshotSource, save, last_event, cursor_value, give, take_chunk}
use dremio_cdc.Engine.Snapshot.Full.{SafeIn, store-saved}

-- The documented behaviour of `incremental_snapshot` over a table that does not change and has no
-- two rows with one cursor value: a call raises, or gives the next rows behind the cursor value, in
-- the order of the cursor.
pub record Paged (env : Env) (cfg : Config) (source : SnapshotSource env) (col : Text)
    : Type 0 where
  pub table_rows : List ChangeEvent
  pub cursor : ChangeEvent → Text
  pub has_cursor :
      All (λ r. (v : Option Text) → cursor_value env cfg col v r.after ≡ ok (cursor r)) table_rows
  pub first_chunk :
      (n : ℕ) (s : env.Source) (rows : List ChangeEvent)
      → (source.incremental_snapshot col none n s).0 ≡ ok rows
      → rows ≡ take n table_rows
  pub next_chunk :
      (pre rest : List ChangeEvent) (r : ChangeEvent) (n : ℕ) (s : env.Source)
      (rows : List ChangeEvent)
      → pre ++ (r ∷ rest) ≡ table_rows
      → (source.incremental_snapshot col (some (cursor r)) n s).0 ≡ ok rows
      → rows ≡ take n rest

pub Outcome-cases :
    {A : Type 0} (o : Outcome A)
    → ((a : A) × (o ≡ ok a)) ⊎ ((message : Text) × (o ≡ raised message))
Outcome-cases (ok a) = inl (a, refl)
Outcome-cases (raised message) = inr (message, refl)

pub last_event-split :
    (ev : ChangeEvent) (evs : List ChangeEvent)
    → (init : List ChangeEvent) × (init ++ (last_event ev evs ∷ []) ≡ ev ∷ evs)
last_event-split ev [] = ([], refl)
last_event-split ev (e ∷ es) =
    let (init, h) = last_event-split e es in (ev ∷ init, ap (λ l. ev ∷ l) h)

pub All-mid :
    {A : Type 0} (P : A → Type 0) (pre post : List A) (x : A) → All P (pre ++ (x ∷ post)) → P x
All-mid P [] post x h = h.0
All-mid P (y ∷ pre) post x h = All-mid P pre post x h.1

module _ {env : Env} (cfg : Config) (d : Delivery env) where
  -- What one chunk does after its flush, which has led to `u`: the value is saved and given back, or
  -- the save raises.
  pub record Took (col c : Text) (u : Worker env) (r : Outcome Text × Worker env) : Type 0 where
    pub queue : HasQueue r.1
    pub safe : (done : List ChangeEvent) → SafeIn cfg d u done → SafeIn cfg d r.1 done
    pub result :
        ((r.0 ≡ ok c) × (saved (key_of cfg) r.1 ≡ Value.text (snap_position col c)))
        ⊎ ((m : Text) × ((r.0 ≡ raised m) × (saved (key_of cfg) r.1 ≡ saved (key_of cfg) u)))

  store-Took :
      (col c : Text) (u : Worker env) (o : Option env.offset_api.Store)
      → env.offset_api.set (key_of cfg) (Value.text (snap_position col c)) u.offsets ≡ o
      → HasQueue u
      → Took col c u (give env cfg c (store env cfg o u))
  store-Took col c u none e q = record {
    queue = q;
    safe = λ done h. h;
    result = inr (_, (refl, refl));
  }
  store-Took col c u (some s) e q = record {
    queue = q;
    safe = λ done h. h;
    result = inl (refl, store-saved cfg d _ u (some s) e refl);
  }

  pub take_chunk-Took :
      (col c : Text) (v : Option Text) (ev : ChangeEvent) (evs : List ChangeEvent) (w : Worker env)
      → cursor_value env cfg col v (last_event ev evs).after ≡ ok c
      → HasQueue w
      → Took col c (flush env cfg (ev ∷ evs) Value.null w) (take_chunk env cfg col v ev evs w)
  unfolding take_chunk save
  take_chunk-Took col c v ev evs w e q =
      rw (e, take_chunk)
        (store-Took col c (flush env cfg (ev ∷ evs) Value.null w) _ refl
          (flush-HasQueue cfg d (ev ∷ evs) Value.null w q))
