-- ===== src/Engine/Flush/Safety.antt =====
-- A flush of core/engine.py loses no event when there is a dead letter queue.
use dremio_cdc.Prelude.{
  ◌≡◌, ◌≢◌, refl, sym, ap, subst, ◌∙◌, ◌⊎◌, inl, inr, false, Option, none, some, List, [], ◌∷◌, map,
  Text, All, All-map, ℕ,
}
use dremio_cdc.Event.{Value, ChangeEvent, is_none}
use dremio_cdc.Outcome.{Outcome, ok, raised}
use dremio_cdc.Masking.Rows.{apply_batch-eq-map}
use dremio_cdc.Offsets.{Key}
use dremio_cdc.Dlq.{Dlq, push}
use dremio_cdc.Dlq.Serial.{Stored, serialize_event}
use dremio_cdc.Engine.Worker.{Env, Config, Worker, Exec, continue, ◌>>=◌, key_of, time}
use dremio_cdc.Engine.Delivery.{
  Delivery, In, InQueue, Safe, HasQueue, saved, masked, InEntries-append_left,
  InEntries-append_last,
}
use dremio_cdc.Engine.Flush.{mask_batch, write, park_in, park, settle, try_flush, flush, source_ts}
use dremio_cdc.Engine.Flush.Frame.{
  Own, Runs, Keeps, Keeps-bind, Keeps-time, Keeps-write, Keeps-after_write,
}

All-unmap :
    {A B : Type 0} (f : A → B) (P : B → Type 0) (xs : List A)
    → All P (map f xs)
    → All (λ x. P (f x)) xs
All-unmap f P [] h = tt
All-unmap f P (x ∷ xs) h = (h.0, All-unmap f P xs h.1)

map_members : {A B : Type 0} (f : A → B) (xs : List A) → All (λ x. In (f x) (map f xs)) xs
map_members f [] = tt
map_members f (x ∷ xs) = (
  inl refl,
  All-map (λ y. In (f y) (map f xs)) (λ y. In (f y) (map f (x ∷ xs))) (λ y h. inr h) xs
      (map_members f xs),
)

module _ {env : Env} (cfg : Config) (d : Delivery env) where
  -- The rest of a flush, after a write whose result is `r`.
  stored-continue :
      (batch : List ChangeEvent) (r : Outcome (Unit {0})) (f : Unit {0} → Exec env (Unit {0}))
      (offset : Value) (w : Worker env)
      → ((a : Unit {0}) → Keeps cfg d offset (f a))
      → (r ≡ ok tt → All (d.InSink w.sink) batch)
      → (continue r f w).0 ≡ ok tt
      → All (d.InSink (continue r f w).1.sink) batch
  stored-continue batch (ok a) f offset w kf stored e =
      All-map (d.InSink w.sink) (d.InSink (f a w).1.sink) (((kf a).at w).sink_keeps) batch
        (stored refl)
  stored-continue batch (raised t) f offset w kf stored e = cc

  try_flush-stores :
      (batch : List ChangeEvent) (offset : Value) (ts : Option ℕ) (w : Worker env)
      → (try_flush env cfg batch offset ts w).0 ≡ ok tt
      → All (d.InSink (try_flush env cfg batch offset ts w).1.sink) batch
  unfolding ◌>>=◌ time write
  try_flush-stores batch offset ts w e =
      stored-continue batch (env.sink_api.write_batch batch w.sink).0 _ offset _
        (λ a. Keeps-after_write cfg d offset batch ts _) (d.stores batch w.sink) e

  Keeps-try_flush :
      (batch : List ChangeEvent) (offset : Value) (ts : Option ℕ)
      → Keeps cfg d offset (try_flush env cfg batch offset ts)
  Keeps-try_flush batch offset ts = Keeps-bind cfg d offset _ _ (Keeps-time cfg d offset) λ start.
      Keeps-bind cfg d offset _ _ (Keeps-write cfg d offset batch)
        λ a. Keeps-after_write cfg d offset batch ts start

  abbrev Parked : List ChangeEvent → Option Dlq → Type 0
  Parked batch o = All (λ ev. InQueue (serialize_event env.py ev) o) batch

  park_in-Parked :
      (batch : List ChangeEvent) (message : Text) (o : Option Dlq) (q : Dlq)
      → o ≡ some q
      → Parked batch (park_in env cfg batch message o)
  unfolding push
  park_in-Parked batch message none q e = cc
  park_in-Parked batch message (some p) q e =
      All-map (λ ev. In (serialize_event env.py ev) (map (serialize_event env.py) batch)) _
        (λ ev h. InEntries-append_last (serialize_event env.py ev) p.entries _ h) batch
        (map_members (serialize_event env.py) batch)

  park_in-keeps :
      (batch : List ChangeEvent) (message : Text) (o : Option Dlq) (x : Stored)
      → InQueue x o
      → InQueue x (park_in env cfg batch message o)
  unfolding push
  park_in-keeps batch message none x h = h
  park_in-keeps batch message (some p) x h = InEntries-append_left x p.entries _ h

  park_in-some :
      (batch : List ChangeEvent) (message : Text) (o : Option Dlq) (q : Dlq)
      → o ≡ some q
      → (q' : Dlq) × (park_in env cfg batch message o ≡ some q')
  park_in-some batch message none q e = cc
  park_in-some batch message (some p) q e = (_, refl)

  settle-safe :
      (batch : List ChangeEvent) (r : Outcome (Unit {0})) (w : Worker env)
      → HasQueue w
      → (r ≡ ok tt → All (d.InSink w.sink) batch)
      → All (Safe d (settle env cfg batch (r, w))) batch
  unfolding park
  settle-safe batch (ok a) w q stored =
      All-map (d.InSink w.sink) (Safe d w) (λ ev h. inl h) batch (stored refl)
  settle-safe batch (raised message) w q stored =
      All-map (λ ev. InQueue (serialize_event env.py ev) (park_in env cfg batch message w.dlq)) _
        (λ ev h. inr h) batch (park_in-Parked batch message w.dlq q.0 q.1)

  settle-keeps :
      (batch : List ChangeEvent) (r : Outcome (Unit {0})) (w : Worker env) (ev : ChangeEvent)
      → Safe d w ev
      → Safe d (settle env cfg batch (r, w)) ev
  unfolding park
  settle-keeps batch (ok a) w ev h = h
  settle-keeps batch (raised message) w ev (inl h) = inl h
  settle-keeps batch (raised message) w ev (inr h) = inr (park_in-keeps batch message w.dlq _ h)

  settle-HasQueue :
      (batch : List ChangeEvent) (r : Outcome (Unit {0})) (w : Worker env)
      → HasQueue w
      → HasQueue (settle env cfg batch (r, w))
  unfolding park
  settle-HasQueue batch (ok a) w q = q
  settle-HasQueue batch (raised message) w q = park_in-some batch message w.dlq q.0 q.1

  settle-offsets :
      (batch : List ChangeEvent) (r : Outcome (Unit {0})) (w : Worker env)
      → (settle env cfg batch (r, w)).offsets ≡ w.offsets
  unfolding park
  settle-offsets batch (ok a) w = refl
  settle-offsets batch (raised message) w = refl

  Runs-Safe :
      (offset : Value) (u w : Worker env) (ev : ChangeEvent)
      → Runs cfg d offset u w
      → Safe d u ev
      → Safe d w ev
  Runs-Safe offset u w ev run (inl h) = inl (run.sink_keeps ev h)
  Runs-Safe offset u w ev run (inr h) = inr (subst (InQueue _) (sym run.queue) h)

  -- With a dead letter queue, each event of a batch is, as masked, in the sink or in the queue when
  -- the flush ends, whatever the sink, the stores and the source raise.
  pub flush_loses_nothing :
      (batch : List ChangeEvent) (offset : Value) (w : Worker env)
      → HasQueue w
      → All (λ ev. Safe d (flush env cfg batch offset w) (masked env cfg ev)) batch
  unfolding flush mask_batch
  flush_loses_nothing [] offset w q = tt
  flush_loses_nothing (ev ∷ evs) offset w q =
      let m = mask_batch env cfg (ev ∷ evs) in
      let ts = source_ts (ev ∷ evs) in
      let run = (Keeps-try_flush m offset ts).at w in
      let safe =
        settle-safe m (try_flush env cfg m offset ts w).0 (try_flush env cfg m offset ts w).1
          (q.0, run.queue ∙ q.1) (try_flush-stores m offset ts w) in
      All-unmap (masked env cfg) _ (ev ∷ evs)
        (subst (All _) (apply_batch-eq-map env.py env.hash cfg.masker cfg.table (ev ∷ evs)) safe)

  -- What was in the sink or in the queue before a flush is there after it, also without a queue of
  -- the worker's own.
  pub flush_keeps :
      (batch : List ChangeEvent) (offset : Value) (w : Worker env) (ev : ChangeEvent)
      → Safe d w ev
      → Safe d (flush env cfg batch offset w) ev
  unfolding flush
  flush_keeps [] offset w ev h = h
  flush_keeps (e ∷ es) offset w ev h =
      let m = mask_batch env cfg (e ∷ es) in
      let run = (Keeps-try_flush m offset (source_ts (e ∷ es))).at w in
      settle-keeps m (try_flush env cfg m offset (source_ts (e ∷ es)) w).0 _ ev
        (Runs-Safe offset w _ ev run h)

  pub flush-HasQueue :
      (batch : List ChangeEvent) (offset : Value) (w : Worker env)
      → HasQueue w
      → HasQueue (flush env cfg batch offset w)
  unfolding flush
  flush-HasQueue [] offset w q = q
  flush-HasQueue (e ∷ es) offset w q =
      let m = mask_batch env cfg (e ∷ es) in
      let run = (Keeps-try_flush m offset (source_ts (e ∷ es))).at w in
      settle-HasQueue m (try_flush env cfg m offset (source_ts (e ∷ es)) w).0 _
        (q.0, run.queue ∙ q.1)

  -- A flush leaves the saved position of its worker as it was or at the offset of the batch, never
  -- at None, and does not touch the position of another worker.
  pub flush_commits_own :
      (batch : List ChangeEvent) (offset : Value) (w : Worker env) (j : Key)
      → ((saved (key_of cfg) (flush env cfg batch offset w) ≡ saved (key_of cfg) w)
          ⊎ ((is_none offset ≡ false)
              × (saved (key_of cfg) (flush env cfg batch offset w) ≡ offset)))
        × (j ≢ key_of cfg → saved j (flush env cfg batch offset w) ≡ saved j w)
  unfolding flush
  flush_commits_own [] offset w j = (inl refl, λ h. refl)
  flush_commits_own (e ∷ es) offset w j =
      let m = mask_batch env cfg (e ∷ es) in
      let r = try_flush env cfg m offset (source_ts (e ∷ es)) w in
      let run = (Keeps-try_flush m offset (source_ts (e ∷ es))).at w in
      let get = λ (k : Key). ap (env.offset_api.get k) (settle-offsets m r.0 r.1) in
      (
        subst (Own cfg d offset (saved (key_of cfg) w)) (sym (get (key_of cfg))) run.own,
        λ h. get j ∙ run.others j h,
      )

  settle-source :
      (batch : List ChangeEvent) (r : Outcome (Unit {0})) (w : Worker env)
      → (settle env cfg batch (r, w)).source ≡ w.source
  unfolding park
  settle-source batch (ok a) w = refl
  settle-source batch (raised message) w = refl

  -- A flush changes the source only by telling it of the offset.
  pub flush_source :
      (P : env.Source → Type 0) (batch : List ChangeEvent) (offset : Value) (w : Worker env)
      → ((s : env.Source) → P s → P (env.on_batch_committed cfg.table offset s).1)
      → P w.source
      → P (flush env cfg batch offset w).source
  unfolding flush
  flush_source P [] offset w f h = h
  flush_source P (e ∷ es) offset w f h =
      let m = mask_batch env cfg (e ∷ es) in
      let r = try_flush env cfg m offset (source_ts (e ∷ es)) w in
      let run = (Keeps-try_flush m offset (source_ts (e ∷ es))).at w in
      subst P (sym (settle-source m r.0 r.1)) (run.source_keeps P f h)
