-- ===== src/Engine/Flush/Frame.antt =====
-- What a flush of core/engine.py leaves as it was, before its handler runs.
use dremio_cdc.Prelude.{
  ℕ, ◌+◌, ◌≡◌, ◌≢◌, refl, sym, ap, subst, ◌∙◌, ◌⊎◌, inl, inr, Bool, true, false, Option, none, some,
  List, [], ◌∷◌, Text, pair_eq, Bool-cases, if◌then◌else◌, if_same, if_other, ◌=ℕ◌, ◌%◌,
}
use dremio_cdc.Event.{Value, ColumnSchema, ChangeEvent, is_none}
use dremio_cdc.Outcome.{Outcome, ok, raised}
use dremio_cdc.Offsets.{Key}
use dremio_cdc.Schemas.{SchemaStore}
use dremio_cdc.Engine.Tuner.{Tuner}
use dremio_cdc.Engine.Worker.{
  Env, DriftAction, Config, Worker, Exec, pure, modify, continue, ◌>>=◌, key_of, time,
}
use dremio_cdc.Engine.Drift.{
  check_schema_drift, report_drift, has_drift, react, run_evolve, compare_schema, stored_schema,
}
use dremio_cdc.Engine.Delivery.{Delivery, saved}
use dremio_cdc.Engine.Flush.{
  drift_due, use_tuner, store, write, commit_offset, notify_source, count_flush, after_write,
}

module _ {env : Env} (cfg : Config) (d : Delivery env) (offset : Value) where
  -- The position is as it was, or the offset of the flush if that is one.
  abbrev pub Own : Value → Value → Type 0
  Own u v = (v ≡ u) ⊎ ((is_none offset ≡ false) × (v ≡ offset))

  -- What every part of a flush but the handler does: it keeps what the sink has, leaves the queue
  -- alone, changes no offset but the worker's, and this only to the offset of the flush, and changes
  -- the source only by telling it of the offset.
  pub record Runs (w w' : Worker env) : Type 1 where
    pub sink_keeps : (ev : ChangeEvent) → d.InSink w.sink ev → d.InSink w'.sink ev
    pub queue : w'.dlq ≡ w.dlq
    pub own : Own (saved (key_of cfg) w) (saved (key_of cfg) w')
    pub others : (j : Key) → j ≢ key_of cfg → saved j w' ≡ saved j w
    pub source_keeps :
        (P : env.Source → Type 0)
        → ((s : env.Source) → P s → P (env.on_batch_committed cfg.table offset s).1)
        → P w.source
        → P w'.source

  pub Runs-refl : (w : Worker env) → Runs w w
  Runs-refl w = record {
    sink_keeps = λ ev h. h;
    queue = refl;
    own = inl refl;
    others = λ j h. refl;
    source_keeps = λ P f h. h;
  }

  pub Runs-trans : {u v w : Worker env} → Runs u v → Runs v w → Runs u w
  Runs-trans {u} {v} {w} a b = record {
    sink_keeps = λ ev h. b.sink_keeps ev (a.sink_keeps ev h);
    queue = b.queue ∙ a.queue;
    own = join a.own b.own;
    others = λ j h. b.others j h ∙ a.others j h;
    source_keeps = λ P f h. b.source_keeps P f (a.source_keeps P f h);
  }
    where
      join :
          Own (saved (key_of cfg) u) (saved (key_of cfg) v)
          → Own (saved (key_of cfg) v) (saved (key_of cfg) w)
          → Own (saved (key_of cfg) u) (saved (key_of cfg) w)
      join p (inr q) = inr q
      join (inl p) (inl q) = inl (q ∙ p)
      join (inr p) (inl q) = inr (p.0, q ∙ p.1)

  pub record Keeps {A : Type 0} (m : Exec env A) : Type 1 where
    pub at : (w : Worker env) → Runs w (m w).1

  Keeps-continue :
      {A B : Type 0} (r : Outcome A) (f : A → Exec env B) (w : Worker env)
      → ((a : A) → Keeps (f a))
      → Runs w (continue r f w).1
  Keeps-continue (ok a) f w kf = (kf a).at w
  Keeps-continue (raised message) f w kf = Runs-refl w

  pub Keeps-bind :
      {A B : Type 0} (m : Exec env A) (f : A → Exec env B)
      → Keeps m
      → ((a : A) → Keeps (f a))
      → Keeps (m >>= f)
  unfolding ◌>>=◌
  Keeps-bind m f km kf = record {
    at = λ w. Runs-trans (km.at w) (Keeps-continue (m w).0 f (m w).1 kf);
  }

  -- A change of fields that a flush may change freely.
  pub unchanged-Runs :
      (w w' : Worker env)
      → w'.sink ≡ w.sink
      → w'.dlq ≡ w.dlq
      → w'.offsets ≡ w.offsets
      → w'.source ≡ w.source
      → Runs w w'
  unchanged-Runs w w' s q o r = record {
    sink_keeps = λ ev h. subst (λ x. d.InSink x ev) (sym s) h;
    queue = q;
    own = inl (ap (env.offset_api.get (key_of cfg)) o);
    others = λ j h. ap (env.offset_api.get j) o;
    source_keeps = λ P f h. subst P (sym r) h;
  }

  pub Keeps-time : Keeps (time env)
  unfolding time
  Keeps-time = record { at = λ w. unchanged-Runs w _ refl refl refl refl }

  pub Keeps-write : (batch : List ChangeEvent) → Keeps (write env cfg batch)
  unfolding write
  Keeps-write batch = record {
    at = λ w. record {
      sink_keeps = λ ev h. d.keeps batch w.sink ev h;
      queue = refl;
      own = inl refl;
      others = λ j h. refl;
      source_keeps = λ P f h. h;
    };
  }

  Keeps-notify_source : Keeps (notify_source env cfg offset)
  unfolding notify_source
  Keeps-notify_source = record {
    at = λ w. record {
      sink_keeps = λ ev h. h;
      queue = refl;
      own = inl refl;
      others = λ j h. refl;
      source_keeps = λ P f h. f w.source h;
    };
  }

  store-Runs :
      (w : Worker env) (o : Option env.offset_api.Store)
      → env.offset_api.set (key_of cfg) offset w.offsets ≡ o
      → is_none offset ≡ false
      → Runs w (store env cfg o w).1
  store-Runs w none e n = Runs-refl w
  store-Runs w (some s) e n =
      let wrote = λ (j : Key). env.offset_api.get-set (key_of cfg) j offset w.offsets s e in
      record {
        sink_keeps = λ ev h. h;
        queue = refl;
        own = inr (n, wrote (key_of cfg) ∙ if_same (key_of cfg) offset (saved (key_of cfg) w));
        others = λ j h. wrote j ∙ if_other (key_of cfg) j offset (saved j w) h;
        source_keeps = λ P f h. h;
      }

  committed :
      (w : Worker env) (b : Bool) → is_none offset ≡ b → Runs w (commit_offset env cfg offset w).1
  unfolding commit_offset
  committed w true e = rw (e, commit_offset) (Runs-refl w)
  committed w false e =
      rw (e, commit_offset) (store-Runs w (env.offset_api.set (key_of cfg) offset w.offsets) refl e)

  Keeps-commit_offset : Keeps (commit_offset env cfg offset)
  Keeps-commit_offset = record { at = λ w. committed w (is_none offset) refl }

  Keeps-pure : {A : Type 0} (a : A) → Keeps (pure {env = env} a)
  unfolding pure
  Keeps-pure a = record { at = λ w. Runs-refl w }

  Keeps-modify :
      (f : Worker env → Worker env)
      → ((w : Worker env) → (f w).sink ≡ w.sink)
      → ((w : Worker env) → (f w).dlq ≡ w.dlq)
      → ((w : Worker env) → (f w).offsets ≡ w.offsets)
      → ((w : Worker env) → (f w).source ≡ w.source)
      → Keeps (modify f)
  unfolding modify
  Keeps-modify f s q o r = record { at = λ w. unchanged-Runs w (f w) (s w) (q w) (o w) (r w) }

  Keeps-run_evolve :
      (evolve : Option
        (Text → List ColumnSchema → env.sink_api.Sink → Outcome (Unit {0}) × env.sink_api.Sink))
      → env.evolve_schema ≡ evolve
      → (current : List ColumnSchema) → Keeps (run_evolve env cfg evolve current)
  Keeps-run_evolve none e current = record { at = λ w. Runs-refl w }
  Keeps-run_evolve (some evolve) e current = record {
    at = λ w. record {
      sink_keeps = λ ev h. d.evolve_keeps evolve e cfg.table current w.sink ev h;
      queue = refl;
      own = inl refl;
      others = λ j h. refl;
      source_keeps = λ P f h. h;
    };
  }

  Keeps-react :
      (action : DriftAction) (new current : List ColumnSchema)
      → Keeps (react env cfg action new current)
  unfolding react
  Keeps-react DriftAction.auto_migrate [] current = Keeps-pure tt
  Keeps-react DriftAction.auto_migrate (c ∷ cs) current =
      Keeps-run_evolve env.evolve_schema refl current
  Keeps-react DriftAction.pause new current =
      Keeps-modify _ (λ w. refl) (λ w. refl) (λ w. refl) (λ w. refl)
  Keeps-react DriftAction.alert new current = Keeps-pure tt
  Keeps-react DriftAction.other new current = Keeps-pure tt

  Keeps-report_drift :
      (stored current : List ColumnSchema) → Keeps (report_drift env cfg stored current)
  unfolding report_drift
  Keeps-report_drift stored current =
      Keeps-bind _ _ (Keeps-modify _ (λ w. refl) (λ w. refl) (λ w. refl) (λ w. refl)) (λ a.
        Keeps-bind _ _ (Keeps-react cfg.drift_action _ current)
          (λ b. Keeps-modify _ (λ w. refl) (λ w. refl) (λ w. refl) (λ w. refl)))

  Keeps-if :
      {A : Type 0} (b : Bool) (m n : Exec env A) → Keeps m → Keeps n → Keeps (if b then m else n)
  Keeps-if true m n km kn = km
  Keeps-if false m n km kn = kn

  Keeps-compare_schema :
      (current : List ColumnSchema) (stored : Option (List ColumnSchema))
      → Keeps (compare_schema env cfg current stored)
  Keeps-compare_schema current none = Keeps-modify _ (λ w. refl) (λ w. refl) (λ w. refl) (λ w. refl)
  Keeps-compare_schema current (some stored) =
      Keeps-if (has_drift stored current) _ _ (Keeps-report_drift stored current) (Keeps-pure tt)

  checked :
      (w : Worker env) (r : Outcome (List ColumnSchema))
      → env.get_schema cfg.table w.source ≡ r
      → Runs w (check_schema_drift env cfg w).1
  unfolding check_schema_drift
  checked w (raised message) e = rw (e, check_schema_drift) (Runs-refl w)
  checked w (ok current) e =
      rw (e, check_schema_drift) ((Keeps-compare_schema current (stored_schema env cfg w)).at w)

  due-Runs :
      (st : Option SchemaStore) (n : ℕ) (w : Worker env) → Runs w (drift_due env cfg st n w).1
  due-Runs none n w = Runs-refl w
  due-Runs (some st) n w = elim (Bool-cases (cfg.drift_every =ℕ 0)) [
    | inl z ↦ rw z (Runs-refl w)
    | inr p ↦ elim (Bool-cases (n % cfg.drift_every =ℕ 0)) [
      | inl due ↦ rw (p, due) (checked w (env.get_schema cfg.table w.source) refl)
      | inr soon ↦ rw (p, soon) (Runs-refl w)
    ]
  ]

  Keeps-count_flush : Keeps (count_flush env cfg)
  unfolding count_flush
  Keeps-count_flush = record {
    at = λ w.
        Runs-trans
          (unchanged-Runs w (record w { flush_count = w.flush_count + 1 }) refl refl refl refl)
          (due-Runs w.schemas (w.flush_count + 1) (record w { flush_count = w.flush_count + 1 }));
  }

  tuned-Runs :
      (count duration now : ℕ) (t : Option Tuner) (w : Worker env)
      → Runs w (use_tuner env cfg count duration now t w)
  tuned-Runs count duration now none w = Runs-refl w
  tuned-Runs count duration now (some t) w = unchanged-Runs w _ refl refl refl refl

  Keeps-tune :
      (count duration now : ℕ)
      → Keeps (modify (λ w. use_tuner env cfg count duration now w.tuner w))
  unfolding modify
  Keeps-tune count duration now = record { at = λ w. tuned-Runs count duration now w.tuner w }

  pub Keeps-after_write :
      (batch : List ChangeEvent) (ts : Option ℕ) (start : ℕ)
      → Keeps (after_write env cfg batch offset ts start)
  unfolding after_write
  Keeps-after_write batch ts start = Keeps-bind _ _ Keeps-time λ end.
      Keeps-bind _ _ Keeps-commit_offset λ a. Keeps-bind _ _ Keeps-notify_source λ b.
        Keeps-bind _ _ Keeps-time λ now.
          Keeps-bind _ _ (Keeps-modify _ (λ w. refl) (λ w. refl) (λ w. refl) (λ w. refl)) λ c.
            Keeps-bind _ _ Keeps-time
              λ snap. Keeps-bind _ _ (Keeps-tune _ _ snap) λ e. Keeps-count_flush
