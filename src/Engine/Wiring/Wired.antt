-- ===== src/Engine/Wiring/Wired.antt =====
-- What CDCEngine of core/engine.py gives to its workers.
use dremio_cdc.Prelude.{
  ◌≡◌, refl, sym, ap, subst, ◌∙◌, false, none, some, List, [], ◌∷◌, ◌++◌, All, All-map, All-append,
  append_assoc, append-nil, Text, text_eq, ◌==◌, contains, if◌then◌else◌, Bool-cases, Option-cases,
  inl, inr,
}
use dremio_cdc.Prelude.Dict.{Dict, lookup, insert, values, lookup-insert, insert-fresh}
use dremio_cdc.Prelude.Chars.{lower}
use dremio_cdc.Outcome.{Outcome, ok, raised, ◌>>=◌}
use dremio_cdc.Engine.Delivery.{In, In-append_left, In-append_right}
use dremio_cdc.Engine.Wiring.{
  Sink, SourceConf, EngineConf, TableWorker, CdcEngine, Sources, global_namespace, global_sink,
  new_sink, kept_or_new, get_sink, workers_of, namespace_of, with_workers, add_source, add_sources,
}

values-append : (d e : Dict Text Sink) → values (d ++ e) ≡ values d ++ values e
values-append [] e = refl
values-append (p ∷ d) e = ap (λ l. p.1 ∷ l) (values-append d e)

lookup-In : (ns : Text) (s : Sink) (d : Dict Text Sink) → lookup ns d ≡ some s → In s (values d)
lookup-In ns s [] h = cc
lookup-In ns s ((m, t) ∷ d) h = elim (Bool-cases (m == ns)) [
  | inl e ↦ inl (let same : some t ≡ some s = sym (rw e) ∙ h in cc)
  | inr e ↦ inr (lookup-In ns s d (rw e at h))
]

bind-inv {ℓ} :
    {A B : Type 0} {P : Type ℓ} (m : Outcome A) (f : A → Outcome B) (r : B)
    → (m >>= f) ≡ ok r
    → ((a : A) → m ≡ ok a → f a ≡ ok r → P)
    → P
bind-inv (ok a) f r h k = k a refl h
bind-inv (raised message) f r h k = cc

module _ (cfg : EngineConf) where
  -- The sink of a namespace, without the pool.
  abbrev pub sink_for : Text → Sink
  sink_for ns = if ns == global_namespace cfg then global_sink cfg else new_sink cfg ns

  abbrev pub pooled : List SourceConf → List TableWorker
  pooled [] = []
  pooled (sc ∷ scs) = workers_of cfg sc (sink_for (namespace_of cfg sc)) ++ pooled scs

  abbrev pub Pool : Dict Text Sink → Type 0
  Pool sinks =
      ((ns : Text) (s : Sink) → lookup ns sinks ≡ some s → s ≡ sink_for ns)
      × (lookup (global_namespace cfg) sinks ≡ some (global_sink cfg))

  abbrev Got : Text → Dict Text Sink → Sink × Dict Text Sink → Type 0
  Got ns sinks got =
      (got.0 ≡ sink_for ns)
      × Pool got.1
      × In got.0 (values got.1)
      × ((s : Sink) → In s (values sinks) → In s (values got.1))

  other_namespace :
      (ns : Text) (sinks : Dict Text Sink)
      → Pool sinks
      → lookup ns sinks ≡ none
      → (ns == global_namespace cfg) ≡ false
  other_namespace ns sinks p h = elim (Bool-cases (ns == global_namespace cfg)) [
    | inl e ↦
        let there : lookup ns sinks ≡ some (global_sink cfg) =
          subst (λ m. lookup m sinks ≡ some (global_sink cfg))
            (sym ((text_eq.agrees_iff ns (global_namespace cfg)).0 e)) p.1 in
        cc
    | inr e ↦ e
  ]

  found :
      (ns m : Text) (s t : Sink) (sinks : Dict Text Sink)
      → s ≡ sink_for ns
      → Pool sinks
      → lookup m (insert ns s sinks) ≡ some t
      → t ≡ sink_for m
  found ns m s t sinks fresh p e = elim (Bool-cases (ns == m)) [
    | inl same ↦
        let there : some s ≡ some t = sym (lookup-insert ns m s sinks ∙ rw same) ∙ e in
        let equal : s ≡ t = cc in
        sym equal ∙ (fresh ∙ ap sink_for ((text_eq.agrees_iff ns m).0 same))
    | inr differ ↦ p.0 m t (sym (lookup-insert ns m s sinks ∙ rw differ) ∙ e)
  ]

  new_sink-Got :
      (ns : Text) (sinks : Dict Text Sink)
      → Pool sinks
      → lookup ns sinks ≡ none
      → Got ns sinks (new_sink cfg ns, insert ns (new_sink cfg ns) sinks)
  new_sink-Got ns sinks p h =
      let s = new_sink cfg ns in
      let other = other_namespace ns sinks p h in
      let fresh : s ≡ sink_for ns = rw other in
      let grown : values (insert ns s sinks) ≡ values sinks ++ (s ∷ []) =
        ap values (insert-fresh ns s sinks h) ∙ values-append sinks ((ns, s) ∷ []) in
      (
        fresh,
        (
          λ m t e. found ns m s t sinks fresh p e,
          lookup-insert ns (global_namespace cfg) s sinks ∙ rw other p.1,
        ),
        subst (In s) (sym grown) (In-append_right s (values sinks) (s ∷ []) (inl refl)),
        λ t i. subst (In t) (sym grown) (In-append_left t (values sinks) (s ∷ []) i),
      )

  get_sink-Got :
      (ns : Text) (sinks : Dict Text Sink) → Pool sinks → Got ns sinks (get_sink cfg ns sinks)
  unfolding get_sink
  get_sink-Got ns sinks p = elim (Option-cases (lookup ns sinks)) [
    | inl h ↦
        subst (λ o. Got ns sinks (kept_or_new cfg ns sinks o)) (sym h) (new_sink-Got ns sinks p h)
    | inr h ↦
        subst (λ o. Got ns sinks (kept_or_new cfg ns sinks o)) (sym h.1)
          (p.0 ns h.0 h.1, p, lookup-In ns h.0 sinks h.1, λ s i. i)
  ]

  abbrev pub Backed : CdcEngine → Type 0
  Backed e = All (λ w. In w.sink (values e.sinks)) e.workers

  abbrev pub Wired : CdcEngine → Type 0
  Wired e = Pool e.sinks × Backed e

  workers_of-Backed :
      (name : Text) (tables : List Text) (sc : SourceConf) (sink : Sink) (sinks : Dict Text Sink)
      → In sink (values sinks)
      → All (λ w. In w.sink (values sinks)) (workers_of cfg (record sc { tables = tables }) sink)
  workers_of-Backed name [] sc sink sinks h = tt
  workers_of-Backed name (t ∷ ts) sc sink sinks h = (h, workers_of-Backed name ts sc sink sinks h)

  module _ (env : Sources) where
    abbrev Added : SourceConf → CdcEngine → CdcEngine → Type 0
    Added sc e e' =
        Wired e' × (e'.workers ≡ e.workers ++ workers_of cfg sc (sink_for (namespace_of cfg sc)))

    with_workers-Added :
        (sc : SourceConf) (e : CdcEngine)
        → Wired e
        → Added sc e (with_workers cfg env sc e (get_sink cfg (namespace_of cfg sc) e.sinks))
    with_workers-Added sc e (p, b) =
        let got = get_sink cfg (namespace_of cfg sc) e.sinks in
        let g = get_sink-Got (namespace_of cfg sc) e.sinks p in
        (
          (
            g.1,
            All-append (λ w. In w.sink (values got.1)) e.workers (workers_of cfg sc got.0)
                (All-map (λ w. In w.sink (values e.sinks)) (λ w. In w.sink (values got.1))
                  (λ w i. g.3 w.sink i) e.workers b)
                (workers_of-Backed sc.name sc.tables sc got.0 got.1 g.2),
          ),
          ap (λ s. e.workers ++ workers_of cfg sc s) g.0,
        )

    add_source-Added :
        (sc : SourceConf) (e e' : CdcEngine)
        → Wired e
        → add_source cfg env sc e ≡ ok e'
        → Added sc e e'
    unfolding add_source
    add_source-Added sc e e' w h =
        elim (Bool-cases (contains (lower sc.source_type) env.registry)) [
          | inl known ↦
              bind-inv (env.connect sc)
                (λ u. ok (with_workers cfg env sc e (get_sink cfg (namespace_of cfg sc) e.sinks)))
                e' (rw known at h)
                (λ u done same.
                  let equal : with_workers cfg env sc e (get_sink cfg (namespace_of cfg sc) e.sinks)
                      ≡ e' =
                    cc in
                  subst (Added sc e) equal (with_workers-Added sc e w))
          | inr unknown ↦ let never = rw unknown at h in cc
        ]

    pub add_sources-Wired :
        (scs : List SourceConf) (e e' : CdcEngine)
        → Wired e
        → add_sources cfg env scs e ≡ ok e'
        → Wired e' × (e'.workers ≡ e.workers ++ pooled scs)
    unfolding add_sources
    add_sources-Wired [] e e' w h =
        let equal : e ≡ e' = cc in
        (subst Wired equal w, sym (ap (λ f. f.workers) equal) ∙ sym (append-nil e.workers))
    add_sources-Wired (sc ∷ scs) e e' w h =
        bind-inv (add_source cfg env sc e) (add_sources cfg env scs) e' h (λ f one later.
          let a = add_source-Added sc e f w one in
          let rest = add_sources-Wired scs f e' a.0 later in
          (
            rest.0,
            rest.1
                ∙ (ap (λ ws. ws ++ pooled scs) a.1
                    ∙ append_assoc e.workers (workers_of cfg sc (sink_for (namespace_of cfg sc)))
                        (pooled scs)),
          ))
