-- ===== src/Engine/Wiring/Expected.antt =====
-- What core/engine.py and its configuration file promise of the workers, one by one: the table, the
-- sink and the masking that a source's section asks for.
use dremio_cdc.Prelude.{
  ◌≡◌, refl, sym, ap, ◌∙◌, Bool, Option, none, some, List, [], ◌∷◌, ◌++◌, map, Text, text_eq, ◌==◌,
  if◌then◌else◌, Bool-cases, inl, inr,
}
use dremio_cdc.Prelude.Chars.{codes, lower}
use dremio_cdc.Event.{Value}
use dremio_cdc.Engine.Wiring.{
  SinkMode, Sink, SourceConf, EngineConf, TableWorker, global_namespace, global_sink, namespace_of,
  workers_of, or_cdc, or_global, masker_of,
}
use dremio_cdc.Engine.Wiring.Wired.{sink_for, pooled}

-- The setting, or what stands for it when it is not given.
abbrev pub given : Option Text → Text → Text
given (some t) default = t
given none default = default

-- A setting that is empty is not given either.
abbrev pub not_empty : Option Text → Option Text
not_empty (some []) = none
not_empty o = o

-- Rules, if there are any.
abbrev pub rules_of : List (Text × Value) → Option (List (Text × Value))
rules_of [] = none
rules_of rules = some rules

given-or_cdc : (o : Option Text) → given o (codes "cdc") ≡ or_cdc o
given-or_cdc none = refl
given-or_cdc (some t) = refl

given-or_global : (o : Option Text) (ns : Text) → given (not_empty o) ns ≡ or_global ns o
given-or_global none ns = refl
given-or_global (some []) ns = refl
given-or_global (some (c ∷ t)) ns = refl

rules_of-masker_of : (rules : List (Text × Value)) → rules_of rules ≡ masker_of rules
rules_of-masker_of [] = refl
rules_of-masker_of (r ∷ rules) = refl

module _ (cfg : EngineConf) where
  abbrev pub writes_iceberg : Bool
  writes_iceberg = lower cfg.sink_mode == codes "iceberg"

  -- The namespace of the engine.
  abbrev pub home : Text
  home = given cfg.dremio_namespace (codes "cdc")

  abbrev pub asked : SourceConf → Text
  asked sc = given (not_empty sc.target_namespace) home

  -- A source writes into the namespace that it asks for, else into the engine's, which is that of
  -- the section `iceberg` when the engine writes to Iceberg.
  abbrev pub expected_sink : SourceConf → Sink
  expected_sink sc =
      if writes_iceberg
      then record {
        mode = SinkMode.iceberg;
        namespace =
            if asked sc == home then given cfg.iceberg_namespace (codes "cdc") else asked sc;
      }
      else record { mode = SinkMode.dremio; namespace = asked sc }

  abbrev pub expected_worker : SourceConf → Text → TableWorker
  expected_worker sc table = record {
    source = sc.name;
    table = table;
    sink = expected_sink sc;
    masker = rules_of sc.masking;
  }

  abbrev pub expected : List SourceConf → List TableWorker
  expected [] = []
  expected (sc ∷ scs) = map (expected_worker sc) sc.tables ++ expected scs

  asked-namespace_of : (sc : SourceConf) → namespace_of cfg sc ≡ asked sc
  asked-namespace_of sc =
      sym (given-or_global sc.target_namespace (global_namespace cfg))
      ∙ ap (given (not_empty sc.target_namespace)) (sym (given-or_cdc cfg.dremio_namespace))

  global_sink-cases : global_sink cfg ≡ (
      if writes_iceberg
      then record { mode = SinkMode.iceberg; namespace = or_cdc cfg.iceberg_namespace }
      else record { mode = SinkMode.dremio; namespace = or_cdc cfg.dremio_namespace })
  unfolding global_sink
  global_sink-cases = elim (Bool-cases writes_iceberg) [
    | inl ice ↦ rw (ice, global_sink)
    | inr plain ↦ rw (plain, global_sink)
  ]

  sink_for-cases :
      (ns : Text)
      → sink_for cfg ns ≡ (
          if writes_iceberg
          then record {
            mode = SinkMode.iceberg;
            namespace = if ns == home then given cfg.iceberg_namespace (codes "cdc") else ns;
          }
          else record { mode = SinkMode.dremio; namespace = ns })
  sink_for-cases ns =
      let same_home = given-or_cdc cfg.dremio_namespace in
      let same_iceberg = given-or_cdc cfg.iceberg_namespace in
      elim (Bool-cases writes_iceberg) [
        | inl ice ↦ elim (Bool-cases (ns == or_cdc cfg.dremio_namespace)) [
          | inl e ↦ rw (global_sink-cases, ice, same_home, same_iceberg, e)
          | inr e ↦ rw (global_sink-cases, ice, same_home, e)
        ]
        | inr plain ↦ elim (Bool-cases (ns == or_cdc cfg.dremio_namespace)) [
          | inl e ↦
              rw (global_sink-cases, plain, e)
                (ap (λ n. record { mode = SinkMode.dremio; namespace = n })
                  (sym ((text_eq.agrees_iff ns (or_cdc cfg.dremio_namespace)).0 e)))
          | inr e ↦ rw (plain, e)
        ]
      ]

  expected-sink_for : (sc : SourceConf) → sink_for cfg (namespace_of cfg sc) ≡ expected_sink sc
  expected-sink_for sc = ap (sink_for cfg) (asked-namespace_of sc) ∙ sink_for-cases (asked sc)

  expected-workers_of :
      (sc : SourceConf) → workers_of cfg sc (expected_sink sc) ≡ map (expected_worker sc) sc.tables
  expected-workers_of sc =
      ap
        (λ (m : Option (List (Text × Value))).
          map (λ t. record { source = sc.name; table = t; sink = expected_sink sc; masker = m })
            sc.tables)
        (sym (rules_of-masker_of sc.masking))

  -- What the pool leads to is what is promised.
  pub pooled-expected : (scs : List SourceConf) → pooled cfg scs ≡ expected scs
  pooled-expected [] = refl
  pooled-expected (sc ∷ scs) =
      ap (λ ws. ws ++ pooled cfg scs)
        (ap (workers_of cfg sc) (expected-sink_for sc) ∙ expected-workers_of sc)
      ∙ ap (λ ws. map (expected_worker sc) sc.tables ++ ws) (pooled-expected scs)
