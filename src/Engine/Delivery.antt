-- ===== src/Engine/Delivery.antt =====
-- What delivery means for the worker of core/engine.py: an event is in the sink or in the dead
-- letter queue.
use dremio_cdc.Prelude.{
  ◌≡◌, refl, ◌⊎◌, inl, inr, Option, none, some, List, [], ◌∷◌, ◌++◌, All, Text,
}
use dremio_cdc.Event.{Value, ColumnSchema, ChangeEvent}
use dremio_cdc.Masking
use dremio_cdc.Offsets.{Key}
use dremio_cdc.Outcome.{Outcome, ok}
use dremio_cdc.Dlq.{Entry, Dlq}
use dremio_cdc.Dlq.Serial.{Stored, serialize_event}
use dremio_cdc.Engine.Worker.{Env, Config, Worker}

-- What the engine relies on in a sink: an event that was stored stays stored, whatever a later call
-- returns, and a write that returns has stored its batch.
pub record Delivery (env : Env) : Type 1 where
  pub InSink : env.sink_api.Sink → ChangeEvent → Type 0
  pub keeps :
      (batch : List ChangeEvent) (s : env.sink_api.Sink) (ev : ChangeEvent)
      → InSink s ev
      → InSink (env.sink_api.write_batch batch s).1 ev
  pub stores :
      (batch : List ChangeEvent) (s : env.sink_api.Sink)
      → (env.sink_api.write_batch batch s).0 ≡ ok tt
      → All (InSink (env.sink_api.write_batch batch s).1) batch
  pub evolve_keeps :
      (evolve : Text
        → List ColumnSchema
        → env.sink_api.Sink
        → Outcome (Unit {0}) × env.sink_api.Sink)
      → env.evolve_schema ≡ some evolve
      → (table : Text) (schema : List ColumnSchema) (s : env.sink_api.Sink) (ev : ChangeEvent)
      → InSink s ev
      → InSink (evolve table schema s).1 ev

-- The worker has a dead letter queue.
abbrev pub HasQueue : {env : Env} → Worker env → Type 0
HasQueue w = (q : Dlq) × (w.dlq ≡ some q)

-- The saved position of a key.
abbrev pub saved : {env : Env} → Key → Worker env → Value
saved {env} k w = env.offset_api.get k w.offsets

-- An event as the worker writes it.
abbrev pub masked : (env : Env) → Config → ChangeEvent → ChangeEvent
masked env cfg ev = Masking.apply env.py env.hash cfg.masker cfg.table ev

abbrev pub In : {A : Type 0} → A → List A → Type 0
In a [] = ⊥
In a (x ∷ xs) = (a ≡ x) ⊎ In a xs

pub In-append_left : {A : Type 0} (a : A) (xs ys : List A) → In a xs → In a (xs ++ ys)
In-append_left a [] ys h = elim h [ ]
In-append_left a (x ∷ xs) ys (inl h) = inl h
In-append_left a (x ∷ xs) ys (inr h) = inr (In-append_left a xs ys h)

pub In-append_right : {A : Type 0} (a : A) (xs ys : List A) → In a ys → In a (xs ++ ys)
In-append_right a [] ys h = h
In-append_right a (x ∷ xs) ys h = inr (In-append_right a xs ys h)

abbrev pub InEntries : Stored → List Entry → Type 0
InEntries d [] = ⊥
InEntries d (e ∷ es) = In d e.events ⊎ InEntries d es

abbrev pub InQueue : Stored → Option Dlq → Type 0
InQueue d none = ⊥
InQueue d (some q) = InEntries d q.entries

module _ {env : Env} (d : Delivery env) where
  -- The event is in the sink, or parked.
  abbrev pub Safe : Worker env → ChangeEvent → Type 0
  Safe w ev = d.InSink w.sink ev ⊎ InQueue (serialize_event env.py ev) w.dlq

pub InEntries-append_left :
    (d : Stored) (es fs : List Entry) → InEntries d es → InEntries d (es ++ fs)
InEntries-append_left d [] fs h = absurd h
InEntries-append_left d (e ∷ es) fs (inl h) = inl h
InEntries-append_left d (e ∷ es) fs (inr h) = inr (InEntries-append_left d es fs h)

pub InEntries-append_last :
    (d : Stored) (es : List Entry) (e : Entry) → In d e.events → InEntries d (es ++ (e ∷ []))
InEntries-append_last d [] e h = inl h
InEntries-append_last d (x ∷ es) e h = inr (InEntries-append_last d es e h)

pub In-head : {A : Type 0} (xs ys : List A) (y : A) → In y (xs ++ (y ∷ ys))
In-head [] ys y = inl refl
In-head (x ∷ xs) ys y = inr (In-head xs ys y)
