-- ===== src/Engine/Sample.antt =====
-- A concrete worker of core/engine.py for the tests: a sink that is down for its first call, a store
-- of positions in memory, and a table of two rows.
use dremio_cdc.Prelude.{
  ℕ, ◌*◌, ◌/◌, zero, suc, ◌≡◌, ◌≢◌, refl, sym, ap, subst, inl, inr, Bool, true, false, Option, none,
  some, List, [], ◌∷◌, ◌++◌, arith, Text, All, take, ◌==◌, pair_eq, text_eq, if◌then◌else◌,
  Text-discrete, ◌∙◌,
}
use mathlib.Core.List.{append_assoc}
use dremio_cdc.Prelude.Chars.{codes, to_decimal}
use dremio_cdc.Prelude.Dict.{Dict, lookup, insert, lookup-insert}
use dremio_cdc.Event.{Value, ColumnSchema, ChangeEvent, str}
use dremio_cdc.Outcome.{Outcome, ok, raised}
use dremio_cdc.Offsets.{OffsetApi, Key}
use dremio_cdc.Dlq.{Dlq}
use dremio_cdc.Masking.{Fn}
use dremio_cdc.Status
use dremio_cdc.Samples.{plain, id_column, ssn_column, inserted}
use dremio_cdc.Engine.Worker.{Env, DriftAction, Config, Worker}
use dremio_cdc.Engine.Snapshot.{SnapshotSource, cursor_value}
use dremio_cdc.Engine.Snapshot.Chunks.{Paged}
use dremio_cdc.Engine.Delivery.{Delivery, In, In-head}

-- The sink is down at the first write only.
abbrev pub ToySink : Type 0
ToySink = Bool × List ChangeEvent

abbrev pub toy_write : List ChangeEvent → ToySink → Outcome (Unit {0}) × ToySink
toy_write batch (true, stored) = (raised (codes "503"), (false, stored))
toy_write batch (false, stored) = (ok tt, (false, stored ++ batch))

abbrev pub memory_get : Key → Dict Key Value → Value
memory_get k s = elim (lookup k s) [ none ↦ Value.null | some v ↦ v ]

pub memory_get-insert :
    (k j : Key) (v : Value) (s t : Dict Key Value)
    → some (insert k v s) ≡ some t
    → memory_get j t ≡ (if k == j then v else memory_get j s)
memory_get-insert k j v s t h = ground (arith, lookup-insert k j v s)

abbrev pub memory : OffsetApi
memory = record {
  Store = Dict Key Value;
  get = memory_get;
  set = λ k v s. some (insert k v s);
  get-set = memory_get-insert;
}

abbrev pub toy : Env
toy = record {
  sink_api = record { Sink = ToySink; write_batch = toy_write };
  offset_api = memory;
  Source = Unit;
  get_schema = λ table s. ok (id_column ∷ ssn_column ∷ []);
  on_batch_committed = λ table offset s. (ok tt, s);
  evolve_schema = none;
  clock = λ n. n;
  rate = λ count duration timeout. count * timeout / duration;
  py = plain;
  hash = record { sha256_hex = λ t. t; md5_hex = λ t. t };
}

In-append_left : {A : Type 0} (a : A) (xs ys : List A) → In a xs → In a (xs ++ ys)
In-append_left a (x ∷ xs) ys (inl h) = inl h
In-append_left a (x ∷ xs) ys (inr h) = inr (In-append_left a xs ys h)
In-append_left a [] ys h = absurd h

right_members : {A : Type 0} (xs ys : List A) → All (λ y. In y (xs ++ ys)) ys
right_members xs [] = tt
right_members xs (y ∷ ys) = (
  In-head xs ys y,
  subst (λ (l : List _). All (λ z. In z l) ys) (append_assoc xs (y ∷ []) ys)
      (right_members (xs ++ (y ∷ [])) ys),
)

pub toy_keeps :
    (batch : List ChangeEvent) (s : ToySink) (ev : ChangeEvent)
    → In ev s.1
    → In ev (toy_write batch s).1.1
toy_keeps batch (true, stored) ev h = h
toy_keeps batch (false, stored) ev h = In-append_left ev stored batch h

pub toy_stores :
    (batch : List ChangeEvent) (s : ToySink)
    → (toy_write batch s).0 ≡ ok tt
    → All (λ ev. In ev (toy_write batch s).1.1) batch
toy_stores batch (true, stored) e = cc
toy_stores batch (false, stored) e = right_members stored batch

pub toy_never_evolves :
    (evolve : Text → List ColumnSchema → ToySink → Outcome (Unit {0}) × ToySink)
    → toy.evolve_schema ≡ some evolve
    → (table : Text) (schema : List ColumnSchema) (s : ToySink) (ev : ChangeEvent) → In ev s.1
    → In ev (evolve table schema s).1.1
toy_never_evolves evolve e table schema s ev h = cc

abbrev pub toy_delivery : Delivery toy
toy_delivery = record {
  InSink = λ s ev. In ev s.1;
  keeps = toy_keeps;
  stores = toy_stores;
  evolve_keeps = toy_never_evolves;
}

abbrev pub toy_config : Config
toy_config = record {
  source_name = codes "pg";
  table = codes "people";
  batch_timeout = 10;
  do_snapshot = true;
  drift_action = DriftAction.alert;
  drift_every = 10;
  masker = (codes "people", (codes "ssn", Fn.redact) ∷ []) ∷ [];
}

abbrev pub toy_queue : Dlq
toy_queue = record { entries = []; next_id = 1; max_retries = 3 }

abbrev pub toy_worker : Worker toy
toy_worker = record {
  batch_size = 2;
  tuner = none;
  flush_count = 0;
  stopped = false;
  sink = (true, []);
  source = tt;
  offsets = [];
  schemas = none;
  status =
      Status.register 0 (codes "pg") (codes "people") record {
        workers = [];
        engine_state = Status.EngineState.running;
        engine_started_at = none;
      };
  dlq = some toy_queue;
  ticks = 0;
}

abbrev pub first_row : ChangeEvent
first_row = inserted 1 (codes "111") 1

abbrev pub second_row : ChangeEvent
second_row = inserted 2 (codes "222") 2

-- A source that serves the two rows in chunks after the value of the column `id`.
abbrev pub chunk_after : Option Text → ℕ → List ChangeEvent
chunk_after none n = take n (first_row ∷ second_row ∷ [])
chunk_after (some t) n = if t == codes "1" then take n (second_row ∷ []) else []

abbrev pub two_rows : SnapshotSource toy
two_rows = record {
  rows = (false, first_row) ∷ (false, second_row) ∷ [];
  ending = none;
  incremental_snapshot = λ col v n s. (ok (chunk_after v n), s);
}

abbrev pub id_of : ChangeEvent → Text
id_of ev = elim ev.after [
  | none ↦ []
  | some row ↦ elim (lookup (codes "id") row) [ none ↦ [] | some v ↦ str plain v ]
]

pub two_rows-has_cursor :
    All
      (λ r. (v : Option Text) → cursor_value toy toy_config (codes "id") v r.after ≡ ok (id_of r))
      (first_row ∷ second_row ∷ [])
unfolding cursor_value Text-discrete str to_decimal
two_rows-has_cursor = (λ v. refl, (λ v. refl, tt))

abbrev head_or : ChangeEvent → List ChangeEvent → ChangeEvent
head_or default [] = default
head_or default (x ∷ xs) = x

abbrev tail : List ChangeEvent → List ChangeEvent
tail [] = []
tail (x ∷ xs) = xs

take_nil : (n : ℕ) → ◌≡◌ {A = List ChangeEvent} (take n []) []
take_nil zero = refl
take_nil (suc n) = refl

cons-ne-nil : (x : ChangeEvent) (xs : List ChangeEvent) → ◌≢◌ {A = List ChangeEvent} (x ∷ xs) []
cons-ne-nil x xs e = cc

-- The chunk after the row `a`, when it is followed by `after`.
serves :
    (a : ChangeEvent) (after : List ChangeEvent) (r : ChangeEvent) (rest : List ChangeEvent) (n : ℕ)
    → chunk_after (some (id_of a)) n ≡ take n after
    → r ≡ a
    → rest ≡ after
    → chunk_after (some (id_of r)) n ≡ take n rest
serves a after r rest n h e f =
    ap (λ x. chunk_after (some (id_of x)) n) e ∙ (h ∙ ap (take n) (sym f))

pub two_rows-next :
    (pre rest : List ChangeEvent) (r : ChangeEvent) (n : ℕ)
    → pre ++ (r ∷ rest) ≡ first_row ∷ second_row ∷ []
    → chunk_after (some (id_of r)) n ≡ take n rest
unfolding Text-discrete str to_decimal
two_rows-next [] rest r n e =
    serves first_row (second_row ∷ []) r rest n refl (ap (head_or first_row) e) (ap tail e)
two_rows-next (x ∷ []) rest r n e =
    serves second_row [] r rest n (sym (take_nil n)) (ap (λ l. head_or first_row (tail l)) e)
      (ap (λ l. tail (tail l)) e)
two_rows-next (x ∷ y ∷ []) rest r n e = absurd (cons-ne-nil r rest (ap (λ l. tail (tail l)) e))
two_rows-next (x ∷ y ∷ z ∷ pre) rest r n e =
    absurd (cons-ne-nil z (pre ++ (r ∷ rest)) (ap (λ l. tail (tail l)) e))

pub ok_inj : (a b : List ChangeEvent) → ◌≡◌ {A = Outcome (List ChangeEvent)} (ok a) (ok b) → a ≡ b
ok_inj a b e = cc

abbrev pub two_rows-Paged : Paged toy toy_config two_rows (codes "id")
two_rows-Paged = record {
  table_rows = first_row ∷ second_row ∷ [];
  cursor = id_of;
  has_cursor = two_rows-has_cursor;
  first_chunk = λ n s rows given.
      let same : ok (take n (first_row ∷ second_row ∷ [])) ≡ ok rows = given in cc;
  next_chunk = λ pre rest r n s rows e given.
      ok_inj rows (take n rest) (sym given ∙ ap ok (two_rows-next pre rest r n e));
}
