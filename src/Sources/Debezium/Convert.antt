-- ===== src/Sources/Debezium/Convert.antt =====
-- sources/debezium.py reads the envelopes of Debezium.
use dremio_cdc.Prelude.{
  ℕ, ◌*◌, ◌≤◌, ◌≡◌, ◌≢◌, refl, ap, ◌∙◌, Bool, true, false, not, ◌||◌, Option, none, some, List, [],
  ◌∷◌, Text, text_eq, Text-discrete, ◌==◌, if◌then◌else◌, arith,
}
use dremio_cdc.Prelude.Int.{pos}
use dremio_cdc.Prelude.Chars.{codes, upper}
use dremio_cdc.Event.{Value, Operation, ColumnSchema, ChangeEvent, Row, Printing, str, truthy}
use dremio_cdc.Outcome.{Outcome, ok, ◌>>=◌}
use dremio_cdc.Sources.Debezium.{or_value}
use dremio_cdc.Sources.Debezium.Payload.{
  Millis, timestamp_of, operation_of, qualified, inferred, position, is_oracle_like, build, unless,
  upper_text, filtered, convert,
}
use dremio_cdc.Sources.Debezium.Envelope.{
  Column, Envelope, letter, encode_schema, encode_source, encode_payload, encode, columns_of,
  namespace_of, full_name, EnvelopeFits,
}
use dremio_cdc.Sources.Debezium.Columns.{coerce-encode_row, parse_schema-encode}

inferred-columns :
    (py : Printing) (cs : List Column) (before after : Option Row)
    → cs ≢ []
    → inferred py (columns_of cs) before after ≡ columns_of cs
inferred-columns py [] before after h = absurd (h refl)
inferred-columns py (c ∷ cs) before after h = refl

operation_of-letter :
    (py : Printing) (op : Operation) → operation_of py (Value.text (letter op)) ≡ op
unfolding Text-discrete
operation_of-letter py Operation.insert = refl
operation_of-letter py Operation.update = refl
operation_of-letter py Operation.delete = refl
operation_of-letter py Operation.snapshot = refl

timestamp_of-millis :
    (py : Printing) (m : Millis py) (n : ℕ)
    → n * 1000 ≤ 253402300799999999
    → timestamp_of py m (Value.int (pos n)) ≡ ok (n * 1000)
unfolding timestamp_of
timestamp_of-millis py m n h = ground arith

choice :
    (oracle : Bool) (database namespace : Text)
    → or_value
        (if oracle
          then Value.text namespace
          else or_value (Value.text database) (Value.text namespace))
        (Value.text [])
      ≡ Value.text (if oracle then namespace else elim database [ [] ↦ namespace | c ∷ d ↦ c ∷ d ])
unfolding truthy
choice true database [] = refl
choice true database (c ∷ n) = refl
choice false [] [] = refl
choice false [] (c ∷ n) = refl
choice false (c ∷ d) namespace = refl

module _ (py : Printing) (millis : Millis py) (source_name : Text) where
  abbrev event_with : Envelope → Text → Operation → List ColumnSchema → ChangeEvent
  event_with e table op columns = record {
    op = op;
    source_name = source_name;
    source_table = table;
    before = e.before;
    after = e.after;
    schema = columns;
    timestamp = some (e.ts_ms * 1000);
    offset = position py (Value.int (pos e.ts_ms)) table e.scn (or_value e.lsn e.commit_lsn) e.gtid;
    tx_id = none;
  }

  abbrev pub event_of : Envelope → ChangeEvent
  event_of e = event_with e (full_name (namespace_of e) e.table) e.op (columns_of e.columns)

  build-encode :
      (e : Envelope) (name : Text)
      → EnvelopeFits e
      → build py millis source_name name (encode_schema e) (encode_payload e) (encode_source e)
        ≡ ok (event_with e name e.op (columns_of e.columns))
  unfolding build Text-discrete truthy
  build-encode e name f =
      let op = operation_of-letter py e.op in
      let columns = inferred-columns py e.columns e.before e.after f.some_columns in
      rw (coerce-encode_row py e.before f.plain_before, ◌>>=◌)
        (rw (coerce-encode_row py e.after f.plain_after, ◌>>=◌)
          (rw (parse_schema-encode py e f, ◌>>=◌)
            (rw (timestamp_of-millis py millis e.ts_ms f.in_time, ◌>>=◌)
              (λ i. ok (event_with e name (op i) (columns i))))))

  -- The namespace of the table as the code chooses it.
  abbrev chosen : Envelope → Value
  chosen e =
      or_value
        (if is_oracle_like py (Value.text e.connector)
          then Value.text e.namespace
          else or_value (Value.text e.database) (Value.text e.namespace))
        (Value.text [])

  chosen-namespace : (e : Envelope) → chosen e ≡ Value.text (namespace_of e)
  chosen-namespace e =
      choice (e.connector == codes "oracle" || e.connector == codes "db2") e.database e.namespace

  qualified-full_name :
      (n table : Text) → qualified py (Value.text n) (Value.text table) ≡ full_name n table
  unfolding qualified truthy str
  qualified-full_name [] table = refl
  qualified-full_name (c ∷ n) table = refl

  abbrev table_value : Text → Value
  table_value t = or_value (Value.text t) (or_value Value.null (Value.text (codes "unknown")))

  table_value-named : (t : Text) → t ≢ [] → table_value t ≡ Value.text t
  unfolding truthy
  table_value-named [] h = absurd (h refl)
  table_value-named (c ∷ t) h = refl

  qualified-encode :
      (e : Envelope)
      → e.table ≢ []
      → qualified py (chosen e) (table_value e.table) ≡ full_name (namespace_of e) e.table
  qualified-encode e h =
      ap (λ v. qualified py v (table_value e.table)) (chosen-namespace e)
      ∙ (ap (qualified py (Value.text (namespace_of e))) (table_value-named e.table h)
          ∙ qualified-full_name (namespace_of e) e.table)

  build-event_of :
      (e : Envelope)
      → EnvelopeFits e
      → build py millis source_name
          (qualified py (chosen e) (table_value e.table))
          (encode_schema e)
          (encode_payload e)
          (encode_source e)
        ≡ ok (event_of e)
  build-event_of e f =
      ap (λ n. build py millis source_name n (encode_schema e) (encode_payload e) (encode_source e))
        (qualified-encode e f.has_table)
      ∙ build-encode e (full_name (namespace_of e) e.table) f

  abbrev made : Envelope → Bool → Outcome (List ChangeEvent)
  made e skip = unless py millis source_name skip (
      build py millis source_name (qualified py (chosen e) (table_value e.table)) (encode_schema e)
        (encode_payload e) (encode_source e))

  made-event_of :
      (e : Envelope) (other : Bool)
      → EnvelopeFits e
      → made e (not other) ≡ ok (if other then event_of e ∷ [] else [])
  made-event_of e true f = ap (λ o. o >>= λ ev. ok (ev ∷ [])) (build-event_of e f)
  made-event_of e false f = refl

  abbrev pub wanted : Option Text → Text → Bool
  wanted none table = true
  wanted (some []) table = true
  wanted (some (c ∷ t)) table = upper table == c ∷ t

  -- An envelope that fits is read as one event: its operation, its rows, the columns with their
  -- types, its time and its place, under the name of its table. For a stream of a table of another
  -- name it gives none.
  pub convert-encode :
      (e : Envelope) (table_filter : Option Text)
      → EnvelopeFits e
      → convert py millis source_name (encode e) table_filter
        ≡ ok (if wanted table_filter e.table then event_of e ∷ [] else [])
  unfolding convert Text-discrete upper_text
  convert-encode e none f = made-event_of e true f
  convert-encode e (some []) f = made-event_of e true f
  convert-encode e (some (c ∷ t)) f =
      ap (λ table. filtered py (some (c ∷ t)) table >>= made e)
        (table_value-named e.table f.has_table)
      ∙ made-event_of e (upper e.table == c ∷ t) f
