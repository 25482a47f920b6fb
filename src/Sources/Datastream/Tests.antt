-- ===== src/Sources/Datastream/Tests.antt =====
-- sources/datastream.py on a bucket with two files.
use dremio_cdc.Prelude.{
  ne_of_test, ℕ, ◌≡◌, ◌≢◌, refl, Bool, true, false, Option, none, some, List, [], ◌∷◌, ◌++◌, map,
  Text, text_eq, Text-discrete, ◌==◌, arith, keep, length,
}
use dremio_cdc.Prelude.Chars.{codes, to_decimal, strip, is_digit}
use dremio_cdc.Prelude.Int.{pos, negsuc}
use dremio_cdc.Prelude.Dict.{Dict, lookup}
use dremio_cdc.Event.{Value, Row, Operation, ChangeEvent, truthy}
use dremio_cdc.Outcome.{Outcome, ok, raised}
use dremio_cdc.Samples.{plain, toy_json}
use dremio_cdc.Sources.Record.{normalise}
use dremio_cdc.Sources.Datastream.{Times, make_event, strip_meta, parse_ts, timestamp_of, sequence}
use dremio_cdc.Sources.Datastream.Names.{Unique, lt_text, sorted}
use dremio_cdc.Sources.Datastream.Offset.{
  encode_offset, decode_offset, decode_offset-encode_offset, parse_int, rsplit_hash, read_digits,
  print_int,
}
use dremio_cdc.Sources.Datastream.Stream.{
  Bucket, Config, gcs_prefix, change_files, list_files, poll, polls, resume, slice_from, next_int,
  yield_file, yield_files, yield_records, stream,
}
use dremio_cdc.Sources.Datastream.Resume.{changes}
use dremio_cdc.Sources.Datastream.Resume.Exact.{stream-resumed}
use dremio_cdc.Sources.Datastream.Resume.LogPlace.{sequence_compares_names}

abbrev times : Times
times = record { now = 5; other_number = λ v. none }

abbrev cfg : Config
cfg = record { name = codes "ds"; path_prefix = []; file_format = codes "json" }

abbrev old_file : Text
old_file = codes "HR/E/1.json"

abbrev new_file : Text
new_file = codes "HR/E/2.json"

abbrev names : List Text
names = new_file ∷ codes "HR/E/x.avro" ∷ old_file ∷ []

abbrev plain_row : ℕ → Row
plain_row n = (codes "id", Value.int (pos n)) ∷ []

-- A record with a place in the log.
abbrev placed_row : Row
placed_row =
    (codes "_metadata_change_sequence_number", Value.text (codes "x1"))
    ∷ (codes "id", Value.int (pos 9))
    ∷ []

abbrev contents : Dict Text (List Row)
contents =
    (old_file, plain_row 1 ∷ plain_row 2 ∷ []) ∷ (new_file, placed_row ∷ plain_row 3 ∷ []) ∷ []

abbrev found : Option (List Row) → Outcome (List Row)
found none = raised (codes "404")
found (some rows) = ok rows

abbrev bucket : Bucket
bucket = record {
  list_blobs = λ prefix. ok names;
  read_file = λ file. found (lookup file contents);
}

abbrev offsets : List (Option ChangeEvent) → List Value
offsets items = map (λ ev. ev.offset) (changes items)

-- The start, a position in a file, and a place in the log, which sorts behind all the files.
stream_positions :
    (offsets (stream plain toy_json times cfg bucket (bucket ∷ []) (codes "HR.E") Value.null)
      ≡ Value.text (codes "HR/E/1.json#0")
        ∷ Value.text (codes "HR/E/1.json#1")
        ∷ Value.text (codes "x1")
        ∷ Value.text (codes "HR/E/2.json#1")
        ∷ [])
    × (offsets (
          stream plain toy_json times cfg bucket
            (bucket ∷ [])
            (codes "HR.E")
            (Value.text (codes "HR/E/1.json#0")))
        ≡ Value.text (codes "HR/E/1.json#1")
          ∷ Value.text (codes "x1")
          ∷ Value.text (codes "HR/E/2.json#1")
          ∷ [])
    × (offsets (
          stream plain toy_json times cfg bucket
            (bucket ∷ [])
            (codes "HR.E")
            (Value.text (codes "x1")))
        ≡ [])
unfolding stream decode_offset rsplit_hash parse_int read_digits poll list_files change_files
    gcs_prefix polls resume yield_file yield_files yield_records slice_from next_int sorted lt_text
    Text-discrete make_event normalise strip_meta parse_ts timestamp_of truthy sequence
    encode_offset print_int to_decimal strip is_digit
stream_positions = (refl, refl, refl)

negative_index : decode_offset (Value.text (codes "a#-3")) ≡ (some (codes "a"), some (negsuc 2))
unfolding decode_offset dremio_cdc.Sources.Datastream.Offset.rsplit_hash parse_int
    dremio_cdc.Prelude.Chars.strip dremio_cdc.Sources.Datastream.Offset.read_digits
    dremio_cdc.Prelude.Chars.is_digit
negative_index = refl

underscores : parse_int (codes " 1_000 ") ≡ some (pos 1000)
unfolding parse_int dremio_cdc.Prelude.Chars.strip dremio_cdc.Sources.Datastream.Offset.read_digits
    dremio_cdc.Prelude.Chars.is_digit
underscores = refl

-- The event of the second record of the old file.
abbrev second : ChangeEvent
second = record {
  op = Operation.insert;
  source_name = codes "ds";
  source_table = codes "HR.E";
  before = none;
  after = some (plain_row 2);
  schema =
      record { name = codes "id"; data_type = codes "bigint"; nullable = true; primary_key = false }
      ∷ [];
  timestamp = some 5;
  offset = Value.text (codes "HR/E/1.json#1");
  tx_id = none;
}

names-Unique : Unique names
unfolding Text-discrete
names-Unique = (
  (ne_of_test new_file (codes "HR/E/x.avro") refl, (ne_of_test new_file old_file refl, tt)),
  ((ne_of_test (codes "HR/E/x.avro") old_file refl, tt), (tt, tt)),
)

stream-resumed_example :
    changes (stream plain toy_json times cfg bucket (bucket ∷ []) (codes "HR.E") Value.null)
    ≡ (changes (yield_files plain toy_json times cfg bucket (codes "HR.E") [])
        ++ changes (
            yield_records plain toy_json times cfg
              (codes "HR.E")
              old_file
              (pos 0)
              (plain_row 1 ∷ plain_row 2 ∷ [])))
      ++ changes (stream plain toy_json times cfg bucket (bucket ∷ []) (codes "HR.E") second.offset)
unfolding change_files dremio_cdc.Sources.Datastream.Names.sorted dremio_cdc.Prelude.Text-discrete
    lt_text make_event dremio_cdc.Sources.Record.normalise dremio_cdc.Sources.Datastream.strip_meta
    dremio_cdc.Sources.Datastream.parse_ts dremio_cdc.Sources.Datastream.timestamp_of
    dremio_cdc.Event.truthy dremio_cdc.Sources.Datastream.parse_op
    dremio_cdc.Sources.Datastream.infer_schema_from_record dremio_cdc.Sources.Datastream.sequence
    dremio_cdc.Sources.Record.infer_schema encode_offset dremio_cdc.Sources.Datastream.pk_fields
    dremio_cdc.Sources.Datastream.Offset.print_int dremio_cdc.Prelude.Chars.to_decimal
stream-resumed_example =
    stream-resumed plain toy_json times cfg (codes "HR.E") bucket names [] (new_file ∷ []) b'H'
      (codes "R/E/1.json") refl names-Unique refl [] (plain_row 1 ∷ []) [] (plain_row 2) second refl
      refl (refl, refl)

-- The event of a record that names its place in the log.
abbrev placed : ChangeEvent
placed = record {
  op = Operation.insert;
  source_name = codes "ds";
  source_table = codes "HR.E";
  before = none;
  after = some (plain_row 9);
  schema =
      record { name = codes "id"; data_type = codes "bigint"; nullable = true; primary_key = false }
      ∷ [];
  timestamp = some 5;
  offset = Value.text (codes "x1");
  tx_id = none;
}

sequence_compares_names_example :
    changes (stream plain toy_json times cfg bucket (bucket ∷ []) (codes "HR.E") placed.offset)
    ≡ changes (
        yield_files plain toy_json times cfg bucket
          (codes "HR.E")
          (keep (lt_text (codes "x1")) (change_files plain toy_json times cfg names)))
unfolding dremio_cdc.Prelude.Text-discrete dremio_cdc.Sources.Datastream.Offset.rsplit_hash
    make_event dremio_cdc.Sources.Record.normalise dremio_cdc.Sources.Datastream.strip_meta
    dremio_cdc.Sources.Datastream.parse_ts dremio_cdc.Sources.Datastream.timestamp_of
    dremio_cdc.Event.truthy dremio_cdc.Sources.Datastream.parse_op
    dremio_cdc.Sources.Datastream.infer_schema_from_record dremio_cdc.Sources.Datastream.sequence
    dremio_cdc.Sources.Record.infer_schema dremio_cdc.Sources.Datastream.pk_fields
sequence_compares_names_example =
    sequence_compares_names plain toy_json times cfg (codes "HR.E") bucket names placed_row
      (codes "HR/E/2.json#0") placed b'x' (codes "1") refl refl refl refl
