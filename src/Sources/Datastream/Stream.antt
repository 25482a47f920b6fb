-- ===== src/Sources/Datastream/Stream.antt =====
-- `stream` of sources/datastream.py: where it starts, and what it reads at each look at the bucket.
use dremio_cdc.Prelude.{
  zero, suc, ◌-◌, Option, none, some, List, [], ◌∷◌, ◌++◌, Text, text_eq, length, drop, keep,
}
use dremio_cdc.Prelude.Chars.{replace, ends_with}
use dremio_cdc.Prelude.Int.{ℤ, pos, negsuc}
use dremio_cdc.Event.{Value, ChangeEvent, Row, Printing}
use dremio_cdc.Outcome.{Outcome, ok, raised}
use dremio_cdc.Offsets.{Json}
use dremio_cdc.Sources.Datastream.{Times, make_event}
use dremio_cdc.Sources.Datastream.Names.{lt_text, sorted}
use dremio_cdc.Sources.Datastream.Offset.{encode_offset, decode_offset}

-- The bucket as it is at one look: the names of the objects under a prefix, and the records of an
-- object.
pub record Bucket : Type 0 where
  pub list_blobs : Text → Outcome (List Text)
  pub read_file : Text → Outcome (List Row)

-- What `__init__` keeps of the configuration.
pub record Config : Type 0 where
  pub name : Text
  pub path_prefix : Text
  pub file_format : Text

-- Python's `xs[start:]`, where a negative start counts from the end.
unfoldable pub slice_from : {A : Type 0} → ℤ → List A → List A
slice_from (pos n) xs = drop n xs
slice_from (negsuc n) xs = drop (length xs - suc n) xs

unfoldable pub next_int : ℤ → ℤ
next_int (pos n) = pos (suc n)
next_int (negsuc zero) = pos 0
next_int (negsuc (suc n)) = negsuc n

-- `[p for p in paths if p > after]`
abbrev pub files_after : Option Text → List Text → List Text
files_after none paths = paths
files_after (some []) paths = paths
files_after (some (c ∷ f)) paths = keep (lt_text (c ∷ f)) paths

-- An event, or nothing for a record that gives none.
abbrev pub cons_some : Option ChangeEvent → List (Option ChangeEvent) → List (Option ChangeEvent)
cons_some none items = items
cons_some (some ev) items = some ev ∷ items

-- `last_file` behind the files of one look.
abbrev pub last_of : Option Text → List Text → Option Text
last_of last [] = last
last_of last (file ∷ files) = last_of (some file) files

module _ (py : Printing) (json : Json) (times : Times) (cfg : Config) where
  unfoldable pub gcs_prefix : Text → Text
  gcs_prefix table =
      let path = replace b'.' (b'/' ∷ []) table in
      elim cfg.path_prefix [
        | [] ↦ path ++ (b'/' ∷ [])
        | c ∷ p ↦ (c ∷ p) ++ (b'/' ∷ (path ++ (b'/' ∷ [])))
      ]

  -- The change files of a listing, in ascending order.
  unfoldable pub change_files : List Text → List Text
  change_files names = sorted (keep (ends_with (b'.' ∷ cfg.file_format)) names)

  abbrev pub listed : Option Text → Outcome (List Text) → Outcome (List Text)
  listed after (ok names) = ok (files_after after (change_files names))
  listed after (raised message) = raised message

  unfoldable pub list_files : Bucket → Text → Option Text → Outcome (List Text)
  unfolding gcs_prefix change_files
  list_files bucket table after = listed after (bucket.list_blobs (gcs_prefix table))

  -- The events of records that are numbered from `idx` on.
  unfoldable pub yield_records : Text → Text → ℤ → List Row → List (Option ChangeEvent)
  yield_records table file idx [] = []
  yield_records table file idx (r ∷ records) =
      cons_some (make_event py json times cfg.name table r (encode_offset file idx))
        (yield_records table file (next_int idx) records)

  -- A file that cannot be read is passed over.
  abbrev pub yield_read : Text → Text → ℤ → Outcome (List Row) → List (Option ChangeEvent)
  yield_read table file start (ok records) =
      yield_records table file start (slice_from start records)
  yield_read table file start (raised message) = []

  unfoldable pub yield_file : Bucket → Text → Text → List (Option ChangeEvent)
  unfolding yield_records slice_from
  yield_file bucket table file = yield_read table file (pos 0) (bucket.read_file file)

  -- The rest of a file that was read in part. An index of None, or an empty path, is none.
  unfoldable pub resume : Bucket → Text → Option Text → Option ℤ → List (Option ChangeEvent)
  unfolding yield_records slice_from next_int
  resume bucket table none idx = []
  resume bucket table (some file) none = []
  resume bucket table (some []) (some idx) = []
  resume bucket table (some (c ∷ file)) (some idx) =
      yield_read table (c ∷ file) (next_int idx) (bucket.read_file (c ∷ file))

  unfoldable pub yield_files : Bucket → Text → List Text → List (Option ChangeEvent)
  unfolding yield_file
  yield_files bucket table [] = []
  yield_files bucket table (file ∷ files) =
      yield_file bucket table file ++ yield_files bucket table files

  -- One turn of the endless loop; a failed or empty listing gives a heartbeat.
  abbrev pub poll_files :
      Bucket → Text → Option Text → Outcome (List Text) → List (Option ChangeEvent) × Option Text
  poll_files bucket table last (raised message) = (none ∷ [], last)
  poll_files bucket table last (ok []) = (none ∷ [], last)
  poll_files bucket table last (ok (file ∷ files)) =
      (yield_files bucket table (file ∷ files), last_of last (file ∷ files))

  unfoldable pub poll : Bucket → Text → Option Text → List (Option ChangeEvent) × Option Text
  unfolding list_files yield_files
  poll bucket table last = poll_files bucket table last (list_files bucket table last)

  unfoldable pub polls : List Bucket → Text → Option Text → List (Option ChangeEvent)
  polls [] table last = []
  polls (bucket ∷ later) table last =
      let (items, last') = poll bucket table last in items ++ polls later table last'

  -- What the generator yields, for the looks at the bucket in their order: the first is the one of
  -- the start.
  unfoldable pub stream : Bucket → List Bucket → Text → Value → List (Option ChangeEvent)
  unfolding resume polls
  stream start looks table offset =
      let (file, idx) = decode_offset offset in
      resume start table file idx ++ polls looks table file
