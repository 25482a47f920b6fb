-- ===== src/Sources/Datastream/Resume/LogPlace.antt =====
-- A stream of sources/datastream.py that starts again at a place in the log.
use dremio_cdc.Prelude.{
  ℕ, ◌≡◌, refl, ap, ◌∙◌, Option, none, some, List, [], ◌∷◌, append-nil, Text, keep,
}
use dremio_cdc.Prelude.Chars.{codes}
use dremio_cdc.Event.{Value, ChangeEvent, Row, Printing, truthy}
use dremio_cdc.Outcome.{ok}
use dremio_cdc.Offsets.{Json}
use dremio_cdc.Sources.Record.{get, or_value}
use dremio_cdc.Sources.Datastream.{Times, make_event, sequence}
use dremio_cdc.Sources.Datastream.Names.{lt_text}
use dremio_cdc.Sources.Datastream.Offset.{rsplit_hash, decode_offset}
use dremio_cdc.Sources.Datastream.Stream.{
  Bucket, Config, change_files, list_files, gcs_prefix, yield_files, poll_files, poll, polls,
  resume, stream,
}
-- What a stream yields, without the heartbeats.
use dremio_cdc.Sources.Datastream.Resume.{build-offset, changes, changes-append, files}

module _ (py : Printing) (json : Json) (times : Times) (cfg : Config) (table : Text) where
  sequence-text :
      (r : Row) (offset : Text) (c : ℕ) (s : Text)
      → get (codes "_metadata_change_sequence_number") r ≡ Value.text (c ∷ s)
      → sequence py json times r offset ≡ Value.text (c ∷ s)
  unfolding sequence truthy
  sequence-text r offset c s h =
      ap (λ v. or_value v (or_value (get (codes "_metadata_log_position") r) (Value.text offset))) h

  poll_files-listed :
      (g : Bucket) (last : Option Text) (l : List Text)
      → changes (poll_files py json times cfg g table last (ok l)).0
        ≡ changes (files py json times cfg table g l)
  unfolding yield_files
  poll_files-listed g last [] = refl
  poll_files-listed g last (x ∷ l) = refl

  -- A record that names its place in the log, in a text without '#': its event carries this text as
  -- its position, and a stream that starts from there compares it with the names of the files. What
  -- it yields at the next look are all the events of the files whose names are greater, wherever
  -- the event itself stood.
  pub sequence_compares_names :
      (g : Bucket) (names : List Text) (r : Row) (offset : Text) (ev : ChangeEvent) (c : ℕ)
      (s : Text)
      → g.list_blobs (gcs_prefix py json times cfg table) ≡ ok names
      → get (codes "_metadata_change_sequence_number") r ≡ Value.text (c ∷ s)
      → rsplit_hash (c ∷ s) ≡ none
      → make_event py json times cfg.name table r offset ≡ some ev
      → changes (stream py json times cfg g (g ∷ []) table ev.offset)
        ≡ changes (
            yield_files py json times cfg g table
              (keep (lt_text (c ∷ s)) (change_files py json times cfg names)))
  unfolding stream resume polls poll list_files decode_offset make_event
  sequence_compares_names g names r offset ev c s listing place plain e =
      let position : ev.offset ≡ Value.text (c ∷ s) =
        build-offset py json times cfg table r offset _ _ ev e ∙ sequence-text r offset c s place in
      let kept = keep (lt_text (c ∷ s)) (change_files py json times cfg names) in
      rw (position, plain, listing)
        (changes-append (poll_files py json times cfg g table (some (c ∷ s)) (ok kept)).0 []
          ∙ append-nil _
          ∙ poll_files-listed g (some (c ∷ s)) kept)
