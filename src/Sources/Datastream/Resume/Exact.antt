-- ===== src/Sources/Datastream/Resume/Exact.antt =====
-- A stream of sources/datastream.py that starts again at the position of an event goes on behind it.
use dremio_cdc.Prelude.{
  ℕ, suc, ◌≡◌, sym, ap, subst, ◌∙◌, none, some, List, [], ◌∷◌, ◌++◌, Text, length, keep,
}
use dremio_cdc.Prelude.Int.{pos}
use dremio_cdc.Event.{Value, ChangeEvent, Row, Printing}
use dremio_cdc.Outcome.{ok}
use dremio_cdc.Offsets.{Json}
use dremio_cdc.Sources.Datastream.{Times, make_event}
use dremio_cdc.Sources.Datastream.Names.{lt_text, Unique, Ascending, keep-after}
use dremio_cdc.Sources.Datastream.Offset.{encode_offset}
use dremio_cdc.Sources.Datastream.Stream.{
  Bucket, Config, change_files, list_files, gcs_prefix, yield_records, yield_read, yield_file,
  yield_files, last_of, poll_files, poll, polls, stream,
}
-- What a stream yields, without the heartbeats.
use dremio_cdc.Sources.Datastream.Resume.{
  NoSequence, change_files-Ascending, changes, changes-append, files, files-append,
  make_event-offset, poll_files-some, poll_files-changes, regroup, stream_at, stream_null,
  yield_file-split, yield_read-rest, yields,
}

module _ (py : Printing) (json : Json) (times : Times) (cfg : Config) (table : Text) where
  -- A listing that holds the file `f`, and what each of the two streams makes of it.
  module _ (g : Bucket) (names before after : List Text) (c : ℕ) (p : Text)
      (listing : g.list_blobs (gcs_prefix py json times cfg table) ≡ ok names)
      (unique : Unique names)
      (split : change_files py json times cfg names ≡ before ++ ((c ∷ p) ∷ after)) where
    list_files_all : list_files py json times cfg g table none ≡ ok (before ++ ((c ∷ p) ∷ after))
    unfolding list_files
    list_files_all = rw listing (ap ok split)

    list_files_behind : list_files py json times cfg g table (some (c ∷ p)) ≡ ok after
    unfolding list_files
    list_files_behind = rw listing (
        ap (λ l. ok (keep (lt_text (c ∷ p)) l)) split
        ∙ ap ok (
            keep-after (c ∷ p) before after (
              subst Ascending split (change_files-Ascending py json times cfg table names unique))))

    polls_all :
        (later : List Bucket)
        → changes (polls py json times cfg (g ∷ later) table none)
          ≡ (changes (files py json times cfg table g before)
              ++ (changes (yield_file py json times cfg g table (c ∷ p))
                  ++ changes (files py json times cfg table g after)))
            ++ changes (polls py json times cfg later table (last_of (some (c ∷ p)) after))
    unfolding polls poll yield_files
    polls_all later =
        let end = last_of (some (c ∷ p)) after in
        let file = yield_file py json times cfg g table (c ∷ p) in
        let rest = polls py json times cfg later table end in
        ap (λ r. changes (r.0 ++ polls py json times cfg later table r.1))
          (ap (poll_files py json times cfg g table none) list_files_all
            ∙ poll_files-some py json times cfg table g none before after (c ∷ p))
        ∙ (changes-append (files py json times cfg table g (before ++ ((c ∷ p) ∷ after))) rest
            ∙ ap (λ l. l ++ changes rest)
                (ap changes (files-append py json times cfg table g before ((c ∷ p) ∷ after))
                  ∙ (changes-append (files py json times cfg table g before)
                        (file ++ files py json times cfg table g after)
                      ∙ ap (λ l. changes (files py json times cfg table g before) ++ l)
                          (changes-append file (files py json times cfg table g after)))))

    polls_behind :
        (later : List Bucket)
        → changes (polls py json times cfg (g ∷ later) table (some (c ∷ p)))
          ≡ changes (files py json times cfg table g after)
            ++ changes (polls py json times cfg later table (last_of (some (c ∷ p)) after))
    unfolding polls poll
    polls_behind later =
        let looked = poll_files py json times cfg g table (some (c ∷ p)) (ok after) in
        let same = poll_files-changes py json times cfg table g (c ∷ p) after in
        ap (λ r. changes (r.0 ++ polls py json times cfg later table r.1))
          (ap (poll_files py json times cfg g table (some (c ∷ p))) list_files_behind)
        ∙ (changes-append looked.0 (polls py json times cfg later table looked.1)
            ∙ (ap (λ l. l ++ changes (polls py json times cfg later table looked.1)) same.0
                ∙ ap
                    (λ l.
                      changes (files py json times cfg table g after)
                      ++ changes (polls py json times cfg later table l))
                    same.1))

    -- Whatever the bucket shows at later looks, a stream that starts again at the position of an
    -- event, where the event's record has no place in the log of its own, yields exactly what the
    -- stream from the beginning yields behind this event: none is left out, none comes twice.
    pub stream-resumed :
        (later : List Bucket) (done rest : List Row) (r : Row) (ev : ChangeEvent)
        → g.read_file (c ∷ p) ≡ ok (done ++ (r ∷ rest))
        → make_event py json times cfg.name table r (encode_offset (c ∷ p) (pos (length done)))
          ≡ some ev
        → NoSequence py json times cfg table r
        → changes (stream py json times cfg g (g ∷ later) table Value.null)
          ≡ (changes (files py json times cfg table g before)
              ++ changes (yield_records py json times cfg table (c ∷ p) (pos 0) (done ++ (r ∷ []))))
            ++ changes (stream py json times cfg g (g ∷ later) table ev.offset)
    unfolding yields
    stream-resumed later done rest r ev read e n =
        let file = c ∷ p in
        let first = yields py json times cfg table file 0 (done ++ (r ∷ [])) in
        let second = yields py json times cfg table file (suc (length done)) rest in
        let B = changes (files py json times cfg table g before) in
        let A = changes (files py json times cfg table g after) in
        let P = changes (polls py json times cfg later table (last_of (some file) after)) in
        let from_start : changes (stream py json times cfg g (g ∷ later) table Value.null)
            ≡ (B ++ ((changes first ++ changes second) ++ A)) ++ P =
          ap changes (stream_null py json times cfg table g (g ∷ later))
          ∙ (polls_all later
              ∙ ap (λ l. (B ++ (l ++ A)) ++ P)
                  (ap changes (yield_file-split py json times cfg table g file done rest r read)
                    ∙ changes-append first second)) in
        let resumed : changes (stream py json times cfg g (g ∷ later) table ev.offset)
            ≡ changes second ++ (A ++ P) =
          ap (λ o. changes (stream py json times cfg g (g ∷ later) table o))
            (make_event-offset py json times cfg table r (encode_offset file (pos (length done))) ev
              n e)
          ∙ (ap changes (stream_at py json times cfg table g (g ∷ later) c p (length done))
              ∙ (changes-append
                    (yield_read py json times cfg table file (pos (suc (length done)))
                      (g.read_file file))
                    (polls py json times cfg (g ∷ later) table (some file))
                  ∙ (ap
                        (λ l.
                          changes l
                          ++ changes (polls py json times cfg (g ∷ later) table (some file)))
                        (yield_read-rest py json times cfg table g file done rest r read)
                      ∙ ap (λ l. changes second ++ l) (polls_behind later)))) in
        from_start
        ∙ (regroup B (changes first) (changes second) A P
            ∙ ap (λ l. (B ++ changes first) ++ l) (sym resumed))
