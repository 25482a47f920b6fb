-- ===== src/Sources/Datastream/Resume.antt =====
-- What a stream of sources/datastream.py yields, look by look and file by file.
pub mod Exact
pub mod LogPlace
use dremio_cdc.Prelude.{
  ℕ, zero, suc, ◌+◌, ◌≡◌, ◌≢◌, refl, sym, ap, subst, ◌∙◌, Bool, true, false, Option, none, some,
  List, [], ◌∷◌, ◌++◌, append_assoc, append-nil, All, Text, length, drop, keep, arith,
  if◌then◌else◌, Bool-cases, inl, inr,
}
use dremio_cdc.Prelude.Chars.{codes}
use dremio_cdc.Prelude.Int.{ℤ, pos}
use dremio_cdc.Event.{Value, ChangeEvent, Row, Printing, truthy}
use dremio_cdc.Outcome.{Outcome, ok, raised}
use dremio_cdc.Offsets.{Json}
use dremio_cdc.Sources.Record.{get, or_value}
use dremio_cdc.Sources.Datastream.{Times, build, make_event, sequence}
use dremio_cdc.Sources.Datastream.Names.{lt_text, Unique, Ascending, sorted-Ascending, keep-after}
use dremio_cdc.Sources.Datastream.Offset.{
  rsplit_hash, encode_offset, decode_offset, decode_offset-encode_offset,
}
use dremio_cdc.Sources.Datastream.Stream.{
  Bucket, Config, change_files, list_files, gcs_prefix, cons_some, yield_records, yield_read,
  yield_file, yield_files, last_of, poll_files, poll, polls, resume, stream, slice_from, next_int,
}

-- What a stream yields, without the heartbeats.
abbrev pub changes : List (Option ChangeEvent) → List ChangeEvent
changes [] = []
changes (none ∷ items) = changes items
changes (some ev ∷ items) = ev ∷ changes items

changes-append : (xs ys : List (Option ChangeEvent)) → changes (xs ++ ys) ≡ changes xs ++ changes ys
changes-append [] ys = refl
changes-append (none ∷ xs) ys = changes-append xs ys
changes-append (some ev ∷ xs) ys = ap (λ l. ev ∷ l) (changes-append xs ys)

cons_some-append :
    (o : Option ChangeEvent) (xs ys : List (Option ChangeEvent))
    → cons_some o (xs ++ ys) ≡ cons_some o xs ++ ys
cons_some-append none xs ys = refl
cons_some-append (some ev) xs ys = refl

last_of-append :
    (last : Option Text) (before after : List Text) (f : Text)
    → last_of last (before ++ (f ∷ after)) ≡ last_of (some f) after
last_of-append last [] after f = refl
last_of-append last (b ∷ before) after f = last_of-append (some b) before after f

drop-behind :
    (done : List Row) (r : Row) (rest : List Row)
    → drop (suc (length done)) (done ++ (r ∷ rest)) ≡ rest
drop-behind [] r rest = refl
drop-behind (d ∷ done) r rest = drop-behind done r rest

Unique-keep : (p : Text → Bool) (names : List Text) → Unique names → Unique (keep p names)
Unique-keep p [] u = tt
Unique-keep p (x ∷ xs) u = elim (Bool-cases (p x)) [
  | inl there ↦ rw there (All-keep p (λ y. x ≢ y) xs u.0, Unique-keep p xs u.1)
  | inr gone ↦ rw gone (Unique-keep p xs u.1)
]
  where
    All-keep : (p : Text → Bool) (P : Text → Type 0) (xs : List Text) → All P xs → All P (keep p xs)
    All-keep p P [] h = tt
    All-keep p P (x ∷ xs) h = elim (Bool-cases (p x)) [
      | inl there ↦ rw there (h.0, All-keep p P xs h.1)
      | inr gone ↦ rw gone (All-keep p P xs h.1)
    ]

regroup : (b x y a p : List ChangeEvent) → (b ++ ((x ++ y) ++ a)) ++ p ≡ (b ++ x) ++ (y ++ (a ++ p))
regroup b x y a p = simp append_assoc

module _ (py : Printing) (json : Json) (times : Times) (cfg : Config) (table : Text) where
  yields : Text → ℕ → List Row → List (Option ChangeEvent)
  yields file n records = yield_records py json times cfg table file (pos n) records

  abbrev files : Bucket → List Text → List (Option ChangeEvent)
  files = λ g l. yield_files py json times cfg g table l

  yields-append :
      (file : Text) (n : ℕ) (xs ys : List Row)
      → yields file n (xs ++ ys) ≡ yields file n xs ++ yields file (n + length xs) ys
  unfolding yields yield_records next_int
  yields-append file n [] ys =
      ap (λ (m : ℕ). yield_records py json times cfg table file (pos m) ys) (omega arith)
  yields-append file n (x ∷ xs) ys =
      ap (cons_some (make_event py json times cfg.name table x (encode_offset file (pos n))))
        (yields-append file (suc n) xs ys)
      ∙ (cons_some-append _ (yields file (suc n) xs) _
          ∙ ap (λ (m : ℕ). yields file n (x ∷ xs) ++ yields file m ys) (omega arith))

  files-append : (g : Bucket) (xs ys : List Text) → files g (xs ++ ys) ≡ files g xs ++ files g ys
  unfolding yield_files
  files-append g [] ys = refl
  files-append g (x ∷ xs) ys =
      ap (λ l. yield_file py json times cfg g table x ++ l) (files-append g xs ys)
      ∙ sym (append_assoc (yield_file py json times cfg g table x) (files g xs) (files g ys))

  poll_files-some :
      (g : Bucket) (last : Option Text) (before after : List Text) (f : Text)
      → poll_files py json times cfg g table last (ok (before ++ (f ∷ after)))
        ≡ (files g (before ++ (f ∷ after)), last_of (some f) after)
  poll_files-some g last [] after f = refl
  poll_files-some g last (b ∷ before) after f =
      ap (λ l. (files g (b ∷ before ++ (f ∷ after)), l)) (last_of-append (some b) before after f)

  poll_files-changes :
      (g : Bucket) (f : Text) (after : List Text)
      → (changes (poll_files py json times cfg g table (some f) (ok after)).0
          ≡ changes (files g after))
        × ((poll_files py json times cfg g table (some f) (ok after)).1 ≡ last_of (some f) after)
  unfolding yield_files
  poll_files-changes g f [] = (refl, refl)
  poll_files-changes g f (a ∷ after) = (refl, refl)

  -- The record has no place in the log of its own.
  abbrev pub NoSequence : Row → Type 0
  NoSequence r =
      (truthy (get (codes "_metadata_change_sequence_number") r) ≡ false)
      × (truthy (get (codes "_metadata_log_position") r) ≡ false)

  sequence-NoSequence :
      (r : Row) (offset : Text) → NoSequence r → sequence py json times r offset ≡ Value.text offset
  unfolding sequence
  sequence-NoSequence r offset h = rw (h.0, or_value) (rw (h.1, or_value))

  build-offset :
      (r : Row) (offset : Text) (o : Option Row) (ts : Option ℕ) (ev : ChangeEvent)
      → build py json times cfg.name table r offset o ts ≡ some ev
      → ev.offset ≡ sequence py json times r offset
  build-offset r offset none ts ev e = cc
  build-offset r offset (some row) none ev e = cc
  build-offset r offset (some row) (some t) ev e = ap offset_of (sym e)
    where
      offset_of : Option ChangeEvent → Value
      offset_of none = Value.null
      offset_of (some ev) = ev.offset

  make_event-offset :
      (r : Row) (offset : Text) (ev : ChangeEvent)
      → NoSequence r
      → make_event py json times cfg.name table r offset ≡ some ev
      → ev.offset ≡ Value.text offset
  unfolding make_event
  make_event-offset r offset ev n e =
      build-offset r offset _ _ ev e ∙ sequence-NoSequence r offset n

  change_files-Ascending :
      (names : List Text) → Unique names → Ascending (change_files py json times cfg names)
  unfolding change_files
  change_files-Ascending names u = sorted-Ascending _ (Unique-keep _ names u)

  stream_null :
      (g : Bucket) (looks : List Bucket)
      → stream py json times cfg g looks table Value.null ≡ polls py json times cfg looks table none
  unfolding stream resume decode_offset
  stream_null g looks = refl

  stream_at :
      (g : Bucket) (looks : List Bucket) (c : ℕ) (p : Text) (n : ℕ)
      → stream py json times cfg g looks table (Value.text (encode_offset (c ∷ p) (pos n)))
        ≡ yield_read py json times cfg table (c ∷ p) (pos (suc n)) (g.read_file (c ∷ p))
          ++ polls py json times cfg looks table (some (c ∷ p))
  unfolding stream resume
  stream_at g looks c p n =
      ap (λ d. resume py json times cfg g table d.0 d.1 ++ polls py json times cfg looks table d.0)
        (decode_offset-encode_offset (c ∷ p) n)

  length-snoc : (xs : List Row) (x : Row) → length (xs ++ (x ∷ [])) ≡ suc (length xs)
  length-snoc [] x = refl
  length-snoc (y ∷ xs) x = ap suc (length-snoc xs x)

  yield_file-split :
      (g : Bucket) (file : Text) (done rest : List Row) (r : Row)
      → g.read_file file ≡ ok (done ++ (r ∷ rest))
      → yield_file py json times cfg g table file
        ≡ yields file 0 (done ++ (r ∷ [])) ++ yields file (suc (length done)) rest
  unfolding yield_file slice_from yields
  yield_file-split g file done rest r read =
      ap (yield_read py json times cfg table file (pos 0)) read
      ∙ (ap (yields file 0) (sym (append_assoc done (r ∷ []) rest))
          ∙ (yields-append file 0 (done ++ (r ∷ [])) rest
              ∙ ap (λ (m : ℕ). yields file 0 (done ++ (r ∷ [])) ++ yields file m rest)
                  (omega (arith, length-snoc done r))))

  yield_read-rest :
      (g : Bucket) (file : Text) (done rest : List Row) (r : Row)
      → g.read_file file ≡ ok (done ++ (r ∷ rest))
      → yield_read py json times cfg table file (pos (suc (length done))) (g.read_file file)
        ≡ yields file (suc (length done)) rest
  unfolding slice_from yields
  yield_read-rest g file done rest r read =
      ap (yield_read py json times cfg table file (pos (suc (length done)))) read
      ∙ ap (yields file (suc (length done))) (drop-behind done r rest)
