-- ===== src/Sources/Debezium/Queue.antt =====
-- The HTTP handler of sources/debezium.py, its queue, and the streams that take from it. All tables
-- of a source have the one queue.
use dremio_cdc.Prelude.{
  ℕ, ◌≤◌, ◌≡◌, sym, ◌∙◌, append-nil, append_assoc, ◌=ℕ◌, Bool, true, false, Option, none, some,
  List, [], ◌∷◌, ◌++◌, Text, text_eq, length, length-append, leb, if◌then◌else◌, arith, Bool-cases,
  inl, inr,
}
use dremio_cdc.Prelude.Chars.{upper, split}
use dremio_cdc.Event.{Value, ChangeEvent, Printing}
use dremio_cdc.Outcome.{Outcome, ok, raised}
use dremio_cdc.Sources.Debezium.{is_ddl_event}
use dremio_cdc.Sources.Debezium.Payload.{Millis, convert}

-- `do_POST`: the status, and the queue after it. A body that is no JSON is `none`.
unfoldable pub post : Option Value → List Value → ℕ × List Value
post none q = (400, q)
post (some payload) q = if leb 10000 (length q) then (503, q) else (200, q ++ (payload ∷ []))

-- `table.split(".")[-1].upper() if table else None`
abbrev last_part : List Text → Text
last_part [] = []
last_part (t ∷ []) = t
last_part (t ∷ u ∷ ts) = last_part (u ∷ ts)

unfoldable pub table_filter : Text → Option Text
table_filter [] = none
table_filter (c ∷ t) = some (upper (last_part (split b'.' (c ∷ t))))

-- What a stream does with what it takes: it yields a heartbeat, or the events of a payload, or the
-- generator ends by what was raised.
pub data Taken : Type 0 where
  heartbeat : Taken
  yields : List ChangeEvent → Taken
  crashes : Text → Taken

module _ (py : Printing) (millis : Millis py) (source_name : Text) where
  -- A payload that cannot be converted is logged.
  abbrev pub converted : Outcome (List ChangeEvent) → Taken
  converted (ok evs) = yields evs
  converted (raised message) = yields []

  abbrev pub unless_ddl : Outcome Bool → Outcome (List ChangeEvent) → Taken
  unless_ddl (raised message) evs = crashes message
  unless_ddl (ok true) evs = yields []
  unless_ddl (ok false) evs = converted evs

  unfoldable pub take_one : Text → List Value → Taken × List Value
  unfolding is_ddl_event convert table_filter
  take_one table [] = (heartbeat, [])
  take_one table (payload ∷ q) = (
    unless_ddl (is_ddl_event payload) (convert py millis source_name payload (table_filter table)),
    q,
  )

-- Any sequence of requests.
unfoldable pub post_all : List (Option Value) → List Value → List ℕ × List Value
unfolding post
post_all [] q = ([], q)
post_all (body ∷ bodies) q =
    let (status, q') = post body q in
    let (statuses, q'') = post_all bodies q' in (status ∷ statuses, q'')

-- The payloads of the requests that were answered with 200.
abbrev pub accepted : List (Option Value) → List ℕ → List Value
accepted [] statuses = []
accepted (body ∷ bodies) [] = []
accepted (none ∷ bodies) (status ∷ statuses) = accepted bodies statuses
accepted (some payload ∷ bodies) (status ∷ statuses) =
    let rest = accepted bodies statuses in if status =ℕ 200 then payload ∷ rest else rest

-- Whatever is posted, the queue holds what it held and behind that, in order, the payloads of
-- exactly those requests that were answered with 200; and a queue within its bound of ten thousand
-- stays within it.
pub post_all-accepted :
    (bodies : List (Option Value)) (q : List Value)
    → ((post_all bodies q).1 ≡ q ++ accepted bodies (post_all bodies q).0)
      × (length q ≤ 10000 → length (post_all bodies q).1 ≤ 10000)
unfolding post_all
post_all-accepted [] q = (sym (append-nil q), λ h. h)
post_all-accepted (none ∷ bodies) q = post_all-accepted bodies q
post_all-accepted (some payload ∷ bodies) q = elim (Bool-cases (leb 10000 (length q))) [
  | inl full ↦ rw full (post_all-accepted bodies q)
  | inr room ↦
      let ih = post_all-accepted bodies (q ++ (payload ∷ [])) in
      rw room (
        ih.0 ∙ append_assoc q (payload ∷ []) _,
        λ h. ih.1 (ground (arith, length-append q (payload ∷ []))),
      )
]
