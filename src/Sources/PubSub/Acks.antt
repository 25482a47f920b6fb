-- ===== src/Sources/PubSub/Acks.antt =====
-- The acknowledgements of sources/pubsub.py. `requests` logs the calls of `acknowledge`, each with
-- its ids and whether it returned.
use dremio_cdc.Prelude.{
  ℕ, zero, suc, ◌≤◌, ◌≡◌, refl, sym, ap, subst, ◌∙◌, Bool, true, false, Option, none, some, List,
  [], ◌∷◌, ◌++◌, All, All-append, append_assoc, append-nil, Text, text_eq, length, take, drop,
  length-drop, length-take, take-append-drop, arith,
}
use dremio_cdc.Prelude.Dict.{Dict, lookup, insert, lookup-insert_self}
use dremio_cdc.Event.{Value}
use dremio_cdc.Outcome.{Outcome, ok}

-- `_pending_acks`, and the requests so far.
pub record PubSub : Type 0 where
  pub pending : Dict Text (List Text)
  pub requests : List (List Text × Bool)

-- Whether the server takes a request, by the number of those before it.
abbrev pub Server : Type 0
Server = ℕ → Bool

unfoldable pub acknowledge : Server → List Text → PubSub → Bool × PubSub
acknowledge server ids s =
    let taken = server (length s.requests) in
    (taken, record s { requests = s.requests ++ ((ids, taken) ∷ []) })

abbrev pub or_empty : Option (List Text) → List Text
or_empty none = []
or_empty (some ids) = ids

abbrev pub pending_of : Text → PubSub → List Text
pending_of table s = or_empty (lookup table s.pending)

-- `self._pending_acks[table].append(ack_id)`
unfoldable pub add_pending : Text → Text → PubSub → PubSub
add_pending table id s = record s {
  pending = insert table (pending_of table s ++ (id ∷ [])) s.pending;
}

-- Requests of a thousand ids at most; one that fails is logged. Each takes an id at least, so the
-- number of ids is fuel enough.
unfoldable pub acknowledge_chunks : Server → ℕ → List Text → PubSub → PubSub
unfolding acknowledge
acknowledge_chunks server zero ids s = s
acknowledge_chunks server (suc f) [] s = s
acknowledge_chunks server (suc f) (id ∷ ids) s =
    acknowledge_chunks server f (drop 1000 (id ∷ ids))
      (acknowledge server (take 1000 (id ∷ ids)) s).1

unfoldable pub on_batch_committed : Server → Text → Value → PubSub → Outcome (Unit {0}) × PubSub
unfolding acknowledge_chunks
on_batch_committed server table offset s =
    let ids = pending_of table s in
    let cleared = record s { pending = insert table [] s.pending } in
    (ok tt, acknowledge_chunks server (length ids) ids cleared)

-- The ids that the server has taken as acknowledged.
abbrev pub acked_ids : List (List Text × Bool) → List Text
acked_ids [] = []
acked_ids ((ids, true) ∷ requests) = ids ++ acked_ids requests
acked_ids ((ids, false) ∷ requests) = acked_ids requests

abbrev pub requested : List (List Text × Bool) → List Text
requested [] = []
requested ((ids, taken) ∷ requests) = ids ++ requested requests

requested-append :
    (xs ys : List (List Text × Bool)) → requested (xs ++ ys) ≡ requested xs ++ requested ys
requested-append [] ys = refl
requested-append ((ids, taken) ∷ xs) ys =
    ap (λ l. ids ++ l) (requested-append xs ys)
    ∙ sym (append_assoc ids (requested xs) (requested ys))

abbrev pub Small : List Text × Bool → Type 0
Small r = length r.0 ≤ 1000

acknowledge_chunks-requested :
    (server : Server) (f : ℕ) (ids : List Text) (s : PubSub)
    → length ids ≤ f
    → (requested (acknowledge_chunks server f ids s).requests ≡ requested s.requests ++ ids)
      × (All Small s.requests → All Small (acknowledge_chunks server f ids s).requests)
unfolding acknowledge_chunks acknowledge
acknowledge_chunks-requested server zero [] s h = (sym (append-nil (requested s.requests)), λ a. a)
acknowledge_chunks-requested server (suc f) [] s h =
    (sym (append-nil (requested s.requests)), λ a. a)
acknowledge_chunks-requested server zero (id ∷ ids) s h = absurd (omega arith)
acknowledge_chunks-requested server (suc f) (id ∷ ids) s h =
    let chunk = id ∷ take 999 ids in
    let request : List Text × Bool = (chunk, server (length s.requests)) in
    let (sent, small) =
      acknowledge_chunks-requested server f (drop 999 ids)
        (record s { requests = s.requests ++ (request ∷ []) })
        (omega (arith, length-drop 999 ids)) in
    (
      sent
          ∙ (ap (λ l. l ++ drop 999 ids)
                (requested-append s.requests (request ∷ [])
                  ∙ ap (λ l. requested s.requests ++ l) (append-nil chunk))
              ∙ (append_assoc (requested s.requests) chunk (drop 999 ids)
                  ∙ ap (λ l. requested s.requests ++ (id ∷ l)) (take-append-drop 999 ids))),
      λ a.
          small
            (All-append Small s.requests (request ∷ []) a (omega (arith, length-take 999 ids), tt)),
    )

acknowledge_chunks-pending :
    (server : Server) (f : ℕ) (ids : List Text) (s : PubSub)
    → (acknowledge_chunks server f ids s).pending ≡ s.pending
unfolding acknowledge_chunks acknowledge
acknowledge_chunks-pending server zero ids s = refl
acknowledge_chunks-pending server (suc f) [] s = refl
acknowledge_chunks-pending server (suc f) (id ∷ ids) s =
    acknowledge_chunks-pending server f (drop 999 ids) _

-- When a batch is committed, every id that was pending is sent to the server once, in order, behind
-- those sent before, in requests of at most a thousand ids, whether or not the requests fail; and
-- none is pending any more.
pub on_batch_committed-requested :
    (server : Server) (table : Text) (offset : Value) (s : PubSub)
    → let s' = (on_batch_committed server table offset s).1 in
      (requested s'.requests ≡ requested s.requests ++ pending_of table s)
      × (All Small s.requests → All Small s'.requests)
      × (pending_of table s' ≡ [])
unfolding on_batch_committed
on_batch_committed-requested server table offset s =
    let cleared = record s { pending = insert table [] s.pending } in
    let ids = pending_of table s in
    let r = acknowledge_chunks-requested server (length ids) ids cleared (omega arith) in
    (
      r.0,
      r.1,
      ap (λ d. or_empty (lookup table d))
            (acknowledge_chunks-pending server (length ids) ids cleared)
          ∙ ap or_empty (lookup-insert_self table [] s.pending),
    )

acked_ids-append :
    (xs ys : List (List Text × Bool)) → acked_ids (xs ++ ys) ≡ acked_ids xs ++ acked_ids ys
acked_ids-append [] ys = refl
acked_ids-append ((ids, true) ∷ xs) ys =
    ap (λ l. ids ++ l) (acked_ids-append xs ys)
    ∙ sym (append_assoc ids (acked_ids xs) (acked_ids ys))
acked_ids-append ((ids, false) ∷ xs) ys = acked_ids-append xs ys

module _ (K : Text → Type 0) (server : Server) where
  acked-snoc :
      (requests : List (List Text × Bool)) (ids : List Text) (taken : Bool)
      → All K ids
      → All K (acked_ids requests)
      → All K (acked_ids (requests ++ ((ids, taken) ∷ [])))
  acked-snoc requests ids taken h a =
      subst (All K) (sym (acked_ids-append requests ((ids, taken) ∷ [])))
        (All-append K (acked_ids requests) (acked_ids ((ids, taken) ∷ [])) a (one taken))
    where
      one : (taken : Bool) → All K (acked_ids ((ids, taken) ∷ []))
      one true = All-append K ids [] h tt
      one false = tt

  -- A request adds none but its ids.
  pub acknowledge-acked :
      (ids : List Text) (s : PubSub)
      → All K ids
      → All K (acked_ids s.requests)
      → All K (acked_ids (acknowledge server ids s).1.requests)
  unfolding acknowledge
  acknowledge-acked ids s h a = acked-snoc s.requests ids (server (length s.requests)) h a

  All-take : (n : ℕ) (ids : List Text) → All K ids → All K (take n ids)
  All-take zero ids h = tt
  All-take (suc n) [] h = tt
  All-take (suc n) (id ∷ ids) h = (h.0, All-take n ids h.1)

  All-drop : (n : ℕ) (ids : List Text) → All K ids → All K (drop n ids)
  All-drop zero ids h = h
  All-drop (suc n) [] h = tt
  All-drop (suc n) (id ∷ ids) h = All-drop n ids h.1

  acknowledge_chunks-acked :
      (f : ℕ) (ids : List Text) (s : PubSub)
      → All K ids
      → All K (acked_ids s.requests)
      → All K (acked_ids (acknowledge_chunks server f ids s).requests)
  unfolding acknowledge_chunks acknowledge
  acknowledge_chunks-acked zero ids s h a = a
  acknowledge_chunks-acked (suc f) [] s h a = a
  acknowledge_chunks-acked (suc f) (id ∷ ids) s h a =
      acknowledge_chunks-acked f (drop 999 ids) _ (All-drop 999 ids h.1)
        (acknowledge-acked (id ∷ take 999 ids) s (h.0, All-take 999 ids h.1) a)

  -- What holds of the ids that are pending or acknowledged.
  abbrev pub Held : Text → PubSub → Type 0
  Held table s = All K (acked_ids s.requests) × All K (pending_of table s)

  on_batch_committed-acked :
      (table : Text) (offset : Value) (s : PubSub)
      → Held table s
      → All K (acked_ids (on_batch_committed server table offset s).1.requests)
  unfolding on_batch_committed
  on_batch_committed-acked table offset s h =
      acknowledge_chunks-acked (length (pending_of table s)) (pending_of table s)
        (record s { pending = insert table [] s.pending }) h.1 h.0

  pub on_batch_committed-Held :
      (table : Text) (offset : Value) (s : PubSub)
      → Held table s
      → Held table (on_batch_committed server table offset s).1
  on_batch_committed-Held table offset s h = (
    on_batch_committed-acked table offset s h,
    subst (All K) (sym (on_batch_committed-requested server table offset s).2) tt,
  )
