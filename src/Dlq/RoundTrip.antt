-- ===== src/Dlq/RoundTrip.antt =====
-- What a parked batch is when it comes back from the queue of core/dlq.py.
use dremio_cdc.Prelude.{
  ℕ, suc, ◌≤◌, ◌≡◌, refl, ap, Option, none, some, List, [], ◌∷◌, ◌++◌, map, arith, Text,
  Text-discrete,
}
use dremio_cdc.Event.{
  Value, Items, Fields, nil, cons, end, field, Row, Operation, ChangeEvent, Printing, str,
}
use dremio_cdc.Outcome.{ok}
use dremio_cdc.Dlq.Serial.{
  coerce, coerce_items, coerce_fields, coerce_row, coerce_side, op_value, parse_operation,
  offset_text, iso, read_timestamp, serialize_event, deserialize_event, deserialize_all,
}
use dremio_cdc.Dlq.{Entry, Dlq, new_entry, push, find_id, get_events}
use dremio_cdc.Dlq.Laws.{Ascending, IsValid}

parse_operation-op_value : (op : Operation) → parse_operation (op_value op) ≡ ok op
unfolding parse_operation op_value Text-discrete
parse_operation-op_value Operation.insert = refl
parse_operation-op_value Operation.update = refl
parse_operation-op_value Operation.delete = refl
parse_operation-op_value Operation.snapshot = refl

Ascending-le : (lo next : ℕ) (es : List Entry) → Ascending lo next es → lo ≤ next
Ascending-le lo next [] a = a
Ascending-le lo next (e ∷ es) a = omega (arith, Ascending-le (suc e.id) next es a.1, a.0)

module _ (py : Printing) where
  mutual
    unfolding coerce

    coerce_idem : (v : Value) → coerce py (coerce py v) ≡ coerce py v
    coerce_idem Value.null = refl
    coerce_idem (Value.bool b) = refl
    coerce_idem (Value.int n) = refl
    coerce_idem (Value.float t) = refl
    coerce_idem (Value.decimal t) = refl
    coerce_idem (Value.text t) = refl
    coerce_idem (Value.bytes b) = refl
    coerce_idem (Value.datetime t) = refl
    coerce_idem (Value.date d) = refl
    coerce_idem (Value.list xs) = ap Value.list (coerce_items_idem xs)
    coerce_idem (Value.dict fs) = ap Value.dict (coerce_fields_idem fs)

    coerce_items_idem : (xs : Items) → coerce_items py (coerce_items py xs) ≡ coerce_items py xs
    coerce_items_idem nil = refl
    coerce_items_idem (cons x xs) = cc (coerce_idem x, coerce_items_idem xs)

    coerce_fields_idem :
        (fs : Fields) → coerce_fields py (coerce_fields py fs) ≡ coerce_fields py fs
    coerce_fields_idem end = refl
    coerce_fields_idem (field k v fs) = cc (coerce_idem v, coerce_fields_idem fs)

  coerce_row_idem : (r : Row) → coerce_row py (coerce_row py r) ≡ coerce_row py r
  unfolding coerce_row
  coerce_row_idem [] = refl
  coerce_row_idem ((k, v) ∷ r) = cc (coerce_idem v, coerce_row_idem r)

  coerce_side_idem : (r : Option Row) → coerce_side py (coerce_side py r) ≡ coerce_side py r
  coerce_side_idem none = refl
  coerce_side_idem (some r) = ap some (coerce_row_idem r)

  abbrev pub or_now : ℕ → Option ℕ → ℕ
  or_now now none = now
  or_now now (some t) = t

  abbrev pub as_text : Value → Value
  as_text v = elim (offset_text py v) [ none ↦ Value.null | some t ↦ Value.text t ]

  -- The event that a replay writes: rows in JSON's types, an offset as text, and a time stamp.
  abbrev pub restored : ℕ → ChangeEvent → ChangeEvent
  restored now ev = record ev {
    before = coerce_side py ev.before;
    after = coerce_side py ev.after;
    timestamp = some (or_now now ev.timestamp);
    offset = as_text ev.offset;
  }

  read_timestamp-iso : (now : ℕ) (t : Option ℕ) → read_timestamp py now (iso py t) ≡ or_now now t
  read_timestamp-iso now none = refl
  read_timestamp-iso now (some t) =
      ground (arith, py.isoformat-ne-empty t, py.fromisoformat-isoformat t)

  -- An event that was serialized is read back with its operation, names, columns and transaction,
  -- its instant (or the present one, if it had none), its rows coerced and its offset as text.
  pub deserialize-serialize :
      (now : ℕ) (ev : ChangeEvent)
      → deserialize_event py now (serialize_event py ev) ≡ ok (restored now ev)
  unfolding deserialize_event serialize_event
  deserialize-serialize now ev =
      rw (parse_operation-op_value ev.op, deserialize_event)
        (ap (λ t. ok (record (restored now ev) { timestamp = some t }))
          (read_timestamp-iso now ev.timestamp))

  offset_text-as_text : (v : Value) → offset_text py (as_text v) ≡ offset_text py v
  unfolding str
  offset_text-as_text Value.null = refl
  offset_text-as_text _ = refl

  -- A batch that fails again is parked as it was: serializing what came back changes nothing more.
  pub serialize-restored :
      (now t : ℕ) (ev : ChangeEvent)
      → ev.timestamp ≡ some t
      → serialize_event py (restored now ev) ≡ serialize_event py ev
  unfolding serialize_event
  serialize-restored now t ev h =
      cc (h, coerce_side_idem ev.before, coerce_side_idem ev.after, offset_text-as_text ev.offset)

  deserialize_all-serialize :
      (now : ℕ) (batch : List ChangeEvent)
      → deserialize_all py now (map (serialize_event py) batch) ≡ ok (map (restored now) batch)
  unfolding deserialize_all
  deserialize_all-serialize now [] = refl
  deserialize_all-serialize now (ev ∷ batch) =
      rw (deserialize-serialize now ev, deserialize_all) (rw (deserialize_all-serialize now batch))

  find_id-append :
      (lo next : ℕ) (es : List Entry) (e : Entry)
      → Ascending lo next es
      → e.id ≡ next
      → find_id next (es ++ (e ∷ [])) ≡ some e
  find_id-append lo next [] e a h = ground arith
  find_id-append lo next (x ∷ es) e a h =
      ground (arith, find_id-append (suc x.id) next es e a.1 h, Ascending-le (suc x.id) next es a.1)

  -- The id that a push returns gives the batch back, each event as `restored` says.
  pub get_events-push :
      (now : ℕ) (source table error : Text) (batch : List ChangeEvent) (q : Dlq)
      → IsValid q
      → let (i, q') = push py source table batch error q in
        get_events py now i q' ≡ ok (map (restored now) batch)
  unfolding push get_events
  get_events-push now source table error batch q h =
      let e = new_entry q source table (map (serialize_event py) batch) error in
      rw (find_id-append 0 q.next_id q.entries e h.ids refl, get_events)
        (deserialize_all-serialize now batch)
