-- ===== src/Sources/Datastream/Offset.antt =====
-- The positions of sources/datastream.py, "{file_path}#{record_index}", and Python's `int`.
use dremio_cdc.Prelude.{
  ℕ, zero, suc, ◌+◌, ◌-◌, ◌*◌, ◌/◌, ◌%◌, ◌<◌, ◌≡◌, refl, ap, ◌∙◌, Bool, true, false, ◌&&◌, Option,
  none, some, [], ◌∷◌, ◌++◌, All, Text, ◌=ℕ◌, ltb, if◌then◌else◌, arith, Bool-cases, inl, inr,
}
use dremio_cdc.Prelude.Chars.{
  is_digit, is_space, strip, strip_left, strip_right, to_decimal, to_decimal_from,
}
use dremio_cdc.Prelude.Int.{ℤ, pos, negsuc}
use dremio_cdc.Event.{Value}

-- `str` of an `int`.
unfoldable pub print_int : ℤ → Text
print_int (pos n) = to_decimal n
print_int (negsuc n) = b'-' ∷ to_decimal (suc n)

-- The digits of an `int`, where single underscores may stand between two of them. The flag says that
-- a digit was read last.
unfoldable pub read_digits : Bool → ℕ → Text → Option ℕ
read_digits true acc [] = some acc
read_digits false acc [] = none
read_digits prev acc (c ∷ s) =
    let more = read_digits true (acc * 10 + (c - b'0')) s in
    let gap = read_digits false acc s in
    if is_digit c then more else if prev && c =ℕ b'_' then gap else none

abbrev pub negated : Option ℕ → Option ℤ
negated none = none
negated (some zero) = some (pos 0)
negated (some (suc n)) = some (negsuc n)

abbrev pub positive : Option ℕ → Option ℤ
positive none = none
positive (some n) = some (pos n)

abbrev pub signed : Text → Option ℤ
signed [] = none
signed (c ∷ s) =
    if c =ℕ b'-'
    then negated (read_digits false 0 s)
    else if c =ℕ b'+'
    then positive (read_digits false 0 s)
    else positive (read_digits false 0 (c ∷ s))

-- `int(text)`; `none` is the ValueError.
unfoldable pub parse_int : Text → Option ℤ
parse_int t = signed (strip t)

unfoldable pub encode_offset : Text → ℤ → Text
encode_offset file_path record_idx = file_path ++ (b'#' ∷ print_int record_idx)

-- `offset[:idx]` and `offset[idx + 1:]` at `idx = offset.rfind("#")`; `none` without a '#'.
unfoldable pub rsplit_hash : Text → Option (Text × Text)
rsplit_hash [] = none
rsplit_hash (c ∷ s) = elim (rsplit_hash s) [
  | none ↦ if c =ℕ b'#' then some ([], s) else none
  | some p ↦ some (c ∷ p.0, p.1)
]

abbrev with_index : Text → Text → Option ℤ → Option Text × Option ℤ
with_index offset path none = (some offset, none)
with_index offset path (some i) = (some path, some i)

abbrev decode_parts : Text → Option (Text × Text) → Option Text × Option ℤ
decode_parts offset none = (some offset, none)
decode_parts offset (some (path, index)) = with_index offset path (parse_int index)

-- Anything but a text that is not empty is no position. A text without an index is a file that was
-- read whole.
unfoldable pub decode_offset : Value → Option Text × Option ℤ
decode_offset (Value.text []) = (none, none)
decode_offset (Value.text (c ∷ t)) = decode_parts (c ∷ t) (rsplit_hash (c ∷ t))
decode_offset v = (none, none)

-- What `to_decimal` writes are digits that read back as the number.
read_digits-digit :
    (prev : Bool) (acc d : ℕ) (s : Text)
    → d < 10
    → read_digits prev acc ((b'0' + d) ∷ s) ≡ read_digits true (acc * 10 + d) s
unfolding read_digits is_digit
read_digits-digit true acc d s h = ground arith
read_digits-digit false acc d s h = ground arith

read_digits-to_decimal_from :
    (f n : ℕ) (prev : Bool) (t : Text)
    → n < f
    → read_digits prev 0 (to_decimal_from f n t) ≡ read_digits true n t
unfolding to_decimal_from
read_digits-to_decimal_from zero n prev t h = absurd (omega arith)
read_digits-to_decimal_from (suc f) n prev t h = elim (Bool-cases (ltb n 10)) [
  | inl small ↦ ground (arith, read_digits-digit prev 0 (n % 10) t)
  | inr big ↦ ground (
    arith,
    read_digits-to_decimal_from f (n / 10) prev ((b'0' + n % 10) ∷ t),
    read_digits-digit true (n / 10) (n % 10) t,
  )
]

abbrev AllDigits : Text → Type 0
AllDigits = All (λ (c : ℕ). is_digit c ≡ true)

is_digit-digit : (d : ℕ) → d < 10 → is_digit (b'0' + d) ≡ true
unfolding is_digit
is_digit-digit d h = ground arith

AllDigits-to_decimal_from : (f n : ℕ) (t : Text) → AllDigits t → AllDigits (to_decimal_from f n t)
unfolding to_decimal_from
AllDigits-to_decimal_from zero n t h = h
AllDigits-to_decimal_from (suc f) n t h =
    let more : AllDigits ((b'0' + n % 10) ∷ t) = (is_digit-digit (n % 10) (omega arith), h) in
    elim (Bool-cases (ltb n 10)) [
      | inl small ↦ rw (small, to_decimal_from) more
      | inr big ↦
          rw (big, to_decimal_from)
            (AllDigits-to_decimal_from f (n / 10) ((b'0' + n % 10) ∷ t) more)
    ]

is_space-digit : (c : ℕ) → is_digit c ≡ true → is_space c ≡ false
unfolding is_digit is_space
is_space-digit c h = ground arith

strip_right-digits : (s : Text) → AllDigits s → strip_right s ≡ s
unfolding strip_right
strip_right-digits [] h = refl
strip_right-digits (c ∷ []) h = rw (is_space-digit c h.0)
strip_right-digits (c ∷ d ∷ s) h = rw (strip_right-digits (d ∷ s) h.1, strip_right)

strip-digits : (s : Text) → AllDigits s → strip s ≡ s
unfolding strip strip_left
strip-digits [] h = refl
strip-digits (c ∷ s) h = rw (is_space-digit c h.0) (strip_right-digits (c ∷ s) h)

signed-digits : (s : Text) → AllDigits s → signed s ≡ positive (read_digits false 0 s)
unfolding is_digit
signed-digits [] h = unfold read_digits in refl
signed-digits (c ∷ s) h = let d = h.0 in ground arith

parse_int-to_decimal : (n : ℕ) → parse_int (to_decimal n) ≡ some (pos n)
unfolding parse_int to_decimal read_digits
parse_int-to_decimal n =
    let digits = AllDigits-to_decimal_from (suc n) n [] tt in
    ap signed (strip-digits (to_decimal_from (suc n) n []) digits)
    ∙ (signed-digits (to_decimal_from (suc n) n []) digits
        ∙ ap positive (read_digits-to_decimal_from (suc n) n false [] (omega arith)))

rsplit_hash-digits : (s : Text) → AllDigits s → rsplit_hash s ≡ none
unfolding rsplit_hash is_digit
rsplit_hash-digits [] h = refl
rsplit_hash-digits (c ∷ s) h =
    rw (rsplit_hash-digits s h.1, rsplit_hash) (let d = h.0 in ground arith)

-- The last '#' is the one before the index, whatever the path holds.
rsplit_hash-append :
    (path s : Text) → rsplit_hash s ≡ none → rsplit_hash (path ++ (b'#' ∷ s)) ≡ some (path, s)
unfolding rsplit_hash
rsplit_hash-append [] s h = rw (h, rsplit_hash)
rsplit_hash-append (c ∷ path) s h = rw (rsplit_hash-append path s h, rsplit_hash)

decode_offset-parts :
    (path s : Text) (n : ℕ)
    → rsplit_hash s ≡ none
    → parse_int s ≡ some (pos n)
    → decode_offset (Value.text (path ++ (b'#' ∷ s))) ≡ (some path, some (pos n))
unfolding decode_offset
decode_offset-parts [] s n h e = rw (rsplit_hash-append [] s h) (rw e)
decode_offset-parts (c ∷ path) s n h e = rw (rsplit_hash-append (c ∷ path) s h) (rw e)

-- A position in a file is read back as it was written: the path, whatever characters it has, '#'
-- among them, and the index of the record.
pub decode_offset-encode_offset :
    (path : Text) (n : ℕ)
    → decode_offset (Value.text (encode_offset path (pos n))) ≡ (some path, some (pos n))
unfolding encode_offset print_int
decode_offset-encode_offset path n =
    decode_offset-parts path (to_decimal n) n
      (rsplit_hash-digits (to_decimal n)
        (unfold to_decimal in AllDigits-to_decimal_from (suc n) n [] tt))
      (parse_int-to_decimal n)
