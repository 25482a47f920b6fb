-- ===== src/Prelude/Chars.antt =====
-- Operations of Python's `str` that the program uses, on lists of code points. Case, digits and
-- white space are those of ASCII.
use Prim.Native.Char.{code}
use dremio_cdc.Prelude.{
  ℕ, zero, suc, ◌+◌, ◌-◌, ◌/◌, ◌%◌, ◌≡◌, refl, Bool, true, false, ◌&&◌, ◌||◌, Option, none, some,
  List, [], ◌∷◌, ◌++◌, map, String, Text, length, drop, text_eq, ◌==◌, ltb, leb, ◌=ℕ◌,
  if◌then◌else◌,
}

-- The code points of a literal.
abbrev pub codes : String → Text
codes String.[] = []
codes (String.◌∷◌ c s) = code c ∷ codes s

unfoldable pub is_digit : ℕ → Bool
is_digit c = leb b'0' c && leb c b'9'

unfoldable pub to_upper : ℕ → ℕ
to_upper c = if leb b'a' c && leb c b'z' then c - 32 else c

unfoldable pub to_lower : ℕ → ℕ
to_lower c = if leb b'A' c && leb c b'Z' then c + 32 else c

-- `s.upper()`, `s.lower()`
abbrev pub upper : Text → Text
upper = map to_upper

abbrev pub lower : Text → Text
lower = map to_lower

unfoldable pub is_space : ℕ → Bool
is_space c = c =ℕ 32 || (leb 9 c && leb c 13) || (leb 28 c && leb c 31)

-- `s.strip()`
unfoldable pub strip_left : Text → Text
unfolding is_space
strip_left [] = []
strip_left (c ∷ s) = let rest = strip_left s in if is_space c then rest else c ∷ s

-- A trailing run of white space goes; `strip_right s` is empty if nothing else is left.
unfoldable pub strip_right : Text → Text
unfolding is_space
strip_right [] = []
strip_right (c ∷ s) = elim (strip_right s) [
  | [] ↦ if is_space c then [] else c ∷ []
  | d ∷ r ↦ c ∷ d ∷ r
]

unfoldable pub strip : Text → Text
unfolding strip_left strip_right
strip s = strip_right (strip_left s)

-- `s[-n:]`
abbrev pub last : ℕ → Text → Text
last n s = drop (length s - n) s

-- `s.startswith(p)`: the rest behind the prefix.
abbrev pub strip_prefix : Text → Text → Option Text
strip_prefix [] s = some s
strip_prefix (p ∷ ps) [] = none
strip_prefix (p ∷ ps) (c ∷ s) = if p =ℕ c then strip_prefix ps s else none

-- `s.endswith(p)`
abbrev pub ends_with : Text → Text → Bool
ends_with p [] = p == []
ends_with p (c ∷ s) = elim (p == (c ∷ s)) [ true ↦ true | false ↦ ends_with p s ]

-- `s.split(c)`, with `n` cuts at most when given by `split_at_most`.
abbrev cons_head : ℕ → List Text → List Text
cons_head c [] = (c ∷ []) ∷ []
cons_head c (p ∷ ps) = (c ∷ p) ∷ ps

unfoldable pub split : ℕ → Text → List Text
split sep [] = [] ∷ []
split sep (c ∷ s) = let rest = split sep s in if c =ℕ sep then [] ∷ rest else cons_head c rest

unfoldable pub split_at_most : ℕ → ℕ → Text → List Text
split_at_most sep n [] = [] ∷ []
split_at_most sep zero (c ∷ s) = (c ∷ s) ∷ []
split_at_most sep (suc n) (c ∷ s) = elim (c =ℕ sep) [
  | true ↦ [] ∷ split_at_most sep n s
  | false ↦ cons_head c (split_at_most sep (suc n) s)
]

-- `sep.join(parts)`
abbrev pub join : Text → List Text → Text
join sep [] = []
join sep (p ∷ []) = p
join sep (p ∷ q ∷ ps) = p ++ (sep ++ join sep (q ∷ ps))

-- `s.replace(c, t)` of one character.
abbrev pub replace : ℕ → Text → Text → Text
replace c t [] = []
replace c t (d ∷ s) = if d =ℕ c then t ++ replace c t s else d ∷ replace c t s

-- The decimal digits of a number; the fuel is above the number, so it never runs out.
unfoldable pub to_decimal_from : ℕ → ℕ → Text → Text
to_decimal_from zero n acc = acc
to_decimal_from (suc f) n acc =
    let d = b'0' + n % 10 in
    elim (ltb n 10) [ true ↦ d ∷ acc | false ↦ to_decimal_from f (n / 10) (d ∷ acc) ]

unfoldable pub to_decimal : ℕ → Text
unfolding to_decimal_from
to_decimal n = to_decimal_from (suc n) n []

to_decimal_at : to_decimal 1207 ≡ codes "1207"
unfolding to_decimal
to_decimal_at = refl

strip_at : strip (codes "  a b ") ≡ codes "a b"
unfolding strip
strip_at = refl

split_at : split_at_most b':' 2 (codes "snap:id:a:b") ≡ codes "snap" ∷ codes "id" ∷ codes "a:b" ∷ []
unfolding split_at_most
split_at = refl
