-- ===== src/Sink/Literal.antt =====
-- The text literals of core/dremio_sink.py are safe.
use dremio_cdc.Prelude.{
  ℕ, ◌≡◌, refl, ap, Bool, true, false, Option, none, some, [], ◌∷◌, ◌++◌, Text, ◌=ℕ◌, if◌then◌else◌,
  Bool-cases, inl, inr, ◌∙◌, sym, =ℕ_iff,
}
use mathlib.Core.List.{append_assoc}
use dremio_cdc.Prelude.Chars.{replace, codes}
use dremio_cdc.Event.{Value, Printing, str}
use dremio_cdc.Sink.Sql.{apostrophe, escape}

-- How SQL reads a literal behind its first quote: two quotes stand for one, and one ends it. The
-- text of the literal, and what follows it.
abbrev pub cons_char : ℕ → Option (Text × Text) → Option (Text × Text)
cons_char c none = none
cons_char c (some (t, rest)) = some (c ∷ t, rest)

-- `after_quote` says whether the character before was a quote that may end the literal.
unfoldable pub read_body : Bool → Text → Option (Text × Text)
read_body false [] = none
read_body true [] = some ([], [])
read_body false (c ∷ s) = elim (c =ℕ apostrophe) [
  | true ↦ read_body true s
  | false ↦ cons_char c (read_body false s)
]
read_body true (c ∷ s) = elim (c =ℕ apostrophe) [
  | true ↦ cons_char apostrophe (read_body false s)
  | false ↦ some ([], c ∷ s)
]

-- A literal with what follows it: the text must begin with a quote.
unfoldable pub read_literal : Text → Option (Text × Text)
unfolding read_body
read_literal [] = none
read_literal (c ∷ s) = if c =ℕ apostrophe then read_body false s else none

-- What follows a literal does not begin with a quote.
abbrev pub Apart : Text → Type 0
Apart [] = Unit
Apart (c ∷ s) = (c =ℕ apostrophe) ≡ false

unfoldable doubled : Text → Text
doubled s = replace apostrophe (codes "''") s

read_plain :
    (d : ℕ) (s : Text)
    → (d =ℕ apostrophe) ≡ false
    → read_body false (d ∷ s) ≡ cons_char d (read_body false s)
unfolding read_body
read_plain d s h = rw (h, read_body) refl

doubled_quote :
    (d : ℕ) (s : Text)
    → (d =ℕ apostrophe) ≡ true
    → doubled (d ∷ s) ≡ apostrophe ∷ apostrophe ∷ doubled s
unfolding doubled
doubled_quote d s h = rw h refl

doubled_plain : (d : ℕ) (s : Text) → (d =ℕ apostrophe) ≡ false → doubled (d ∷ s) ≡ d ∷ doubled s
unfolding doubled
doubled_plain d s h = rw h refl

read_end : (rest : Text) → Apart rest → read_body true rest ≡ some ([], rest)
unfolding read_body
read_end [] h = refl
read_end (c ∷ rest) h = rw (h, read_body) refl

read_two :
    (s : Text)
    → read_body false (apostrophe ∷ apostrophe ∷ s) ≡ cons_char apostrophe (read_body false s)
unfolding read_body
read_two s = refl

read_one : (s : Text) → read_body false (apostrophe ∷ s) ≡ read_body true s
unfolding read_body
read_one s = refl

read_doubled :
    (s rest : Text)
    → Apart rest
    → read_body false (doubled s ++ (apostrophe ∷ rest)) ≡ some (s, rest)
unfolding doubled
read_doubled [] rest h = read_one rest ∙ read_end rest h
read_doubled (d ∷ s) rest h =
    let tail = doubled s ++ (apostrophe ∷ rest) in
    elim (Bool-cases (d =ℕ apostrophe)) [
      | inl quoted ↦
          ap (λ t. read_body false (t ++ (apostrophe ∷ rest))) (doubled_quote d s quoted)
          ∙ (read_two tail
              ∙ (ap (cons_char apostrophe) (read_doubled s rest h)
                  ∙ ap (λ c. some (c ∷ s, rest)) (sym ((=ℕ_iff d apostrophe).0 quoted))))
      | inr plain ↦
          ap (λ t. read_body false (t ++ (apostrophe ∷ rest))) (doubled_plain d s plain)
          ∙ (read_plain d tail plain ∙ ap (cons_char d) (read_doubled s rest h))
    ]

-- A text is written as one literal, whatever quotes it has: SQL reads back exactly the text, and
-- goes on behind the literal, when what follows does not begin with a quote.
pub read_literal-escape :
    (py : Printing) (strftime : ℕ → Text) (s rest : Text)
    → Apart rest
    → read_literal (escape py strftime (Value.text s) ++ rest) ≡ some (s, rest)
unfolding read_literal escape doubled str
read_literal-escape py strftime s rest h =
    ap (read_body false) (append_assoc (doubled s) (codes "'") rest) ∙ read_doubled s rest h
