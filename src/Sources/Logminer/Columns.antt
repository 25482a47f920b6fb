-- ===== src/Sources/Logminer/Columns.antt =====
-- The list of columns in an INSERT of LogMiner, as sources/oracle.py reads it.
use dremio_cdc.Prelude.{
  ℕ, ◌≡◌, refl, ap, sym, subst, ◌∙◌, Bool, true, false, List, [], ◌∷◌, ◌++◌, map, Text, text_eq,
  All, All-map, All-append, ◌=ℕ◌, arith,
}
use dremio_cdc.Prelude.Chars.{codes, strip, strip_left, strip_right, join, split, is_space}
use dremio_cdc.Sources.Logminer.Rows.{
  is_paren, is_double_quote, column_name, strip_start, strip_end, parse_col_list,
}
use dremio_cdc.Sources.Logminer.Statement.{Solid-append, strip_right-Solid, Avoids}

-- A column's name in double quotes; names hold no comma, quote or parenthesis.
abbrev pub print_name : Text → Text
print_name n = b'"' ∷ (n ++ (b'"' ∷ []))

abbrev pub print_names : List Text → Text
print_names names = join (codes ",") (map print_name names)

abbrev pub Plain : ℕ → Type 0
Plain c = ((c =ℕ b'"') ≡ false) × ((c =ℕ b',') ≡ false) × (is_paren c ≡ false)

abbrev pub IsName : Text → Type 0
IsName [] = true ≡ false
IsName (c ∷ n) = All Plain (c ∷ n)

pub IsName-Plain : (n : Text) → IsName n → All Plain n
IsName-Plain [] h = tt
IsName-Plain (c ∷ n) h = h

strip_end-drop :
    (among : ℕ → Bool) (x : ℕ) (s : Text)
    → among x ≡ true
    → All (λ c. among c ≡ false) s
    → strip_end among (s ++ (x ∷ [])) ≡ s
strip_end-drop among x [] hx h = rw hx
strip_end-drop among x (c ∷ []) hx h = rw (hx, h.0, strip_end)
strip_end-drop among x (c ∷ d ∷ s) hx h = rw (strip_end-drop among x (d ∷ s) hx h.1)

column_name-print_name : (n : Text) → IsName n → column_name (print_name n) ≡ n
unfolding strip strip_left strip_right is_space
column_name-print_name [] h = cc
column_name-print_name (c ∷ n) h =
    let plain = All-map Plain (λ d. (d =ℕ b'"') ≡ false) (λ d p. p.0) (c ∷ n) h in
    ap (λ s. strip_end is_double_quote (strip_start is_double_quote s))
      (strip_right-Solid (print_name (c ∷ n)) (Solid-append (b'"' ∷ c ∷ n) (b'"' ∷ []) refl))
    ∙ rw (plain.0) (strip_end-drop is_double_quote b'"' (c ∷ n) refl plain)

split-last : (x : ℕ) (s : Text) → Avoids x s → split x s ≡ s ∷ []
unfolding split
split-last x [] h = refl
split-last x (c ∷ s) h = rw (h.0, split-last x s h.1)

split-append : (x : ℕ) (s rest : Text) → Avoids x s → split x (s ++ (x ∷ rest)) ≡ s ∷ split x rest
unfolding split
split-append x [] rest h = ground arith
split-append x (c ∷ s) rest h = rw (h.0, split-append x s rest h.1)

module _ {κ} (P : ℕ → Type κ) (comma : P b',') (double : P b'"') where
  All-print_name : (n : Text) → All P n → All P (print_name n)
  All-print_name n h = (double, All-append P n (b'"' ∷ []) h (double, tt))

  pub All-print_names : (names : List Text) → All (All P) names → All P (print_names names)
  All-print_names [] h = tt
  All-print_names (n ∷ []) h = All-print_name n h.0
  All-print_names (n ∷ m ∷ ns) h =
      All-append P (print_name n) (b',' ∷ print_names (m ∷ ns)) (All-print_name n h.0)
        (comma, All-print_names (m ∷ ns) h.1)

Avoids-print_name : (n : Text) → IsName n → Avoids b',' (print_name n)
Avoids-print_name n h = (
  refl,
  All-append (λ c. (c =ℕ b',') ≡ false) n (b'"' ∷ [])
      (All-map Plain (λ c. (c =ℕ b',') ≡ false) (λ c p. p.1) n (IsName-Plain n h)) (refl, tt),
)

split-print_names :
    (n : Text) (ns : List Text)
    → All IsName (n ∷ ns)
    → split b',' (print_names (n ∷ ns)) ≡ map print_name (n ∷ ns)
split-print_names n [] h = split-last b',' (print_name n) (Avoids-print_name n h.0)
split-print_names n (m ∷ ns) h =
    split-append b',' (print_name n) (print_names (m ∷ ns)) (Avoids-print_name n h.0)
    ∙ ap (λ l. print_name n ∷ l) (split-print_names m ns h.1)

column_names-print_name :
    (names : List Text) → All IsName names → map column_name (map print_name names) ≡ names
column_names-print_name [] h = refl
column_names-print_name (n ∷ ns) h =
    λ i. column_name-print_name n h.0 i ∷ column_names-print_name ns h.1 i

abbrev pub in_parens : Text → Text
in_parens s = b'(' ∷ (s ++ (b')' ∷ []))

inner-in_parens :
    (s : Text)
    → All (λ c. is_paren c ≡ false) (b'"' ∷ s)
    → strip_end is_paren (strip_start is_paren (strip (in_parens (b'"' ∷ s)))) ≡ b'"' ∷ s
unfolding strip strip_left strip_right is_space
inner-in_parens s h =
    ap (λ t. strip_end is_paren (strip_start is_paren t))
      (strip_right-Solid (in_parens (b'"' ∷ s)) (Solid-append (b'(' ∷ b'"' ∷ s) (b')' ∷ []) refl))
    ∙ strip_end-drop is_paren b')' (b'"' ∷ s) refl h

abbrev pub behind_quote : Text → List Text → Text
behind_quote n [] = n ++ (b'"' ∷ [])
behind_quote n (m ∷ ns) = (n ++ (b'"' ∷ [])) ++ (b',' ∷ print_names (m ∷ ns))

pub print_names-quote :
    (n : Text) (ns : List Text) → print_names (n ∷ ns) ≡ b'"' ∷ behind_quote n ns
print_names-quote n [] = refl
print_names-quote n (m ∷ ns) = refl

pub no_parens :
    (names : List Text) → All IsName names → All (λ c. is_paren c ≡ false) (print_names names)
no_parens names h =
    All-print_names (λ c. is_paren c ≡ false) refl refl names
      (All-map IsName (All (λ c. is_paren c ≡ false))
        (λ n p. All-map Plain (λ c. is_paren c ≡ false) (λ c q. q.2) n (IsName-Plain n p)) names h)

pub parse_col_list-print_names :
    (n : Text) (ns : List Text)
    → All IsName (n ∷ ns)
    → parse_col_list (in_parens (print_names (n ∷ ns))) ≡ n ∷ ns
unfolding parse_col_list
parse_col_list-print_names n ns h =
    let e = print_names-quote n ns in
    ap
      (λ s.
        map column_name
          (split b',' (strip_end is_paren (strip_start is_paren (strip (in_parens s))))))
      e
    ∙ (ap (λ s. map column_name (split b',' s))
          (inner-in_parens (behind_quote n ns)
              (subst (All (λ c. is_paren c ≡ false)) e (no_parens (n ∷ ns) h))
            ∙ sym e)
        ∙ (ap (map column_name) (split-print_names n ns h) ∙ column_names-print_name (n ∷ ns) h))
