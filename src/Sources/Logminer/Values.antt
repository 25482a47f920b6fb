-- ===== src/Sources/Logminer/Values.antt =====
-- The list of values in the SQL of LogMiner, as Oracle writes it and as sources/oracle.py reads it.
use dremio_cdc.Prelude.{
  ℕ, ◌≡◌, refl, ap, sym, ◌∙◌, Bool, true, false, ◌&&◌, ◌||◌, Option, none, some, List, [], ◌∷◌,
  ◌++◌, map, append_assoc, append-nil, Text, text_eq, Text-discrete, ◌==◌, ◌=ℕ◌, =ℕ_iff, Bool-cases,
  inl, inr, if◌then◌else◌,
}
use dremio_cdc.Prelude.Chars.{
  codes, upper, strip, strip_left, strip_right, ends_with, join, replace, is_space, to_upper,
}
use dremio_cdc.Event.{Value}
use dremio_cdc.Sources.Logminer.{
  quote, last_token, csv_from, csv_split, undouble, but_last, Floats, unquoted, parse_val,
}

-- A literal: NULL, or a text in quotes with every quote in it doubled.
abbrev pub double : Text → Text
double = replace quote (quote ∷ quote ∷ [])

abbrev pub print_value : Option Text → Text
print_value none = codes "NULL"
print_value (some t) = quote ∷ (double t ++ (quote ∷ []))

abbrev pub value_of : Option Text → Value
value_of none = Value.null
value_of (some t) = Value.text t

-- What may stand behind a literal.
abbrev Ends : Text → Type 0
Ends [] = Unit {0}
Ends (c ∷ s) = (c =ℕ quote) ≡ false

otherwise {ℓ} : {A : Type ℓ} (b : Bool) (x y : A) → b ≡ false → elim b [ true ↦ x | false ↦ y ] ≡ y
otherwise true x y h = cc
otherwise false x y h = refl

csv_from-letter :
    (c : ℕ) (s buf : Text)
    → (c =ℕ quote) ≡ false
    → csv_from true buf (c ∷ s) ≡ csv_from true (buf ++ (c ∷ [])) s
unfolding csv_from
csv_from-letter c [] buf h = refl
csv_from-letter c (d ∷ s) buf h = rw (h, csv_from)

csv_from-close :
    (rest buf : Text)
    → Ends rest
    → csv_from true buf (quote ∷ rest) ≡ csv_from false (buf ++ (quote ∷ [])) rest
unfolding csv_from
csv_from-close [] buf h = refl
csv_from-close (d ∷ s) buf h =
    otherwise (d =ℕ quote) (csv_from true (buf ++ (quote ∷ d ∷ [])) s)
      (csv_from false (buf ++ (quote ∷ [])) (d ∷ s)) h

csv_from-double :
    (t rest buf : Text)
    → Ends rest
    → csv_from true buf (double t ++ (quote ∷ rest))
      ≡ csv_from false (buf ++ (double t ++ (quote ∷ []))) rest
unfolding csv_from
csv_from-double [] rest buf h = csv_from-close rest buf h
csv_from-double (c ∷ t) rest buf h = elim (Bool-cases (c =ℕ quote)) [
  | inl e ↦
      let ih = csv_from-double t rest (buf ++ (quote ∷ quote ∷ [])) h in
      rw e (
        ih
        ∙ ap (λ b. csv_from false b rest)
            (append_assoc buf (quote ∷ quote ∷ []) (double t ++ (quote ∷ []))))
  | inr e ↦
      let ih = csv_from-double t rest (buf ++ (c ∷ [])) h in
      rw e (
        csv_from-letter c (double t ++ (quote ∷ rest)) buf e
        ∙ (ih
            ∙ ap (λ b. csv_from false b rest)
                (append_assoc buf (c ∷ []) (double t ++ (quote ∷ [])))))
]

csv_from-print_value :
    (v : Option Text) (rest : Text)
    → Ends rest
    → csv_from false [] (print_value v ++ rest) ≡ csv_from false (print_value v) rest
unfolding csv_from
csv_from-print_value none rest h = refl
csv_from-print_value (some t) rest h =
    ap (csv_from true (quote ∷ [])) (append_assoc (double t) (quote ∷ []) rest)
    ∙ csv_from-double t rest (quote ∷ []) h

strip_right-quote : (s : Text) → strip_right (s ++ (quote ∷ [])) ≡ s ++ (quote ∷ [])
unfolding strip_right is_space
strip_right-quote [] = refl
strip_right-quote (c ∷ []) = refl
strip_right-quote (c ∷ d ∷ s) = rw (strip_right-quote (d ∷ s))

strip-print_value : (v : Option Text) → strip (print_value v) ≡ print_value v
unfolding strip strip_left strip_right is_space
strip-print_value none = refl
strip-print_value (some t) = strip_right-quote (quote ∷ double t)

last_token-print_value : (v : Option Text) → last_token (print_value v) ≡ print_value v ∷ []
last_token-print_value none = ap (λ s. s ∷ []) (strip-print_value none)
last_token-print_value (some t) = ap (λ s. s ∷ []) (strip-print_value (some t))

csv_split-join :
    (vs : List (Option Text))
    → csv_split (join (codes ",") (map print_value vs)) ≡ map print_value vs
unfolding csv_split csv_from
csv_split-join [] = refl
csv_split-join (v ∷ []) =
    ap (csv_from false []) (sym (append-nil (print_value v)))
    ∙ (csv_from-print_value v [] tt ∙ last_token-print_value v)
csv_split-join (v ∷ w ∷ vs) =
    csv_from-print_value v (codes "," ++ join (codes ",") (map print_value (w ∷ vs))) refl
    ∙ (ap (λ s. s ∷ csv_split (join (codes ",") (map print_value (w ∷ vs)))) (strip-print_value v)
        ∙ ap (λ l. print_value v ∷ l) (csv_split-join (w ∷ vs)))

but_last-quote : (s : Text) → but_last (s ++ (quote ∷ [])) ≡ s
unfolding but_last
but_last-quote [] = refl
but_last-quote (c ∷ []) = refl
but_last-quote (c ∷ d ∷ s) = ap (λ t. c ∷ t) (but_last-quote (d ∷ s))

undouble-letter : (c : ℕ) (s : Text) → (c =ℕ quote) ≡ false → undouble (c ∷ s) ≡ c ∷ undouble s
unfolding undouble
undouble-letter c [] h = refl
undouble-letter c (d ∷ s) h = rw (h, undouble)

undouble-double : (t : Text) → undouble (double t) ≡ t
unfolding undouble
undouble-double [] = refl
undouble-double (c ∷ t) = elim (Bool-cases (c =ℕ quote)) [
  | inl e ↦ rw e (λ i. sym ((=ℕ_iff c quote).0 e) i ∷ undouble-double t i)
  | inr e ↦ rw e (undouble-letter c (double t) e ∙ ap (λ s. c ∷ s) (undouble-double t))
]

either : (b rest : Bool) → rest ≡ true → elim b [ true ↦ true | false ↦ rest ] ≡ true
either true rest h = refl
either false rest h = h

ends_with-last : ends_with (quote ∷ []) (quote ∷ []) ≡ true
unfolding Text-discrete
ends_with-last = refl

ends_with-quote : (s : Text) → ends_with (quote ∷ []) (s ++ (quote ∷ [])) ≡ true
ends_with-quote [] = ends_with-last
ends_with-quote (c ∷ s) =
    either ((quote ∷ []) == (c ∷ (s ++ (quote ∷ [])))) (ends_with (quote ∷ []) (s ++ (quote ∷ [])))
      (ends_with-quote s)

no_empty : (s : Text) → ((quote ∷ s) == []) ≡ false
unfolding Text-discrete
no_empty s = refl

no_null : (s : Text) → (upper (quote ∷ s) == codes "NULL") ≡ false
unfolding Text-discrete to_upper
no_null s = refl

third :
    (a b e : Bool) (x y z : Value)
    → a ≡ false
    → b ≡ false
    → e ≡ true
    → (if a || b then x else if true && e then y else z) ≡ y
third a b e x y z ha hb he = rw (ha, hb, he)

null_text : (floats : Floats) → unquoted floats (codes "NULL") ≡ Value.null
unfolding Text-discrete to_upper
null_text floats = refl

parse_val-print_value :
    (floats : Floats) (v : Option Text) → parse_val floats (print_value v) ≡ value_of v
unfolding parse_val
parse_val-print_value floats none = ap (unquoted floats) (strip-print_value none) ∙ null_text floats
parse_val-print_value floats (some t) =
    let s = double t ++ (quote ∷ []) in
    ap (unquoted floats) (strip-print_value (some t))
    ∙ (third _ _ _ _ _ _ (no_empty s) (no_null s) (ends_with-quote (quote ∷ double t))
        ∙ ap (λ u. Value.text u) (ap undouble (but_last-quote (double t)) ∙ undouble-double t))

parse_all :
    (floats : Floats) (vs : List (Option Text))
    → map (parse_val floats) (map print_value vs) ≡ map value_of vs
parse_all floats [] = refl
parse_all floats (v ∷ vs) = λ i. parse_val-print_value floats v i ∷ parse_all floats vs i

-- Values are read back as Oracle writes them between commas, whatever commas, quotes and white
-- space their texts hold: a list of as many values, each text as it was, and NULL as None.
pub parse_values-join :
    (floats : Floats) (vs : List (Option Text))
    → map (parse_val floats) (csv_split (join (codes ",") (map print_value vs))) ≡ map value_of vs
parse_values-join floats vs = ap (map (parse_val floats)) (csv_split-join vs) ∙ parse_all floats vs
