-- ===== src/Sources/Logminer/Statement.antt =====
-- An INSERT as LogMiner writes it, and as sources/oracle.py reads it.
use dremio_cdc.Prelude.{
  ℕ, ◌≡◌, refl, ap, sym, ◌∙◌, true, false, some, [], ◌∷◌, ◌++◌, append_assoc, Text, text_eq,
  Text-discrete, All, ◌=ℕ◌, arith,
}
use dremio_cdc.Prelude.Chars.{codes, strip_left, strip_right, is_space, to_lower}
use dremio_cdc.Sources.Logminer.Rows.{
  ◌>>=◌, until, word, spaces, between, drop_last, up_to_end, match_insert, cons_some, or_same,
}

-- Text to whose end no white space belongs.
abbrev pub Solid : Text → Type 0
Solid [] = true ≡ false
Solid (c ∷ s) = strip_right (c ∷ s) ≡ c ∷ s

Solid-cons : (c : ℕ) (s : Text) → Solid s → Solid (c ∷ s)
unfolding strip_right
Solid-cons c [] h = cc
Solid-cons c (d ∷ s) h = rw (h, strip_right)

pub Solid-append : (s t : Text) → Solid t → Solid (s ++ t)
Solid-append [] t h = h
Solid-append (c ∷ s) t h = Solid-cons c (s ++ t) (Solid-append s t h)

pub strip_right-Solid : (s : Text) → Solid s → strip_right s ≡ s
strip_right-Solid [] h = cc
strip_right-Solid (c ∷ s) h = h

abbrev pub Avoids : ℕ → Text → Type 0
Avoids x s = All (λ c. (c =ℕ x) ≡ false) s

until-append : (x : ℕ) (s rest : Text) → Avoids x s → until x (s ++ (x ∷ rest)) ≡ some (s, rest)
unfolding until
until-append x [] rest h = ground arith
until-append x (c ∷ s) rest h = rw (h.0, until-append x s rest h.1)

drop_last-append : (x : ℕ) (s : Text) → drop_last x (s ++ (x ∷ [])) ≡ some s
unfolding drop_last
drop_last-append x [] = ground arith
drop_last-append x (c ∷ []) = ap (cons_some c) (drop_last-append x [])
drop_last-append x (c ∷ d ∷ s) = ap (cons_some c) (drop_last-append x (d ∷ s))

up_to_end-append : (s : Text) → up_to_end (s ++ codes ");") ≡ some s
unfolding up_to_end strip_right is_space
up_to_end-append s =
    let first = strip_right-Solid (s ++ codes ");") (Solid-append s (codes ");") refl) in
    let second = strip_right-Solid (s ++ codes ")") (Solid-append s (codes ")") refl) in
    let cut =
      ap (drop_last b';') (sym (append_assoc s (codes ")") (codes ";")))
      ∙ drop_last-append b';' (s ++ codes ")") in
    ap (λ s'. drop_last b')' (strip_right (or_same s' (drop_last b';' s')))) first
    ∙ (ap (λ o. drop_last b')' (strip_right (or_same (s ++ codes ");") o))) cut
        ∙ (ap (drop_last b')') second ∙ drop_last-append b')' s))

abbrev pub statement : Text → Text → Text → Text → Text
statement owner table columns values =
    codes "insert into \""
    ++ (owner
        ++ (codes "\".\""
            ++ (table
                ++ (codes "\"(" ++ (columns ++ (codes ") values (" ++ (values ++ codes ");")))))))

pub match_insert-statement :
    (o t p : ℕ) (owner table columns values : Text)
    → Avoids b'"' (o ∷ owner)
    → Avoids b'"' (t ∷ table)
    → Avoids b')' (p ∷ columns)
    → match_insert (statement (o ∷ owner) (t ∷ table) (p ∷ columns) values)
      ≡ some (p ∷ columns, values)
unfolding match_insert word spaces between strip_left is_space to_lower Text-discrete
match_insert-statement o t p owner table columns values ho ht hp =
    rw (until-append b'"' (o ∷ owner) _ ho, ◌>>=◌)
      (rw (until-append b'"' (t ∷ table) _ ht, ◌>>=◌)
        (rw (until-append b')' (p ∷ columns) _ hp, ◌>>=◌) (rw (up_to_end-append values, ◌>>=◌))))
