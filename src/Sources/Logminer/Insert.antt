-- ===== src/Sources/Logminer/Insert.antt =====
-- A row in an INSERT of LogMiner, as Oracle writes it and as sources/oracle.py reads it.
use dremio_cdc.Prelude.{
  ◌≡◌, ◌≢◌, refl, ap, sym, subst, ◌∙◌, Bool, true, false, ◌||◌, Option, none, some, List, [], ◌∷◌,
  ◌++◌, map, append_assoc, append-nil, Text, text_eq, All, All-map, ◌=ℕ◌,
}
use dremio_cdc.Prelude.Dict.{insert, lookup, lookup-insert_ne, insert-fresh}
use dremio_cdc.Prelude.Chars.{codes, strip, strip_left, strip_right, join, is_space}
use dremio_cdc.Event.{Value, Row}
use dremio_cdc.Sources.Logminer.{csv_split, Floats, parse_val}
use dremio_cdc.Sources.Logminer.Values.{print_value, value_of, parse_values-join}
use dremio_cdc.Sources.Logminer.Rows.{match_insert, zip_into, insert_row, parse_insert}
use dremio_cdc.Sources.Logminer.Statement.{
  Solid-append, strip_right-Solid, Avoids, statement, match_insert-statement,
}
use dremio_cdc.Sources.Logminer.Columns.{
  print_names, IsName, IsName-Plain, Plain, behind_quote, parse_col_list-print_names,
  print_names-quote, All-print_names,
}

-- The names of a row are all different.
abbrev pub Unique : List (Text × Option Text) → Type 0
Unique [] = Unit {0}
Unique (p ∷ row) = All (λ (q : Text × Option Text). p.0 ≢ q.0) row × Unique row

abbrev pub pair_of : Text × Option Text → Text × Value
pair_of p = (p.0, value_of p.1)

abbrev name_of : Text × Option Text → Text
name_of p = p.0

abbrev literal_of : Text × Option Text → Option Text
literal_of p = p.1

abbrev Fresh : Row → List (Text × Option Text) → Type 0
Fresh acc = All (λ (p : Text × Option Text). lookup p.0 acc ≡ none)

Fresh-insert :
    (k : Text) (v : Value) (acc : Row) (row : List (Text × Option Text))
    → All (λ (q : Text × Option Text). k ≢ q.0) row
    → Fresh acc row
    → Fresh (insert k v acc) row
Fresh-insert k v acc [] d f = tt
Fresh-insert k v acc (p ∷ row) d f =
    (lookup-insert_ne k p.0 v acc d.0 ∙ f.0, Fresh-insert k v acc row d.1 f.1)

zip_into-Fresh :
    (row : List (Text × Option Text)) (acc : Row)
    → Unique row
    → Fresh acc row
    → zip_into (map name_of row) (map value_of (map literal_of row)) acc ≡ acc ++ map pair_of row
zip_into-Fresh [] acc u f = sym (append-nil acc)
zip_into-Fresh (p ∷ row) acc u f =
    zip_into-Fresh row (insert p.0 (value_of p.1) acc) u.1
      (Fresh-insert p.0 (value_of p.1) acc row u.0 f.1)
    ∙ (ap (λ r. r ++ map pair_of row) (insert-fresh p.0 (value_of p.1) acc f.0)
        ∙ append_assoc acc (pair_of p ∷ []) (map pair_of row))

Fresh-empty : (row : List (Text × Option Text)) → Fresh [] row
Fresh-empty [] = tt
Fresh-empty (p ∷ row) = (refl, Fresh-empty row)

abbrev pub print_insert : Text → Text → List (Text × Option Text) → Text
print_insert owner table row =
    statement owner table (print_names (map name_of row))
      (join (codes ",") (map print_value (map literal_of row)))

strip-statement :
    (owner table columns values : Text)
    → strip (statement owner table columns values) ≡ statement owner table columns values
unfolding strip strip_left strip_right is_space
strip-statement owner table columns values =
    strip_right-Solid (statement owner table columns values) (
      Solid-append (codes "insert into \"") _ (
        Solid-append owner _ (
          Solid-append (codes "\".\"") _ (
            Solid-append table _ (
              Solid-append (codes "\"(") _ (
                Solid-append columns _ (
                  Solid-append (codes ") values (") _ (Solid-append values (codes ");") refl))))))))

Avoids-quote : (n : Text) → IsName n → Avoids b'"' n
Avoids-quote n h = All-map Plain (λ c. (c =ℕ b'"') ≡ false) (λ c p. p.0) n (IsName-Plain n h)

or_right : (a b : Bool) → (a || b) ≡ false → b ≡ false
or_right true b h = cc
or_right false b h = h

match_insert-print :
    (owner table n values : Text) (ns : List Text)
    → IsName owner
    → IsName table
    → All IsName (n ∷ ns)
    → match_insert (statement owner table (print_names (n ∷ ns)) values)
      ≡ some (print_names (n ∷ ns), values)
match_insert-print [] table n values ns ho ht hn = cc
match_insert-print (o ∷ owner) [] n values ns ho ht hn = cc
match_insert-print (o ∷ owner) (t ∷ table) n values ns ho ht hn =
    subst (λ c. match_insert (statement (o ∷ owner) (t ∷ table) c values) ≡ some (c, values))
      (sym (print_names-quote n ns))
      (match_insert-statement o t b'"' owner table (behind_quote n ns) values
        (Avoids-quote (o ∷ owner) ho) (Avoids-quote (t ∷ table) ht)
        (subst (Avoids b')') (print_names-quote n ns) (
          All-print_names (λ c. (c =ℕ b')') ≡ false) refl refl (n ∷ ns)
            (All-map IsName (Avoids b')')
              (λ m p.
                All-map Plain (λ c. (c =ℕ b')') ≡ false)
                  (λ c q. or_right (c =ℕ b'(') (c =ℕ b')') q.2) m (IsName-Plain m p))
              (n ∷ ns) hn))))

-- A row in an INSERT is read back as Oracle writes it: each column under its name, in order, with
-- its text, whatever commas, quotes, parentheses and white space are in it, or with None for NULL.
-- The names, all different, are not empty and hold no comma, double quote or parenthesis.
pub parse_insert-print_insert :
    (floats : Floats) (owner table : Text) (p : Text × Option Text)
    (row : List (Text × Option Text))
    → IsName owner
    → IsName table
    → All IsName (map name_of (p ∷ row))
    → Unique (p ∷ row)
    → parse_insert floats (print_insert owner table (p ∷ row)) ≡ map pair_of (p ∷ row)
unfolding parse_insert
parse_insert-print_insert floats owner table p row ho ht hn u =
    let names = map name_of (p ∷ row) in
    let literals = map literal_of (p ∷ row) in
    let values = join (codes ",") (map print_value literals) in
    ap (λ s. insert_row floats (match_insert s))
      (strip-statement owner table (print_names names) values)
    ∙ (ap (insert_row floats) (match_insert-print owner table p.0 values (map name_of row) ho ht hn)
        ∙ (ap (λ ks. zip_into ks (map (parse_val floats) (csv_split values)) [])
              (parse_col_list-print_names p.0 (map name_of row) hn)
            ∙ (ap (λ vs. zip_into names vs []) (parse_values-join floats literals)
                ∙ zip_into-Fresh (p ∷ row) [] u (Fresh-empty (p ∷ row)))))
