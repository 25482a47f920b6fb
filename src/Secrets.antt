-- ===== src/Secrets.antt =====
-- core/secrets.py: references to secrets in the configuration.
mod Tests
use dremio_cdc.Prelude.{
  ℕ, zero, suc, ◌≡◌, refl, ap, ◌∙◌, Bool, true, false, Option, none, some, List, [], ◌∷◌, ◌++◌,
  arith, Text, text_eq, ◌=ℕ◌, contains, nat_eq, length, All, if◌then◌else◌,
}
use dremio_cdc.Prelude.Chars.{codes, strip_prefix}
use dremio_cdc.Prelude.Dict.{Dict, lookup, insert}
use dremio_cdc.Event.{Value, Items, Fields, nil, cons, end, field, Row, Printing, str}
use dremio_cdc.Outcome.{Outcome, ok, raised}

-- The text before the first character `c`, and the text behind it.
unfoldable pub cut : ℕ → Text → Option (Text × Text)
cut c [] = none
cut c (d ∷ s) =
    let rest = cut c s in
    if d =ℕ c then some ([], s) else elim rest [ none ↦ none | some p ↦ some (d ∷ p.0, p.1) ]

-- `ref.rsplit(c, 1)` of a text that has `c`.
unfoldable pub cut_last : ℕ → Text → Option (Text × Text)
cut_last c [] = none
cut_last c (d ∷ s) = elim (cut_last c s) [
  | some p ↦ some (d ∷ p.0, p.1)
  | none ↦ if d =ℕ c then some ([], s) else none
]

-- `\$\{([^}]+)\}` at the start of a text: the name, and the text behind the match.
abbrev pub nonempty_name : Option (Text × Text) → Option (Text × Text)
nonempty_name none = none
nonempty_name (some ([], rest)) = none
nonempty_name (some (c ∷ name, rest)) = some (c ∷ name, rest)

unfoldable pub variable_at : Text → Option (Text × Text)
unfolding cut
variable_at s = elim (strip_prefix (codes "${") s) [
  | none ↦ none
  | some r ↦ nonempty_name (cut b'}' r)
]

module _ (environ : Text → Option Text) where
  -- `_sub`: a variable that is not set is left as it stands.
  abbrev pub value_of : Text → Text
  value_of name = elim (environ name) [ none ↦ codes "${" ++ (name ++ codes "}") | some v ↦ v ]

  -- `_ENV_RE.sub`, on fuel of at least the length of the text: each step takes a character.
  unfoldable pub substitute_from : ℕ → Text → Text
  unfolding variable_at
  substitute_from zero s = s
  substitute_from (suc n) [] = []
  substitute_from (suc n) (c ∷ s) = elim (variable_at (c ∷ s)) [
    | none ↦ c ∷ substitute_from n s
    | some p ↦ value_of p.0 ++ substitute_from n p.1
  ]

  unfoldable pub substitute : Text → Text
  unfolding substitute_from
  substitute s = substitute_from (length s) s

  -- Where there is no dollar sign, nothing is substituted.
  no_dollar-substitute_from :
      (n : ℕ) (s : Text) → All (λ c. (b'$' =ℕ c) ≡ false) s → substitute_from n s ≡ s
  unfolding substitute_from
  no_dollar-substitute_from zero s h = refl
  no_dollar-substitute_from (suc n) [] h = refl
  no_dollar-substitute_from (suc n) (c ∷ s) h =
      rw (h.0, substitute_from) (ap (λ t. c ∷ t) (no_dollar-substitute_from n s h.1))

-- The secrets that Vault has at a path, or what reading them raises.
pub record Vault : Type 0 where
  pub read_secret : Text → Outcome Row

abbrev pub Cache : Type 0
Cache = Dict Text Row

module _ (py : Printing) (environ : Text → Option Text) (vault : Option Vault) where
  abbrev pub field_of : Text → Text → Row → Outcome Value
  field_of path name row = elim (lookup name row) [
    | none ↦
        raised (
          codes "Field '" ++ (name ++ (codes "' not found in Vault path '" ++ (path ++ codes "'"))))
    | some v ↦ ok (Value.text (str py v))
  ]

  abbrev pub remember : Text → Text → Outcome Row → Cache → Outcome Value × Cache
  remember path name (raised message) cache = (raised message, cache)
  remember path name (ok row) cache = (field_of path name row, insert path row cache)

  -- `VaultClient.get`
  unfoldable pub vault_get : Vault → Text → Text → Cache → Outcome Value × Cache
  unfolding str
  vault_get v path name cache = elim (lookup path cache) [
    | some row ↦ (field_of path name row, cache)
    | none ↦ remember path name (v.read_secret path) cache
  ]

  abbrev pub from_vault : Option Vault → Text → Option (Text × Text) → Cache → Outcome Value × Cache
  from_vault v value none cache = (
    raised (codes "Invalid vault reference '" ++ (value ++ codes "' — expected vault:path#field")),
    cache,
  )
  from_vault none value (some p) cache = (
    raised (codes "Vault reference '" ++ (value ++ codes "' found but no Vault config provided")),
    cache,
  )
  from_vault (some v) value (some p) cache = vault_get v p.0 p.1 cache

  unfoldable pub resolve_text : Text → Cache → Outcome Value × Cache
  unfolding cut_last vault_get substitute
  resolve_text s cache = elim (strip_prefix (codes "vault:") s) [
    | some ref ↦ from_vault vault s (cut_last b'#' ref) cache
    | none ↦ (ok (Value.text (substitute environ s)), cache)
  ]

  abbrev pub give : {A B : Type 0} → (A → B) → Outcome A × Cache → Outcome B × Cache
  give f (ok a, cache) = (ok (f a), cache)
  give f (raised message, cache) = (raised message, cache)

  abbrev pub and_then :
      {A B : Type 0} → Outcome A × Cache → (A → Cache → Outcome B × Cache) → Outcome B × Cache
  and_then (ok a, cache) f = f a cache
  and_then (raised message, cache) f = (raised message, cache)

  -- `walk`, and `resolve` at what is no dict and no list.
  unfoldable mutual
    unfolding resolve_text

    pub walk : Value → Cache → Outcome Value × Cache
    walk (Value.dict fs) cache = give Value.dict (walk_fields fs cache)
    walk (Value.list xs) cache = give Value.list (walk_items xs cache)
    walk (Value.text s) cache = resolve_text s cache
    walk v cache = (ok v, cache)

    pub walk_items : Items → Cache → Outcome Items × Cache
    walk_items nil cache = (ok nil, cache)
    walk_items (cons x xs) cache = and_then (walk x cache) (λ y c. give (cons y) (walk_items xs c))

    pub walk_fields : Fields → Cache → Outcome Fields × Cache
    walk_fields end cache = (ok end, cache)
    walk_fields (field k v fs) cache =
        and_then (walk v cache) (λ y c. give (field k y) (walk_fields fs c))

  -- A text without a dollar sign that is no reference to Vault stays as it is, and Vault is not
  -- asked: the cache is as before.
  pub plain-resolve_text :
      (s : Text) (cache : Cache)
      → strip_prefix (codes "vault:") s ≡ none
      → All (λ c. (b'$' =ℕ c) ≡ false) s
      → resolve_text s cache ≡ (ok (Value.text s), cache)
  unfolding substitute resolve_text
  plain-resolve_text s cache h plain =
      rw (h, resolve_text, no_dollar-substitute_from environ (length s) s plain) refl
