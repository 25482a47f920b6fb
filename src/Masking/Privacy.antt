-- ===== src/Masking/Privacy.antt =====
-- What the pattern masks of core/masking.py keep of a text.
use dremio_cdc.Prelude.{
  ℕ, ◌≡◌, ◌≢◌, refl, ap, false, Option, none, some, [], ◌∷◌, ◌++◌, Text, All, length, leb,
  if◌then◌else◌, contains, nat_eq, arith,
}
use dremio_cdc.Prelude.Chars.{codes, last, split}
use dremio_cdc.Masking.{
  at_domain, chomp, mask_email_text, digits_of, last_four, mask_phone_text, mask_ssn_text,
  mask_card_text, mask_ip_text,
}

-- What a number may show: the last four digits, if there are four.
abbrev pub shown_digits : Text → Option Text
shown_digits s =
    let digits = digits_of s in if leb 4 (length digits) then some (last 4 digits) else none

last_four-shown :
    (shown hidden s : Text)
    → last_four shown hidden (digits_of s)
      ≡ elim (shown_digits s) [ none ↦ hidden | some digits ↦ shown ++ digits ]
last_four-shown shown hidden s = ground arith

last_four_cong :
    (shown hidden s t : Text)
    → shown_digits s ≡ shown_digits t
    → last_four shown hidden (digits_of s) ≡ last_four shown hidden (digits_of t)
last_four_cong shown hidden s t h =
    cc (last_four-shown shown hidden s, last_four-shown shown hidden t)

-- Two texts that show the same last four digits, or have fewer than four, have the same mask as a
-- phone number, as a social security number and as a card number.
pub number_masks_show_four_digits :
    (s t : Text)
    → shown_digits s ≡ shown_digits t
    → (mask_phone_text s ≡ mask_phone_text t)
      × (mask_ssn_text s ≡ mask_ssn_text t)
      × (mask_card_text s ≡ mask_card_text t)
unfolding mask_phone_text mask_ssn_text mask_card_text
number_masks_show_four_digits s t h = (
  last_four_cong (codes "***-***-") (codes "***-***-****") s t h,
  last_four_cong (codes "***-**-") (codes "***-**-****") s t h,
  last_four_cong (codes "****-****-****-") (codes "****-****-****-****") s t h,
)

-- No character of the text is `c`.
abbrev pub Without : ℕ → Text → Type 0
Without c = All (λ d. d ≢ c)

chomp_id : (s : Text) → Without 10 s → chomp s ≡ s
unfolding chomp
chomp_id [] h = refl
chomp_id (c ∷ []) h = ground arith
chomp_id (c ∷ d ∷ s) h = ap (λ l. c ∷ l) (chomp_id (d ∷ s) h.1)

contains_none : (s : Text) → Without 10 s → contains 10 s ≡ false
contains_none [] h = refl
contains_none (c ∷ s) h = ground (arith, contains_none s h.1)

at_domain_first :
    (user domain : Text) (d : ℕ)
    → Without b'@' user
    → at_domain (user ++ (b'@' ∷ d ∷ domain)) ≡ some (b'@' ∷ d ∷ domain)
unfolding at_domain
at_domain_first [] domain d h = refl
at_domain_first (c ∷ []) domain d h = ground arith
at_domain_first (c ∷ e ∷ user) domain d h = ground (arith, at_domain_first (e ∷ user) domain d h.1)

-- An address with a first character, a user without '@' and a domain keeps the first character and
-- the domain. The rest of the user name does not show.
pub mask_email_keeps_domain :
    (c d : ℕ) (user domain : Text)
    → Without b'@' user
    → Without 10 (c ∷ user ++ (b'@' ∷ d ∷ domain))
    → mask_email_text (c ∷ user ++ (b'@' ∷ d ∷ domain)) ≡ c ∷ codes "***" ++ (b'@' ∷ d ∷ domain)
unfolding mask_email_text
mask_email_keeps_domain c d user domain at lf = rw (chomp_id (c ∷ user ++ (b'@' ∷ d ∷ domain)) lf) (
    rw (contains_none (c ∷ user ++ (b'@' ∷ d ∷ domain)) lf) (rw (at_domain_first user domain d at)))

split-dot : (a s : Text) → Without b'.' a → split b'.' (a ++ (b'.' ∷ s)) ≡ a ∷ split b'.' s
unfolding split
split-dot [] s h = refl
split-dot (c ∷ a) s h = ground (arith, split-dot a s h.1)

split_whole : (a : Text) → Without b'.' a → split b'.' a ≡ a ∷ []
unfolding split
split_whole [] h = refl
split_whole (c ∷ a) h = ground (arith, split_whole a h.1)

-- Four parts joined by dots keep the first two.
pub mask_ip_keeps_two :
    (a b c d : Text)
    → Without b'.' a
    → Without b'.' b
    → Without b'.' c
    → Without b'.' d
    → mask_ip_text (a ++ (b'.' ∷ b ++ (b'.' ∷ c ++ (b'.' ∷ d)))) ≡ a ++ (b'.' ∷ b ++ codes ".*.*")
unfolding mask_ip_text
mask_ip_keeps_two a b c d ha hb hc hd = rw (
  split-dot a (b ++ (b'.' ∷ c ++ (b'.' ∷ d))) ha,
  split-dot b (c ++ (b'.' ∷ d)) hb,
  split-dot c d hc,
  split_whole d hd,
)
