-- ===== src/Domain/Address.antt =====
-- crates/katpool-domain/src/address.rs: a wallet address is checked by prefix, length and alphabet.
-- A text is the list of its bytes, so an error names the first bad byte where the source names the
-- character that it belongs to.
use mathlib.Core.List.{Mem, mem-cons_self, mem-cons_of_mem}
use zkas_pool.Base.{
  ℕ, ◌≤◌, ◌≡◌, Bool, true, List, [], ◌∷◌, ◌++◌, Option, none, some, ◌&&◌, ◌||◌, arith, leb, ltb,
  length, All, if◌then◌else◌, inl, inr, Option-cases,
}
use zkas_pool.Base.Text.{codes, strip_prefix, strip_prefix-append}
use zkas_pool.Base.Results.{Result, ok, err}

abbrev pub accepted_prefixes : List (List ℕ)
accepted_prefixes =
    codes "zkastest:"
    ∷ codes "zkassim:"
    ∷ codes "zkasdev:"
    ∷ codes "zkas:"
    ∷ codes "firecashtest:"
    ∷ codes "firecashsim:"
    ∷ codes "firecashdev:"
    ∷ codes "firecash:"
    ∷ codes "kaspatest:"
    ∷ codes "kaspa:"
    ∷ []

abbrev pub min_total_len : ℕ
min_total_len = 13

abbrev pub max_total_len : ℕ
max_total_len = 110

pub data AddressError : Type 0 where
  invalid_prefix : AddressError
  too_short too_long invalid_character : ℕ → AddressError

unfoldable pub is_body_char : ℕ → Bool
is_body_char c = leb b'a' c && leb c b'z' || leb b'0' c && leb c b'9'

-- `prefixes.iter().find_map(|p| s.strip_prefix(p))`
find_body : List (List ℕ) → List ℕ → Option (List ℕ)
find_body [] s = none
find_body (p ∷ ps) s = elim (strip_prefix p s) [ some body ↦ some body | none ↦ find_body ps s ]

check_body : List ℕ → List ℕ → Result AddressError (List ℕ)
check_body s [] = ok s
check_body s (c ∷ cs) = if is_body_char c then check_body s cs else err (invalid_character c)

-- `WalletAddress::new`
unfoldable pub new : List ℕ → Result AddressError (List ℕ)
unfolding find_body check_body is_body_char
new s = elim (find_body accepted_prefixes s) [
  | none ↦ err invalid_prefix
  | some body ↦
      if ltb (length s) min_total_len
      then err (too_short (length s))
      else if ltb max_total_len (length s)
      then err (too_long (length s))
      else check_body s body
]

find_body_sound :
    (ps : List (List ℕ)) (s : List ℕ) {body : List ℕ}
    → find_body ps s ≡ some body
    → (p : List ℕ) × Mem p ps × (s ≡ p ++ body)
unfolding find_body
find_body_sound [] s h = ground arith
find_body_sound (p ∷ ps) s {body} h = elim (Option-cases (strip_prefix p s)) [
  | inl miss ↦
      let (q, m, e) = find_body_sound ps s {body = body} (ground arith) in
      (q, mem-cons_of_mem p m, e)
  | inr (rest, hit) ↦ (p, mem-cons_self, strip_prefix-append p s {rest = body} (ground arith))
]

check_body_sound :
    (s body : List ℕ) {t : List ℕ}
    → check_body s body ≡ ok t
    → (t ≡ s) × All (λ c. is_body_char c ≡ true) body
unfolding check_body
check_body_sound s [] h = ground arith
check_body_sound s (c ∷ cs) {t} h = ground (arith, check_body_sound s cs {t = t})

-- An accepted address is the text itself; it is one of the accepted prefixes followed by lower-case
-- letters and digits, and its length lies within the two bounds.
pub new_sound :
    (s : List ℕ) {t : List ℕ}
    → new s ≡ ok t
    → (t ≡ s)
      × (min_total_len ≤ length s)
      × (length s ≤ max_total_len)
      × ((p : List ℕ) × (body : List ℕ) × Mem p accepted_prefixes
          × (s ≡ p ++ body)
          × All (λ c. is_body_char c ≡ true) body)
unfolding new
new_sound s {t} h = elim (Option-cases (find_body accepted_prefixes s)) [
  | inl miss ↦ cc (rw (miss, new) at h)
  | inr (body, hit) ↦
      let (p, m, e) = find_body_sound accepted_prefixes s {body = body} hit in
      let c : check_body s body ≡ ok t = ground arith in
      let sound = check_body_sound s body {t = t} c in
      (sound.0, ground arith, ground arith, (p, body, m, e, sound.1))
]
