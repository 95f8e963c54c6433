-- ===== src/Tor/Base32/RoundTrip.antt =====
-- The base32 coding of internal/tor/onion.go, both ways.
use tor_gateway.Base.{
  ℕ, suc, ◌≤◌, ◌-◌, ◌*◌, ◌<◌, ◌≡◌, refl, sym, ap, ◌∙◌, Bool, true, Option, none, some, List, [],
  ◌∷◌, Bytes, All, All-map, All-imp, length-map, map, length, select, if◌then◌else◌, Bool-cases,
  inl, inr, arith,
}
use tor_gateway.Tor.Base32.{
  encode_digit, decode_char, to_digits, from_digits, decode_chars, not_newline, encode_to_string,
  decode_string, cons_digit, decoded,
}

-- The bytes are bytes, and the digits five bits.
abbrev pub IsByte : ℕ → Type 0
IsByte b = b < 256

abbrev IsDigit : ℕ → Type 0
IsDigit d = d < 32

decode_char-encode_digit : (d : ℕ) → IsDigit d → decode_char (encode_digit d) ≡ some d
decode_char-encode_digit d h = ground arith

not_newline-encode_digit : (d : ℕ) → IsDigit d → not_newline (encode_digit d) ≡ true
not_newline-encode_digit d h = ground arith

decode_chars-encode :
    (ds : List ℕ)
    → All IsDigit ds
    → decode_chars (select not_newline (map encode_digit ds)) ≡ some ds
unfolding decode_chars
decode_chars-encode [] h = refl
decode_chars-encode (d ∷ ds) (h, hs) =
    rw (not_newline-encode_digit d h, if◌then◌else◌)
      (rw (decode_char-encode_digit d h, decode_chars-encode ds hs))

to_digits-IsDigit : (bs : Bytes) → All IsByte bs → All IsDigit (to_digits bs)
unfolding to_digits
to_digits-IsDigit (a ∷ b ∷ c ∷ d ∷ e ∷ rest) (ha, (hb, (hc, (hd, (he, h))))) =
    let more = to_digits-IsDigit rest h in
    (
      omega arith,
      (
        omega arith,
        (
          omega arith,
          (omega arith, (omega arith, (omega arith, (omega arith, (omega arith, more))))),
        ),
      ),
    )
to_digits-IsDigit (a ∷ b ∷ c ∷ d ∷ []) h = omega arith
to_digits-IsDigit (a ∷ b ∷ c ∷ []) h = omega arith
to_digits-IsDigit (a ∷ b ∷ []) h = omega arith
to_digits-IsDigit (a ∷ []) h = omega arith
to_digits-IsDigit [] h = tt

cons_five :
    {a a' b b' c c' d d' e e' : ℕ} {xs ys : List ℕ}
    → a ≡ a'
    → b ≡ b'
    → c ≡ c'
    → d ≡ d'
    → e ≡ e'
    → xs ≡ ys
    → ◌≡◌ {A = List ℕ} (a ∷ b ∷ c ∷ d ∷ e ∷ xs) (a' ∷ b' ∷ c' ∷ d' ∷ e' ∷ ys)
cons_five p q r s t u = λ i. p i ∷ q i ∷ r i ∷ s i ∷ t i ∷ u i

from_digits-to_digits : (bs : Bytes) → All IsByte bs → from_digits (to_digits bs) ≡ bs
unfolding to_digits from_digits
from_digits-to_digits (a ∷ b ∷ c ∷ d ∷ e ∷ rest) (ha, (hb, (hc, (hd, (he, h))))) =
    cons_five (omega arith) (omega arith) (omega arith) (omega arith) (omega arith)
      (from_digits-to_digits rest h)
from_digits-to_digits (a ∷ b ∷ c ∷ d ∷ []) h = ground arith
from_digits-to_digits (a ∷ b ∷ c ∷ []) h = ground arith
from_digits-to_digits (a ∷ b ∷ []) h = ground arith
from_digits-to_digits (a ∷ []) h = ground arith
from_digits-to_digits [] h = refl

-- Decoding an encoding gives the bytes back.
pub decode_string-encode_to_string :
    (bs : Bytes) → All IsByte bs → decode_string (encode_to_string bs) ≡ some bs
unfolding decode_string encode_to_string
decode_string-encode_to_string bs h =
    rw (decode_chars-encode (to_digits bs) (to_digits-IsDigit bs h))
      (ap {B = Option Bytes} some (from_digits-to_digits bs h))

encode_digit-decode_char : (c d : ℕ) → decode_char c ≡ some d → (encode_digit d ≡ c) × IsDigit d
encode_digit-decode_char c d e = ground arith

cons_digit-inv :
    (o : Option ℕ) (r : Option (List ℕ)) (ds : List ℕ)
    → cons_digit o r ≡ some ds
    → (d : ℕ) × (more : List ℕ) × (o ≡ some d) × (r ≡ some more) × (ds ≡ d ∷ more)
cons_digit-inv none r ds e = cc
cons_digit-inv (some d) none ds e = cc
cons_digit-inv (some d) (some more) ds e = (d, more, refl, refl, cc)

-- What a decoded text was: the characters of its digits.
chars_of_digits :
    (s : Bytes) (ds : List ℕ)
    → decode_chars s ≡ some ds
    → (map encode_digit ds ≡ s) × (All IsDigit ds) × (length ds ≡ length s)
unfolding decode_chars
chars_of_digits [] [] e = (refl, tt, refl)
chars_of_digits [] (d ∷ ds) e = cc
chars_of_digits (c ∷ s) ds e =
    let (d, more, p, q, r) = cons_digit-inv (decode_char c) (decode_chars s) ds e in
    let (same, small) = encode_digit-decode_char c d p in
    let (rest, digits, len) = chars_of_digits s more q in
    rw r (λ i. same i ∷ rest i, (small, digits), ap suc len)

cons_eight :
    {a a' b b' c c' d d' e e' f f' g g' h h' : ℕ} {xs ys : List ℕ}
    → a ≡ a'
    → b ≡ b'
    → c ≡ c'
    → d ≡ d'
    → e ≡ e'
    → f ≡ f'
    → g ≡ g'
    → h ≡ h'
    → xs ≡ ys
    → ◌≡◌ {A = List ℕ}
        (a ∷ b ∷ c ∷ d ∷ e ∷ f ∷ g ∷ h ∷ xs)
        (a' ∷ b' ∷ c' ∷ d' ∷ e' ∷ f' ∷ g' ∷ h' ∷ ys)
cons_eight p q r s t u v w x = λ i. p i ∷ q i ∷ r i ∷ s i ∷ t i ∷ u i ∷ v i ∷ w i ∷ x i

to_digits-from_digits :
    (n : ℕ) (ds : List ℕ) → All IsDigit ds → length ds ≡ n * 8 → to_digits (from_digits ds) ≡ ds
unfolding to_digits from_digits
to_digits-from_digits n (p ∷ q ∷ r ∷ s ∷ t ∷ u ∷ v ∷ w ∷ ds)
      (hp, (hq, (hr, (hs, (ht, (hu, (hv, (hw, h)))))))) e =
    cons_eight (omega arith) (omega arith) (omega arith) (omega arith) (omega arith) (omega arith)
      (omega arith) (omega arith) (to_digits-from_digits (n - 1) ds h (omega arith))
to_digits-from_digits n [] h e = refl
to_digits-from_digits n (p ∷ []) h e = absurd (omega arith)
to_digits-from_digits n (p ∷ q ∷ []) h e = absurd (omega arith)
to_digits-from_digits n (p ∷ q ∷ r ∷ []) h e = absurd (omega arith)
to_digits-from_digits n (p ∷ q ∷ r ∷ s ∷ []) h e = absurd (omega arith)
to_digits-from_digits n (p ∷ q ∷ r ∷ s ∷ t ∷ []) h e = absurd (omega arith)
to_digits-from_digits n (p ∷ q ∷ r ∷ s ∷ t ∷ u ∷ []) h e = absurd (omega arith)
to_digits-from_digits n (p ∷ q ∷ r ∷ s ∷ t ∷ u ∷ v ∷ []) h e = absurd (omega arith)

-- Five bytes for eight digits at most.
length-from_digits : (ds : List ℕ) → length (from_digits ds) * 8 ≤ length ds * 5
unfolding from_digits
length-from_digits (p ∷ q ∷ r ∷ s ∷ t ∷ u ∷ v ∷ w ∷ ds) = omega (arith, length-from_digits ds)
length-from_digits [] = omega arith
length-from_digits (p ∷ []) = omega arith
length-from_digits (p ∷ q ∷ []) = omega arith
length-from_digits (p ∷ q ∷ r ∷ []) = omega arith
length-from_digits (p ∷ q ∷ r ∷ s ∷ []) = omega arith
length-from_digits (p ∷ q ∷ r ∷ s ∷ t ∷ []) = omega arith
length-from_digits (p ∷ q ∷ r ∷ s ∷ t ∷ u ∷ []) = omega arith
length-from_digits (p ∷ q ∷ r ∷ s ∷ t ∷ u ∷ v ∷ []) = omega arith

from_digits-IsByte : (ds : List ℕ) → All IsDigit ds → All IsByte (from_digits ds)
unfolding from_digits
from_digits-IsByte (p ∷ q ∷ r ∷ s ∷ t ∷ u ∷ v ∷ w ∷ ds)
      (hp, (hq, (hr, (hs, (ht, (hu, (hv, (hw, h)))))))) =
    (
      omega arith,
      (omega arith, (omega arith, (omega arith, (omega arith, from_digits-IsByte ds h)))),
    )
from_digits-IsByte [] h = tt
from_digits-IsByte (p ∷ []) h = tt
from_digits-IsByte (p ∷ q ∷ []) h = omega arith
from_digits-IsByte (p ∷ q ∷ r ∷ []) h = tt
from_digits-IsByte (p ∷ q ∷ r ∷ s ∷ []) h = omega arith
from_digits-IsByte (p ∷ q ∷ r ∷ s ∷ t ∷ []) h = omega arith
from_digits-IsByte (p ∷ q ∷ r ∷ s ∷ t ∷ u ∷ []) h = tt
from_digits-IsByte (p ∷ q ∷ r ∷ s ∷ t ∷ u ∷ v ∷ []) h = omega arith

length-to_digits : (n : ℕ) (bs : Bytes) → length bs ≡ n * 5 → length (to_digits bs) ≡ n * 8
unfolding to_digits
length-to_digits n (a ∷ b ∷ c ∷ d ∷ e ∷ rest) h = omega (arith, length-to_digits (n - 1) rest)
length-to_digits n [] h = omega arith
length-to_digits n (a ∷ []) h = absurd (omega arith)
length-to_digits n (a ∷ b ∷ []) h = absurd (omega arith)
length-to_digits n (a ∷ b ∷ c ∷ []) h = absurd (omega arith)
length-to_digits n (a ∷ b ∷ c ∷ d ∷ []) h = absurd (omega arith)

-- Eight characters for each five bytes, each of them the character of a digit.
pub encode_to_string_chars :
    (n : ℕ) (bs : Bytes) (P : ℕ → Type 0)
    → All IsByte bs
    → length bs ≡ n * 5
    → ((d : ℕ) → d < 32 → P (encode_digit d))
    → (length (encode_to_string bs) ≡ n * 8) × All P (encode_to_string bs)
unfolding encode_to_string
encode_to_string_chars n bs P h e f = (
  length-map encode_digit (to_digits bs) ∙ length-to_digits n bs e,
  All-map P encode_digit (to_digits bs)
      (All-imp IsDigit (λ d. P (encode_digit d)) (to_digits bs) f (to_digits-IsDigit bs h)),
)

length-select-le : (p : ℕ → Bool) (s : Bytes) → length (select p s) ≤ length s
length-select-le p [] = omega arith
length-select-le p (c ∷ s) = ground (arith, length-select-le p s)

select_whole : (p : ℕ → Bool) (s : Bytes) → length (select p s) ≡ length s → select p s ≡ s
select_whole p [] e = refl
select_whole p (c ∷ s) e = elim (Bool-cases (p c)) [
  | inl h ↦
      rw (h, if◌then◌else◌)
        (ap (λ (l : Bytes). c ∷ l) (select_whole p s (omega (arith, rw (h, if◌then◌else◌) at e))))
  | inr h ↦ absurd (omega (arith, length-select-le p s, rw (h, if◌then◌else◌) at e))
]

-- A text that decodes without loss, to five bytes for each eight of its characters, is the encoding
-- of these bytes.
pub encode_to_string-decode_string :
    (n : ℕ) (s bs : Bytes)
    → decode_string s ≡ some bs
    → length s ≡ n * 8
    → length bs ≡ n * 5
    → (encode_to_string bs ≡ s) × All IsByte bs
unfolding decode_string encode_to_string
encode_to_string-decode_string n s bs e len len' =
    by_digits (decode_chars (select not_newline s)) refl e
  where
    by_digits :
        (o : Option (List ℕ))
        → decode_chars (select not_newline s) ≡ o
        → decoded o ≡ some bs
        → (map encode_digit (to_digits bs) ≡ s) × All IsByte bs
    by_digits none q e = cc
    by_digits (some ds) q e =
        let (chars, digits, count) = chars_of_digits (select not_newline s) ds q in
        let same : from_digits ds ≡ bs = cc in
        let counted : length (from_digits ds) ≡ length bs = ap length same in
        let full : length ds ≡ n * 8 =
          omega (arith, length-from_digits ds, length-select-le not_newline s) in
        (
          ap (λ (l : Bytes). map encode_digit (to_digits l)) (sym same)
              ∙ ap (map encode_digit) (to_digits-from_digits n ds digits full)
              ∙ chars
              ∙ select_whole not_newline s (omega arith),
          rw (← same) (from_digits-IsByte ds digits),
        )
