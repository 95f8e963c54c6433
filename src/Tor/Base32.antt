-- ===== src/Tor/Base32.antt =====
-- `encoding/base32` as internal/tor/onion.go uses it: the standard alphabet, no padding. An `|` of
-- disjoint bits is a sum, and a byte's shifts are products and quotients.
pub mod RoundTrip
use tor_gateway.Base.{
  ℕ, ◌+◌, ◌-◌, ◌*◌, ◌/◌, ◌%◌, ◌<◌, Bool, true, false, Option, none, some, List, [], ◌∷◌, ◌++◌,
  Bytes, map, select, eqb, leb, ltb, if◌then◌else◌, ◌&&◌, ◌||◌, not,
}

-- The character of a digit below 32: A to Z, then 2 to 7.
abbrev pub encode_digit : ℕ → ℕ
encode_digit d = if ltb d 26 then d + b'A' else d + 24

abbrev pub decode_char : ℕ → Option ℕ
decode_char c =
    if leb b'A' c && leb c b'Z'
    then some (c - b'A')
    else if leb b'2' c && leb c b'7'
    then some (c - 24)
    else none

-- The digits of the bytes, five bits each; a last group of less than five bytes is filled with
-- zero bits.
pub to_digits : Bytes → List ℕ
to_digits (a ∷ b ∷ c ∷ d ∷ e ∷ rest) =
    (a / 8)
    ∷ (a % 8 * 4 + b / 64)
    ∷ (b / 2 % 32)
    ∷ (b % 2 * 16 + c / 16)
    ∷ (c % 16 * 2 + d / 128)
    ∷ (d / 4 % 32)
    ∷ (d % 4 * 8 + e / 32)
    ∷ (e % 32)
    ∷ to_digits rest
to_digits (a ∷ b ∷ c ∷ d ∷ []) =
    (a / 8)
    ∷ (a % 8 * 4 + b / 64)
    ∷ (b / 2 % 32)
    ∷ (b % 2 * 16 + c / 16)
    ∷ (c % 16 * 2 + d / 128)
    ∷ (d / 4 % 32)
    ∷ (d % 4 * 8)
    ∷ []
to_digits (a ∷ b ∷ c ∷ []) =
    (a / 8) ∷ (a % 8 * 4 + b / 64) ∷ (b / 2 % 32) ∷ (b % 2 * 16 + c / 16) ∷ (c % 16 * 2) ∷ []
to_digits (a ∷ b ∷ []) = (a / 8) ∷ (a % 8 * 4 + b / 64) ∷ (b / 2 % 32) ∷ (b % 2 * 16) ∷ []
to_digits (a ∷ []) = (a / 8) ∷ (a % 8 * 4) ∷ []
to_digits [] = []

-- The bytes of the digits. What a last group of less than eight digits does not fill is dropped.
pub from_digits : List ℕ → Bytes
from_digits (p ∷ q ∷ r ∷ s ∷ t ∷ u ∷ v ∷ w ∷ rest) =
    (p * 8 + q / 4)
    ∷ (q % 4 * 64 + r * 2 + s / 16)
    ∷ (s % 16 * 16 + t / 2)
    ∷ (t % 2 * 128 + u * 4 + v / 8)
    ∷ (v % 8 * 32 + w)
    ∷ from_digits rest
from_digits (p ∷ q ∷ r ∷ s ∷ t ∷ u ∷ v ∷ []) =
    (p * 8 + q / 4)
    ∷ (q % 4 * 64 + r * 2 + s / 16)
    ∷ (s % 16 * 16 + t / 2)
    ∷ (t % 2 * 128 + u * 4 + v / 8)
    ∷ []
from_digits (p ∷ q ∷ r ∷ s ∷ t ∷ []) =
    (p * 8 + q / 4) ∷ (q % 4 * 64 + r * 2 + s / 16) ∷ (s % 16 * 16 + t / 2) ∷ []
from_digits (p ∷ q ∷ r ∷ s ∷ t ∷ u ∷ []) = []
from_digits (p ∷ q ∷ r ∷ s ∷ []) = (p * 8 + q / 4) ∷ (q % 4 * 64 + r * 2 + s / 16) ∷ []
from_digits (p ∷ q ∷ r ∷ []) = []
from_digits (p ∷ q ∷ []) = (p * 8 + q / 4) ∷ []
from_digits _ = []

abbrev pub cons_digit : Option ℕ → Option (List ℕ) → Option (List ℕ)
cons_digit none ds = none
cons_digit (some d) none = none
cons_digit (some d) (some ds) = some (d ∷ ds)

-- A character outside the alphabet spoils the text.
pub decode_chars : Bytes → Option (List ℕ)
decode_chars [] = some []
decode_chars (c ∷ s) = cons_digit (decode_char c) (decode_chars s)

-- The decoder skips line breaks.
abbrev pub not_newline : ℕ → Bool
not_newline c = not (eqb c 10 || eqb c 13)

unfoldable pub encode_to_string : Bytes → Bytes
unfolding to_digits
encode_to_string bs = map encode_digit (to_digits bs)

abbrev decoded : Option (List ℕ) → Option Bytes
decoded none = none
decoded (some ds) = some (from_digits ds)

unfoldable pub decode_string : Bytes → Option Bytes
unfolding from_digits decode_chars
decode_string s = decoded (decode_chars (select not_newline s))
