-- ===== src/Gateway/Mac.antt =====
-- The hardware address, src/gateway.rs: `parse_mac` reads what `run` prints.
use trans_proxy.Base.{
  ℕ, ◌+◌, ◌*◌, ◌/◌, ◌%◌, ◌<◌, ◌≡◌, refl, ap, ◌∙◌, true, false, [], ◌∷◌, ◌++◌, map, arith, ltb, ◌==◌,
  Bytes, length, some, ret, length-map,
}
use trans_proxy.Config.{split, prepend, join_words}
use trans_proxy.Gateway.{
  hex_value, hex_digits, from_hex, parse_octets, parse_mac, hex_digit, hex_octet, show_mac,
}

abbrev pub AreOctets : Bytes → Type 0
AreOctets [] = Unit
AreOctets (o ∷ os) = (o < 256) × AreOctets os

hex_value-digit : (d : ℕ) → d < 16 → hex_value (hex_digit d) ≡ some d
unfolding hex_value hex_digit
hex_value-digit d lt = ground arith

digit_is_no_mark : (d : ℕ) → d < 16 → ((hex_digit d == 58) ≡ false) × ((hex_digit d == 43) ≡ false)
unfolding hex_digit
digit_is_no_mark d lt = ground arith

from_hex-octet : (o : ℕ) → o < 256 → from_hex 256 (hex_octet o) ≡ ret o
unfolding from_hex hex_octet hex_digits
from_hex-octet o lt =
    let in_range : ltb (0 * 16 + o / 16) 256 ≡ true = ground arith in
    let all_range : ltb ((0 * 16 + o / 16) * 16 + o % 16) 256 ≡ true = ground arith in
    rw
      (
        (digit_is_no_mark (o / 16) (omega arith)).1,
        hex_digits,
        hex_value-digit (o / 16) (omega arith),
        hex_value-digit (o % 16) (omega arith),
      )
      (ground arith)

-- The octets as they are printed, with what stands behind them.
split-octet :
    (o : ℕ) (rest : Bytes)
    → o < 256
    → split 58 (hex_octet o ++ 58 ∷ rest) ≡ hex_octet o ∷ split 58 rest
unfolding split prepend hex_octet
split-octet o rest lt =
    rw ((digit_is_no_mark (o / 16) (omega arith)).0, (digit_is_no_mark (o % 16) (omega arith)).0)
      refl

split-last_octet : (o : ℕ) → o < 256 → split 58 (hex_octet o) ≡ hex_octet o ∷ []
unfolding split prepend hex_octet
split-last_octet o lt =
    rw ((digit_is_no_mark (o / 16) (omega arith)).0, (digit_is_no_mark (o % 16) (omega arith)).0)
      refl

split-octets :
    (o : ℕ) (os : Bytes)
    → AreOctets (o ∷ os)
    → split 58 (join_words 58 (map hex_octet (o ∷ os))) ≡ map hex_octet (o ∷ os)
unfolding join_words
split-octets o [] (lt, h) = split-last_octet o lt
split-octets o (p ∷ os) (lt, h) =
    split-octet o (join_words 58 (map hex_octet (p ∷ os))) lt
    ∙ ap (◌∷◌ (hex_octet o)) (split-octets p os h)

parse_octets-hex : (os : Bytes) → AreOctets os → parse_octets (map hex_octet os) ≡ ret os
unfolding parse_octets
parse_octets-hex [] h = refl
parse_octets-hex (o ∷ os) (lt, h) = rw (from_hex-octet o lt, parse_octets-hex os h) refl

-- A hardware address of six octets is read back from the text in which it is printed.
pub parse_mac-show :
    (mac : Bytes) → length mac ≡ 6 → AreOctets mac → parse_mac (show_mac mac) ≡ ret mac
unfolding parse_mac show_mac
parse_mac-show [] six h = absurd (omega arith)
parse_mac-show (o ∷ os) six h =
    let count : length (map hex_octet (o ∷ os)) ≡ 6 = length-map (o ∷ os) hex_octet ∙ six in
    rw (split-octets o os h, count, parse_octets-hex (o ∷ os) h) refl
