-- ===== src/Crypto/KeyId.antt =====
-- The printed key identifier of rs/src/crypto.rs can be read back.
use minisign_rs.Base.{
  ℕ, zero, suc, ◌+◌, ◌-◌, ◌*◌, ◌/◌, ◌%◌, ◌^◌, ◌<◌, ◌≡◌, refl, sym, ap, ◌∙◌, ◌||◌, [], ◌∷◌, ◌++◌,
  arith, ltb, leb, if◌then◌else◌, length, length-append, All, All-append, Bytes, Text, true, ◌&&◌,
  IsByte, append_assoc,
}
use mathlib.Core.List.{reverse, reverse-cons}
use minisign_rs.Formats.{from_le_bytes, to_le_bytes}
use minisign_rs.Formats.LittleEndian.{from_le_bytes-lt, to_le_bytes-from_le_bytes}
use minisign_rs.Crypto.{KeyNum, IsKeyNum, hex_digit, hex_number, to_hex_bytes, to_hex, to_key_id}

-- The value of an upper-case hexadecimal digit, and of a text of such.
abbrev pub digit_value : ℕ → ℕ
digit_value c = if ltb c 58 then c - 48 else c - 55

abbrev pub read_hex_from : ℕ → Text → ℕ
read_hex_from acc [] = acc
read_hex_from acc (c ∷ cs) = read_hex_from (acc * 16 + digit_value c) cs

abbrev pub read_hex : Text → ℕ
read_hex = read_hex_from 0

abbrev pub IsHexDigit : ℕ → Type 0
IsHexDigit c = ((leb 48 c && leb c 57) || (leb 65 c && leb c 70)) ≡ true

digit_value-hex_digit : (d : ℕ) → d < 16 → digit_value (hex_digit d) ≡ d
unfolding hex_digit
digit_value-hex_digit d h = ground arith

hex_digit-IsHexDigit : (d : ℕ) → d < 16 → IsHexDigit (hex_digit d)
unfolding hex_digit
hex_digit-IsHexDigit d h = ground arith

read_hex_from-append :
    (s t : Text) (acc : ℕ) → read_hex_from acc (s ++ t) ≡ read_hex_from (read_hex_from acc s) t
read_hex_from-append [] t acc = refl
read_hex_from-append (c ∷ cs) t acc = read_hex_from-append cs t (acc * 16 + digit_value c)

-- Reading what was printed with `w` digits.
read_hex-hex_number : (w v : ℕ) → v < 16 ^ w → read_hex (hex_number w v) ≡ v
unfolding hex_number
read_hex-hex_number zero v h = omega arith
read_hex-hex_number (suc w) v h =
    read_hex_from-append (hex_number w (v / 16)) (hex_digit (v % 16) ∷ []) 0
    ∙ omega (
      arith,
      read_hex-hex_number w (v / 16) (omega arith),
      digit_value-hex_digit (v % 16) (omega arith),
    )

length-hex_number : (w v : ℕ) → length (hex_number w v) ≡ w
unfolding hex_number
length-hex_number zero v = refl
length-hex_number (suc w) v = omega (
  arith,
  length-append (hex_number w (v / 16)) (hex_digit (v % 16) ∷ []),
  length-hex_number w (v / 16),
)

hex_number-IsHexDigit : (w v : ℕ) → All IsHexDigit (hex_number w v)
unfolding hex_number
hex_number-IsHexDigit zero v = tt
hex_number-IsHexDigit (suc w) v =
    All-append IsHexDigit (hex_number w (v / 16)) (hex_digit (v % 16) ∷ [])
      (hex_number-IsHexDigit w (v / 16)) (hex_digit-IsHexDigit (v % 16) (omega arith), tt)

-- The key id of a key number is a text of 16 upper-case hexadecimal digits, and the eight bytes
-- are its value in little-endian order.
pub to_key_id_lem :
    (k : KeyNum)
    → IsKeyNum k
    → (length (to_key_id k) ≡ 16)
      × All IsHexDigit (to_key_id k)
      × (to_le_bytes 8 (read_hex (to_key_id k)) ≡ k.bytes)
unfolding to_key_id
to_key_id_lem k h =
    let v = from_le_bytes k.bytes in
    (
      length-hex_number 16 v,
      hex_number-IsHexDigit 16 v,
      ap (to_le_bytes 8) (read_hex-hex_number 16 v (from_le_bytes-lt 8 k.bytes h.0 h.1))
          ∙ ap (λ (n : ℕ). to_le_bytes n v) (sym h.0)
          ∙ to_le_bytes-from_le_bytes k.bytes h.1,
    )

hex_number_snoc :
    (w b v : ℕ)
    → b < 256
    → hex_number (suc (suc w)) (b + 256 * v) ≡ hex_number w v ++ to_hex_bytes (b ∷ [])
unfolding hex_number to_hex_bytes
hex_number_snoc w b v h =
    let tail : (b + 256 * v) / 16 / 16 ≡ v = omega arith in
    let high : (b + 256 * v) / 16 % 16 ≡ b / 16 = omega arith in
    let low : (b + 256 * v) % 16 ≡ b % 16 = omega arith in
    rw (tail, high, low) (append_assoc (hex_number w v) (hex_digit (b / 16) ∷ []) _)

to_hex_bytes-append : (s t : Bytes) → to_hex_bytes (s ++ t) ≡ to_hex_bytes s ++ to_hex_bytes t
unfolding to_hex_bytes
to_hex_bytes-append [] t = refl
to_hex_bytes-append (b ∷ bs) t = rw (to_hex_bytes-append bs t)

abbrev doubled : Bytes → ℕ
doubled [] = 0
doubled (b ∷ bs) = suc (suc (doubled bs))

doubled-eq : (bs : Bytes) → doubled bs ≡ length bs + length bs
doubled-eq [] = omega arith
doubled-eq (b ∷ bs) = omega (arith, doubled-eq bs)

hex_number-reverse :
    (bs : Bytes)
    → All IsByte bs
    → hex_number (doubled bs) (from_le_bytes bs) ≡ to_hex_bytes (reverse bs)
unfolding from_le_bytes
hex_number-reverse [] h = unfold hex_number to_hex_bytes in refl
hex_number-reverse (b ∷ bs) (hb, hbs) =
    hex_number_snoc (doubled bs) b (from_le_bytes bs) hb
    ∙ ap (λ s. s ++ to_hex_bytes (b ∷ [])) (hex_number-reverse bs hbs)
    ∙ sym (to_hex_bytes-append (reverse bs) (b ∷ []))
    ∙ ap to_hex_bytes (sym (reverse-cons b bs))

-- The key id shows the bytes in the opposite order to `to_hex`: it is what `to_hex` prints for
-- the reversed key number.
pub to_key_id-to_hex :
    (k : KeyNum) → IsKeyNum k → to_key_id k ≡ to_hex (record { bytes = reverse k.bytes })
unfolding to_key_id to_hex
to_key_id-to_hex k h =
    ap (λ (w : ℕ). hex_number w (from_le_bytes k.bytes)) (omega (arith, doubled-eq k.bytes, h.0))
    ∙ hex_number-reverse k.bytes h.1
