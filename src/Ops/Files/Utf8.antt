-- ===== src/Ops/Files/Utf8.antt =====
-- A text is read back from its UTF-8 bytes.
use minisign_rs.Base.{
  Bool-cases, ℕ, suc, ◌+◌, ◌-◌, ◌*◌, ◌/◌, ◌%◌, ◌≤◌, ◌<◌, ◌≡◌, refl, ap, ◌∙◌, ◌⊎◌, inl, inr, Option,
  some, [], ◌∷◌, ◌++◌, arith, ltb, All, Bytes, Text, utf8_char, utf8,
}
use minisign_rs.Errors.{FilePath, ok}
use minisign_rs.Ops.Files.{utf8_text}
use minisign_rs.Ops.Files.Decode.{utf8_start, utf8_lead, utf8_next, emit, from_utf8_from, from_utf8}

-- `char`: a code point that is no surrogate.
abbrev pub IsScalar : ℕ → Type 0
IsScalar c = (c < 0xd800) ⊎ ((0xe000 ≤ c) × (c < 0x110000))

-- The next byte of a character is taken, and more are awaited.
taken :
    (need acc lo hi b : ℕ) (bs : Bytes)
    → lo ≤ b
    → b ≤ hi
    → from_utf8_from (record { need = suc (suc need); acc = acc; lo = lo; hi = hi }) (b ∷ bs)
      ≡ from_utf8_from
          (record { need = suc need; acc = acc * 64 + (b - 0x80); lo = 0x80; hi = 0xbf })
          bs
unfolding from_utf8_from utf8_next
taken need acc lo hi b bs p q = ground arith

-- The last byte of a character is taken.
last_taken :
    (acc lo hi b : ℕ) (bs : Bytes)
    → lo ≤ b
    → b ≤ hi
    → from_utf8_from (record { need = 1; acc = acc; lo = lo; hi = hi }) (b ∷ bs)
      ≡ emit (some (acc * 64 + (b - 0x80))) (from_utf8_from utf8_start bs)
unfolding from_utf8_from utf8_next
last_taken acc lo hi b bs p q = ground arith

lead_two :
    (b : ℕ) (bs : Bytes)
    → 0xc2 ≤ b
    → b ≤ 0xdf
    → from_utf8_from utf8_start (b ∷ bs)
      ≡ from_utf8_from (record { need = 1; acc = b - 0xc0; lo = 0x80; hi = 0xbf }) bs
unfolding from_utf8_from utf8_lead
lead_two b bs p q = ground arith

lead_three :
    (b c : ℕ) (bs : Bytes)
    → 0xe0 ≤ b
    → b ≤ 0xef
    → 0x80 ≤ c
    → c ≤ 0xbf
    → (b ≡ 0xe0 → 0xa0 ≤ c)
    → (b ≡ 0xed → c ≤ 0x9f)
    → from_utf8_from utf8_start (b ∷ c ∷ bs)
      ≡ from_utf8_from
          (record { need = 1; acc = (b - 0xe0) * 64 + (c - 0x80); lo = 0x80; hi = 0xbf })
          bs
unfolding from_utf8_from utf8_lead utf8_next
lead_three b c bs p q r s low surrogate = ground arith

lead_four :
    (b c : ℕ) (bs : Bytes)
    → 0xf0 ≤ b
    → b ≤ 0xf4
    → 0x80 ≤ c
    → c ≤ 0xbf
    → (b ≡ 0xf0 → 0x90 ≤ c)
    → (b ≡ 0xf4 → c ≤ 0x8f)
    → from_utf8_from utf8_start (b ∷ c ∷ bs)
      ≡ from_utf8_from
          (record { need = 2; acc = (b - 0xf0) * 64 + (c - 0x80); lo = 0x80; hi = 0xbf })
          bs
unfolding from_utf8_from utf8_lead utf8_next
lead_four b c bs p q r s low high = ground arith

abbrev rest_of : ℕ → Bytes → Option Text
rest_of c rest = emit (some c) (from_utf8_from utf8_start rest)

two_bytes :
    (c : ℕ) (rest : Bytes)
    → 0x80 ≤ c
    → c < 0x800
    → from_utf8_from utf8_start ((192 + c / 64) ∷ (128 + c % 64) ∷ rest) ≡ rest_of c rest
two_bytes c rest p q =
    let value : ((192 + c / 64) - 0xc0) * 64 + ((128 + c % 64) - 0x80) ≡ c = omega arith in
    lead_two (192 + c / 64) ((128 + c % 64) ∷ rest) (omega arith) (omega arith)
    ∙ last_taken ((192 + c / 64) - 0xc0) 0x80 0xbf (128 + c % 64) rest (omega arith) (omega arith)
    ∙ ap (λ n. rest_of n rest) value

three_bytes :
    (c : ℕ) (rest : Bytes)
    → 0x800 ≤ c
    → c < 0x10000
    → IsScalar c
    → from_utf8_from utf8_start ((224 + c / 4096) ∷ (128 + c / 64 % 64) ∷ (128 + c % 64) ∷ rest)
      ≡ rest_of c rest
three_bytes c rest p q h =
    let b = 224 + c / 4096 in
    let d = 128 + c / 64 % 64 in
    let e = 128 + c % 64 in
    let value : ((b - 0xe0) * 64 + (d - 0x80)) * 64 + (e - 0x80) ≡ c = omega arith in
    lead_three b d (e ∷ rest) (omega arith) (omega arith) (omega arith) (omega arith)
      (λ low. omega arith) (λ high. omega arith)
    ∙ last_taken ((b - 0xe0) * 64 + (d - 0x80)) 0x80 0xbf e rest (omega arith) (omega arith)
    ∙ ap (λ n. rest_of n rest) value

four_bytes :
    (c : ℕ) (rest : Bytes)
    → 0x10000 ≤ c
    → c < 0x110000
    → from_utf8_from utf8_start
        ((240 + c / 262144) ∷ (128 + c / 4096 % 64) ∷ (128 + c / 64 % 64) ∷ (128 + c % 64) ∷ rest)
      ≡ rest_of c rest
four_bytes c rest p q =
    let b = 240 + c / 262144 in
    let d = 128 + c / 4096 % 64 in
    let e = 128 + c / 64 % 64 in
    let f = 128 + c % 64 in
    let top = (b - 0xf0) * 64 + (d - 0x80) in
    let value : (top * 64 + (e - 0x80)) * 64 + (f - 0x80) ≡ c = omega arith in
    lead_four b d (e ∷ f ∷ rest) (omega arith) (omega arith) (omega arith) (omega arith)
      (λ low. omega arith) (λ high. omega arith)
    ∙ taken 0 top 0x80 0xbf e (f ∷ rest) (omega arith) (omega arith)
    ∙ last_taken (top * 64 + (e - 0x80)) 0x80 0xbf f rest (omega arith) (omega arith)
    ∙ ap (λ n. rest_of n rest) value

-- One character and the text behind it.
from_utf8_from-utf8_char :
    (c : ℕ) (rest : Bytes)
    → IsScalar c
    → from_utf8_from utf8_start (utf8_char c ++ rest) ≡ rest_of c rest
unfolding utf8_char
from_utf8_from-utf8_char c rest h = elim (Bool-cases (ltb c 0x80)) [
  | inl one ↦ rw one (unfold from_utf8_from utf8_lead in ground arith)
  | inr more ↦ elim (Bool-cases (ltb c 0x800)) [
    | inl two ↦ rw (more, two) (two_bytes c rest (ground arith) (ground arith))
    | inr many ↦ elim (Bool-cases (ltb c 0x10000)) [
      | inl three ↦ rw (more, many, three) (three_bytes c rest (ground arith) (ground arith) h)
      | inr four ↦ rw (more, many, four) (four_bytes c rest (ground arith) (ground arith))
    ]
  ]
]

pub from_utf8-utf8 : (s : Text) → All IsScalar s → from_utf8 (utf8 s) ≡ some s
unfolding from_utf8 utf8
from_utf8-utf8 [] h = unfold from_utf8_from in refl
from_utf8-utf8 (c ∷ s) h =
    from_utf8_from-utf8_char c (utf8 s) h.0 ∙ ap (emit (some c)) (from_utf8-utf8 s h.1)

-- A text is read back: `utf8_text` of the UTF-8 bytes of any text, of characters of every length,
-- is the text again.
pub utf8_text-utf8 : (s : Text) (path : FilePath) → All IsScalar s → utf8_text (utf8 s) path ≡ ok s
unfolding utf8_text
utf8_text-utf8 s path h = rw (from_utf8-utf8 s h, utf8_text) refl
