-- ===== src/Ops/Files/Decode.antt =====
-- `String::from_utf8` and `std::str::from_utf8` of the standard library, as a machine that
-- takes a byte at a time: the well-formed sequences of the Unicode standard, no others.
use minisign_rs.Base.{
  ℕ, zero, suc, ◌+◌, ◌-◌, ◌*◌, ◌&&◌, Option, none, some, [], ◌∷◌, ltb, leb, ◌==◌, if◌then◌else◌,
  Bytes, Text,
}

-- `need` more bytes of a character are awaited, the next one from `lo` to `hi`.
pub record Utf8State : Type 0 where
  pub need : ℕ
  pub acc : ℕ
  pub lo : ℕ
  pub hi : ℕ

abbrev pub utf8_start : Utf8State
utf8_start = record { need = 0; acc = 0; lo = 0; hi = 0 }

abbrev pub await : ℕ → ℕ → ℕ → ℕ → Option (Option ℕ × Utf8State)
await need acc lo hi = some (none, record { need = need; acc = acc; lo = lo; hi = hi })

-- The first byte of a character.
unfoldable pub utf8_lead : ℕ → Option (Option ℕ × Utf8State)
utf8_lead b =
    if ltb b 0x80
    then some (some b, utf8_start)
    else if leb 0xc2 b && leb b 0xdf
    then await 1 (b - 0xc0) 0x80 0xbf
    else if b == 0xe0
    then await 2 (b - 0xe0) 0xa0 0xbf
    else if b == 0xed
    then await 2 (b - 0xe0) 0x80 0x9f
    else if leb 0xe1 b && leb b 0xef
    then await 2 (b - 0xe0) 0x80 0xbf
    else if b == 0xf0
    then await 3 (b - 0xf0) 0x90 0xbf
    else if leb 0xf1 b && leb b 0xf3
    then await 3 (b - 0xf0) 0x80 0xbf
    else if b == 0xf4
    then await 3 (b - 0xf0) 0x80 0x8f
    else none

-- A later byte of a character.
unfoldable pub utf8_next : ℕ → ℕ → ℕ → ℕ → ℕ → Option (Option ℕ × Utf8State)
utf8_next need acc lo hi b =
    if leb lo b && leb b hi
    then if need == 0
      then some (some (acc * 64 + (b - 0x80)), utf8_start)
      else await need (acc * 64 + (b - 0x80)) 0x80 0xbf
    else none

unfoldable pub utf8_step : Utf8State → ℕ → Option (Option ℕ × Utf8State)
unfolding utf8_lead utf8_next
utf8_step s b = elim s.need [ zero ↦ utf8_lead b | suc n ↦ utf8_next n s.acc s.lo s.hi b ]

abbrev pub emit : Option ℕ → Option Text → Option Text
emit none t = t
emit (some c) none = none
emit (some c) (some cs) = some (c ∷ cs)

unfoldable pub from_utf8_from : Utf8State → Bytes → Option Text
unfolding utf8_step
from_utf8_from s [] = if s.need == 0 then some [] else none
from_utf8_from s (b ∷ bs) = elim (utf8_step s b) [
  | none ↦ none
  | some (c, s') ↦ emit c (from_utf8_from s' bs)
]

unfoldable pub from_utf8 : Bytes → Option Text
unfolding from_utf8_from
from_utf8 bytes = from_utf8_from utf8_start bytes
