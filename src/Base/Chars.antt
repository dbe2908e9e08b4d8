-- ===== src/Base/Chars.antt =====
-- Rust's `str` as the list of its `char`s, its UTF-8 bytes, and the methods of the standard
-- library that the program calls on it.
use Prim.Native.Char.{code}
use Prim.Native.String.{String}
use Prim.Native.Nat.{ℕ, ◌+◌, ◌/◌, ◌%◌, ◌<◌}
use mathlib.Core.Path.{◌≡◌, refl, ap, ◌∙◌}
use mathlib.Core.Logic.{◌↔◌, ◌≢◌}
use mathlib.Core.Bool.{Bool, true, false, ◌&&◌, ◌||◌}
use mathlib.Core.Option.{Option, none, some}
use mathlib.Core.List.{List, [], ◌∷◌, ◌++◌, append-nil, append_assoc}
use native.Mathlib.Omega.{arith}
use minisign_rs.Base.Tests.{◌==◌, ltb, if◌then◌else◌}
use minisign_rs.Base.Lists.{length, length-append, All, All-append}

abbrev pub Bytes : Type 0
Bytes = List ℕ

-- A text is its characters, each by its code point.
abbrev pub Text : Type 0
Text = List ℕ

abbrev pub IsByte : ℕ → Type 0
IsByte b = b < 256

-- `[u8; n]`
abbrev pub IsArray : ℕ → Bytes → Type 0
IsArray n bs = (length bs ≡ n) × All IsByte bs

-- The text of a literal.
abbrev pub codes : String → Text
codes String.[] = []
codes (String.◌∷◌ c s) = code c ∷ codes s

-- Equality of slices and of texts, also `ct_eq`.
unfoldable pub list_eq : List ℕ → List ℕ → Bool
list_eq [] [] = true
list_eq (x ∷ xs) (y ∷ ys) = x == y && list_eq xs ys
list_eq _ _ = false

pub list_eq_iff : (xs ys : List ℕ) → (list_eq xs ys ≡ true) ↔ (xs ≡ ys)
unfolding list_eq
list_eq_iff (x ∷ xs) (y ∷ ys) = ground (arith, list_eq_iff xs ys)
list_eq_iff _ _ = ground arith

pub list_eq_refl : (xs : List ℕ) → list_eq xs xs ≡ true
list_eq_refl xs = (list_eq_iff xs xs).1 refl

-- The UTF-8 bytes of a character and of a text: `as_bytes`.
unfoldable pub utf8_char : ℕ → Bytes
utf8_char c =
    if ltb c 0x80
    then c ∷ []
    else if ltb c 0x800
    then (0xc0 + c / 0x40) ∷ (0x80 + c % 0x40) ∷ []
    else if ltb c 0x10000
    then (0xe0 + c / 0x1000) ∷ (0x80 + c / 0x40 % 0x40) ∷ (0x80 + c % 0x40) ∷ []
    else (0xf0 + c / 0x40000)
      ∷ (0x80 + c / 0x1000 % 0x40)
      ∷ (0x80 + c / 0x40 % 0x40)
      ∷ (0x80 + c % 0x40)
      ∷ []

unfoldable pub utf8 : Text → Bytes
unfolding utf8_char
utf8 [] = []
utf8 (c ∷ cs) = utf8_char c ++ utf8 cs

-- `s.len()`: the number of bytes.
unfoldable pub text_len : Text → ℕ
unfolding utf8
text_len s = length (utf8 s)

-- `s.contains(c)` for a character.
unfoldable pub contains_char : ℕ → Text → Bool
contains_char c [] = false
contains_char c (x ∷ xs) = x == c || contains_char c xs

-- `s.strip_prefix(p)`
unfoldable pub strip_prefix : Text → Text → Option Text
strip_prefix [] s = some s
strip_prefix (p ∷ ps) [] = none
strip_prefix (p ∷ ps) (c ∷ cs) = if c == p then strip_prefix ps cs else none

pub strip_prefix-append : (p s : Text) → strip_prefix p (p ++ s) ≡ some s
unfolding strip_prefix
strip_prefix-append [] s = refl
strip_prefix-append (p ∷ ps) s = ground (arith, strip_prefix-append ps s)

pub append-strip_prefix : (p s t : Text) → strip_prefix p s ≡ some t → s ≡ p ++ t
unfolding strip_prefix
append-strip_prefix [] s t h = ground arith
append-strip_prefix (p ∷ ps) [] t h = ground arith
append-strip_prefix (p ∷ ps) (c ∷ cs) t h = ground (arith, append-strip_prefix ps cs t)

-- A line without its `\r` at the end, if it has one.
unfoldable pub strip_cr : Text → Text
strip_cr [] = []
strip_cr (c ∷ []) = if c == 13 then [] else c ∷ []
strip_cr (c ∷ d ∷ cs) = c ∷ strip_cr (d ∷ cs)

-- What is left at the end of a text: a line, unless it is empty.
unfoldable pub last_line : Text → List Text
last_line [] = []
last_line (c ∷ cs) = (c ∷ cs) ∷ []

-- `s.lines()`: lines end at `\n` or `\r\n`, and the last may have no end. `line` is the line
-- read so far.
unfoldable pub lines_from : Text → Text → List Text
unfolding strip_cr last_line
lines_from line [] = last_line line
lines_from line (c ∷ cs) =
    let done = strip_cr line ∷ lines_from [] cs in
    let more = lines_from (line ++ (c ∷ [])) cs in if c == 10 then done else more

unfoldable pub lines : Text → List Text
unfolding lines_from
lines = lines_from []

-- A character that neither ends a line nor is dropped at the end of one.
abbrev pub IsInLine : ℕ → Type 0
IsInLine c = (c ≢ 10) × (c ≢ 13)

strip_cr_self : (l : Text) → All IsInLine l → strip_cr l ≡ l
unfolding strip_cr
strip_cr_self [] h = refl
strip_cr_self (c ∷ []) h = ground arith
strip_cr_self (c ∷ d ∷ cs) h = ap (◌∷◌ c) (strip_cr_self (d ∷ cs) h.1)

lines_from-append :
    (l acc rest : Text)
    → All IsInLine acc
    → All IsInLine l
    → lines_from acc (l ++ (10 ∷ rest)) ≡ (acc ++ l) ∷ lines rest
unfolding lines
lines_from-append [] acc rest ha h = rw append-nil (rw (strip_cr_self acc ha) refl)
lines_from-append (c ∷ cs) acc rest ha h = ground (
  arith,
  lines_from-append cs (acc ++ (c ∷ [])) rest (All-append IsInLine acc (c ∷ []) ha (h.0, tt)) h.1,
  append_assoc acc (c ∷ []) cs,
)

-- A line of such characters is read back whole, and reading goes on behind it.
pub lines-append :
    (l rest : Text) {ls : List Text}
    → All IsInLine l
    → lines rest ≡ ls
    → lines (l ++ (10 ∷ rest)) ≡ l ∷ ls
unfolding lines
lines-append l rest h e = lines_from-append l [] rest tt h ∙ ap (◌∷◌ l) e

pub lines-nil : lines [] ≡ []
unfolding lines
lines-nil = refl

pub utf8-append : (s t : Text) → utf8 (s ++ t) ≡ utf8 s ++ utf8 t
unfolding utf8
utf8-append [] t = refl
utf8-append (c ∷ cs) t = simp (utf8-append cs t, append_assoc)

abbrev pub IsChar : ℕ → Type 0
IsChar c = c < 0x110000

utf8_char-IsByte : (c : ℕ) → IsChar c → All IsByte (utf8_char c)
unfolding utf8_char
utf8_char-IsByte c h = ground arith

pub utf8-IsByte : (s : Text) → All IsChar s → All IsByte (utf8 s)
unfolding utf8
utf8-IsByte [] h = tt
utf8-IsByte (c ∷ cs) h =
    All-append IsByte (utf8_char c) (utf8 cs) (utf8_char-IsByte c h.0) (utf8-IsByte cs h.1)

pub text_len-append : (s t : Text) → text_len (s ++ t) ≡ text_len s + text_len t
unfolding text_len
text_len-append s t = rw (utf8-append s t) (length-append (utf8 s) (utf8 t))
