-- ===== src/Ops/Sign/Comment.antt =====
-- The default trusted comment states the time of the clock.
use minisign_rs.Base.{
  ℕ, zero, suc, ◌+◌, ◌-◌, ◌*◌, ◌/◌, ◌%◌, ◌^◌, ◌≤◌, ◌<◌, ◌≡◌, refl, sym, ap, ◌∙◌, Bool, ◌&&◌, Option,
  none, some, [], ◌∷◌, ◌++◌, append_assoc, arith, ltb, leb, if◌then◌else◌, Text, codes,
  strip_prefix, Bool-cases, inl, inr,
}
use minisign_rs.Errors.{FilePath, ok, fail_if-ok, other, clock_before_floor}
use minisign_rs.Ops.Sign.{
  digits, decimal, file_name, generate_default_trusted_comment, timestamp_sanity_floor,
}

-- The number that a text begins with, behind the digits read so far.
unfoldable pub read_digits : ℕ → Text → ℕ
read_digits acc [] = acc
read_digits acc (c ∷ cs) =
    let more = read_digits (acc * 10 + (c - b'0')) cs in
    if leb b'0' c && leb c b'9' then more else acc

-- The time that a trusted comment begins with.
unfoldable pub timestamp_of : Text → Option ℕ
unfolding read_digits
timestamp_of c = elim (strip_prefix (codes "timestamp:") c) [
  | none ↦ none
  | some s ↦ some (read_digits 0 s)
]

read_digits-digit :
    (acc d m : ℕ) (tail : Text)
    → d < 10
    → acc * 10 + d ≡ m
    → read_digits acc ((b'0' + d) ∷ tail) ≡ read_digits m tail
unfolding read_digits
read_digits-digit acc d m tail h e =
    let value : acc * 10 + (48 + d - 48) ≡ m = omega arith in
    ground (arith, ap (λ n. read_digits n tail) value)

read_digits-digits :
    (fuel n : ℕ) (tail : Text)
    → n < 10 ^ fuel
    → read_digits 0 (digits fuel n ++ tail) ≡ read_digits n tail
unfolding digits
read_digits-digits zero n tail h =
    let nothing : 0 ≡ n = omega arith in ap (λ m. read_digits m tail) nothing
read_digits-digits (suc fuel) n tail h = elim (Bool-cases (ltb n 10)) [
  | inl last ↦ rw last (read_digits-digit 0 n n tail (ground arith) (omega arith))
  | inr more ↦
      let small : n / 10 < 10 ^ fuel = omega arith in
      rw more (
        ap (read_digits 0) (append_assoc (digits fuel (n / 10)) ((b'0' + n % 10) ∷ []) tail)
        ∙ read_digits-digits fuel (n / 10) ((b'0' + n % 10) ∷ tail) small
        ∙ read_digits-digit (n / 10) (n % 10) n tail (omega arith) (omega arith))
]

timestamp_of-append :
    (rest : Text) → timestamp_of (codes "timestamp:" ++ rest) ≡ some (read_digits 0 rest)
unfolding timestamp_of strip_prefix
timestamp_of-append rest = refl

read_digits-tab : (n : ℕ) (rest : Text) → read_digits n (b'\t' ∷ rest) ≡ n
unfolding read_digits
read_digits-tab n rest = refl

timestamp_of-stamped :
    (t : ℕ) (rest : Text)
    → t < 2 ^ 64
    → timestamp_of (codes "timestamp:" ++ (decimal t ++ (b'\t' ∷ rest))) ≡ some t
unfolding decimal
timestamp_of-stamped t rest h =
    timestamp_of-append (decimal t ++ (b'\t' ∷ rest))
    ∙ ap some (read_digits-digits 20 t (b'\t' ∷ rest) (omega arith) ∙ read_digits-tab t rest)

-- The default comment tells the time: if `generate_default_trusted_comment` gives a comment, the
-- clock stands at or after the year 2020, and the comment begins with the clock's number of
-- seconds, whatever the name of the file; the number is one of 64 bits.
pub timestamp_of-generate_default_trusted_comment :
    (clock : Option ℕ) (path : FilePath) (prehashed : Bool) (c : Text)
    → ((t : ℕ) → clock ≡ some t → t < 2 ^ 64)
    → generate_default_trusted_comment clock path prehashed ≡ ok c
    → (t : ℕ) × (clock ≡ some t) × (timestamp_sanity_floor ≤ t) × (timestamp_of c ≡ some t)
unfolding generate_default_trusted_comment
timestamp_of-generate_default_trusted_comment none path prehashed c small h = cc
timestamp_of-generate_default_trusted_comment (some t) path prehashed c small h =
    let (late, made) =
      fail_if-ok (ltb t timestamp_sanity_floor) (other (clock_before_floor t)) _ h in
    let suffix : Text = if prehashed then codes "\thashed" else [] in
    let rest = codes "file:" ++ (file_name path ++ suffix) in
    let same : codes "timestamp:" ++ (decimal t ++ (b'\t' ∷ rest)) ≡ c = cc in
    (t, refl, ground arith, ap timestamp_of (sym same) ∙ timestamp_of-stamped t rest (small t refl))
