-- ===== src/Tests/Models.antt =====
-- Concrete values for the parameters: a base-16 codec in place of the crate `base64`, and small
-- functions with the documented properties in place of the cryptographic crates.
use minisign_rs.Base.{
  ℕ, ◌+◌, ◌-◌, ◌*◌, ◌/◌, ◌%◌, ◌≤◌, ◌≡◌, refl, Bool, true, false, ◌&&◌, Option, none, some, [], ◌∷◌,
  ◌++◌, append-nil, append_assoc, arith, ltb, leb, ◌==◌, if◌then◌else◌, length, replicate,
  replicate-IsArray, All, Bytes, Text, IsByte, IsArray, IsInLine, list_eq, list_eq_refl,
  Option-cases, inl, inr,
}
use minisign_rs.Formats.{
  Base64, IsBase64, DecodedSlice, decoded, decode_error, output_slice_too_small,
}
use minisign_rs.Crypto.{Primitives, ArePrimitives, verify}
use minisign_rs.Errors.{ok}

unfoldable pub hex_encode : Bytes → Text
hex_encode [] = []
hex_encode (b ∷ bs) = (65 + b / 16) ∷ (65 + b % 16) ∷ hex_encode bs

abbrev is_digit : ℕ → Bool
is_digit c = leb 65 c && ltb c 81

unfoldable pub hex_decode : Text → Option Bytes
hex_decode [] = some []
hex_decode (h ∷ []) = none
hex_decode (h ∷ l ∷ cs) =
    let rest = hex_decode cs in
    if is_digit h && is_digit l
    then elim rest [ none ↦ none | some bs ↦ some (((h - 65) * 16 + (l - 65)) ∷ bs) ]
    else none

unfoldable pub hex_decode_slice : Text → ℕ → DecodedSlice
hex_decode_slice t n = elim (hex_decode t) [
  | none ↦ decode_error
  | some bs ↦ if leb (length bs) n then decoded bs else output_slice_too_small
]

hex_decode-hex_encode : (bs : Bytes) → All IsByte bs → hex_decode (hex_encode bs) ≡ some bs
unfolding hex_decode hex_encode
hex_decode-hex_encode [] h = refl
hex_decode-hex_encode (b ∷ bs) (hb, hbs) = ground (arith, hex_decode-hex_encode bs hbs)

hex_encode-IsInLine : (bs : Bytes) → All IsByte bs → All IsInLine (hex_encode bs)
unfolding hex_encode
hex_encode-IsInLine [] h = tt
hex_encode-IsInLine (b ∷ bs) (hb, hbs) =
    ((omega arith, omega arith), ((omega arith, omega arith), hex_encode-IsInLine bs hbs))

pair_IsByte :
    (h l : ℕ) (x bs : Bytes)
    → All IsByte x
    → (is_digit h && is_digit l ≡ true) × (((h - 65) * 16 + (l - 65)) ∷ x ≡ bs)
    → All IsByte bs
pair_IsByte h l x bs hx (d, same) = rw (← same) (ground arith, hx)

hex_decode-IsByte : (t : Text) (bs : Bytes) → hex_decode t ≡ some bs → All IsByte bs
unfolding hex_decode
hex_decode-IsByte [] bs h = ground arith
hex_decode-IsByte (h ∷ []) bs e = ground arith
hex_decode-IsByte (h ∷ l ∷ cs) bs e = elim (Option-cases (hex_decode cs)) [
  | inl missing ↦ absurd (ground arith)
  | inr (x, found) ↦ pair_IsByte h l x bs (hex_decode-IsByte cs x found) (ground arith)
]

hex_decode_slice_fits :
    (t : Text) (n : ℕ) (bs : Bytes)
    → hex_decode t ≡ some bs
    → length bs ≤ n
    → hex_decode_slice t n ≡ decoded bs
unfolding hex_decode_slice
hex_decode_slice_fits t n bs e h = ground arith

hex_decode_slice_decodes :
    (t : Text) (n : ℕ) (bs : Bytes) → hex_decode_slice t n ≡ decoded bs → hex_decode t ≡ some bs
unfolding hex_decode_slice
hex_decode_slice_decodes t n bs e = ground arith

abbrev pub hex : Base64
hex = record { encode = hex_encode; decode = hex_decode; decode_slice = hex_decode_slice }

pub hex-IsBase64 : IsBase64 hex
hex-IsBase64 = record {
  decode-encode = hex_decode-hex_encode;
  encode-IsInLine = hex_encode-IsInLine;
  decode-IsByte = hex_decode-IsByte;
  decode_slice_fits = hex_decode_slice_fits;
  decode_slice_decodes = hex_decode_slice_decodes;
}

unfoldable pub sum : Bytes → ℕ
sum [] = 0
sum (b ∷ bs) = b + sum bs

-- `n` copies of one byte.
unfoldable pub digest : ℕ → Bytes → Bytes
unfolding sum
digest n m = replicate n (sum m % 256)

digest-IsArray : (n : ℕ) (m : Bytes) → IsArray n (digest n m)
unfolding digest
digest-IsArray n m = replicate-IsArray n (sum m % 256) (omega arith)

unfoldable pub stretch : Bytes → Bytes → ℕ → ℕ → ℕ → ℕ → Option Bytes
unfolding sum
stretch password salt log_n r q n = some (replicate n (sum password % 255 + 1))

stretch-IsArray :
    (password salt : Bytes) (log_n r q n : ℕ) (out : Bytes)
    → stretch password salt log_n r q n ≡ some out
    → IsArray n out
unfolding stretch
stretch-IsArray password salt log_n r q n out h =
    let same : replicate n (sum password % 255 + 1) ≡ out = cc in
    rw (← same) (replicate-IsArray n (sum password % 255 + 1) (omega arith))

-- A key pair is 64 bytes; everyone has the same public key, and a signature is a digest.
abbrev pub toy : Primitives
toy = record {
  SigningKey = Bytes;
  VerifyingKey = Bytes;
  Hasher = Bytes;
  from_keypair_bytes = λ bs. if length bs == 64 then some bs else none;
  sign_message = λ k m. digest 64 m;
  verifying_key = λ k. digest 32 [];
  from_public_bytes = λ bs. some bs;
  is_weak = λ k. false;
  verify_strict = λ k m s. list_eq s (digest 64 m);
  blake2b_256 = digest 32;
  new_blake2b_512 = [];
  update = λ h m. h ++ m;
  finalize = digest 64;
  scrypt_params = λ log_n r q n. ltb log_n 64;
  scrypt = stretch;
}

pub toy-ArePrimitives : ArePrimitives toy
toy-ArePrimitives = record {
  sign_message-IsArray = λ k m. digest-IsArray 64 m;
  verifying_key-IsArray = λ k. digest-IsArray 32 [];
  blake2b_256-IsArray = λ m. digest-IsArray 32 m;
  update-append = λ h a b. append_assoc h a b;
  update-nil = λ h. append-nil h;
  scrypt-IsArray = stretch-IsArray;
}

pub toy-verifies_own :
    (k m : Bytes)
    → verify toy (record { bytes = digest 32 [] }) m (record { bytes = digest 64 m }) ≡ ok tt
unfolding verify
toy-verifies_own k m = rw (list_eq_refl (digest 64 m)) refl
