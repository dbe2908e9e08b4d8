-- ===== src/Signature/Struct.antt =====
-- The 74 bytes of a signature structure: parsing and printing are inverse to each other.
use minisign_rs.Base.{
  ◌≡◌, refl, sym, ap, ap₂, ◌∙◌, Bool, true, false, [], ◌++◌, append-nil, append_assoc, arith,
  length, length-append, slice, slice-append, length-slice, slice-slice, slice_all, All, All-slice,
  All-append, copy_into, copy_into_fill, Bytes, IsByte, list_eq_iff, if◌then◌else◌,
}
use minisign_rs.Errors.{ok}
use minisign_rs.Signature.{
  SigStruct, IsSigStruct, sig_alg_normal, sig_alg_prehashed, sig_to_bytes, sig_from_bytes,
  parse_algorithm,
}

abbrev alg_bytes : Bool → Bytes
alg_bytes prehashed = if prehashed then sig_alg_prehashed else sig_alg_normal

length-alg_bytes : (prehashed : Bool) → length (alg_bytes prehashed) ≡ 2
length-alg_bytes true = refl
length-alg_bytes false = refl

-- The three parts stand one behind the other.
pub sig_to_bytes-parts :
    (s : SigStruct)
    → IsSigStruct s
    → sig_to_bytes s ≡ alg_bytes s.prehashed ++ (s.keynum.bytes ++ s.signature.bytes)
unfolding sig_to_bytes
sig_to_bytes-parts s h =
    let alg = alg_bytes s.prehashed in
    let kn = s.keynum.bytes in
    let sg = s.signature.bytes in
    let two = length-alg_bytes s.prehashed in
    let ten : length (alg ++ kn) ≡ 10 = omega (arith, length-append alg kn) in
    ap (λ x. copy_into 10 74 sg (copy_into 2 10 kn x))
      (copy_into_fill 0 2 74 0 [] alg refl (omega arith))
    ∙ ap (copy_into 10 74 sg) (copy_into_fill 2 10 72 0 alg kn two (omega arith))
    ∙ copy_into_fill 10 74 64 0 (alg ++ kn) sg ten (omega arith)
    ∙ append-nil _
    ∙ append_assoc alg kn sg

pub length-sig_to_bytes : (s : SigStruct) → IsSigStruct s → length (sig_to_bytes s) ≡ 74
length-sig_to_bytes s h =
    ap length (sig_to_bytes-parts s h)
    ∙ omega (
      arith,
      length-alg_bytes s.prehashed,
      length-append (alg_bytes s.prehashed) (s.keynum.bytes ++ s.signature.bytes),
      length-append s.keynum.bytes s.signature.bytes,
    )

alg_bytes-IsByte : (prehashed : Bool) → All IsByte (alg_bytes prehashed)
alg_bytes-IsByte true = omega arith
alg_bytes-IsByte false = omega arith

pub sig_to_bytes-IsByte : (s : SigStruct) → IsSigStruct s → All IsByte (sig_to_bytes s)
sig_to_bytes-IsByte s h = rw (sig_to_bytes-parts s h) (
    All-append IsByte (alg_bytes s.prehashed) _ (alg_bytes-IsByte s.prehashed)
      (All-append IsByte s.keynum.bytes s.signature.bytes h.0.1 h.1.1))

parse_algorithm-alg_bytes :
    (prehashed : Bool) → parse_algorithm (alg_bytes prehashed) ≡ ok prehashed
unfolding parse_algorithm
parse_algorithm-alg_bytes true = refl
parse_algorithm-alg_bytes false = refl

-- A structure with arrays of the right sizes is read back from its bytes.
pub sig_from_bytes-sig_to_bytes :
    (s : SigStruct) → IsSigStruct s → sig_from_bytes (sig_to_bytes s) ≡ ok s
unfolding sig_from_bytes
sig_from_bytes-sig_to_bytes s h =
    let alg = alg_bytes s.prehashed in
    let kn = s.keynum.bytes in
    let sg = s.signature.bytes in
    let parts = sig_to_bytes-parts s h in
    let two = length-alg_bytes s.prehashed in
    let ten : length (alg ++ kn) ≡ 10 = omega (arith, length-append alg kn) in
    let alg_at = ap (slice 0 2) parts ∙ slice-append 0 2 [] alg (kn ++ sg) refl (omega arith) in
    let kn_at = ap (slice 2 10) parts ∙ slice-append 2 10 alg kn sg two (omega arith) in
    let sg_at =
      ap (slice 10 74) (
        parts
        ∙ ap (λ x. alg ++ (kn ++ x)) (sym (append-nil sg))
        ∙ sym (append_assoc alg kn (sg ++ [])))
      ∙ slice-append 10 74 (alg ++ kn) sg [] ten (omega arith) in
    rw (length-sig_to_bytes s h, alg_at, kn_at, sg_at)
      (rw (parse_algorithm-alg_bytes s.prehashed) refl)

parse_algorithm_sound :
    (a : Bytes) (prehashed : Bool) → parse_algorithm a ≡ ok prehashed → a ≡ alg_bytes prehashed
unfolding parse_algorithm
parse_algorithm_sound a prehashed h =
    ground (arith, list_eq_iff a sig_alg_normal, list_eq_iff a sig_alg_prehashed)

-- What is known when parsing succeeds.
sig_from_bytes_inv :
    (bs : Bytes) (s : SigStruct)
    → sig_from_bytes bs ≡ ok s
    → (length bs ≡ 74)
      × (slice 0 2 bs ≡ alg_bytes s.prehashed)
      × (s.keynum.bytes ≡ slice 2 10 bs)
      × (s.signature.bytes ≡ slice 10 74 bs)
unfolding sig_from_bytes
sig_from_bytes_inv bs s h = ground (arith, parse_algorithm_sound (slice 0 2 bs) s.prehashed)

-- Whatever bytes are parsed, the structure has arrays of the right sizes and prints as exactly
-- these bytes.
pub sig_to_bytes-sig_from_bytes :
    (bs : Bytes) (s : SigStruct)
    → All IsByte bs
    → sig_from_bytes bs ≡ ok s
    → IsSigStruct s × (sig_to_bytes s ≡ bs)
sig_to_bytes-sig_from_bytes bs s hb h =
    let (len, alg, kn, sg) = sig_from_bytes_inv bs s h in
    let kn_len : length s.keynum.bytes ≡ 8 =
      ap length kn ∙ length-slice 2 10 bs (omega arith) (omega arith) in
    let sg_len : length s.signature.bytes ≡ 64 =
      ap length sg ∙ length-slice 10 74 bs (omega arith) (omega arith) in
    let kn_bytes : All IsByte s.keynum.bytes = rw kn (All-slice IsByte 2 10 bs hb) in
    let sg_bytes : All IsByte s.signature.bytes = rw sg (All-slice IsByte 10 74 bs hb) in
    let good : IsSigStruct s = ((kn_len, kn_bytes), (sg_len, sg_bytes)) in
    let tail = ap₂ ◌++◌ kn sg ∙ slice-slice 2 10 74 bs (omega arith) (omega arith) in
    (
      good,
      sig_to_bytes-parts s good
          ∙ ap₂ ◌++◌ (sym alg) tail
          ∙ slice-slice 0 2 74 bs (omega arith) (omega arith)
          ∙ slice_all 74 bs len,
    )
