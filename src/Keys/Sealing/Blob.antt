-- ===== src/Keys/Sealing/Blob.antt =====
-- The 104 bytes of a blob, and its combination with the derived key.
use minisign_rs.Base.{
  ℕ, ◌≡◌, refl, sym, ap, ap₂, ◌∙◌, [], ◌∷◌, append-nil, arith, length, slice, length-slice,
  slice_all, slice-join, slice_field, copy_field, length-cat, cat, All, All-cat, copy_into, Bytes,
  IsByte, IsArray, xor-xor, xor-lt,
}
use minisign_rs.Keys.Sealing.{xor_bytes, fill_blob}

length-xor_bytes : (a k : Bytes) → length a ≡ length k → length (xor_bytes a k) ≡ length a
unfolding xor_bytes
length-xor_bytes [] k h = refl
length-xor_bytes (a ∷ as') [] h = absurd (omega arith)
length-xor_bytes (a ∷ as') (k ∷ ks) h = omega (arith, length-xor_bytes as' ks)

xor_bytes-IsByte : (a k : Bytes) → All IsByte a → All IsByte k → All IsByte (xor_bytes a k)
unfolding xor_bytes
xor_bytes-IsByte [] k ha hk = tt
xor_bytes-IsByte (a ∷ as') [] ha hk = tt
xor_bytes-IsByte (a ∷ as') (k ∷ ks) ha hk =
    (xor-lt a k ha.0 hk.0, xor_bytes-IsByte as' ks ha.1 hk.1)

pub xor_bytes-IsArray :
    (n : ℕ) (a k : Bytes) → IsArray n a → IsArray n k → IsArray n (xor_bytes a k)
xor_bytes-IsArray n a k ha hk =
    (length-xor_bytes a k (ha.0 ∙ sym hk.0) ∙ ha.0, xor_bytes-IsByte a k ha.1 hk.1)

-- Combining twice with the same key gives the blob back.
pub xor_bytes-xor_bytes :
    (n : ℕ) (a k : Bytes) → IsArray n a → IsArray n k → xor_bytes (xor_bytes a k) k ≡ a
unfolding xor_bytes
xor_bytes-xor_bytes n [] k ha hk = refl
xor_bytes-xor_bytes n (a ∷ as') [] ha hk = absurd (omega arith)
xor_bytes-xor_bytes n (a ∷ as') (k ∷ ks) ha hk =
    ap₂ ◌∷◌ (xor-xor a k ha.1.0 hk.1.0)
      (xor_bytes-xor_bytes (length as') as' ks (refl, ha.1.1) (omega arith, hk.1.1))

pub fill_blob-cat :
    (kn sk c : Bytes)
    → length kn ≡ 8
    → length sk ≡ 64
    → length c ≡ 32
    → fill_blob kn sk c ≡ cat (kn ∷ sk ∷ c ∷ [])
unfolding fill_blob
fill_blob-cat kn sk c p q r =
    ap (λ x. copy_into 72 104 c (copy_into 8 72 sk x))
      (copy_field 0 8 104 96 0 [] kn refl (omega arith) refl)
    ∙ ap (copy_into 72 104 c)
        (copy_field 8 72 96 32 0 (kn ∷ []) sk (omega arith) (omega arith) refl)
    ∙ copy_field 72 104 32 0 0 (kn ∷ sk ∷ []) c (omega arith) (omega arith) refl
    ∙ append-nil _

-- The three parts of a blob are its slices.
pub fill_blob_slices :
    (kn sk c : Bytes)
    → length kn ≡ 8
    → length sk ≡ 64
    → length c ≡ 32
    → (slice 0 8 (fill_blob kn sk c) ≡ kn)
      × (slice 8 72 (fill_blob kn sk c) ≡ sk)
      × (slice 72 104 (fill_blob kn sk c) ≡ c)
fill_blob_slices kn sk c p q r = rw (fill_blob-cat kn sk c p q r) (
  slice_field 0 8 [] kn (sk ∷ c ∷ []) refl (omega arith),
  slice_field 8 72 (kn ∷ []) sk (c ∷ []) (omega arith) (omega arith),
  slice_field 72 104 (kn ∷ sk ∷ []) c [] (omega arith) (omega arith),
)

-- A blob is put together again from its slices.
pub fill_blob-slice :
    (blob : Bytes)
    → length blob ≡ 104
    → fill_blob (slice 0 8 blob) (slice 8 72 blob) (slice 72 104 blob) ≡ blob
fill_blob-slice blob h =
    fill_blob-cat _ _ _ (length-slice 0 8 blob (omega arith) (omega arith))
      (length-slice 8 72 blob (omega arith) (omega arith))
      (length-slice 72 104 blob (omega arith) (omega arith))
    ∙ slice-join 0 8 104 blob _ (omega arith) (omega arith)
        (slice-join 8 72 104 blob _ (omega arith) (omega arith) (append-nil _))
    ∙ slice_all 104 blob h

pub fill_blob-IsArray :
    (kn sk c : Bytes)
    → IsArray 8 kn
    → IsArray 64 sk
    → IsArray 32 c
    → IsArray 104 (fill_blob kn sk c)
fill_blob-IsArray kn sk c hk hs hc = rw (fill_blob-cat kn sk c hk.0 hs.0 hc.0) (
  omega (arith, length-cat (kn ∷ sk ∷ c ∷ [])),
  All-cat IsByte (kn ∷ sk ∷ c ∷ []) (hk.1, (hs.1, (hc.1, tt))),
)
