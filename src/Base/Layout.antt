-- ===== src/Base/Layout.antt =====
-- A buffer as fields that stand one behind the other: filling it by copies, and cutting it up.
use Prim.Native.Nat.{ℕ, zero, suc, ◌+◌, ◌-◌, ◌≤◌, ◌<◌}
use mathlib.Core.Path.{◌≡◌, refl, sym, ap, ◌∙◌}
use mathlib.Core.List.{List, [], ◌∷◌, ◌++◌, append-nil, append_assoc}
use native.Mathlib.Omega.{arith}
use minisign_rs.Base.Lists.{
  length, length-append, slice, slice-append, slice-slice, copy_into, copy_into_fill, replicate,
  All, All-append, length-replicate,
}
use minisign_rs.Base.Chars.{IsByte, IsArray}

module _ {ℓ} {A : Type ℓ} where
  abbrev pub cat : List (List A) → List A
  cat [] = []
  cat (p ∷ ps) = p ++ cat ps

  abbrev pub total : List (List A) → ℕ
  total [] = 0
  total (p ∷ ps) = length p + total ps

  pub length-cat : (ps : List (List A)) → length (cat ps) ≡ total ps
  length-cat [] = refl
  length-cat (p ∷ ps) = omega (arith, length-append p (cat ps), length-cat ps)

  cat-append : (ps qs : List (List A)) → cat (ps ++ qs) ≡ cat ps ++ cat qs
  cat-append [] qs = refl
  cat-append (p ∷ ps) qs = ap (◌++◌ p) (cat-append ps qs) ∙ sym (append_assoc p (cat ps) (cat qs))

  -- The next field is copied into a buffer that was filled up to it.
  pub copy_field :
      (lo hi m k : ℕ) (a : A) (pre : List (List A)) (src : List A)
      → total pre ≡ lo
      → length src + lo ≡ hi
      → m - (hi - lo) ≡ k
      → copy_into lo hi src (cat pre ++ replicate m a) ≡ cat (pre ++ (src ∷ [])) ++ replicate k a
  copy_field lo hi m k a pre src p q r =
      copy_into_fill lo hi m a (cat pre) src (length-cat pre ∙ p) q
      ∙ ap (λ (j : ℕ). (cat pre ++ src) ++ replicate j a) r
      ∙ ap (λ x. x ++ replicate k a)
          (ap (◌++◌ (cat pre)) (sym (append-nil src)) ∙ sym (cat-append pre (src ∷ [])))

  -- A field is the slice at its place.
  pub slice_field :
      (lo hi : ℕ) (pre : List (List A)) (p : List A) (post : List (List A))
      → total pre ≡ lo
      → length p + lo ≡ hi
      → slice lo hi (cat (pre ++ (p ∷ post))) ≡ p
  slice_field lo hi pre p post e q =
      ap (slice lo hi) (cat-append pre (p ∷ post))
      ∙ slice-append lo hi (cat pre) p (cat post) (length-cat pre ∙ e) q

  -- A slice in front of the slices behind it.
  pub slice-join :
      (lo mid hi : ℕ) (xs ys : List A)
      → lo ≤ mid
      → mid ≤ hi
      → ys ≡ slice mid hi xs
      → slice lo mid xs ++ ys ≡ slice lo hi xs
  slice-join lo mid hi xs ys p q e = ap (◌++◌ (slice lo mid xs)) e ∙ slice-slice lo mid hi xs p q

module _ {ℓ κ} {A : Type ℓ} (P : A → Type κ) where
  abbrev pub AllFields : List (List A) → Type κ
  AllFields [] = Unit {κ}
  AllFields (p ∷ ps) = All P p × AllFields ps

  pub All-cat : (ps : List (List A)) → AllFields ps → All P (cat ps)
  All-cat [] h = tt
  All-cat (p ∷ ps) h = All-append P p (cat ps) h.0 (All-cat ps h.1)

pub replicate-IsArray : (n b : ℕ) → b < 256 → IsArray n (replicate n b)
replicate-IsArray n b h = (length-replicate n b, bytes n)
  where
    bytes : (k : ℕ) → All IsByte (replicate k b)
    bytes zero = tt
    bytes (suc k) = (h, bytes k)
