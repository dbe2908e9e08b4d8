-- ===== src/Base/Lists.antt =====
-- Lists measured and cut by native numbers, under the library's names.
use Prim.Native.Nat.{ℕ, zero, suc, ◌+◌, ◌-◌, ◌≤◌, min}
use mathlib.Core.Path.{◌≡◌, refl, ap, sym, ◌∙◌}
use mathlib.Core.List.{List, [], ◌∷◌, ◌++◌, append_assoc}
use mathlib.Core.Option.{Option, none, some}
use native.Mathlib.Omega.{arith}

module _ {ℓ} {A : Type ℓ} where
  abbrev pub length : List A → ℕ
  length [] = 0
  length (x ∷ xs) = suc (length xs)

  abbrev pub get_elem? : List A → ℕ → Option A
  get_elem? [] i = none
  get_elem? (x ∷ xs) zero = some x
  get_elem? (x ∷ xs) (suc i) = get_elem? xs i

  abbrev pub take : ℕ → List A → List A
  take zero xs = []
  take (suc n) [] = []
  take (suc n) (x ∷ xs) = x ∷ take n xs

  abbrev pub drop : ℕ → List A → List A
  drop zero xs = xs
  drop (suc n) [] = []
  drop (suc n) (x ∷ xs) = drop n xs

  abbrev pub replicate : ℕ → A → List A
  replicate zero a = []
  replicate (suc n) a = a ∷ replicate n a

  abbrev pub All {κ} : (A → Type κ) → List A → Type κ
  All P [] = Unit {κ}
  All P (x ∷ xs) = P x × All P xs

module _ {ℓ} {A : Type ℓ} where
  pub length-append : (xs ys : List A) → length (xs ++ ys) ≡ length xs + length ys
  length-append [] ys = omega arith
  length-append (x ∷ xs) ys = omega (arith, length-append xs ys)

  pub length-take : (n : ℕ) (xs : List A) → length (take n xs) ≡ min n (length xs)
  length-take zero xs = omega arith
  length-take (suc n) [] = omega arith
  length-take (suc n) (x ∷ xs) = omega (arith, length-take n xs)

  pub length-drop : (n : ℕ) (xs : List A) → length (drop n xs) ≡ length xs - n
  length-drop zero xs = omega arith
  length-drop (suc n) [] = omega arith
  length-drop (suc n) (x ∷ xs) = omega (arith, length-drop n xs)

  pub length-replicate : (n : ℕ) (a : A) → length (replicate n a) ≡ n
  length-replicate zero a = refl
  length-replicate (suc n) a = ap suc (length-replicate n a)

  pub take-append : (xs ys : List A) (n : ℕ) → length xs ≡ n → take n (xs ++ ys) ≡ xs
  take-append [] ys zero h = refl
  take-append [] ys (suc n) h = absurd (omega arith)
  take-append (x ∷ xs) ys zero h = absurd (omega arith)
  take-append (x ∷ xs) ys (suc n) h = ap (◌∷◌ x) (take-append xs ys n (omega arith))

  pub drop-append : (xs ys : List A) (n : ℕ) → length xs ≡ n → drop n (xs ++ ys) ≡ ys
  drop-append [] ys zero h = refl
  drop-append [] ys (suc n) h = absurd (omega arith)
  drop-append (x ∷ xs) ys zero h = absurd (omega arith)
  drop-append (x ∷ xs) ys (suc n) h = drop-append xs ys n (omega arith)

  pub take-append-drop : (n : ℕ) (xs : List A) → take n xs ++ drop n xs ≡ xs
  take-append-drop zero xs = refl
  take-append-drop (suc n) [] = refl
  take-append-drop (suc n) (x ∷ xs) = ap (◌∷◌ x) (take-append-drop n xs)

  pub drop-nil : (n : ℕ) → ◌≡◌ {A = List A} (drop n []) []
  drop-nil zero = refl
  drop-nil (suc n) = refl

  pub take-nil : (n : ℕ) → ◌≡◌ {A = List A} (take n []) []
  take-nil zero = refl
  take-nil (suc n) = refl

  pub drop-drop : (m n k : ℕ) (xs : List A) → m + n ≡ k → drop n (drop m xs) ≡ drop k xs
  drop-drop zero n k xs h = ap (λ (j : ℕ). drop j xs) (omega arith)
  drop-drop (suc m) n k [] h = drop-nil n ∙ sym (drop-nil k)
  drop-drop (suc m) n zero (x ∷ xs) h = absurd (omega arith)
  drop-drop (suc m) n (suc k) (x ∷ xs) h = drop-drop m n k xs (omega arith)

  take-append-take :
      (m n k : ℕ) (xs : List A) → m + n ≡ k → take m xs ++ take n (drop m xs) ≡ take k xs
  take-append-take zero n k xs h = ap (λ (j : ℕ). take j xs) (omega arith)
  take-append-take (suc m) n k [] h = take-nil n ∙ sym (take-nil k)
  take-append-take (suc m) n zero (x ∷ xs) h = absurd (omega arith)
  take-append-take (suc m) n (suc k) (x ∷ xs) h =
      ap (◌∷◌ x) (take-append-take m n k xs (omega arith))

  pub take_all : (xs : List A) (n : ℕ) → length xs ≤ n → take n xs ≡ xs
  take_all [] n h = take-nil n
  take_all (x ∷ xs) zero h = absurd (omega arith)
  take_all (x ∷ xs) (suc n) h = ap (◌∷◌ x) (take_all xs n (omega arith))

  -- `xs[lo..hi]`, for bounds within the list.
  unfoldable pub slice : ℕ → ℕ → List A → List A
  slice lo hi xs = take (hi - lo) (drop lo xs)

  pub slice-append :
      (lo hi : ℕ) (pre mid post : List A)
      → length pre ≡ lo
      → length mid + lo ≡ hi
      → slice lo hi (pre ++ (mid ++ post)) ≡ mid
  unfolding slice
  slice-append lo hi pre mid post p q =
      rw (drop-append pre (mid ++ post) lo p) (take-append mid post (hi - lo) (omega arith))

  pub length-slice :
      (lo hi : ℕ) (xs : List A) → lo ≤ hi → hi ≤ length xs → length (slice lo hi xs) ≡ hi - lo
  unfolding slice
  length-slice lo hi xs p q = omega (arith, length-take (hi - lo) (drop lo xs), length-drop lo xs)

  pub slice-slice :
      (lo mid hi : ℕ) (xs : List A)
      → lo ≤ mid
      → mid ≤ hi
      → slice lo mid xs ++ slice mid hi xs ≡ slice lo hi xs
  unfolding slice
  slice-slice lo mid hi xs p q =
      rw (← drop-drop lo (mid - lo) mid xs (omega arith))
        (take-append-take (mid - lo) (hi - mid) (hi - lo) (drop lo xs) (omega arith))

  pub slice_all : (n : ℕ) (xs : List A) → length xs ≡ n → slice 0 n xs ≡ xs
  unfolding slice
  slice_all n xs h = take_all xs (n - 0) (omega arith)

  -- `dst[lo..hi].copy_from_slice(src)`, for `src` of length `hi - lo`.
  unfoldable pub copy_into : ℕ → ℕ → List A → List A → List A
  copy_into lo hi src dst = take lo dst ++ (src ++ drop hi dst)

  -- Filling a zeroed buffer from the front: what is behind the filled part is cut by each copy.
  pub copy_into_next :
      (lo hi : ℕ) (pre src rest : List A)
      → length pre ≡ lo
      → length src + lo ≡ hi
      → copy_into lo hi src (pre ++ rest) ≡ pre ++ (src ++ drop (hi - lo) rest)
  unfolding copy_into
  copy_into_next lo hi pre src rest p q =
      rw (take-append pre rest lo p, ← drop-drop lo (hi - lo) hi (pre ++ rest) (omega arith))
        (rw (drop-append pre rest lo p) refl)

  drop-replicate : (k m : ℕ) (a : A) → drop k (replicate m a) ≡ replicate (m - k) a
  drop-replicate zero m a = ap (λ (j : ℕ). replicate j a) (omega arith)
  drop-replicate (suc k) zero a =
      let same : 0 ≡ 0 - suc k = omega arith in ap (λ (j : ℕ). replicate j a) same
  drop-replicate (suc k) (suc m) a =
      let same : m - k ≡ suc m - suc k = omega arith in
      drop-replicate k m a ∙ ap (λ (j : ℕ). replicate j a) same

  -- A copy to where the filled part of a buffer ends; `m` elements of it were still unset.
  pub copy_into_fill :
      (lo hi m : ℕ) (a : A) (pre src : List A)
      → length pre ≡ lo
      → length src + lo ≡ hi
      → copy_into lo hi src (pre ++ replicate m a) ≡ (pre ++ src) ++ replicate (m - (hi - lo)) a
  copy_into_fill lo hi m a pre src p q =
      copy_into_next lo hi pre src (replicate m a) p q
      ∙ ap (λ r. pre ++ (src ++ r)) (drop-replicate (hi - lo) m a)
      ∙ sym (append_assoc pre src _)

  pub length-copy_into :
      (lo hi : ℕ) (src dst : List A)
      → length src + lo ≡ hi
      → hi ≤ length dst
      → length (copy_into lo hi src dst) ≡ length dst
  unfolding copy_into
  length-copy_into lo hi src dst p q = omega (
    arith,
    length-append (take lo dst) (src ++ drop hi dst),
    length-append src (drop hi dst),
    length-take lo dst,
    length-drop hi dst,
  )

  pub length-zero : (xs : List A) → length xs ≡ 0 → xs ≡ []
  length-zero [] h = refl
  length-zero (x ∷ xs) h = absurd (omega arith)

module _ {ℓ κ} {A : Type ℓ} (P : A → Type κ) where
  pub All-append : (xs ys : List A) → All P xs → All P ys → All P (xs ++ ys)
  All-append [] ys h k = k
  All-append (x ∷ xs) ys h k = (h.0, All-append xs ys h.1 k)

  pub All-take : (n : ℕ) (xs : List A) → All P xs → All P (take n xs)
  All-take zero xs h = tt
  All-take (suc n) [] h = tt
  All-take (suc n) (x ∷ xs) h = (h.0, All-take n xs h.1)

  pub All-drop : (n : ℕ) (xs : List A) → All P xs → All P (drop n xs)
  All-drop zero xs h = h
  All-drop (suc n) [] h = tt
  All-drop (suc n) (x ∷ xs) h = All-drop n xs h.1

  pub All-slice : (lo hi : ℕ) (xs : List A) → All P xs → All P (slice lo hi xs)
  unfolding slice
  All-slice lo hi xs h = All-take (hi - lo) (drop lo xs) (All-drop lo xs h)

  pub All-append_left : (xs ys : List A) → All P (xs ++ ys) → All P xs
  All-append_left [] ys h = tt
  All-append_left (x ∷ xs) ys h = (h.0, All-append_left xs ys h.1)

  pub All-append_right : (xs ys : List A) → All P (xs ++ ys) → All P ys
  All-append_right [] ys h = h
  All-append_right (x ∷ xs) ys h = All-append_right xs ys h.1
