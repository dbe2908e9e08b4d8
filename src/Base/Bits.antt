-- ===== src/Base/Bits.antt =====
-- `^` on bytes: a table of all pairs, checked by evaluation.
use Prim.Native.Nat.{ℕ, zero, suc, ◌<◌, bit_xor}
use mathlib.Core.Path.{◌≡◌, refl}
use mathlib.Core.Bool.{Bool, true, ◌&&◌}
use native.Mathlib.Omega.{arith}
use minisign_rs.Base.Tests.{◌==◌, ltb}

-- A test that holds of every number under a bound.
unfoldable pub all_below : (bound : ℕ) (test : ℕ → Bool) → Bool
all_below zero test = true
all_below (suc last) test = test last && all_below last test

pub all_below_sound :
    (bound : ℕ) (test : ℕ → Bool) (i : ℕ) → all_below bound test ≡ true → i < bound → test i ≡ true
unfolding all_below
all_below_sound zero test i all small = absurd (omega arith)
all_below_sound (suc last) test i all small = ground (arith, all_below_sound last test i)

abbrev xor_row : ℕ → ℕ → Bool
xor_row x k = bit_xor (bit_xor x k) k == x && ltb (bit_xor x k) 256

xor_table : all_below 256 (λ x. all_below 256 (xor_row x)) ≡ true
unfolding all_below
xor_table = refl

xor_at : (x k : ℕ) → x < 256 → k < 256 → xor_row x k ≡ true
xor_at x k hx hk =
    all_below_sound 256 (xor_row x) k
      (all_below_sound 256 (λ y. all_below 256 (xor_row y)) x xor_table hx) hk

pub xor-xor : (x k : ℕ) → x < 256 → k < 256 → bit_xor (bit_xor x k) k ≡ x
xor-xor x k hx hk = ground (arith, xor_at x k hx hk)

pub xor-lt : (x k : ℕ) → x < 256 → k < 256 → bit_xor x k < 256
xor-lt x k hx hk = ground (arith, xor_at x k hx hk)
