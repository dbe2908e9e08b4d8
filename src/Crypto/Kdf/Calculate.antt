-- ===== src/Crypto/Kdf/Calculate.antt =====
-- The limits that `calculate_kdf_params` computes, and when it refuses.
use minisign_rs.Base.{
  ℕ, zero, suc, ◌*◌, ◌^◌, ◌≤◌, ◌≡◌, refl, Bool, true, false, arith, leb, if◌then◌else◌,
}
use minisign_rs.Errors.{
  Result, ok, err, scrypt_param_error, force_weak_kdf_in_release, log_n_too_large,
  memlimit_overflow, opslimit_overflow,
}
use minisign_rs.Crypto.Kdf.{calculate_kdf_params}

-- 2 ^ a grows with a.
pub pow_two_mono : (a b : ℕ) → a ≤ b → 2 ^ a ≤ 2 ^ b
pow_two_mono zero zero h = omega arith
pow_two_mono zero (suc b) h = omega (arith, pow_two_mono zero b (omega arith))
pow_two_mono (suc a) zero h = absurd (omega arith)
pow_two_mono (suc a) (suc b) h = omega (arith, pow_two_mono a b (omega arith))

-- What is returned without the flag, for every `log_n`: both limits up to 53, and which of the
-- three errors above that.
abbrev pub expected_params : ℕ → Result (ℕ × ℕ)
expected_params log_n =
    if leb log_n 53
    then ok (32 * 2 ^ log_n, 1024 * 2 ^ log_n)
    else if leb log_n 58
    then err (scrypt_param_error (memlimit_overflow log_n))
    else if leb log_n 63
    then err (scrypt_param_error (opslimit_overflow log_n))
    else err (scrypt_param_error (log_n_too_large log_n))

unforced_params :
    (debug : Bool) → (log_n : ℕ) → calculate_kdf_params debug log_n false ≡ expected_params log_n
unfolding calculate_kdf_params
unforced_params true log_n = ground (
  arith,
  pow_two_mono log_n 53,
  pow_two_mono 54 log_n,
  pow_two_mono log_n 58,
  pow_two_mono 59 log_n,
  pow_two_mono log_n 63,
)
unforced_params false log_n = ground (
  arith,
  pow_two_mono log_n 53,
  pow_two_mono 54 log_n,
  pow_two_mono log_n 58,
  pow_two_mono 59 log_n,
  pow_two_mono log_n 63,
)

-- `calculate_kdf_params`, on every input: the weak limits are for debug builds alone, and without
-- the flag the limits are 32 * 2 ^ log_n and 1024 * 2 ^ log_n where both fit 64 bits, which is up
-- to log_n = 53; above that the first of the three checks that fails decides the error.
pub calculate_kdf_params_lem :
    (debug force_weak_kdf : Bool) (log_n : ℕ)
    → calculate_kdf_params debug log_n force_weak_kdf ≡ (
        if force_weak_kdf
        then (if debug
            then ok (32 * 2 ^ 17, 1024 * 2 ^ 17)
            else err (scrypt_param_error force_weak_kdf_in_release))
        else expected_params log_n)
calculate_kdf_params_lem debug false log_n = unforced_params debug log_n
calculate_kdf_params_lem true true log_n = unfold calculate_kdf_params in refl
calculate_kdf_params_lem false true log_n = unfold calculate_kdf_params in refl
