-- ===== src/Crypto/Kdf.antt =====
-- The scrypt parameters of rs/src/crypto.rs: from `log_n` to the limits that a key file stores,
-- and back. Numbers are of type `u64` unless said; `debug` stands for `debug_assertions`.
pub mod Decode
pub mod Calculate
use minisign_rs.Base.{
  Bytes, ℕ, zero, suc, ◌+◌, ◌*◌, ◌/◌, ◌%◌, ◌^◌, ◌≤◌, ◌<◌, ◌≡◌, Bool, true, false, not, Option, none,
  some, ltb, leb, ◌==◌, if◌then◌else◌,
}
use minisign_rs.Crypto.{Primitives, derive_key_with_params}
use minisign_rs.Errors.{
  Error, Message, Result, ok, err, ◌>>=◌, ◌>>◌, fail_if, kdf_over_budget, scrypt_param_error,
  force_weak_kdf_in_release, log_n_too_large, opslimit_overflow, memlimit_overflow,
  divisor_overflow, memlimit_not_exact, n_not_power_of_two, opslimit_not_exact,
  derived_r_unsupported, n_zero, log_n_out_of_range, derived_r_overflow, derived_r_zero,
  derived_r_exceeds_limits, invalid_scrypt_params,
}

abbrev pub scrypt_log_n : ℕ
scrypt_log_n = 20

abbrev pub scrypt_r : ℕ
scrypt_r = 8

abbrev pub scrypt_p : ℕ
scrypt_p = 1

abbrev pub libsodium_opslimit_multiplier : ℕ
libsodium_opslimit_multiplier = 4

abbrev pub libsodium_memlimit_multiplier : ℕ
libsodium_memlimit_multiplier = 128

abbrev pub production_opslimit : ℕ
production_opslimit = 33554432

abbrev pub production_memlimit : ℕ
production_memlimit = 1073741824

abbrev pub max_kdf_memlimit : ℕ
max_kdf_memlimit = production_memlimit

unfoldable pub check_kdf_budget : ℕ → Result (Unit {0})
check_kdf_budget memlimit =
    fail_if (ltb max_kdf_memlimit memlimit) (kdf_over_budget memlimit max_kdf_memlimit)

-- `u64::checked_mul`
unfoldable pub checked_mul : ℕ → ℕ → Option ℕ
checked_mul a b = if ltb (a * b) (2 ^ 64) then some (a * b) else none

-- `ok_or_else`
abbrev pub ok_or {ℓ} : {A : Type ℓ} → Error → Option A → Result A
ok_or e none = err e
ok_or e (some a) = ok a

-- `and_then(|v| v.checked_mul(r))` behind the first product.
unfoldable pub checked_product : ℕ → ℕ → ℕ → Option ℕ
unfolding checked_mul
checked_product a n r = elim (checked_mul a n) [ none ↦ none | some v ↦ checked_mul v r ]

unfoldable pub calculate_kdf_params : Bool → ℕ → Bool → Result (ℕ × ℕ)
unfolding checked_product
calculate_kdf_params true log_n true = ok (4194304, 134217728)
calculate_kdf_params false log_n true = err (scrypt_param_error force_weak_kdf_in_release)
calculate_kdf_params _ log_n false = do
  fail_if (leb 64 log_n) (scrypt_param_error (log_n_too_large log_n))
  opslimit ←
      ok_or (scrypt_param_error (opslimit_overflow log_n))
        (checked_product libsodium_opslimit_multiplier (2 ^ log_n) scrypt_r)
  memlimit ←
      ok_or (scrypt_param_error (memlimit_overflow log_n))
        (checked_product libsodium_memlimit_multiplier (2 ^ log_n) scrypt_r)
  ok (opslimit, memlimit)

-- `u64::trailing_zeros`: 64 bits are looked at.
unfoldable pub trailing_zeros_of : ℕ → ℕ → ℕ
trailing_zeros_of zero n = 0
trailing_zeros_of (suc bits) n =
    let rest = suc (trailing_zeros_of bits (n / 2)) in if n % 2 == 0 then rest else 0

unfoldable pub trailing_zeros : ℕ → ℕ
unfolding trailing_zeros_of
trailing_zeros n = trailing_zeros_of 64 n

-- `u64::is_power_of_two`: the lowest bit that is set is the only one.
unfoldable pub is_power_of_two : ℕ → Bool
is_power_of_two n = n == 2 ^ trailing_zeros n

-- The part of `decode_kdf_params` behind the derivation of `n` and `log_n`. The argument is the
-- test of the `scrypt` crate for its parameters.
unfoldable pub decode_opslimit : (ℕ → ℕ → ℕ → ℕ → Bool) → ℕ → ℕ → ℕ → Result (ℕ × ℕ × ℕ)
unfolding checked_mul
decode_opslimit scrypt_params opslimit n log_n = do
  opslimit_divisor ←
      ok_or (scrypt_param_error derived_r_overflow) (checked_mul libsodium_opslimit_multiplier n)
  fail_if (not (opslimit % opslimit_divisor == 0))
      (scrypt_param_error (opslimit_not_exact opslimit))
  let derived_r = opslimit / opslimit_divisor
  fail_if (derived_r == 0) (scrypt_param_error derived_r_zero)
  fail_if (leb (2 ^ 32) derived_r) (scrypt_param_error derived_r_exceeds_limits)
  fail_if (not (scrypt_params log_n derived_r scrypt_p 64))
      (scrypt_param_error invalid_scrypt_params)
  fail_if (not (derived_r == scrypt_r)) (scrypt_param_error (derived_r_unsupported derived_r))
  ok (log_n, scrypt_r, scrypt_p)

unfoldable pub decode_kdf_params : (ℕ → ℕ → ℕ → ℕ → Bool) → ℕ → ℕ → Result (ℕ × ℕ × ℕ)
unfolding checked_mul
decode_kdf_params scrypt_params opslimit memlimit = do
  divisor ←
      ok_or (scrypt_param_error divisor_overflow)
        (checked_mul libsodium_memlimit_multiplier scrypt_r)
  fail_if (not (memlimit % divisor == 0)) (scrypt_param_error (memlimit_not_exact memlimit))
  let n = memlimit / divisor
  fail_if (n == 0) (scrypt_param_error n_zero)
  fail_if (not (is_power_of_two n)) (scrypt_param_error (n_not_power_of_two n))
  let log_n = trailing_zeros n
  fail_if (leb 256 log_n) (scrypt_param_error log_n_out_of_range)
  decode_opslimit scrypt_params opslimit n log_n

unfoldable pub opslimit_memlimit_to_params : (ℕ → ℕ → ℕ → ℕ → Bool) → ℕ → ℕ → Result (ℕ × ℕ × ℕ)
opslimit_memlimit_to_params scrypt_params opslimit memlimit = do
  params ← decode_kdf_params scrypt_params opslimit memlimit
  check_kdf_budget memlimit
  ok params

-- With the parameters of the sensitive level.
unfoldable pub derive_key : Primitives → Bytes → Bytes → ℕ → Result Bytes
unfolding derive_key_with_params
derive_key p password salt output_len =
    derive_key_with_params p password salt scrypt_log_n scrypt_r scrypt_p output_len
