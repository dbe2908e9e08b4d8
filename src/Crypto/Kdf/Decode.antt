-- ===== src/Crypto/Kdf/Decode.antt =====
-- `decode_kdf_params` accepts exactly the pairs that `calculate_kdf_params` writes, and gives
-- their `log_n` back; the budget cuts off at the production limits.
use native.Mathlib.Nat.{div-add-mod, div-eq_of_eq-mul_left, mul-mod_right}
use minisign_rs.Base.{
  ℕ, zero, suc, ◌*◌, ◌/◌, ◌%◌, ◌^◌, ◌≤◌, ◌<◌, ◌≡◌, refl, ap, ◌∙◌, ◌↔◌, Bool, true, false, arith,
}
use minisign_rs.Errors.{ok}
use minisign_rs.Crypto.Kdf.{
  calculate_kdf_params, decode_kdf_params, decode_opslimit, opslimit_memlimit_to_params,
  check_kdf_budget, trailing_zeros_of, trailing_zeros, is_power_of_two,
}
use minisign_rs.Crypto.Kdf.Calculate.{pow_two_mono, calculate_kdf_params_lem}

trailing_zeros_of-pow : (bits l : ℕ) → l < bits → trailing_zeros_of bits (2 ^ l) ≡ l
unfolding trailing_zeros_of
trailing_zeros_of-pow zero l h = absurd (omega arith)
trailing_zeros_of-pow (suc bits) zero h = refl
trailing_zeros_of-pow (suc bits) (suc l) h =
    let even : 2 ^ suc l % 2 ≡ 0 = omega arith in
    let half : 2 ^ suc l / 2 ≡ 2 ^ l = omega arith in
    rw (even, half) (ap suc (trailing_zeros_of-pow bits l (omega arith)))

pub trailing_zeros-pow : (l : ℕ) → l < 64 → trailing_zeros (2 ^ l) ≡ l
unfolding trailing_zeros
trailing_zeros-pow l h = trailing_zeros_of-pow 64 l h

-- The limits at `l` fit 64 bits only for `l` up to 53.
le-of-memlimit-lt : (l : ℕ) → 1024 * 2 ^ l < 2 ^ 64 → l ≤ 53
le-of-memlimit-lt l h = ground (arith, pow_two_mono 54 l)

quotient_times : (op d : ℕ) → op % d ≡ 0 → op / d ≡ 8 → op ≡ 8 * d
quotient_times op d m q = omega (arith, div-add-mod op d, ap (λ (t : ℕ). t * d) q)

quotient_exact : (n : ℕ) → 0 < n → 32 * n / (4 * n) ≡ 8
quotient_exact n h = div-eq_of_eq-mul_left (omega arith) (omega arith)

remainder_exact : (n : ℕ) → 32 * n % (4 * n) ≡ 0
remainder_exact n = ap (λ (t : ℕ). t % (4 * n)) eight ∙ mul-mod_right (4 * n) 8
  where
    eight : 32 * n ≡ 4 * n * 8
    eight = omega arith

module _ (scrypt_params : ℕ → ℕ → ℕ → ℕ → Bool) where
  decode_opslimit_sound :
      (op n log_n l r p : ℕ)
      → decode_opslimit scrypt_params op n log_n ≡ ok (l, r, p)
      → (op ≡ 32 * n) × (l ≡ log_n) × (r ≡ 8) × (p ≡ 1) × (scrypt_params log_n 8 1 64 ≡ true)
  unfolding decode_opslimit
  decode_opslimit_sound op n log_n l r p h = ground (arith, quotient_times op (4 * n))

  decode_opslimit_complete :
      (n log_n : ℕ)
      → 0 < n
      → 4 * n < 2 ^ 64
      → scrypt_params log_n 8 1 64 ≡ true
      → decode_opslimit scrypt_params (32 * n) n log_n ≡ ok (log_n, 8, 1)
  unfolding decode_opslimit
  decode_opslimit_complete n log_n pos fits accepted =
      ground (arith, quotient_exact n, remainder_exact n)

  decode_kdf_params_sound :
      (op mem l r p : ℕ)
      → decode_kdf_params scrypt_params op mem ≡ ok (l, r, p)
      → (op ≡ 32 * 2 ^ l)
        × (mem ≡ 1024 * 2 ^ l)
        × (r ≡ 8)
        × (p ≡ 1)
        × (scrypt_params l 8 1 64 ≡ true)
  unfolding decode_kdf_params is_power_of_two
  decode_kdf_params_sound op mem l r p h =
      ground (arith, decode_opslimit_sound op (mem / 1024) (trailing_zeros (mem / 1024)) l r p)

  decode_kdf_params_complete :
      (l : ℕ)
      → 1024 * 2 ^ l < 2 ^ 64
      → scrypt_params l 8 1 64 ≡ true
      → decode_kdf_params scrypt_params (32 * 2 ^ l) (1024 * 2 ^ l) ≡ ok (l, 8, 1)
  unfolding decode_kdf_params is_power_of_two
  decode_kdf_params_complete l fits accepted =
      let small = le-of-memlimit-lt l fits in
      let n_is : 1024 * 2 ^ l / 1024 ≡ 2 ^ l = omega arith in
      ground
        (arith, n_is, pow_two_mono 0 l, trailing_zeros-pow l, decode_opslimit_complete (2 ^ l) l)

  -- `decode_kdf_params` accepts a pair of limits exactly when it is 32 * 2 ^ l and 1024 * 2 ^ l
  -- and the crate accepts `l`, r = 8 and p = 1; then these three are what it returns. The memory
  -- limit is a `u64`.
  pub decode_kdf_params_exact :
      (op mem l r p : ℕ)
      → mem < 2 ^ 64
      → (decode_kdf_params scrypt_params op mem ≡ ok (l, r, p)) ↔ (
          (op ≡ 32 * 2 ^ l)
          × (mem ≡ 1024 * 2 ^ l)
          × (r ≡ 8)
          × (p ≡ 1)
          × (scrypt_params l 8 1 64 ≡ true))
  decode_kdf_params_exact op mem l r p h =
      (decode_kdf_params_sound op mem l r p, λ c. ground (arith, decode_kdf_params_complete l))

  -- What `calculate_kdf_params` returns without the flag, `decode_kdf_params` reads back as the
  -- same `log_n` with r = 8 and p = 1, wherever the crate accepts these.
  pub decode_kdf_params-calculate_kdf_params :
      (debug : Bool) (log_n op mem : ℕ)
      → calculate_kdf_params debug log_n false ≡ ok (op, mem)
      → scrypt_params log_n 8 1 64 ≡ true
      → decode_kdf_params scrypt_params op mem ≡ ok (log_n, 8, 1)
  decode_kdf_params-calculate_kdf_params debug log_n op mem h accepted = ground (
    arith,
    calculate_kdf_params_lem debug false log_n,
    decode_kdf_params_complete log_n,
    pow_two_mono log_n 53,
  )

  -- What `opslimit_memlimit_to_params` hands to the key derivation is within the budget:
  -- `log_n` is at most 20, which is 1 GiB, and r = 8 and p = 1.
  pub opslimit_memlimit_to_params_bounds :
      (op mem l r p : ℕ)
      → opslimit_memlimit_to_params scrypt_params op mem ≡ ok (l, r, p)
      → (l ≤ 20) × (mem ≤ 2 ^ 30) × (r ≡ 8) × (p ≡ 1)
  unfolding opslimit_memlimit_to_params check_kdf_budget
  opslimit_memlimit_to_params_bounds op mem l r p h =
      ground (arith, decode_kdf_params_sound op mem l r p, pow_two_mono 21 l)
