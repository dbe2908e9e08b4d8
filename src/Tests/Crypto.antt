-- ===== src/Tests/Crypto.antt =====
-- Key derivation limits, hashing, key identifiers, words and comments at concrete values.
use minisign_rs.Base.{
  replicate-IsArray, ℕ, ◌*◌, ◌^◌, ◌≤◌, ◌≡◌, ◌↔◌, refl, arith, Bool, true, false, some, [], ◌∷◌,
  replicate, IsArray, Text, codes, if◌then◌else◌, ltb,
}
use minisign_rs.Errors.{ok, err, ◌>>=◌, scrypt_param_error, force_weak_kdf_in_release, other_kind}
use minisign_rs.Crypto.{KeyNum, chunk, failed, Reader, blake2b_512_stream, blake2b_512}
use minisign_rs.Crypto.Kdf.{
  is_power_of_two, trailing_zeros, decode_opslimit, check_kdf_budget, calculate_kdf_params,
  decode_kdf_params, opslimit_memlimit_to_params,
}
use minisign_rs.Crypto.Kdf.Calculate.{expected_params, calculate_kdf_params_lem}
use minisign_rs.Crypto.Kdf.Decode.{decode_kdf_params_exact, opslimit_memlimit_to_params_bounds}
use minisign_rs.Crypto.Streaming.{contents, blake2b_512_stream-contents}
use minisign_rs.Wordlist.{bytes_to_words}
use minisign_rs.Wordlist.ReadBack.{words_to_bytes, words_to_bytes-bytes_to_words}
use minisign_rs.Tests.Models.{toy, toy-ArePrimitives}

-- The test that the crate `scrypt` makes, by its bound on `log_n`.
abbrev any_params : ℕ → ℕ → ℕ → ℕ → Bool
any_params log_n r q n = ltb log_n 64

decode_kdf_params_exact_example :
    (decode_kdf_params any_params 4194304 134217728 ≡ ok (17, 8, 1)) ↔ (
      (◌≡◌ {A = ℕ} 4194304 (32 * 2 ^ 17))
      × (◌≡◌ {A = ℕ} 134217728 (1024 * 2 ^ 17))
      × (◌≡◌ {A = ℕ} 8 8)
      × (◌≡◌ {A = ℕ} 1 1)
      × (any_params 17 8 1 64 ≡ true))
decode_kdf_params_exact_example =
    decode_kdf_params_exact any_params 4194304 134217728 17 8 1 (omega arith)

calculated : calculate_kdf_params false 20 false ≡ ok (33554432, 1073741824)
unfolding calculate_kdf_params
calculated = refl

limits_accepted : opslimit_memlimit_to_params any_params 33554432 1073741824 ≡ ok (20, 8, 1)
unfolding opslimit_memlimit_to_params decode_kdf_params is_power_of_two trailing_zeros
    decode_opslimit check_kdf_budget
limits_accepted = refl

opslimit_memlimit_to_params_bounds_example :
    (20 ≤ 20) × (1073741824 ≤ 2 ^ 30) × (◌≡◌ {A = ℕ} 8 8) × (◌≡◌ {A = ℕ} 1 1)
opslimit_memlimit_to_params_bounds_example =
    opslimit_memlimit_to_params_bounds any_params 33554432 1073741824 20 8 1 limits_accepted

calculate_kdf_params_lem_example : calculate_kdf_params false 54 false ≡ (
    if false
    then (if false
        then ok (32 * 2 ^ 17, 1024 * 2 ^ 17)
        else err (scrypt_param_error force_weak_kdf_in_release))
    else expected_params 54)
calculate_kdf_params_lem_example = calculate_kdf_params_lem false false 54

abbrev kn : KeyNum
kn = record { bytes = 0xde ∷ 0xad ∷ replicate 6 1 }

kn-IsKeyNum : IsArray 8 kn.bytes
kn-IsKeyNum = (refl, (omega arith, (omega arith, (replicate-IsArray 6 1 (omega arith)).1)))

-- Two parts, and then a failure.
abbrev reader : Reader
reader = chunk (1 ∷ 2 ∷ []) ∷ chunk (3 ∷ []) ∷ failed other_kind ∷ []

blake2b_512_stream-contents_example :
    blake2b_512_stream toy reader ≡ (contents reader >>= λ m. ok (blake2b_512 toy m))
blake2b_512_stream-contents_example = blake2b_512_stream-contents toy toy-ArePrimitives reader

abbrev text : Text
text = codes "release 1.0"

words_to_bytes-bytes_to_words_example : words_to_bytes (bytes_to_words kn.bytes) ≡ some kn.bytes
words_to_bytes-bytes_to_words_example = words_to_bytes-bytes_to_words kn.bytes kn-IsKeyNum.1

-- One character of each length.
abbrev four_lengths : Text
four_lengths = 0x41 ∷ 0xe9 ∷ 0x20ac ∷ 0x1f600 ∷ []
