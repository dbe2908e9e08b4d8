-- ===== src/Ops/Inspect/Refused.antt =====
-- Which keys `decrypt` of rs/src/keys.rs refuses for their memory, against what an inspection says
-- of them.
use minisign_rs.Base.{
  ℕ, ◌*◌, ◌^◌, ◌<◌, ◌≡◌, ◌↔◌, refl, sym, ap, ◌∙◌, Bool, true, false, not, ◌&&◌, Bool-cases, inl,
  inr, Option, none, some, arith, ltb, Bytes, Text, list_eq, min, drop, slice,
}
use minisign_rs.Errors.{
  Error, Result, ok, err, ◌>>=◌, ◌>>◌, fail_if, kdf_over_budget, kdf_error, scrypt_failed,
  kdf_output_too_long, invalid_scrypt_params, scrypt_truncated, other, key_not_encrypted,
  checksum_failed,
}
use minisign_rs.Crypto.{Primitives, KeyNum, derive_key_with_params, max_kdf_output_len, all_zero}
use minisign_rs.Crypto.Kdf.{check_kdf_budget, decode_kdf_params, opslimit_memlimit_to_params}
use minisign_rs.Crypto.Kdf.Calculate.{pow_two_mono}
use minisign_rs.Keys.Seckey.{SeckeyStruct}
use minisign_rs.Keys.Sealing.{decrypt, derive_blob_key, xor_bytes, fill_blob, compute_checksum}
use minisign_rs.Ops.Inspect.{
  unsupported, CredentialStatus, InspectResult, inspect_secret_key_with_credentials,
}
use minisign_rs.Ops.Inspect.Levels.{
  level_of, decoded_cases, chosen, inspect_secret_key_with_credentials-level_of,
}

-- 1 GiB.
abbrev pub budget : ℕ
budget = 1073741824

abbrev is_over : Error → Bool
is_over (kdf_over_budget memlimit most) = true
is_over _ = false

-- A result is the error of a key that takes too much memory.
abbrev result_is_over {ℓ} : {A : Type ℓ} → Result A → Bool
result_is_over (ok a) = false
result_is_over (err e) = is_over e

unfoldable NotOver {ℓ} : {A : Type ℓ} → Result A → Type 0
NotOver m = result_is_over m ≡ false

NotOver-step {ℓ ℓ'} :
    {A : Type ℓ} {B : Type ℓ'} (m : Result A) (rest : A → Result B)
    → NotOver m
    → ((a : A) → NotOver (rest a))
    → NotOver (m >>= rest)
unfolding NotOver
NotOver-step (ok a) rest h k = k a
NotOver-step (err e) rest h k = h

NotOver-guard {ℓ} :
    {B : Type ℓ} (b : Bool) (e : Error) (rest : Result B)
    → is_over e ≡ false
    → NotOver rest
    → NotOver (fail_if b e >> rest)
unfolding NotOver
NotOver-guard true e rest h k = h
NotOver-guard false e rest h k = k

NotOver-ok {ℓ} : {A : Type ℓ} (a : A) → NotOver (ok a)
unfolding NotOver
NotOver-ok a = refl

unsupported_iff : (l : ℕ) → (some (level_of l) ≡ some unsupported) ↔ (20 < l)
unsupported_iff l = ground arith

-- The memory of the key derivation, in multiples of 1 KiB.
above_budget_iff : (l : ℕ) → (budget < 1024 * 2 ^ l) ↔ (20 < l)
above_budget_iff l = elim (Bool-cases (ltb 20 l)) [
  | inl above ↦
      ((λ h. ground arith), (λ h. let big = pow_two_mono 21 l (ground arith) in omega arith))
  | inr below ↦ (
    (λ h. absurd (let small = pow_two_mono l 20 (ground arith) in omega arith)),
    (λ h. absurd (ground arith)),
  )
]

module _ (p : Primitives) where
  NotOver-scrypt :
      (found : Option Bytes)
      → NotOver {A = Bytes}
          (elim found [ none ↦ err (kdf_error scrypt_failed) | some out ↦ ok out ])
  unfolding NotOver
  NotOver-scrypt none = refl
  NotOver-scrypt (some out) = refl

  NotOver-derive :
      (password salt : Bytes) (l r q n : ℕ)
      → NotOver (derive_key_with_params p password salt l r q n)
  unfolding derive_key_with_params
  NotOver-derive password salt l r q n =
      NotOver-guard (ltb max_kdf_output_len n)
        (kdf_error (kdf_output_too_long n max_kdf_output_len)) _ refl
        (NotOver-guard (not (p.scrypt_params l r q (min n 64))) (kdf_error invalid_scrypt_params) _
          refl
          (NotOver-step _ _ (NotOver-scrypt (p.scrypt password salt l r q n)) (λ out.
            NotOver-guard (ltb 64 n && all_zero (drop 64 out)) (kdf_error scrypt_truncated) _ refl
              (NotOver-ok out))))

  NotOver-budget :
      (memlimit : ℕ) → ltb budget memlimit ≡ false → NotOver (check_kdf_budget memlimit)
  unfolding check_kdf_budget NotOver
  NotOver-budget memlimit h = rw h refl

  NotOver-params :
      (opslimit memlimit : ℕ) (found : ℕ × ℕ × ℕ)
      → decode_kdf_params p.scrypt_params opslimit memlimit ≡ ok found
      → ltb budget memlimit ≡ false
      → NotOver (opslimit_memlimit_to_params p.scrypt_params opslimit memlimit)
  unfolding opslimit_memlimit_to_params
  NotOver-params opslimit memlimit found read small = rw read (
      NotOver-step (check_kdf_budget memlimit) _ (NotOver-budget memlimit small)
        (λ u. NotOver-ok found))

  -- Within the budget no other failure of `decrypt` looks like this one.
  NotOver-decrypt :
      (s : SeckeyStruct) (password : Bytes) (found : ℕ × ℕ × ℕ)
      → decode_kdf_params p.scrypt_params s.kdf_opslimit s.kdf_memlimit ≡ ok found
      → ltb budget s.kdf_memlimit ≡ false
      → NotOver (decrypt p s password)
  unfolding decrypt derive_blob_key
  NotOver-decrypt s password found read small =
      NotOver-guard (not s.encrypted) (other key_not_encrypted) _ refl (
        NotOver-step (check_kdf_budget s.kdf_memlimit) _ (NotOver-budget s.kdf_memlimit small) (λ u.
          NotOver-step (derive_blob_key p password s.kdf_salt s.kdf_opslimit s.kdf_memlimit) _
            (NotOver-step
              (opslimit_memlimit_to_params p.scrypt_params s.kdf_opslimit s.kdf_memlimit) _
              (NotOver-params s.kdf_opslimit s.kdf_memlimit found read small)
              (λ (l, r, q). NotOver-derive password s.kdf_salt l r q 104))
            (λ key.
              let blob =
                xor_bytes (fill_blob s.encrypted_keynum s.secret_key_encrypted s.checksum) key in
              let keynum : KeyNum = record { bytes = slice 0 8 blob } in
              NotOver-guard
                (not (list_eq (compute_checksum p keynum (slice 8 72 blob)) (slice 72 104 blob)))
                checksum_failed _ refl (NotOver-ok _))))

  refused_only :
      (s : SeckeyStruct) (password : Bytes) (found : ℕ × ℕ × ℕ)
      → decode_kdf_params p.scrypt_params s.kdf_opslimit s.kdf_memlimit ≡ ok found
      → decrypt p s password ≡ err (kdf_over_budget s.kdf_memlimit budget)
      → budget < s.kdf_memlimit
  unfolding NotOver
  refused_only s password found read h = elim (Bool-cases (ltb budget s.kdf_memlimit)) [
    | inl above ↦ ground arith
    | inr below ↦ absurd (
        let fine : result_is_over (decrypt p s password) ≡ false =
          NotOver-decrypt s password found read below in
        let wrong : false ≡ true = sym fine ∙ ap result_is_over h in cc)
  ]

  refused_above :
      (s : SeckeyStruct) (password : Bytes)
      → s.encrypted ≡ true
      → budget < s.kdf_memlimit
      → decrypt p s password ≡ err (kdf_over_budget s.kdf_memlimit budget)
  unfolding decrypt check_kdf_budget
  refused_above s password mode above = ground arith

  module _ {State : Type 0} (has_password : Text → State → CredentialStatus × State) where
    -- An inspection and the opening of an encrypted key agree on what is too large. For a key
    -- whose inspection succeeds: `decrypt` fails with the error of the budget, under any password,
    -- exactly if the key derivation takes more than 1 GiB, and exactly then the level that is
    -- reported is unsupported. The memory limit is a `u64`.
    pub decrypt-budget :
        (s : SeckeyStruct) (check : Bool) (result : InspectResult) (store store' : State)
        (password : Bytes)
        → s.encrypted ≡ true
        → s.kdf_memlimit < 2 ^ 64
        → inspect_secret_key_with_credentials p.scrypt_params has_password s check store
          ≡ (ok result, store')
        → ((decrypt p s password ≡ err (kdf_over_budget s.kdf_memlimit budget))
            ↔ (budget < s.kdf_memlimit))
          × ((result.security_level ≡ some unsupported) ↔ (budget < s.kdf_memlimit))
    unfolding inspect_secret_key_with_credentials
    decrypt-budget s check result store store' password mode small h =
        let decoded = decode_kdf_params p.scrypt_params s.kdf_opslimit s.kdf_memlimit in
        let (a, r, q, read, made) =
          decoded_cases p.scrypt_params has_password s check decoded store store' result
            (sym (chosen p.scrypt_params has_password s.encrypted _ _ mode) ∙ h) in
        let (l, op, mem, level, asked) =
          inspect_secret_key_with_credentials-level_of p.scrypt_params has_password s check result
            store store' mode small h in
        (
          (refused_only s password (a, r, q) read, refused_above s password mode),
          (
            (λ e. rw mem ((above_budget_iff l).1 ((unsupported_iff l).0 (sym level ∙ e)))),
            (λ above. level ∙ (unsupported_iff l).1 ((above_budget_iff l).0 (rw (← mem) above))),
          ),
        )
