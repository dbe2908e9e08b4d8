-- ===== src/Ops/Inspect/Levels.antt =====
-- What an inspection says of the protection of a key.
use minisign_rs.Base.{
  ℕ, ◌*◌, ◌^◌, ◌≤◌, ◌<◌, ◌≡◌, refl, sym, ap, ap₂, ◌∙◌, ◌⊎◌, inl, inr, Bool, true, false, not, ◌&&◌,
  ◌||◌, some, arith, ltb, leb, ◌==◌, if◌then◌else◌, Text,
}
use minisign_rs.Errors.{Result, ok, err}
use minisign_rs.Crypto.Kdf.{
  check_kdf_budget, decode_kdf_params, production_opslimit, production_memlimit,
}
use minisign_rs.Crypto.Kdf.Calculate.{pow_two_mono}
use minisign_rs.Crypto.Kdf.Decode.{decode_kdf_params_exact}
use minisign_rs.Keys.Seckey.{SeckeyStruct, credential_id}
use minisign_rs.Ops.Inspect.{
  SecurityLevel, high, medium, low, unsupported, from_kdf_params, CredentialStatus, not_saved,
  InspectResult, inspect_encrypted, inspect_decoded, inspect_secret_key_with_credentials,
  secret_result, look_up, is_unsupported,
}

-- The level of a key whose derivation takes 2 ^ (l + 10) bytes.
abbrev pub level_of : ℕ → SecurityLevel
level_of l =
    if ltb 20 l then unsupported else if l == 20 then high else if leb 18 l then medium else low

abbrev falls_back : ℕ → Bool
falls_back l = ltb (32 * 2 ^ l) production_opslimit || ltb (1024 * 2 ^ l) production_memlimit

level_above : (l : ℕ) → 21 ≤ l → from_kdf_params (1024 * 2 ^ l) (falls_back l) ≡ level_of l
unfolding from_kdf_params check_kdf_budget
level_above l h = ground (arith, pow_two_mono 21 l h)

level_below : (l : ℕ) → l ≤ 17 → from_kdf_params (1024 * 2 ^ l) (falls_back l) ≡ level_of l
unfolding from_kdf_params check_kdf_budget
level_below l h = ground (arith, pow_two_mono l 17 h)

small_cases : (l : ℕ) → (21 ≤ l) ⊎ ((l ≤ 17) ⊎ ((l ≡ 18) ⊎ ((l ≡ 19) ⊎ (l ≡ 20))))
small_cases l = ground arith

level_lem : (l : ℕ) → from_kdf_params (1024 * 2 ^ l) (falls_back l) ≡ level_of l
unfolding check_kdf_budget
level_lem l = elim (small_cases l) [
  | inl above ↦ level_above l above
  | inr (inl below) ↦ level_below l below
  | inr (inr (inl e)) ↦ rw e (unfold from_kdf_params in refl)
  | inr (inr (inr (inl e))) ↦ rw e (unfold from_kdf_params in refl)
  | inr (inr (inr (inr e))) ↦ rw e (unfold from_kdf_params in refl)
]

unsupported_above : (l : ℕ) → is_unsupported (level_of l) ≡ ltb 20 l
unsupported_above l = ground arith

module _ {State : Type 0} (scrypt_params : ℕ → ℕ → ℕ → ℕ → Bool)
    (credential_status : Text → State → CredentialStatus × State) where
  -- An encrypted key of given limits.
  inspect_encrypted_level :
      (s : SeckeyStruct) (check : Bool) (l r p : ℕ) (store : State)
      → s.kdf_opslimit ≡ 32 * 2 ^ l
      → s.kdf_memlimit ≡ 1024 * 2 ^ l
      → (inspect_encrypted scrypt_params credential_status s check l r p store).0.security_level
        ≡ some (level_of l)
  unfolding inspect_encrypted secret_result
  inspect_encrypted_level s check l r p store op mem = rw (op, mem) (ap some (level_lem l))

  -- What the inspection reports of the store, and the state that it leaves.
  abbrev Asked : InspectResult × State → CredentialStatus × State
  Asked (result, store) = (result.password_saved, store)

  inspect_encrypted_asks :
      (s : SeckeyStruct) (check : Bool) (l r p : ℕ) (store : State)
      → s.kdf_opslimit ≡ 32 * 2 ^ l
      → s.kdf_memlimit ≡ 1024 * 2 ^ l
      → Asked (inspect_encrypted scrypt_params credential_status s check l r p store)
        ≡ look_up scrypt_params credential_status (check && not (ltb 20 l)) s store
  unfolding inspect_encrypted secret_result credential_id
  inspect_encrypted_asks s check l r p store op mem =
      ap
        (λ level.
          look_up scrypt_params credential_status (check && not (is_unsupported level)) s store)
        (rw (op, mem) (level_lem l))
      ∙ ap (λ t. look_up scrypt_params credential_status (check && not t) s store)
          (unsupported_above l)

  -- Where the inspection succeeds, the limits were read.
  pub decoded_cases :
      (s : SeckeyStruct) (check : Bool) (decoded : Result (ℕ × ℕ × ℕ)) (store store' : State)
      (result : InspectResult)
      → inspect_decoded scrypt_params credential_status s check decoded store ≡ (ok result, store')
      → (l : ℕ) × (r : ℕ) × (p : ℕ) × (decoded ≡ ok (l, r, p))
        × (inspect_encrypted scrypt_params credential_status s check l r p store ≡ (result, store'))
  unfolding inspect_decoded
  decoded_cases s check (err e) store store' result h = absurd cc
  decoded_cases s check (ok (l, r, p)) store store' result h =
      let made = inspect_encrypted scrypt_params credential_status s check l r p store in
      let same : made.0 ≡ result = result_inj (ap (λ x. x.0) h) in
      (l, r, p, refl, ap₂ (λ (x : InspectResult) (t : State). (x, t)) same (ap (λ x. x.1) h))
    where
      result_inj : {x y : InspectResult} → ◌≡◌ {A = Result InspectResult} (ok x) (ok y) → x ≡ y
      result_inj e = cc

  pub chosen :
      (b : Bool) (x y : Result InspectResult × State) → b ≡ true → (if not b then x else y) ≡ y
  chosen true x y h = refl
  chosen false x y h = absurd cc

  -- What the inspection of an encrypted key reports: its limits are 32 * 2 ^ l and 1024 * 2 ^ l
  -- for some l, and the level is high for l = 20, medium for 18 and 19, low below and unsupported
  -- above. If the look-up is wanted and l is at most 20, the credential store is asked once, for
  -- the identifier of the key, its answer is reported, and the store is left as that call leaves
  -- it; otherwise the store is not asked, its state is as before, and nothing is reported as saved.
  -- The memory limit is a `u64`.
  pub inspect_secret_key_with_credentials-level_of :
      (s : SeckeyStruct) (check : Bool) (result : InspectResult) (store store' : State)
      → s.encrypted ≡ true
      → s.kdf_memlimit < 2 ^ 64
      → inspect_secret_key_with_credentials scrypt_params credential_status s check store
        ≡ (ok result, store')
      → (l : ℕ) × (s.kdf_opslimit ≡ 32 * 2 ^ l)
        × (s.kdf_memlimit ≡ 1024 * 2 ^ l)
        × (result.security_level ≡ some (level_of l))
        × ◌≡◌ {A = CredentialStatus × State}
            (result.password_saved, store')
            (if check && leb l 20
              then credential_status (credential_id s) store
              else (not_saved, store))
  unfolding inspect_secret_key_with_credentials look_up
  inspect_secret_key_with_credentials-level_of s check result store store' mode small h =
      let decoded = decode_kdf_params scrypt_params s.kdf_opslimit s.kdf_memlimit in
      let (l, r, p, read, made) =
        decoded_cases s check decoded store store' result (sym (chosen s.encrypted _ _ mode) ∙ h) in
      let (op, mem, eight, one, accepted) =
        (decode_kdf_params_exact scrypt_params s.kdf_opslimit s.kdf_memlimit l r p small).0 read in
      (
        l,
        op,
        mem,
        ap (λ x. x.0.security_level) (sym made)
            ∙ inspect_encrypted_level s check l r p store op mem,
        ap Asked (sym made)
            ∙ inspect_encrypted_asks s check l r p store op mem
            ∙ ap (λ t. look_up scrypt_params credential_status (check && t) s store) (supported l),
      )
    where
      supported : (n : ℕ) → not (ltb 20 n) ≡ leb n 20
      supported n = ground arith
