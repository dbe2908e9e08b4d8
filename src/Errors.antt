-- ===== src/Errors.antt =====
-- rs/src/errors.rs: the error type and the result of a fallible operation. A `String` payload is
-- a `Message`, which names the format string and carries what is put into it; the payload of
-- another library's error is left out.
use minisign_rs.Base.{ℕ, Bool, true, false, ◌≡◌, refl, ◌⊎◌, inl, inr, Text, Bytes}

-- A path, by the characters of its name.
abbrev pub FilePath : Type 0
FilePath = Text

-- `std::io::ErrorKind`, where the program tells kinds apart.
pub data IoError : Type 0 where
  not_found already_exists interrupted_call other_kind : IoError

mutual
  -- The texts that the constructors with a `String` carry.
  pub data Message : Type 0 where
    expected_bytes : ℕ → ℕ → Message
    expected_bytes_got_more : ℕ → Message
    invalid_signature_algorithm : Message
    invalid_algorithm_bytes : Bytes → Message
    invalid_kdf_algorithm invalid_checksum_algorithm : Message
    missing_comment_or_data_line : Message
    invalid_kdf_opslimit invalid_kdf_memlimit : Error → Message
    expected_lines : ℕ → ℕ → Message
    untrusted_prefix_missing trusted_prefix_missing : Message
    global_signature_length : ℕ → ℕ → Message
    control_character : ℕ → Message
    embedded_carriage_return : Message
    untrusted_comment_too_long trusted_comment_too_long : ℕ → Message
    comment_too_long : Text → ℕ → ℕ → Message
    comment_empty : Message
    decoded_data_exceeds : ℕ → Message
    read_u64_too_short : ℕ → Message
    key_not_encrypted : Message
    not_an_ed25519_point small_order_point malformed_keypair : Message
    public_key_does_not_match_scalar key_inconsistency : Message
    failed_to_read_for_hashing : IoError → Message
    force_weak_kdf_in_release : Message
    log_n_too_large opslimit_overflow memlimit_overflow : ℕ → Message
    divisor_overflow : Message
    memlimit_not_exact n_not_power_of_two opslimit_not_exact derived_r_unsupported : ℕ → Message
    n_zero log_n_out_of_range derived_r_overflow derived_r_zero : Message
    derived_r_exceeds_limits invalid_scrypt_params : Message
    kdf_output_too_long : ℕ → ℕ → Message
    scrypt_failed scrypt_truncated : Message
    file_too_large : ℕ → ℕ → Message
    message_file_too_large : ℕ → Message
    output_needs_buffering : Message
    message_self_verification_failed global_self_verification_failed : Message
    clock_before_epoch : Message
    clock_before_floor : ℕ → Message
    signature_file_not_supported : Message
    failed_to_read_key_file failed_to_read_signature_file : Error → Message
    not_a_minisign_key : Message
    lock_timed_out : FilePath → Message
    only_one_action quiet_and_pretty_quiet : Message
    new_password_file_without_change new_password_file_and_no_password : Message
    save_password_without_store : Message
    config_dir_empty : Message
    entry_not_made password_not_saved password_not_got password_not_deleted : Text → Message
    stored_secret_not_utf8 : Message
    password_not_removed : Error → Message
    password_file_not_opened password_file_without_metadata : IoError → Message
    password_file_not_regular : Text → Message
    password_file_too_large : ℕ → ℕ → Message
    password_file_exceeds : ℕ → Message
    password_file_not_read password_not_read : IoError → Message
    password_file_not_utf8 : Message
    message_file_required password_file_in_verify public_key_required : Message
    output_of_several : Message
    key_takes_no_password_file password_file_is_current_only : Message
    not_interactive : Message
    flush_failed write_to_stdout_failed : IoError → Message

  pub data Error : Type 0 where
    file_read file_write : FilePath → IoError → Error
    file_not_found file_exists : FilePath → Error
    output_alias : FilePath → FilePath → Error
    output_is_symlink : FilePath → Error
    invalid_base64 : Error
    invalid_key_format invalid_public_key invalid_secret_key : Message → Error
    invalid_signature_format : Message → Error
    invalid_file_format : Message → Message → Error
    missing_field : Message → Error
    invalid_utf8 : FilePath → Error
    verification_failed invalid_signature legacy_signature_rejected : Error
    key_mismatch : Text → Error
    checksum_failed : Error
    credential_store_error kdf_error kdf_memory_error : Message → Error
    kdf_over_budget : ℕ → ℕ → Error
    rng_error : Message → Error
    password_required : Error
    scrypt_param_error : Message → Error
    password_mismatch : Error
    invalid_path : FilePath → Error
    missing_argument invalid_comment usage io : Message → Error
    interrupted partial_failure total_failure : Error
    other : Message → Error

pub data Result {ℓ} (A : Type ℓ) : Type ℓ where
  err : Error → Result A
  ok : A → Result A

infixl 5 ◌>>=◌ ◌>>◌
-- The `?` operator: the rest of a function runs on the value, and an error ends it.
abbrev pub ◌>>=◌ {ℓ ℓ'} : {X : Type ℓ} {Y : Type ℓ'} (m : Result X) → (X → Result Y) → Result Y
err problem >>= rest = err problem
ok value >>= rest = rest value

-- The same of a function that returns nothing.
abbrev pub ◌>>◌ {ℓ} : {Y : Type ℓ} (check : Result (Unit {0})) → Result Y → Result Y
check >> rest = check >>= λ nothing. rest

-- `if cond { return Err(e) }`
abbrev pub fail_if : Bool → Error → Result (Unit {0})
fail_if true e = err e
fail_if false e = ok tt

abbrev pub map_err {ℓ} : {A : Type ℓ} → (Error → Error) → Result A → Result A
map_err f (ok a) = ok a
map_err f (err e) = err (f e)

abbrev pub is_err {ℓ} : {A : Type ℓ} → Result A → Bool
is_err (ok a) = false
is_err (err e) = true

pub fail_if_ok : (b : Bool) (e : Error) → fail_if b e ≡ ok tt → b ≡ false
fail_if_ok true e h = cc
fail_if_ok false e h = refl

-- Behind a `?` that did not return there is a value, and the rest succeeded on it.
pub >>=-eq-ok {ℓ ℓ'} :
    {X : Type ℓ} {Y : Type ℓ'} (m : Result X) (rest : X → Result Y) {y : Y}
    → (m >>= rest) ≡ ok y
    → (value : X) × (m ≡ ok value) × (rest value ≡ ok y)
>>=-eq-ok (err problem) rest h = cc
>>=-eq-ok (ok value) rest h = (value, refl, h)

pub Result-cases {ℓ} :
    {X : Type ℓ} (m : Result X)
    → ((value : X) × (m ≡ ok value)) ⊎ ((problem : Error) × (m ≡ err problem))
Result-cases (err problem) = inr (problem, refl)
Result-cases (ok value) = inl (value, refl)

-- Inversion of a guard that was passed.
pub fail_if-ok {ℓ} :
    {B : Type ℓ} (c : Bool) (e : Error) (k : Result B) {b : B}
    → (fail_if c e >> k) ≡ ok b
    → (c ≡ false) × (k ≡ ok b)
fail_if-ok true e k h = cc
fail_if-ok false e k h = (refl, h)
