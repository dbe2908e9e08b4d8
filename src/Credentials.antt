-- ===== src/Credentials.antt =====
-- rs/src/credential_store.rs, as built with the feature `credential_store`. The crate `keyring`
-- and the store of the operating system behind it are the parameter `Keyring`: each call is made
-- in a state and leaves a state.
pub mod Kept
use minisign_rs.Base.{Bool, true, false, Option, none, some, Bytes, Text, codes, if◌then◌else◌}
use minisign_rs.Errors.{
  Result, ok, err, credential_store_error, entry_not_made, password_not_saved, password_not_got,
  password_not_deleted, stored_secret_not_utf8,
}
use minisign_rs.Ops.Files.Decode.{from_utf8}
use minisign_rs.Ops.Inspect.{CredentialStatus, saved, not_saved, unavailable}

abbrev pub service_name : Text
service_name = codes "minisign"

-- `keyring::Error`: whether it is `NoEntry`, and how it is shown.
pub record KeyringError : Type 0 where
  pub is_no_entry : Bool
  pub shown : Text

pub data Answer {ℓ} (A : Type ℓ) : Type ℓ where
  answered : A → Answer A
  refused : KeyringError → Answer A

pub record Keyring (Entry State : Type 0) : Type 0 where
  pub new_entry : Text → Text → State → Answer Entry × State
  pub set_password : Entry → Text → State → Answer (Unit {0}) × State
  pub get_secret : Entry → State → Answer Bytes × State
  pub delete_credential : Entry → State → Answer (Unit {0}) × State

-- The result of a secret that was got.
unfoldable pub decode_secret : Bytes → Result (Option Text)
unfolding from_utf8
decode_secret raw = elim (from_utf8 raw) [
  | none ↦ err (credential_store_error stored_secret_not_utf8)
  | some password ↦ ok (some password)
]

module _ {Entry State : Type 0} (k : Keyring Entry State) where
  -- `Entry::new(SERVICE_NAME, id)?`, and the rest of a function.
  unfoldable pub with_entry :
      {A : Type 0} → Answer Entry × State → (Entry → State → Result A × State) → Result A × State
  with_entry (answered entry, s) rest = rest entry s
  with_entry (refused e, s) rest = (err (credential_store_error (entry_not_made e.shown)), s)

  unfoldable pub save_result : Answer (Unit {0}) × State → Result (Unit {0}) × State
  save_result (answered nothing, s) = (ok tt, s)
  save_result (refused e, s) = (err (credential_store_error (password_not_saved e.shown)), s)

  unfoldable pub get_result : Answer Bytes × State → Result (Option Text) × State
  unfolding decode_secret
  get_result (answered raw, s) = (decode_secret raw, s)
  get_result (refused e, s) = (
    if e.is_no_entry then ok none else err (credential_store_error (password_not_got e.shown)),
    s,
  )

  unfoldable pub forget_result : Answer (Unit {0}) × State → Result (Unit {0}) × State
  forget_result (answered nothing, s) = (ok tt, s)
  forget_result (refused e, s) = (
    if e.is_no_entry then ok tt else err (credential_store_error (password_not_deleted e.shown)),
    s,
  )

  unfoldable pub save_password : Text → Text → State → Result (Unit {0}) × State
  unfolding with_entry save_result
  save_password id password s =
      with_entry (k.new_entry service_name id s)
        (λ entry s'. save_result (k.set_password entry password s'))

  unfoldable pub get_password : Text → State → Result (Option Text) × State
  unfolding with_entry get_result
  get_password id s =
      with_entry (k.new_entry service_name id s) (λ entry s'. get_result (k.get_secret entry s'))

  unfoldable pub forget_password : Text → State → Result (Unit {0}) × State
  unfolding with_entry forget_result
  forget_password id s =
      with_entry (k.new_entry service_name id s)
        (λ entry s'. forget_result (k.delete_credential entry s'))

  unfoldable pub status_of : Result (Option Text) × State → CredentialStatus × State
  status_of (ok (some password), s) = (saved, s)
  status_of (ok none, s) = (not_saved, s)
  status_of (err e, s) = (unavailable e, s)

  unfoldable pub has_password : Text → State → CredentialStatus × State
  unfolding get_password status_of
  has_password id s = status_of (get_password id s)
