-- ===== src/Main/Reported.antt =====
-- What `save_password_to_credential_store` of rs/src/main.rs tells.
use minisign_rs.Base.{
  ◌≡◌, ◌≢◌, ◌⊎◌, inl, inr, refl, ap, ap₂, Bool, true, false, Option, none, some, List, [], ◌∷◌,
  if◌then◌else◌, Text, list_eq, list_eq_iff, utf8,
}
use minisign_rs.Errors.{Result, ok, err}
use minisign_rs.Credentials.{Keyring, save_password, get_password}
use minisign_rs.Main.{
  Told, password_saved, retrieved_differs, not_retrieved, verification_failed_with,
  save_failed_with, with_extra, told_of, check_saved, save_password_to_credential_store,
}

-- Nothing is told, or that the password was saved.
abbrev pub TellsNoProblem : List Told → Type 0
TellsNoProblem told = (told ≡ []) ⊎ (told ≡ password_saved ∷ [])

problem :
    (t : Told) (context : Option Text)
    → t ≢ password_saved
    → TellsNoProblem (with_extra t context)
    → false ≡ true
problem t none ne (inl e) = cc
problem t none ne (inr e) = absurd (ne cc)
problem t (some m) ne (inl e) = cc
problem t (some m) ne (inr e) = cc

compared :
    (b : Bool) (told : List Told) (context : Option Text)
    → TellsNoProblem (if b then told else with_extra retrieved_differs context)
    → b ≡ true
compared true told context h = refl
compared false told context h = problem retrieved_differs context (λ e. cc) h

module _ {Entry State : Type 0} (k : Keyring Entry State) where
  told_of-retrieved :
      (password : Text) (quiet : Bool) (context : Option Text) (r : Result (Option Text))
      → TellsNoProblem (told_of k password quiet context r)
      → (retrieved : Text) × (r ≡ ok (some retrieved)) × (utf8 retrieved ≡ utf8 password)
  unfolding told_of
  told_of-retrieved password quiet context (ok (some retrieved)) h = (
    retrieved,
    refl,
    (list_eq_iff (utf8 retrieved) (utf8 password)).0
        (compared (list_eq (utf8 retrieved) (utf8 password)) _ context h),
  )
  told_of-retrieved password quiet context (ok none) h =
      absurd (let wrong = problem not_retrieved context (λ e. cc) h in cc)
  told_of-retrieved password quiet context (err e) h =
      absurd (let wrong = problem (verification_failed_with e) context (λ e. cc) h in cc)

  check_saved-retrieved :
      (id password : Text) (quiet : Bool) (context : Option Text)
      (saving : Result (Unit {0}) × State) (told : List Told) (s' : State)
      → check_saved k id password quiet context saving ≡ (told, s')
      → TellsNoProblem told
      → (s1 : State) × (retrieved : Text) × (saving ≡ (ok tt, s1))
        × (get_password k id s1 ≡ (ok (some retrieved), s'))
        × (utf8 retrieved ≡ utf8 password)
  unfolding check_saved
  check_saved-retrieved id password quiet context (err e, s) told s' h fine =
      let same : with_extra (save_failed_with e) context ≡ told = ap (λ x. x.0) h in
      absurd (let wrong = problem (save_failed_with e) context (λ e. cc) (rw same fine) in cc)
  check_saved-retrieved id password quiet context (ok nothing, s) told s' h fine =
      let same : told_of k password quiet context (get_password k id s).0 ≡ told =
        ap (λ x. x.0) h in
      let (retrieved, found, equal) =
        told_of-retrieved password quiet context (get_password k id s).0 (rw same fine) in
      (
        s,
        retrieved,
        refl,
        ap₂ (λ (r : Result (Option Text)) (t : State). (r, t)) found (ap (λ x. x.1) h),
        equal,
      )

  -- If a password is to be saved and no problem is told, then the saving succeeded and the
  -- password was read back from the credential store with the same bytes.
  pub save_password_to_credential_store-retrieved :
      (id password : Text) (quiet : Bool) (context : Option Text) (s s' : State) (told : List Told)
      → save_password_to_credential_store k id (some password) true quiet context s ≡ (told, s')
      → TellsNoProblem told
      → (s1 : State) × (retrieved : Text) × (save_password k id password s ≡ (ok tt, s1))
        × (get_password k id s1 ≡ (ok (some retrieved), s'))
        × (utf8 retrieved ≡ utf8 password)
  unfolding save_password_to_credential_store
  save_password_to_credential_store-retrieved id password quiet context s s' told h fine =
      check_saved-retrieved id password quiet context (save_password k id password s) told s' h fine
