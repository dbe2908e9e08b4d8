-- ===== src/Credentials/Kept.antt =====
-- What the credential store of rs/src/credential_store.rs holds, over a key store that keeps a
-- secret under each name.
use minisign_rs.Base.{
  ◌≡◌, ◌≢◌, ◌⊎◌, inl, inr, refl, sym, ap, ◌∙◌, Bool, true, false, Option, none, some, Bytes, Text,
  utf8, All, if◌then◌else◌,
}
use minisign_rs.Errors.{
  Error, Result, ok, err, credential_store_error, password_not_got, password_not_deleted,
}
use minisign_rs.Ops.Files.Utf8.{IsScalar, from_utf8-utf8}
use minisign_rs.Credentials.{
  Keyring, Answer, answered, refused, KeyringError, service_name, decode_secret, with_entry,
  save_result, get_result, forget_result, save_password, get_password, forget_password,
}

module _ {Entry State : Type 0} (k : Keyring Entry State) where
  -- What the calls of the key store document, over the secrets that it holds for the service:
  -- an entry stands for the name that it was made with, a password is stored as its UTF-8 bytes,
  -- a secret is read as it was stored, a deleted one is gone, and neither the making of an entry
  -- nor a reading changes what is held.
  pub record IsKeyring (name : Entry → Text) (held : State → Text → Option Bytes) : Type 0 where
    pub names :
        (id : Text) (s s' : State) (entry : Entry)
        → k.new_entry service_name id s ≡ (answered entry, s')
        → name entry ≡ id
    pub naming_keeps :
        (id other : Text) (s : State) → held (k.new_entry service_name id s).1 other ≡ held s other
    pub stores :
        (entry : Entry) (password : Text) (s s' : State)
        → k.set_password entry password s ≡ (answered tt, s')
        → (held s' (name entry) ≡ some (utf8 password))
          × ((other : Text) → other ≢ name entry → held s' other ≡ held s other)
    pub reads :
        (entry : Entry) (s s' : State) (raw : Bytes)
        → k.get_secret entry s ≡ (answered raw, s')
        → held s (name entry) ≡ some raw
    pub reading_keeps :
        (entry : Entry) (other : Text) (s : State)
        → held (k.get_secret entry s).1 other ≡ held s other
    pub misses :
        (entry : Entry) (s s' : State) (e : KeyringError)
        → k.get_secret entry s ≡ (refused e, s')
        → e.is_no_entry ≡ true
        → held s (name entry) ≡ none
    pub deletes :
        (entry : Entry) (s s' : State)
        → k.delete_credential entry s ≡ (answered tt, s')
        → (held s' (name entry) ≡ none)
          × ((other : Text) → other ≢ name entry → held s' other ≡ held s other)
    pub deletes_none :
        (entry : Entry) (s s' : State) (e : KeyringError)
        → k.delete_credential entry s ≡ (refused e, s')
        → e.is_no_entry ≡ true
        → (held s' (name entry) ≡ none)
          × ((other : Text) → other ≢ name entry → held s' other ≡ held s other)

  with_entry-ok :
      {A : Type 0} (answer : Answer Entry × State) (rest : Entry → State → Result A × State) {a : A}
      {s' : State}
      → with_entry k answer rest ≡ (ok a, s')
      → (entry : Entry) × (s1 : State) × (answer ≡ (answered entry, s1))
        × (rest entry s1 ≡ (ok a, s'))
  unfolding with_entry
  with_entry-ok (answered entry, s) rest h = (entry, s, refl, h)
  with_entry-ok (refused e, s) rest h = absurd cc

  save_result-ok :
      (answer : Answer (Unit {0}) × State) {a : Unit {0}} {s' : State}
      → save_result k answer ≡ (ok a, s')
      → answer ≡ (answered tt, s')
  unfolding save_result
  save_result-ok (answered nothing, s) h = cc
  save_result-ok (refused e, s) h = absurd cc

  -- An error that is passed over.
  passed :
      {A : Type 0} (b : Bool) (a : A) (e : Error) {a' : A} {s s' : State}
      → ◌≡◌ {A = Result A × State} (if b then ok a else err e, s) (ok a', s')
      → (b ≡ true) × (a ≡ a') × (s ≡ s')
  passed true a e h = (refl, cc, cc)
  passed false a e h = absurd cc

  forget_result-ok :
      (answer : Answer (Unit {0}) × State) {a : Unit {0}} {s' : State}
      → forget_result k answer ≡ (ok a, s')
      → (answer ≡ (answered tt, s'))
        ⊎ ((e : KeyringError) × (answer ≡ (refused e, s')) × (e.is_no_entry ≡ true))
  unfolding forget_result
  forget_result-ok (answered nothing, s) h = inl cc
  forget_result-ok (refused e, s) h =
      let (absent, same, there) =
        passed e.is_no_entry tt (credential_store_error (password_not_deleted e.shown)) h in
      inr (e, rw (there) refl, absent)

  module _ {name : Entry → Text} {held : State → Text → Option Bytes}
      (laws : IsKeyring name held) where
    -- What is got for a secret that is held.
    unfoldable pub password_of : Option Bytes → Result (Option Text)
    unfolding decode_secret
    password_of none = ok none
    password_of (some raw) = decode_secret raw

    made_keeps :
        (id : Text) (s s1 : State) (entry : Entry) (other : Text)
        → k.new_entry service_name id s ≡ (answered entry, s1)
        → held s1 other ≡ held s other
    made_keeps id s s1 entry other made =
        ap (λ x. held x.1 other) (sym made) ∙ laws.naming_keeps id other s

    save_password-held :
        (id password : Text) (s s' : State)
        → save_password k id password s ≡ (ok tt, s')
        → (held s' id ≡ some (utf8 password))
          × ((other : Text) → other ≢ id → held s' other ≡ held s other)
    unfolding save_password
    save_password-held id password s s' h =
        let (entry, s1, made, rest) = with_entry-ok (k.new_entry service_name id s) _ h in
        let named = laws.names id s s1 entry made in
        let same = λ (other : Text). made_keeps id s s1 entry other made in
        let (here, apart) =
          laws.stores entry password s1 s'
            (save_result-ok (k.set_password entry password s1) rest) in
        (
          ap (held s') (sym named) ∙ here,
          λ other ne. apart other (λ e. ne (e ∙ named)) ∙ same other,
        )

    get_result-held :
        (entry : Entry) (s s' : State) (answer : Answer Bytes × State) (r : Option Text)
        → k.get_secret entry s ≡ answer
        → get_result k answer ≡ (ok r, s')
        → password_of (held s (name entry)) ≡ ok r
    unfolding get_result password_of
    get_result-held entry s s' (answered raw, s2) r e h =
        rw (laws.reads entry s s2 raw e) (ap (λ x. x.0) h)
    get_result-held entry s s' (refused problem, s2) r e h =
        let (absent, same, there) =
          passed problem.is_no_entry none (credential_store_error (password_not_got problem.shown))
            h in
        rw (laws.misses entry s s2 problem e absent) (ap ok same)

    forget_password-held :
        (id : Text) (s s' : State)
        → forget_password k id s ≡ (ok tt, s')
        → (held s' id ≡ none) × ((other : Text) → other ≢ id → held s' other ≡ held s other)
    unfolding forget_password
    forget_password-held id s s' h =
        let (entry, s1, made, rest) = with_entry-ok (k.new_entry service_name id s) _ h in
        let named = laws.names id s s1 entry made in
        let same = λ (other : Text). made_keeps id s s1 entry other made in
        let (here, apart) : (held s' (name entry) ≡ none)
            × ((other : Text) → other ≢ name entry → held s' other ≡ held s1 other) =
          elim (forget_result-ok (k.delete_credential entry s1) rest) [
            | inl gone ↦ laws.deletes entry s1 s' gone
            | inr (e, missing, absent) ↦ laws.deletes_none entry s1 s' e missing absent
          ] in
        (
          ap (held s') (sym named) ∙ here,
          λ other ne. apart other (λ e. ne (e ∙ named)) ∙ same other,
        )

    get_password-held :
        (id : Text) (s s' : State) (r : Option Text)
        → get_password k id s ≡ (ok r, s')
        → password_of (held s id) ≡ ok r
    unfolding get_password
    get_password-held id s s' r h =
        let (entry, s1, made, rest) = with_entry-ok (k.new_entry service_name id s) _ h in
        let named = laws.names id s s1 entry made in
        let same = λ (other : Text). made_keeps id s s1 entry other made in
        ap password_of (sym (same id) ∙ ap (held s1) (sym named))
        ∙ get_result-held entry s1 s' (k.get_secret entry s1) r refl rest

    decode_secret-utf8 :
        (password : Text)
        → All IsScalar password
        → decode_secret (utf8 password) ≡ ok (some password)
    unfolding decode_secret
    decode_secret-utf8 password scalars = rw (from_utf8-utf8 password scalars, decode_secret) refl

    ok_injective : {A : Type 0} {a b : A} → ◌≡◌ {A = Result A} (ok a) (ok b) → a ≡ b
    ok_injective e = cc

    with_entry-keeps :
        {A : Type 0} (answer : Answer Entry × State) (rest : Entry → State → Result A × State)
        (other : Text)
        → ((entry : Entry) (s1 : State) → held (rest entry s1).1 other ≡ held s1 other)
        → held (with_entry k answer rest).1 other ≡ held answer.1 other
    unfolding with_entry
    with_entry-keeps (answered entry, s) rest other keeps = keeps entry s
    with_entry-keeps (refused e, s) rest other keeps = refl

    get_result-state : (answer : Answer Bytes × State) → (get_result k answer).1 ≡ answer.1
    unfolding get_result
    get_result-state (answered raw, s) = refl
    get_result-state (refused e, s) = refl

    -- A get changes nothing that is held, whether or not it succeeds.
    pub get_password-keeps :
        (id other : Text) (s : State) → held (get_password k id s).1 other ≡ held s other
    unfolding get_password
    get_password-keeps id other s =
        with_entry-keeps (k.new_entry service_name id s) _ other (λ entry s1.
          ap (λ t. held t other) (get_result-state (k.get_secret entry s1))
          ∙ laws.reading_keeps entry other s1)
        ∙ laws.naming_keeps id other s

    -- Over a key store that keeps a secret under each name: a password that was saved is the one
    -- that a get of the same identifier gives, whenever the get succeeds at all, and what is held
    -- under any other identifier is as before the saving.
    pub get_password-save_password :
        (id password : Text) (r : Option Text) (s s' s'' : State)
        → All IsScalar password
        → save_password k id password s ≡ (ok tt, s')
        → get_password k id s' ≡ (ok r, s'')
        → (r ≡ some password) × ((other : Text) → other ≢ id → held s' other ≡ held s other)
    unfolding password_of
    get_password-save_password id password r s s' s'' scalars saving getting =
        let (here, apart) = save_password-held id password s s' saving in
        (
          ok_injective (
              sym (get_password-held id s' s'' r getting)
              ∙ ap password_of here
              ∙ decode_secret-utf8 password scalars),
          apart,
        )

    -- Over the same key store a forgotten password is not found by a get that succeeds, and what
    -- is held under any other identifier is as before.
    pub get_password-forget_password :
        (id : Text) (r : Option Text) (s s' s'' : State)
        → forget_password k id s ≡ (ok tt, s')
        → get_password k id s' ≡ (ok r, s'')
        → (r ≡ none) × ((other : Text) → other ≢ id → held s' other ≡ held s other)
    unfolding password_of
    get_password-forget_password id r s s' s'' forgetting getting =
        let (here, apart) = forget_password-held id s s' forgetting in
        (ok_injective (sym (get_password-held id s' s'' r getting) ∙ ap password_of here), apart)
