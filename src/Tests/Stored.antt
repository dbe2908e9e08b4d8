-- ===== src/Tests/Stored.antt =====
-- A key store of concrete secrets.
use minisign_rs.Base.{
  ◌≡◌, ◌≢◌, refl, sym, ap, ◌∙◌, arith, Bool, true, false, Option, none, some, inr, [], ◌∷◌, Bytes,
  Text, codes, utf8, list_eq, list_eq_iff, list_eq_refl, if◌then◌else◌,
}
use minisign_rs.Errors.{ok}
use minisign_rs.Credentials.{
  Keyring, KeyringError, Answer, answered, refused, save_password, get_password,
}
use minisign_rs.Credentials.Kept.{IsKeyring, get_password-save_password}
use minisign_rs.Main.{save_password_to_credential_store, password_saved}
use minisign_rs.Main.Reported.{save_password_to_credential_store-retrieved}

abbrev pub Secrets : Type 0
Secrets = Text → Option Bytes

abbrev no_entry : KeyringError
no_entry = record { is_no_entry = true; shown = codes "no entry" }

abbrev put : Text → Option Bytes → Secrets → Secrets
put name secret held id = if list_eq id name then secret else held id

abbrev secret_of : Option Bytes → Answer Bytes
secret_of none = refused no_entry
secret_of (some raw) = answered raw

abbrev pub keyring : Keyring Text Secrets
keyring = record {
  new_entry = λ service id held. (answered id, held);
  set_password = λ name password held. (answered tt, put name (some (utf8 password)) held);
  get_secret = λ name held. (secret_of (held name), held);
  delete_credential = λ name held. (answered tt, put name none held);
}

put_here :
    (name : Text) (secret : Option Bytes) (held : Secrets) → put name secret held name ≡ secret
put_here name secret held = rw (list_eq_refl name) refl

chosen : (b : Bool) (x y : Option Bytes) → b ≢ true → (if b then x else y) ≡ y
chosen true x y h = absurd (h refl)
chosen false x y h = refl

put_apart :
    (name other : Text) (secret : Option Bytes) (held : Secrets)
    → other ≢ name
    → put name secret held other ≡ held other
put_apart name other secret held ne =
    chosen (list_eq other name) secret (held other) (λ e. ne ((list_eq_iff other name).0 e))

answered_secret :
    (found : Option Bytes) (raw : Bytes) → secret_of found ≡ answered raw → found ≡ some raw
answered_secret none raw h = cc
answered_secret (some x) raw h = cc

refused_secret :
    (found : Option Bytes) (e : KeyringError) → secret_of found ≡ refused e → found ≡ none
refused_secret none e h = refl
refused_secret (some x) e h = cc

pub keyring-IsKeyring : IsKeyring keyring (λ name. name) (λ held. held)
keyring-IsKeyring = record {
  names = λ id s s' entry h. cc;
  naming_keeps = λ id other s. refl;
  stores = λ entry password s s' h. (
    ap (λ x. x.1 entry) (sym h) ∙ put_here entry (some (utf8 password)) s,
    λ other ne. ap (λ x. x.1 other) (sym h) ∙ put_apart entry other (some (utf8 password)) s ne,
  );
  reads = λ entry s s' raw h. answered_secret (s entry) raw (ap (λ x. x.0) h);
  reading_keeps = λ entry other s. refl;
  misses = λ entry s s' e h absent. refused_secret (s entry) e (ap (λ x. x.0) h);
  deletes = λ entry s s' h. (
    ap (λ x. x.1 entry) (sym h) ∙ put_here entry none s,
    λ other ne. ap (λ x. x.1 other) (sym h) ∙ put_apart entry other none s ne,
  );
  deletes_none = λ entry s s' e h absent. absurd (let wrong = ap (λ x. x.0) h in cc);
}

abbrev id : Text
id = codes "AB"

abbrev password : Text
password = codes "pw"

abbrev empty : Secrets
empty other = none

abbrev pub after : Secrets
after = put id (some (utf8 password)) empty

saved : save_password keyring id password empty ≡ (ok tt, after)
unfolding save_password
saved = refl

got : get_password keyring id after ≡ (ok (some password), after)
unfolding get_password list_eq utf8
got = refl

get_password-save_password_example :
    (some password ≡ some password) × ((other : Text) → other ≢ id → after other ≡ empty other)
get_password-save_password_example =
    get_password-save_password keyring keyring-IsKeyring id password (some password) empty after
      after (ground arith) saved got

told :
    save_password_to_credential_store keyring id (some password) true false none empty
    ≡ (password_saved ∷ [], after)
unfolding save_password_to_credential_store list_eq
told = refl

save_password_to_credential_store-retrieved_example :
    (s1 : Secrets) × (retrieved : Text) × (save_password keyring id password empty ≡ (ok tt, s1))
    × (get_password keyring id s1 ≡ (ok (some retrieved), after))
    × (utf8 retrieved ≡ utf8 password)
save_password_to_credential_store-retrieved_example =
    save_password_to_credential_store-retrieved keyring id password false none empty after
      (password_saved ∷ []) told (inr refl)
