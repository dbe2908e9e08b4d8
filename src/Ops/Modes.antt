-- ===== src/Ops/Modes.antt =====
-- What generating a key pair and changing a password share, of rs/src/ops/mod.rs and
-- rs/src/ops/generate.rs: the modes, and how a secret key is sealed in each.
pub mod Opens
use minisign_rs.Base.{ℕ, Bool, Option, none, some, ◌++◌, Bytes, Text, codes}
use minisign_rs.Errors.{Result, ok, err, ◌>>=◌, password_required}
use minisign_rs.Crypto.{KeyNum, SecretKey, Primitives, to_key_id}
use minisign_rs.Crypto.Kdf.{calculate_kdf_params}
use minisign_rs.Keys.Seckey.{SeckeyStruct, new_unencrypted}
use minisign_rs.Keys.Sealing.{new_encrypted}

pub data OverwritePolicy : Type 0 where
  preserve overwrite : OverwritePolicy

pub data EncryptionMode : Type 0 where
  protected unprotected : EncryptionMode

abbrev pub production_log_n : ℕ
production_log_n = 20

-- `ok_or(Error::PasswordRequired)`
abbrev pub or_password_required : Option Bytes → Result Bytes
or_password_required none = err password_required
or_password_required (some password) = ok password

-- The comment of a secret key file.
unfoldable pub seckey_comment : EncryptionMode → Text
seckey_comment unprotected = codes "minisign secret key"
seckey_comment protected = codes "minisign encrypted secret key"

-- The comment of the options, or the default one of a public key file.
unfoldable pub pubkey_comment : KeyNum → Option Text → Text
pubkey_comment keynum none = codes "minisign public key " ++ to_key_id keynum
pubkey_comment keynum (some comment) = comment

-- The structure of a key under a mode. `debug` says whether this is a debug build, and the salt is
-- drawn at random by the source.
unfoldable pub seal_key :
    Primitives
    → Bool
    → EncryptionMode
    → Bool
    → ℕ
    → Bytes
    → Option Bytes
    → KeyNum
    → SecretKey
    → Result SeckeyStruct
unfolding new_unencrypted new_encrypted calculate_kdf_params
seal_key p debug unprotected force_weak_kdf log_n kdf_salt password keynum secret_key =
    ok (new_unencrypted keynum secret_key)
seal_key p debug protected force_weak_kdf log_n kdf_salt password keynum secret_key = do
  pwd ← or_password_required password
  (kdf_opslimit, kdf_memlimit) ← calculate_kdf_params debug log_n force_weak_kdf
  new_encrypted p keynum secret_key pwd kdf_salt kdf_opslimit kdf_memlimit
