-- ===== src/Ops/Generate/Make/Opens.antt =====
-- What a generated key pair is good for, of rs/src/ops/generate.rs.
use minisign_rs.Base.{
  ℕ, ◌≡◌, refl, sym, ap, ◌∙◌, inl, inr, true, false, Option, none, some, Bytes, Text, IsArray, utf8,
}
use minisign_rs.Errors.{Result, ok, err, ◌>>=◌, ◌>>◌, is_err, >>=-eq-ok, fail_if-ok}
use minisign_rs.Formats.{Base64, IsBase64}
use minisign_rs.Crypto.{
  KeyNum, SecretKey, PublicKey, secret_key_bytes, kdf_salt_bytes, Primitives, ArePrimitives,
}
use minisign_rs.Keys.Pubkey.{PubkeyStruct, pubkey_to_file_contents, pubkey_from_file_contents}
use minisign_rs.Keys.Pubkey.File.{pubkey_from_file_contents-pubkey_to_file_contents}
use minisign_rs.Keys.Seckey.{SeckeyStruct, seckey_to_file_contents, seckey_from_file_contents}
use minisign_rs.Keys.Sealing.{extract_key}
use minisign_rs.Ops.Writing.{Entry, Store, secret_key_file_permissions}
use minisign_rs.Ops.Paths.{reject_output_alias}
use minisign_rs.Ops.Modes.{
  OverwritePolicy, preserve, overwrite, seal_key, seckey_comment, pubkey_comment,
}
use minisign_rs.Ops.Modes.Opens.{seal_key-opens}
use minisign_rs.Ops.Sign.{derive_public_key}
use minisign_rs.Ops.Generate.Pair.{PairPaths, Run}
use minisign_rs.Ops.Generate.Steps.{
  AreDistinct, PairDone, PairCreated-PairDone, CanRemove, temp_entry,
}
use minisign_rs.Ops.Generate.Emptied.{CanRestore}
use minisign_rs.Ops.Generate.Created.{write_keypair_files_create_new-PairCreated}
use minisign_rs.Ops.Generate.Overwritten.{write_keypair_files_with_overwrite-PairDone}
use minisign_rs.Ops.Generate.Make.{
  GenerateOptions, GenerateResult, Surroundings, Draw, paths_of, validate_optional, needs_password,
  drawn_keynum, generate_keypair, prepare, file_texts, write_pair, write_texts, write_prepared,
  ensure_secret_key_directory, ensure_parent_directory, generate_with_log_n,
}

-- A drawn key pair is one that its bytes give back, and all that is drawn has the right sizes.
pub record IsDraw (p : Primitives) (to_keypair_bytes : p.SigningKey → Bytes) (draw : Draw p)
    : Type 0 where
  pub reads_back : p.from_keypair_bytes (to_keypair_bytes draw.signing_key) ≡ some draw.signing_key
  pub keypair_array : IsArray secret_key_bytes (to_keypair_bytes draw.signing_key)
  pub keynum_array : IsArray 8 draw.keynum_bytes
  pub salt_array : IsArray kdf_salt_bytes draw.kdf_salt

-- The paths of a run are distinct, and what undoes a failed run does not fail.
pub record IsReliable (around : Surroundings) (options : GenerateOptions) : Type 0 where
  pub distinct : AreDistinct (paths_of around options)
  pub can : CanRemove (around.pair_faults)
  pub able : CanRestore (around.pair_faults)

-- The two files stand there with these texts.
abbrev pub Stand : GenerateOptions → Text → Text → Store → Type 0
Stand options secret_text public_text files =
    (files options.secret_key_file
      ≡ some (temp_entry (utf8 secret_text) (some secret_key_file_permissions)))
    × (files options.public_key_file ≡ some (temp_entry (utf8 public_text) none))

PairDone-ok :
    (paths : PairPaths) (store : Store) (secret public : Entry) (x : Run)
    → PairDone paths store secret public x
    → x.0 ≡ ok tt
    → (x.1 paths.secret_path ≡ some secret) × (x.1 paths.public_path ≡ some public)
PairDone-ok paths store secret public x (inl (good, a, b)) h = (a, b)
PairDone-ok paths store secret public x (inr (bad, a, b)) h =
    let wrong : false ≡ true = ap is_err (sym h) ∙ bad in absurd cc

module _ (p : Primitives) (to_keypair_bytes : p.SigningKey → Bytes) (b : Base64)
    (around : Surroundings) (options : GenerateOptions) (reliable : IsReliable around options) where
  write_pair-Stand :
      (policy : OverwritePolicy) (secret_text public_text : Text) (store : Store)
      → (write_pair p to_keypair_bytes b around options policy secret_text public_text store).0
        ≡ ok tt
      → Stand options secret_text public_text
          (write_pair p to_keypair_bytes b around options policy secret_text public_text store).1
  unfolding write_pair
  write_pair-Stand overwrite secret_text public_text store h =
      PairDone-ok (paths_of around options) (around.lock store).1 _ _
        (write_pair p to_keypair_bytes b around options overwrite secret_text public_text store)
        (write_keypair_files_with_overwrite-PairDone (paths_of around options) around.pair_faults
          reliable.distinct reliable.can reliable.able (around.lock store) secret_text public_text)
        h
  write_pair-Stand preserve secret_text public_text store h =
      PairDone-ok (paths_of around options) (around.meanwhile store) _ _
        (write_pair p to_keypair_bytes b around options preserve secret_text public_text store)
        (PairCreated-PairDone (paths_of around options) around.pair_faults (around.meanwhile store)
          _ _
          (write_pair p to_keypair_bytes b around options preserve secret_text public_text store)
          (write_keypair_files_create_new-PairCreated (paths_of around options) around.pair_faults
            reliable.distinct reliable.can around.meanwhile secret_text public_text store))
        h

  write_texts-Stand :
      (texts : Result (Text × Text)) (store : Store)
      → (write_texts p to_keypair_bytes b around options texts store).0 ≡ ok tt
      → (secret_text : Text) × (public_text : Text) × (texts ≡ ok (secret_text, public_text))
        × Stand options secret_text public_text
            (write_texts p to_keypair_bytes b around options texts store).1
  unfolding write_texts
  write_texts-Stand (err e) store h = cc
  write_texts-Stand (ok (secret_text, public_text)) store h = (
    secret_text,
    public_text,
    refl,
    write_pair-Stand options.policy secret_text public_text store h,
  )

  -- What a run that succeeded has written, and from which structures.
  abbrev Written : Result (SeckeyStruct × PubkeyStruct) → Store → Type 0
  Written keys files =
      (seckey : SeckeyStruct) × (pubkey : PubkeyStruct) × (secret_text : Text)
      × (public_text : Text) × (keys ≡ ok (seckey, pubkey))
      × (seckey_to_file_contents b seckey (seckey_comment options.encryption) ≡ ok secret_text)
      × (pubkey_to_file_contents b pubkey (pubkey_comment pubkey.keynum options.comment)
          ≡ ok public_text)
      × Stand options secret_text public_text files

  file_texts-ok :
      (seckey : SeckeyStruct) (pubkey : PubkeyStruct) (s q : Text)
      → file_texts p to_keypair_bytes b options seckey pubkey ≡ ok (s, q)
      → (seckey_to_file_contents b seckey (seckey_comment options.encryption) ≡ ok s)
        × (pubkey_to_file_contents b pubkey (pubkey_comment pubkey.keynum options.comment) ≡ ok q)
  unfolding file_texts
  file_texts-ok seckey pubkey s q h =
      let (x, ex, h1) = >>=-eq-ok (seckey_to_file_contents b seckey _) _ h in
      let (y, ey, h2) = >>=-eq-ok (pubkey_to_file_contents b pubkey _) _ h1 in
      let same : (x ≡ s) × (y ≡ q) = (cc, cc) in (ex ∙ ap ok same.0, ey ∙ ap ok same.1)

  write_prepared-Written :
      (keys : Result (SeckeyStruct × PubkeyStruct)) (store : Store) (r : GenerateResult)
      → (write_prepared p to_keypair_bytes b around options keys store).result ≡ ok r
      → Written keys (write_prepared p to_keypair_bytes b around options keys store).files
  unfolding write_prepared
  write_prepared-Written (err e) store r h = cc
  write_prepared-Written (ok (seckey, pubkey)) store r h =
      let (r1, made1) = ensure_secret_key_directory around.parents options.secret_key_file in
      let (r2, made2) = ensure_parent_directory around.parents options.public_key_file in
      let (u, wrote, h1) =
        >>=-eq-ok
          (write_texts p to_keypair_bytes b around options
            (r1 >> (r2 >> file_texts p to_keypair_bytes b options seckey pubkey)) store).0
          _ h in
      let (s, q, texts, stand) =
        write_texts-Stand (r1 >> (r2 >> file_texts p to_keypair_bytes b options seckey pubkey))
          store wrote in
      let (u1, e1, t1) = >>=-eq-ok r1 _ texts in
      let (u2, e2, t2) = >>=-eq-ok r2 _ t1 in
      let (a, c) = file_texts-ok seckey pubkey s q t2 in (seckey, pubkey, s, q, refl, a, c, stand)

module _ (p : Primitives) (laws : ArePrimitives p) (to_keypair_bytes : p.SigningKey → Bytes)
    (b : Base64) (codec : IsBase64 b) where
  prepare-ok :
      (around : Surroundings) (draw : Draw p) (options : GenerateOptions) (password : Option Bytes)
      (log_n : ℕ) (seckey : SeckeyStruct) (pubkey : PubkeyStruct)
      → prepare p to_keypair_bytes around draw options password log_n ≡ ok (seckey, pubkey)
      → (seal_key p around.debug options.encryption options.force_weak_kdf log_n draw.kdf_salt
            password
            (drawn_keynum p to_keypair_bytes draw)
            (record { bytes = to_keypair_bytes draw.signing_key })
          ≡ ok seckey)
        × (pubkey ≡ record {
          keynum = drawn_keynum p to_keypair_bytes draw;
          public_key = record { bytes = p.verifying_key draw.signing_key };
        })
  unfolding prepare generate_keypair
  prepare-ok around draw options password log_n seckey pubkey h =
      let (a, h1) = fail_if-ok (needs_password options.encryption password) _ _ h in
      let (u, c, h2) = >>=-eq-ok (validate_optional options.comment) _ h1 in
      let (v, d, h3) = >>=-eq-ok (reject_output_alias around.directories _ _) _ h2 in
      let (s, e, h4) = >>=-eq-ok (seal_key p around.debug _ _ _ _ _ _ _) _ h3 in
      let same : s ≡ seckey = cc in (e ∙ ap ok same, cc)

  -- What a key pair is good for: its secret file opens with the password as a secret key and key
  -- number, and its public file holds the public key of that secret key under the same number.
  abbrev pub Matches :
      (password : Option Bytes) (sk : SecretKey) (keynum : KeyNum) (pk : PublicKey)
      (secret_text public_text : Text)
      → Type 0
  Matches password sk keynum pk secret_text public_text =
      ((seckey_from_file_contents b secret_text >>= λ s. extract_key p s password)
        ≡ ok (sk, keynum))
      × (pubkey_from_file_contents b public_text ≡ ok (record { keynum = keynum; public_key = pk }))
      × (derive_public_key p sk ≡ ok pk)

  module _ (around : Surroundings) (draw : Draw p) (options : GenerateOptions)
      (reliable : IsReliable around options) (drawn : IsDraw p to_keypair_bytes draw) where
    abbrev drawn_secret : SecretKey
    drawn_secret = record { bytes = to_keypair_bytes draw.signing_key }

    abbrev drawn_public : PublicKey
    drawn_public = record { bytes = p.verifying_key draw.signing_key }

    derive_public_key-drawn : derive_public_key p drawn_secret ≡ ok drawn_public
    unfolding derive_public_key
    derive_public_key-drawn = rw (drawn.reads_back, derive_public_key) refl

    -- When `generate` succeeds, under either overwrite policy and either encryption mode, both of
    -- its files stand at the paths of the options, the secret one for its owner alone; the secret
    -- file opens with the password that was given, as the drawn secret key and key number, and the
    -- public file holds that number and the public key that belongs to the secret key. The draw
    -- is of the right sizes, the paths are distinct, and what undoes a failed write does not fail.
    pub generate_with_log_n-Matches :
        (password : Option Bytes) (log_n : ℕ) (store : Store) (r : GenerateResult)
        → (generate_with_log_n p to_keypair_bytes b around draw options password log_n store).result
          ≡ ok r
        → (secret_text : Text) × (public_text : Text) × Stand options secret_text public_text
            (generate_with_log_n p to_keypair_bytes b around draw options password log_n
              store).files
          × Matches password drawn_secret
              (drawn_keynum p to_keypair_bytes draw)
              drawn_public
              secret_text
              public_text
    unfolding generate_with_log_n
    generate_with_log_n-Matches password log_n store r h =
        let (seckey, pubkey, s, q, keys, a, c, stand) =
          write_prepared-Written p to_keypair_bytes b around options reliable
            (prepare p to_keypair_bytes around draw options password log_n) store r h in
        let (sealed, same) = prepare-ok around draw options password log_n seckey pubkey keys in
        let keynum = drawn_keynum p to_keypair_bytes draw in
        let public_file =
          pubkey_from_file_contents-pubkey_to_file_contents b codec
            (record { keynum = keynum; public_key = drawn_public })
            (pubkey_comment keynum options.comment) q
            (drawn.keynum_array, laws.verifying_key-IsArray draw.signing_key)
            (ap (λ k. pubkey_to_file_contents b k (pubkey_comment k.keynum options.comment))
                (sym same)
              ∙ c) in
        (
          s,
          q,
          stand,
          (
            seal_key-opens b codec p laws keynum drawn_secret draw.kdf_salt drawn.keynum_array
                drawn.keypair_array drawn.salt_array around.debug options.encryption
                options.force_weak_kdf log_n password (seckey_comment options.encryption) s seckey
                sealed a,
            public_file.0,
            derive_public_key-drawn,
          ),
        )
