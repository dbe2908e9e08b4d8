-- ===== src/Keys/Seckey/Layout.antt =====
-- The 158 bytes of a secret key: what is written is read back, but for the key number, which an
-- encrypted key does not show.
use minisign_rs.Base.{
  ◌≡◌, refl, ap, ◌∙◌, Bool, true, false, List, [], ◌∷◌, ◌++◌, append-nil, arith, if◌then◌else◌,
  length, slice_field, copy_field, length-cat, cat, All, All-cat, copy_into, replicate, Bytes,
  IsByte, IsArray,
}
use minisign_rs.Errors.{ok}
use minisign_rs.Formats.{to_le_bytes}
use minisign_rs.Formats.LittleEndian.{
  length-to_le_bytes, to_le_bytes-IsByte, read_u64_le-to_le_bytes,
}
use minisign_rs.Crypto.{keynum_bytes}
use minisign_rs.Keys.Pubkey.{sig_alg}
use minisign_rs.Keys.Seckey.{
  SeckeyStruct, IsSeckey, kdf_alg_scrypt, kdf_alg_none, chk_alg, seckey_to_bytes, seckey_from_bytes,
  parse_kdf_algorithm,
}

abbrev pub kdf_alg : Bool → Bytes
kdf_alg encrypted = if encrypted then kdf_alg_scrypt else kdf_alg_none

abbrev pub shown_keynum : SeckeyStruct → Bytes
shown_keynum s = if s.encrypted then s.encrypted_keynum else s.keynum.bytes

abbrev pub no_keynum : Bytes
no_keynum = replicate keynum_bytes 0

-- What is left of a structure when it is written and read: an encrypted key loses its plain key
-- number, and a plain key the field for the encrypted one.
abbrev pub forget : SeckeyStruct → SeckeyStruct
forget s = record s {
  keynum = record { bytes = if s.encrypted then no_keynum else s.keynum.bytes };
  encrypted_keynum = if s.encrypted then s.encrypted_keynum else no_keynum;
}

module _ (s : SeckeyStruct) where
  abbrev pub p1 : Bytes
  p1 = kdf_alg s.encrypted

  abbrev pub p4 : Bytes
  p4 = to_le_bytes 8 s.kdf_opslimit

  abbrev pub p5 : Bytes
  p5 = to_le_bytes 8 s.kdf_memlimit

  abbrev pub fields : List Bytes
  fields =
      sig_alg
      ∷ p1
      ∷ chk_alg
      ∷ s.kdf_salt
      ∷ p4
      ∷ p5
      ∷ shown_keynum s
      ∷ s.secret_key_encrypted
      ∷ s.checksum
      ∷ []

length-kdf_alg : (e : Bool) → length (kdf_alg e) ≡ 2
length-kdf_alg true = refl
length-kdf_alg false = refl

shown_keynum-IsArray : (s : SeckeyStruct) → IsSeckey s → IsArray keynum_bytes (shown_keynum s)
shown_keynum-IsArray s h = pick s.encrypted
  where
    pick : (e : Bool) → IsArray keynum_bytes (if e then s.encrypted_keynum else s.keynum.bytes)
    pick true = h.encrypted_keynum_array
    pick false = h.keynum_array

-- The lengths of the fields, for `omega`.
record Widths (s : SeckeyStruct) : Type 0 where
  kdf_width : length (p1 s) ≡ 2
  salt_width : length s.kdf_salt ≡ 32
  ops_width : length (p4 s) ≡ 8
  mem_width : length (p5 s) ≡ 8
  keynum_width : length (shown_keynum s) ≡ 8
  key_width : length s.secret_key_encrypted ≡ 64
  checksum_width : length s.checksum ≡ 32

widths : (s : SeckeyStruct) → IsSeckey s → Widths s
widths s h = record {
  kdf_width = length-kdf_alg s.encrypted;
  salt_width = h.salt_array.0;
  ops_width = length-to_le_bytes 8 s.kdf_opslimit;
  mem_width = length-to_le_bytes 8 s.kdf_memlimit;
  keynum_width = (shown_keynum-IsArray s h).0;
  key_width = h.secret_key_array.0;
  checksum_width = h.checksum_array.0;
}

module _ (s : SeckeyStruct) (w : Widths s) where
  front_fields :
      copy_into 38 46 (p4 s) (
        copy_into 6 38 s.kdf_salt
          (copy_into 4 6 chk_alg (copy_into 2 4 (p1 s) (copy_into 0 2 sig_alg (replicate 158 0)))))
      ≡ cat (sig_alg ∷ p1 s ∷ chk_alg ∷ s.kdf_salt ∷ p4 s ∷ []) ++ replicate 112 0
  front_fields =
      ap
        (λ x.
          copy_into 38 46 (p4 s)
            (copy_into 6 38 s.kdf_salt (copy_into 4 6 chk_alg (copy_into 2 4 (p1 s) x))))
        (copy_field 0 2 158 156 0 [] sig_alg refl (omega arith) refl)
      ∙ ap (λ x. copy_into 38 46 (p4 s) (copy_into 6 38 s.kdf_salt (copy_into 4 6 chk_alg x)))
          (copy_field 2 4 156 154 0 (sig_alg ∷ []) (p1 s) (omega arith) (omega arith) refl)
      ∙ ap (λ x. copy_into 38 46 (p4 s) (copy_into 6 38 s.kdf_salt x))
          (copy_field 4 6 154 152 0 (sig_alg ∷ p1 s ∷ []) chk_alg (omega arith) (omega arith) refl)
      ∙ ap (copy_into 38 46 (p4 s)) (
          copy_field 6 38 152 120 0 (sig_alg ∷ p1 s ∷ chk_alg ∷ []) s.kdf_salt (omega arith)
            (omega arith) refl)
      ∙ copy_field 38 46 120 112 0 (sig_alg ∷ p1 s ∷ chk_alg ∷ s.kdf_salt ∷ []) (p4 s) (omega arith)
          (omega arith) refl

  abbrev front : List Bytes
  front = sig_alg ∷ p1 s ∷ chk_alg ∷ s.kdf_salt ∷ p4 s ∷ []

  back_fields :
      copy_into 126 158 s.checksum (
        copy_into 62 126 s.secret_key_encrypted (
          copy_into 54 62 (shown_keynum s) (copy_into 46 54 (p5 s) (cat front ++ replicate 112 0))))
      ≡ cat (fields s)
  back_fields =
      let n = shown_keynum s in
      let k = s.secret_key_encrypted in
      ap (λ x. copy_into 126 158 s.checksum (copy_into 62 126 k (copy_into 54 62 n x)))
        (copy_field 46 54 112 104 0 front (p5 s) (omega arith) (omega arith) refl)
      ∙ ap (λ x. copy_into 126 158 s.checksum (copy_into 62 126 k x))
          (copy_field 54 62 104 96 0 (front ++ (p5 s ∷ [])) n (omega arith) (omega arith) refl)
      ∙ ap (copy_into 126 158 s.checksum)
          (copy_field 62 126 96 32 0 (front ++ (p5 s ∷ n ∷ [])) k (omega arith) (omega arith) refl)
      ∙ copy_field 126 158 32 0 0 (front ++ (p5 s ∷ n ∷ k ∷ [])) s.checksum (omega arith)
          (omega arith) refl
      ∙ append-nil _

pub seckey_to_bytes-fields : (s : SeckeyStruct) → IsSeckey s → seckey_to_bytes s ≡ cat (fields s)
unfolding seckey_to_bytes
seckey_to_bytes-fields s h =
    let w = widths s h in
    ap
      (λ x. copy_into 126 158 s.checksum (
        copy_into 62 126 s.secret_key_encrypted
          (copy_into 54 62 (shown_keynum s) (copy_into 46 54 (p5 s) x))))
      (front_fields s w)
    ∙ back_fields s w

pub length-seckey_to_bytes : (s : SeckeyStruct) → IsSeckey s → length (seckey_to_bytes s) ≡ 158
length-seckey_to_bytes s h =
    ap length (seckey_to_bytes-fields s h) ∙ omega (arith, length-cat (fields s), widths s h)

kdf_alg-IsByte : (e : Bool) → All IsByte (kdf_alg e)
kdf_alg-IsByte true = omega arith
kdf_alg-IsByte false = omega arith

pub seckey_to_bytes-IsByte : (s : SeckeyStruct) → IsSeckey s → All IsByte (seckey_to_bytes s)
seckey_to_bytes-IsByte s h = rw (seckey_to_bytes-fields s h) (
    All-cat IsByte (fields s) (
      omega arith,
      (
        kdf_alg-IsByte s.encrypted,
        (
          omega arith,
          (
            h.salt_array.1,
            (
              to_le_bytes-IsByte 8 s.kdf_opslimit,
              (
                to_le_bytes-IsByte 8 s.kdf_memlimit,
                ((shown_keynum-IsArray s h).1, (h.secret_key_array.1, (h.checksum_array.1, tt))),
              ),
            ),
          ),
        ),
      ),
    ))

parse_kdf_algorithm-kdf_alg : (e : Bool) → parse_kdf_algorithm (kdf_alg e) ≡ ok e
unfolding parse_kdf_algorithm
parse_kdf_algorithm-kdf_alg true = refl
parse_kdf_algorithm-kdf_alg false = refl

-- The structure as the parser builds it from the fields.
abbrev rebuilt : SeckeyStruct → SeckeyStruct
rebuilt s = record s {
  keynum = record { bytes = if s.encrypted then no_keynum else shown_keynum s };
  encrypted_keynum = if s.encrypted then shown_keynum s else no_keynum;
}

rebuilt-forget : (s : SeckeyStruct) → rebuilt s ≡ forget s
rebuilt-forget s = ground arith

seckey_from_bytes-fields :
    (s : SeckeyStruct) → IsSeckey s → seckey_from_bytes (cat (fields s)) ≡ ok (rebuilt s)
unfolding seckey_from_bytes
seckey_from_bytes-fields s h =
    let w = widths s h in
    let n = shown_keynum s in
    let k = s.secret_key_encrypted in
    let c = s.checksum in
    let salt = s.kdf_salt in
    let at0 =
      slice_field 0 2 [] sig_alg (p1 s ∷ chk_alg ∷ salt ∷ p4 s ∷ p5 s ∷ n ∷ k ∷ c ∷ []) refl refl in
    let at1 =
      slice_field 2 4 (sig_alg ∷ []) (p1 s) (chk_alg ∷ salt ∷ p4 s ∷ p5 s ∷ n ∷ k ∷ c ∷ [])
        (omega arith) (omega arith) in
    let at2 =
      slice_field 4 6 (sig_alg ∷ p1 s ∷ []) chk_alg (salt ∷ p4 s ∷ p5 s ∷ n ∷ k ∷ c ∷ [])
        (omega arith) (omega arith) in
    let at3 =
      slice_field 6 38 (sig_alg ∷ p1 s ∷ chk_alg ∷ []) salt (p4 s ∷ p5 s ∷ n ∷ k ∷ c ∷ [])
        (omega arith) (omega arith) in
    let at4 =
      slice_field 38 46 (sig_alg ∷ p1 s ∷ chk_alg ∷ salt ∷ []) (p4 s) (p5 s ∷ n ∷ k ∷ c ∷ [])
        (omega arith) (omega arith) in
    let at5 = slice_field 46 54 (front s w) (p5 s) (n ∷ k ∷ c ∷ []) (omega arith) (omega arith) in
    let at6 =
      slice_field 54 62 (front s w ++ (p5 s ∷ [])) n (k ∷ c ∷ []) (omega arith) (omega arith) in
    let at7 =
      slice_field 62 126 (front s w ++ (p5 s ∷ n ∷ [])) k (c ∷ []) (omega arith) (omega arith) in
    let at8 =
      slice_field 126 158 (front s w ++ (p5 s ∷ n ∷ k ∷ [])) c [] (omega arith) (omega arith) in
    let len : length (cat (fields s)) ≡ 158 = omega (arith, length-cat (fields s)) in
    rw (len, at0, at1, at2, at3, at4, at5, at6, at7, at8)
      (rw (parse_kdf_algorithm-kdf_alg s.encrypted) (
        rw
          (
            read_u64_le-to_le_bytes s.kdf_opslimit h.opslimit_u64,
            read_u64_le-to_le_bytes s.kdf_memlimit h.memlimit_u64,
          )
          refl))

-- A secret key is read back from its bytes, but for the key number that the format does not
-- hold: the plain one of an encrypted key, the encrypted one of a plain key.
pub seckey_from_bytes-seckey_to_bytes :
    (s : SeckeyStruct) → IsSeckey s → seckey_from_bytes (seckey_to_bytes s) ≡ ok (forget s)
seckey_from_bytes-seckey_to_bytes s h =
    ap seckey_from_bytes (seckey_to_bytes-fields s h)
    ∙ seckey_from_bytes-fields s h
    ∙ ap ok (rebuilt-forget s)
