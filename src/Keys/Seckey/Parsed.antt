-- ===== src/Keys/Seckey/Parsed.antt =====
-- Parsing the 158 bytes of a secret key loses nothing: the structure prints as the same bytes.
use minisign_rs.Base.{
  ℕ, ◌+◌, ◌-◌, ◌^◌, ◌<◌, ◌≤◌, ◌≡◌, refl, sym, ap, ap₂, ◌∙◌, Bool, true, false, ◌++◌, append-nil,
  arith, if◌then◌else◌, length, slice, length-slice, slice_all, slice-join, cat, All, All-slice,
  Bytes, IsByte, IsArray, list_eq_iff,
}
use minisign_rs.Errors.{ok}
use minisign_rs.Formats.{to_le_bytes, from_le_bytes, read_u64_le}
use minisign_rs.Formats.LittleEndian.{
  read_u64_le_array, to_le_bytes-from_le_bytes, from_le_bytes-lt,
}
use minisign_rs.Crypto.{keynum_bytes}
use minisign_rs.Keys.Pubkey.{sig_alg}
use minisign_rs.Keys.Seckey.{
  SeckeyStruct, IsSeckey, kdf_alg_scrypt, kdf_alg_none, chk_alg, seckey_to_bytes, seckey_from_bytes,
  parse_kdf_algorithm,
}
use minisign_rs.Keys.Seckey.Layout.{
  kdf_alg, shown_keynum, no_keynum, fields, seckey_to_bytes-fields,
}

parse_kdf_algorithm_sound : (a : Bytes) (e : Bool) → parse_kdf_algorithm a ≡ ok e → a ≡ kdf_alg e
unfolding parse_kdf_algorithm
parse_kdf_algorithm_sound a e h =
    ground (arith, list_eq_iff a kdf_alg_scrypt, list_eq_iff a kdf_alg_none)

-- What is known of the fields when parsing succeeds.
record Parsed (bs : Bytes) (s : SeckeyStruct) : Type 0 where
  size : length bs ≡ 158
  alg_at : slice 0 2 bs ≡ sig_alg
  kdf_at : slice 2 4 bs ≡ kdf_alg s.encrypted
  chk_at : slice 4 6 bs ≡ chk_alg
  salt_at : s.kdf_salt ≡ slice 6 38 bs
  ops_at : s.kdf_opslimit ≡ from_le_bytes (slice 38 46 bs)
  mem_at : s.kdf_memlimit ≡ from_le_bytes (slice 46 54 bs)
  keynum_at : s.keynum.bytes ≡ (if s.encrypted then no_keynum else slice 54 62 bs)
  encrypted_keynum_at : s.encrypted_keynum ≡ (if s.encrypted then slice 54 62 bs else no_keynum)
  key_at : s.secret_key_encrypted ≡ slice 62 126 bs
  checksum_at : s.checksum ≡ slice 126 158 bs

read_limit :
    (lo hi : ℕ) (bs : Bytes)
    → length bs ≡ 158
    → hi ≡ lo + 8
    → hi ≤ 158
    → read_u64_le (slice lo hi bs) ≡ ok (from_le_bytes (slice lo hi bs))
read_limit lo hi bs len e fits =
    read_u64_le_array (slice lo hi bs)
      (length-slice lo hi bs (omega arith) (omega arith) ∙ omega arith)

seckey_from_bytes_inv : (bs : Bytes) (s : SeckeyStruct) → seckey_from_bytes bs ≡ ok s → Parsed bs s
unfolding seckey_from_bytes
seckey_from_bytes_inv bs s h = ground (
  arith,
  list_eq_iff (slice 0 2 bs) sig_alg,
  list_eq_iff (slice 4 6 bs) chk_alg,
  parse_kdf_algorithm_sound (slice 2 4 bs) s.encrypted,
  read_limit 38 46 bs,
  read_limit 46 54 bs,
)

slice-IsArray :
    (n lo hi : ℕ) (bs : Bytes)
    → All IsByte bs
    → lo ≤ hi
    → hi ≤ length bs
    → hi - lo ≡ n
    → IsArray n (slice lo hi bs)
slice-IsArray n lo hi bs h p q e = (length-slice lo hi bs p q ∙ e, All-slice IsByte lo hi bs h)

no_keynum-IsArray : IsArray keynum_bytes no_keynum
no_keynum-IsArray = omega arith

if-IsArray :
    (n : ℕ) (e : Bool) (x y : Bytes) → IsArray n x → IsArray n y → IsArray n (if e then x else y)
if-IsArray n true x y hx hy = hx
if-IsArray n false x y hx hy = hy

module _ (bs : Bytes) (s : SeckeyStruct) (hb : All IsByte bs) (q : Parsed bs s) where
  shown : IsArray keynum_bytes (slice 54 62 bs)
  shown = slice-IsArray 8 54 62 bs hb (omega arith) (omega arith) refl

  limit-lt : (lo hi : ℕ) → hi ≡ lo + 8 → hi ≤ 158 → from_le_bytes (slice lo hi bs) < 2 ^ 64
  limit-lt lo hi e f =
      let a = slice-IsArray 8 lo hi bs hb (omega arith) (omega arith) (omega arith) in
      omega (arith, from_le_bytes-lt 8 (slice lo hi bs) a.0 a.1)

  Parsed-IsSeckey : IsSeckey s
  Parsed-IsSeckey = record {
    salt_array = rw q.salt_at (slice-IsArray 32 6 38 bs hb (omega arith) (omega arith) refl);
    opslimit_u64 = rw q.ops_at (limit-lt 38 46 refl (omega arith));
    memlimit_u64 = rw q.mem_at (limit-lt 46 54 refl (omega arith));
    keynum_array = rw q.keynum_at (if-IsArray 8 s.encrypted _ _ no_keynum-IsArray shown);
    encrypted_keynum_array =
        rw q.encrypted_keynum_at (if-IsArray 8 s.encrypted _ _ shown no_keynum-IsArray);
    secret_key_array = rw q.key_at (slice-IsArray 64 62 126 bs hb (omega arith) (omega arith) refl);
    checksum_array =
        rw q.checksum_at (slice-IsArray 32 126 158 bs hb (omega arith) (omega arith) refl);
  }

  limit_printed :
      (lo hi v : ℕ)
      → hi ≡ lo + 8
      → hi ≤ 158
      → v ≡ from_le_bytes (slice lo hi bs)
      → to_le_bytes 8 v ≡ slice lo hi bs
  limit_printed lo hi v e f is =
      let a = slice-IsArray 8 lo hi bs hb (omega arith) (omega arith) (omega arith) in
      ap (to_le_bytes 8) is
      ∙ ap (λ (w : ℕ). to_le_bytes w (from_le_bytes (slice lo hi bs))) (sym a.0)
      ∙ to_le_bytes-from_le_bytes (slice lo hi bs) a.1

  shown_printed : shown_keynum s ≡ slice 54 62 bs
  shown_printed = ground arith

  fields_printed : cat (fields s) ≡ bs
  fields_printed =
      ap₂ ◌++◌ (sym q.alg_at) (
        ap₂ ◌++◌ (sym q.kdf_at) (
          ap₂ ◌++◌ (sym q.chk_at) (
            ap₂ ◌++◌ q.salt_at (
              ap₂ ◌++◌ (limit_printed 38 46 s.kdf_opslimit refl (omega arith) q.ops_at) (
                ap₂ ◌++◌ (limit_printed 46 54 s.kdf_memlimit refl (omega arith) q.mem_at)
                  (ap₂ ◌++◌ shown_printed (ap₂ ◌++◌ q.key_at (append-nil _ ∙ q.checksum_at))))))))
      ∙ slices_joined
    where
      slices_joined :
          slice 0 2 bs
            ++ (slice 2 4 bs
                ++ (slice 4 6 bs
                    ++ (slice 6 38 bs
                        ++ (slice 38 46 bs
                            ++ (slice 46 54 bs
                                ++ (slice 54 62 bs ++ (slice 62 126 bs ++ slice 126 158 bs)))))))
          ≡ bs
      slices_joined =
          slice-join 0 2 158 bs _ (omega arith) (omega arith) (
            slice-join 2 4 158 bs _ (omega arith) (omega arith) (
              slice-join 4 6 158 bs _ (omega arith) (omega arith) (
                slice-join 6 38 158 bs _ (omega arith) (omega arith) (
                  slice-join 38 46 158 bs _ (omega arith) (omega arith) (
                    slice-join 46 54 158 bs _ (omega arith) (omega arith) (
                      slice-join 54 62 158 bs _ (omega arith) (omega arith)
                        (slice-join 62 126 158 bs _ (omega arith) (omega arith) refl)))))))
          ∙ slice_all 158 bs q.size

-- Whatever bytes are accepted as a secret key, its arrays have the right sizes, its limits fit 64
-- bits, and it prints as exactly these bytes.
pub seckey_to_bytes-seckey_from_bytes :
    (bs : Bytes) (s : SeckeyStruct)
    → All IsByte bs
    → seckey_from_bytes bs ≡ ok s
    → IsSeckey s × (seckey_to_bytes s ≡ bs)
seckey_to_bytes-seckey_from_bytes bs s hb h =
    let q = seckey_from_bytes_inv bs s h in
    let good = Parsed-IsSeckey bs s hb q in
    (good, seckey_to_bytes-fields s good ∙ fields_printed bs s hb q)
