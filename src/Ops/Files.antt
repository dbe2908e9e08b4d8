-- ===== src/Ops/Files.antt =====
-- Reading files, of rs/src/ops/file_utils.rs. An open file is the size that its metadata gives
-- and the calls of `read` that will be answered; the two need not agree.
pub mod Decode
pub mod Bounded
pub mod Utf8
use minisign_rs.Base.{
  ℕ, zero, suc, ◌+◌, ◌-◌, ◌*◌, ◌/◌, ◌%◌, ◌≤◌, ◌<◌, Bool, true, false, not, ◌&&◌, ◌||◌, Option, none,
  some, List, [], ◌∷◌, ◌++◌, ltb, leb, ◌==◌, if◌then◌else◌, length, take, Bytes, Text,
}
use minisign_rs.Errors.{
  FilePath, IoError, interrupted_call, Error, Result, ok, err, ◌>>=◌, ◌>>◌, fail_if, file_read,
  invalid_utf8, other, file_too_large, message_file_too_large,
}
use minisign_rs.Formats.{Base64}
use minisign_rs.Crypto.{ReadCall, chunk, failed, Reader, hex_digit}
use minisign_rs.Keys.Seckey.{SeckeyStruct, seckey_from_file_contents}
use Decode.{from_utf8}

abbrev pub max_key_file_bytes : ℕ
max_key_file_bytes = 4096

abbrev pub max_signature_file_bytes : ℕ
max_signature_file_bytes = 16384

abbrev pub max_message_size_bytes : ℕ
max_message_size_bytes = 1073741824

-- `std::io::Result`
pub data IoResult {ℓ} (A : Type ℓ) : Type ℓ where
  io_ok : A → IoResult A
  io_err : IoError → IoResult A

pub record OpenFile : Type 0 where
  pub size : IoResult ℕ
  pub reader : Reader

-- What the system answers while an operation runs.
pub record Disk : Type 0 where
  pub metadata_len : FilePath → IoResult ℕ
  pub open_file : FilePath → IoResult OpenFile

-- `map_err(|e| Error::file_read(path, e))`
abbrev pub or_file_read {ℓ} : {A : Type ℓ} → FilePath → IoResult A → Result A
or_file_read path (io_ok a) = ok a
or_file_read path (io_err e) = err (file_read path e)

abbrev pub prepend_read : Bytes → IoResult Bytes → IoResult Bytes
prepend_read bs (io_ok rest) = io_ok (bs ++ rest)
prepend_read bs (io_err e) = io_err e

abbrev pub is_interrupted : IoError → Bool
is_interrupted interrupted_call = true
is_interrupted _ = false

-- `take(limit).read_to_end(&mut buf)` of the standard library: an interrupted call is made
-- again, and nothing is read when the limit is reached.
unfoldable pub read_to_end : ℕ → Reader → IoResult Bytes
read_to_end limit [] = io_ok []
read_to_end limit (chunk [] ∷ rest) = io_ok []
read_to_end limit (chunk (b ∷ bs) ∷ rest) =
    let more = read_to_end (limit - length (b ∷ bs)) rest in
    if limit == 0 then io_ok [] else prepend_read (take limit (b ∷ bs)) more
read_to_end limit (failed e ∷ rest) =
    let again = read_to_end limit rest in
    if limit == 0 then io_ok [] else if is_interrupted e then again else io_err e

unfoldable pub read_bounded_string_from_reader : Reader → FilePath → ℕ → Result Text
unfolding read_to_end from_utf8
read_bounded_string_from_reader reader path max_bytes = do
  buf ← or_file_read path (read_to_end (max_bytes + 1) reader)
  fail_if (ltb max_bytes (length buf)) (other (file_too_large (length buf) max_bytes))
  elim (from_utf8 buf) [ none ↦ err (invalid_utf8 path) | some s ↦ ok s ]

-- The loop of `read_secret_file_bounded`: `room` bytes of the buffer are left.
unfoldable pub fill_loop : ℕ → Reader → IoResult Bytes
fill_loop room [] = io_ok []
fill_loop room (chunk [] ∷ rest) = io_ok []
fill_loop room (chunk (b ∷ bs) ∷ rest) =
    let more = fill_loop (room - length (b ∷ bs)) rest in
    if room == 0 then io_ok [] else prepend_read (take room (b ∷ bs)) more
fill_loop room (failed e ∷ rest) =
    let again = fill_loop room rest in
    if room == 0 then io_ok [] else if is_interrupted e then again else io_err e

-- `std::str::from_utf8`, for the file of that name.
unfoldable pub utf8_text : Bytes → FilePath → Result Text
unfolding from_utf8
utf8_text bytes path = elim (from_utf8 bytes) [ none ↦ err (invalid_utf8 path) | some s ↦ ok s ]

module _ (disk : Disk) where
  open disk use {open_file}

  unfoldable pub read_file_bounded : FilePath → ℕ → Result Text
  unfolding read_bounded_string_from_reader
  read_file_bounded path max_bytes = do
    file ← or_file_read path (open_file path)
    size ← or_file_read path file.size
    fail_if (ltb max_bytes size) (other (file_too_large size max_bytes))
    read_bounded_string_from_reader file.reader path max_bytes

  unfoldable pub read_secret_file_bounded : FilePath → ℕ → Result Bytes
  unfolding fill_loop
  read_secret_file_bounded path max_bytes = do
    file ← or_file_read path (open_file path)
    size ← or_file_read path file.size
    fail_if (ltb max_bytes size) (other (file_too_large size max_bytes))
    buf ← or_file_read path (fill_loop (max_bytes + 1) file.reader)
    fail_if (ltb max_bytes (length buf)) (other (file_too_large (length buf) max_bytes))
    ok buf

  unfoldable pub read_message_file : FilePath → Result Bytes
  unfolding read_to_end
  read_message_file path = do
    file ← or_file_read path (open_file path)
    size ← or_file_read path file.size
    fail_if (ltb max_message_size_bytes size) (other (message_file_too_large size))
    buf ← or_file_read path (read_to_end (max_message_size_bytes + 1) file.reader)
    fail_if (ltb max_message_size_bytes (length buf)) (other (message_file_too_large (length buf)))
    ok buf

  -- The permissions of the file are only warned about.
  unfoldable pub load_secret_key : Base64 → FilePath → Result SeckeyStruct
  unfolding read_secret_file_bounded utf8_text
  load_secret_key b path = do
    bytes ← read_secret_file_bounded path max_key_file_bytes
    contents ← utf8_text bytes path
    seckey_from_file_contents b contents

-- A control character as `\xNN`, any other as it is.
unfoldable pub sanitised : Text → Text
unfolding hex_digit
sanitised [] = []
sanitised (c ∷ cs) =
    let rest = sanitised cs in
    if ltb c 0x20 || (c == 0x7f || (leb 0x80 c && leb c 0x9f))
    then b'\\' ∷ b'x' ∷ hex_digit (c / 16) ∷ hex_digit (c % 16) ∷ rest
    else c ∷ rest

unfoldable pub sanitised_path_display : FilePath → Text
unfolding sanitised
sanitised_path_display path = sanitised path
