-- ===== src/Ops/Files/Bounded.antt =====
-- Reading stays within its bounds, and gives what the file holds.
use minisign_rs.Base.{
  ◌≢◌, take_all, ℕ, zero, suc, ◌+◌, ◌-◌, ◌≤◌, ◌<◌, ◌≡◌, refl, sym, ap, ◌∙◌, [], ◌∷◌, ◌++◌, arith,
  ltb, ◌==◌, if◌then◌else◌, length, take, Bytes, length-append, length-take,
}
use minisign_rs.Errors.{
  FilePath, IoError, interrupted_call, not_found, already_exists, other_kind, ok, >>=-eq-ok,
  fail_if-ok,
}
use minisign_rs.Crypto.{chunk, failed, Reader}
use minisign_rs.Ops.Files.{
  Disk, OpenFile, IoResult, io_ok, io_err, or_file_read, prepend_read, is_interrupted, read_to_end,
  fill_loop, read_message_file, max_message_size_bytes,
}

-- The loop of `read_secret_file_bounded` reads what `take(..).read_to_end(..)` reads.
pub fill_loop-read_to_end :
    (room : ℕ) (reader : Reader) → fill_loop room reader ≡ read_to_end room reader
unfolding fill_loop read_to_end
fill_loop-read_to_end room [] = refl
fill_loop-read_to_end room (chunk [] ∷ rest) = refl
fill_loop-read_to_end room (chunk (b ∷ bs) ∷ rest) =
    rw (fill_loop-read_to_end (room - length (b ∷ bs)) rest) refl
fill_loop-read_to_end room (failed e ∷ rest) = rw (fill_loop-read_to_end room rest) refl

prepend_read-ok :
    (xs : Bytes) (r : IoResult Bytes) (bs : Bytes)
    → prepend_read xs r ≡ io_ok bs
    → (rest : Bytes) × (r ≡ io_ok rest) × (bs ≡ xs ++ rest)
prepend_read-ok xs (io_ok rest) bs h = (rest, refl, cc)
prepend_read-ok xs (io_err e) bs h = cc

io_err_not_ok : (e : IoError) (bs : Bytes) → io_err e ≢ io_ok bs
io_err_not_ok e bs h = cc

still_room {ℓ} : {A : Type ℓ} (n : ℕ) (x y : A) → (if suc n == 0 then x else y) ≡ y
still_room n x y = ground arith

-- What a reader delivers up to its end, an interrupted call made again.
unfoldable pub delivered : Reader → IoResult Bytes
delivered [] = io_ok []
delivered (chunk [] ∷ rest) = io_ok []
delivered (chunk (b ∷ bs) ∷ rest) = prepend_read (b ∷ bs) (delivered rest)
delivered (failed e ∷ rest) =
    let again = delivered rest in if is_interrupted e then again else io_err e

-- A limited reading keeps its limit, and below it the reading is complete.
abbrev pub Reads : ℕ → Reader → Bytes → Type 0
Reads limit reader bs = (length bs ≤ limit) × (length bs < limit → delivered reader ≡ io_ok bs)

Reads-chunk :
    (limit : ℕ) (xs : Bytes) (rest : Reader) (more : Bytes)
    → (1 ≤ length xs)
    → Reads (limit - length xs) rest more
    → (1 ≤ limit)
    → (length (take limit xs ++ more) ≤ limit)
      × (length (take limit xs ++ more) < limit
          → prepend_read xs (delivered rest) ≡ io_ok (take limit xs ++ more))
Reads-chunk limit xs rest more some_byte (short, all) room =
    let joined = length-append (take limit xs) more in
    let taken = length-take limit xs in
    (omega arith, λ below. rw (all (omega arith), take_all xs limit (omega arith)) refl)

pub Reads-read_to_end :
    (limit : ℕ) (reader : Reader) (bs : Bytes)
    → read_to_end limit reader ≡ io_ok bs
    → Reads limit reader bs
unfolding read_to_end delivered
Reads-read_to_end limit [] bs h = ground arith
Reads-read_to_end limit (chunk [] ∷ rest) bs h = ground arith
Reads-read_to_end zero (chunk (b ∷ bs') ∷ rest) bs h = ground arith
Reads-read_to_end (suc n) (chunk (b ∷ bs') ∷ rest) bs h =
    let (more, read, same) =
      prepend_read-ok (take (suc n) (b ∷ bs')) (read_to_end (suc n - length (b ∷ bs')) rest) bs
        (sym (still_room n _ _) ∙ h) in
    let smaller = Reads-read_to_end (suc n - length (b ∷ bs')) rest more read in
    rw same (Reads-chunk (suc n) (b ∷ bs') rest more (omega arith) smaller (omega arith))
Reads-read_to_end zero (failed e ∷ rest) bs h = ground arith
Reads-read_to_end (suc n) (failed interrupted_call ∷ rest) bs h =
    Reads-read_to_end (suc n) rest bs (sym (still_room n _ _) ∙ h)
Reads-read_to_end (suc n) (failed not_found ∷ rest) bs h =
    absurd (io_err_not_ok not_found bs (sym (still_room n _ _) ∙ h))
Reads-read_to_end (suc n) (failed already_exists ∷ rest) bs h =
    absurd (io_err_not_ok already_exists bs (sym (still_room n _ _) ∙ h))
Reads-read_to_end (suc n) (failed other_kind ∷ rest) bs h =
    absurd (io_err_not_ok other_kind bs (sym (still_room n _ _) ∙ h))

pub or_file_read-ok {ℓ} :
    {A : Type ℓ} (path : FilePath) (r : IoResult A) (a : A)
    → or_file_read path r ≡ ok a
    → r ≡ io_ok a
or_file_read-ok path (io_ok x) a h = cc
or_file_read-ok path (io_err e) a h = cc

-- A message file that is read at all is read whole, and is no larger than 1 GiB: the limit on
-- the reading never cuts a message short.
pub read_message_file-delivered :
    (disk : Disk) (path : FilePath) (bs : Bytes)
    → read_message_file disk path ≡ ok bs
    → (file : OpenFile) × (disk.open_file path ≡ io_ok file)
      × (delivered file.reader ≡ io_ok bs)
      × (length bs ≤ max_message_size_bytes)
unfolding read_message_file
read_message_file-delivered disk path bs h =
    let (file, opened, h1) = >>=-eq-ok (or_file_read path (disk.open_file path)) _ h in
    let (size, sized, h2) = >>=-eq-ok (or_file_read path file.size) _ h1 in
    let (small, h3) = fail_if-ok (ltb max_message_size_bytes size) _ _ h2 in
    let (buf, got, h4) =
      >>=-eq-ok (or_file_read path (read_to_end (max_message_size_bytes + 1) file.reader)) _ h3 in
    let (within, h5) = fail_if-ok (ltb max_message_size_bytes (length buf)) _ _ h4 in
    let same : buf ≡ bs = cc in
    let short : length bs ≤ max_message_size_bytes = rw (← same) (ground arith) in
    let read =
      or_file_read-ok path (read_to_end (max_message_size_bytes + 1) file.reader) buf got in
    let (_, whole) =
      Reads-read_to_end (max_message_size_bytes + 1) file.reader bs (read ∙ ap io_ok same) in
    (file, or_file_read-ok path (disk.open_file path) file opened, whole (omega arith), short)
