-- ===== src/Crypto/Streaming.antt =====
-- Hashing in parts against hashing at once.
use minisign_rs.Base.{◌≡◌, refl, ap, ◌∙◌, [], ◌∷◌, ◌++◌, Bytes}
use minisign_rs.Errors.{Result, ok, err, ◌>>=◌, io, failed_to_read_for_hashing}
use minisign_rs.Crypto.{
  Primitives, ArePrimitives, chunk, failed, Reader, hash_loop, blake2b_512_stream, blake2b_512,
}

-- What a reader delivers up to its end: the parts in one piece, or the first failure.
abbrev pub contents : Reader → Result Bytes
contents [] = ok []
contents (chunk [] ∷ rest) = ok []
contents (chunk (b ∷ bs) ∷ rest) = contents rest >>= λ m. ok ((b ∷ bs) ++ m)
contents (failed e ∷ rest) = err (io (failed_to_read_for_hashing e))

module _ (p : Primitives) (laws : ArePrimitives p) where
  open p use {update, finalize, new_blake2b_512, Hasher}
  open laws use {update-append, update-nil}

  hash_loop-contents :
      (reader : Reader) (h : Hasher)
      → hash_loop p h reader ≡ (contents reader >>= λ m. ok (finalize (update h m)))
  unfolding hash_loop
  hash_loop-contents [] h = rw update-nil
  hash_loop-contents (chunk [] ∷ rest) h = rw update-nil
  hash_loop-contents (chunk (b ∷ bs) ∷ rest) h =
      hash_loop-contents rest (update h (b ∷ bs)) ∙ joined (contents rest)
    where
      joined :
          (r : Result Bytes)
          → (r >>= λ m. ok (finalize (update (update h (b ∷ bs)) m)))
            ≡ ((r >>= λ m. ok ((b ∷ bs) ++ m)) >>= λ m. ok (finalize (update h m)))
      joined (ok m) = ap (λ g. ok (finalize g)) (update-append h (b ∷ bs) m)
      joined (err e) = refl
  hash_loop-contents (failed e ∷ rest) h = refl

  -- `blake2b_512_stream` gives the hash of all that the reader delivers, however it is cut into
  -- parts, and fails exactly as the reader does.
  pub blake2b_512_stream-contents :
      (reader : Reader)
      → blake2b_512_stream p reader ≡ (contents reader >>= λ m. ok (blake2b_512 p m))
  unfolding blake2b_512_stream blake2b_512
  blake2b_512_stream-contents reader = hash_loop-contents reader new_blake2b_512
