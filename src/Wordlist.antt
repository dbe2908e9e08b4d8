-- ===== src/Wordlist.antt =====
-- rs/src/wordlist.rs: bytes as words of the PGP word list.
mod Even
mod Odd
pub mod ReadBack
use Prim.Native.String.{String}
use minisign_rs.Base.{
  ℕ, zero, suc, ◌+◌, ◌%◌, Bool, true, false, not, List, [], ◌∷◌, ◌++◌, map, ◌==◌, if◌then◌else◌,
  Bytes, Text, codes,
}
use minisign_rs.Crypto.{KeyNum}
pub use Even.{even_words}
pub use Odd.{odd_words}

-- `WORDS[usize::from(byte)]`; the tables hold a word for every byte.
unfoldable pub word_at : List String → ℕ → Text
word_at [] i = []
word_at (w ∷ ws) zero = codes w
word_at (w ∷ ws) (suc i) = word_at ws i

-- The word of a byte at index `i`.
unfoldable pub word_of : ℕ → ℕ → Text
unfolding word_at
word_of i byte = if i % 2 == 0 then word_at even_words byte else word_at odd_words byte

-- `iter().enumerate().map(..)`, from index `i` on.
unfoldable pub words_from : ℕ → Bytes → List Text
unfolding word_of
words_from i [] = []
words_from i (b ∷ bs) = word_of i b ∷ words_from (i + 1) bs

-- The fold of `join_spaced` over the words that are left.
unfoldable pub join_onto : Text → List Text → Text
join_onto acc [] = acc
join_onto [] (w ∷ ws) = join_onto w ws
join_onto (c ∷ acc) (w ∷ ws) = join_onto ((c ∷ acc) ++ (b' ' ∷ w)) ws

unfoldable pub join_spaced : List Text → Text
join_spaced ws = join_onto [] ws

unfoldable pub bytes_to_words : Bytes → Text
unfolding words_from join_spaced join_onto
bytes_to_words bytes = join_spaced (words_from 0 bytes)

unfoldable pub keynum_to_words : KeyNum → Text
unfolding bytes_to_words
keynum_to_words k = bytes_to_words k.bytes
