-- ===== src/Wordlist/ReadBack.antt =====
-- A text of words can be read back: the tables hold no word twice, and no word holds a space.
use Prim.Native.String.{String}
use minisign_rs.Base.{
  ℕ, ◌+◌, ◌%◌, ◌<◌, ◌≡◌, refl, sym, ap, ◌∙◌, Bool, true, false, not, ◌&&◌, Option, none, some, List,
  [], ◌∷◌, ◌++◌, append-nil, ap₂, append_assoc, arith, ◌==◌, if◌then◌else◌, All, Bytes, Text,
  IsByte, codes, list_eq, all_below, all_below_sound, Bool-cases, inl, inr,
}
use minisign_rs.Wordlist.{
  even_words, odd_words, word_at, word_of, words_from, join_onto, join_spaced, bytes_to_words,
}

-- The place of a word in a table, counted from `i`.
unfoldable pub index_from : ℕ → Text → List String → Option ℕ
unfolding list_eq
index_from i w [] = none
index_from i w (x ∷ xs) = if list_eq w (codes x) then some i else index_from (i + 1) w xs

unfoldable pub no_space : Text → Bool
no_space [] = true
no_space (c ∷ cs) = not (c == b' ') && no_space cs

unfoldable pub is_word : Text → Bool
unfolding no_space
is_word [] = false
is_word (c ∷ cs) = no_space (c ∷ cs)

-- The word of `i` is found at `i`, is not empty and holds no space.
abbrev stands_at : List String → ℕ → Bool
stands_at ws i =
    (elim (index_from 0 (word_at ws i) ws) [ none ↦ false | some j ↦ j == i ])
    && is_word (word_at ws i)

even_stands : all_below 256 (stands_at even_words) ≡ true
unfolding all_below index_from is_word word_at
even_stands = refl

odd_stands : all_below 256 (stands_at odd_words) ≡ true
unfolding all_below index_from is_word word_at
odd_stands = refl

abbrev Stands : List String → ℕ → Type 0
Stands ws i = (index_from 0 (word_at ws i) ws ≡ some i) × (is_word (word_at ws i) ≡ true)

stands : (ws : List String) (i : ℕ) → stands_at ws i ≡ true → Stands ws i
stands ws i h = ground arith

even-Stands : (i : ℕ) → i < 256 → Stands even_words i
even-Stands i h = stands even_words i (all_below_sound 256 (stands_at even_words) i even_stands h)

odd-Stands : (i : ℕ) → i < 256 → Stands odd_words i
odd-Stands i h = stands odd_words i (all_below_sound 256 (stands_at odd_words) i odd_stands h)

-- The table of index `i`, chosen as the program does.
abbrev table : ℕ → List String
table i = if i % 2 == 0 then even_words else odd_words

word_of-Stands :
    (i b : ℕ)
    → b < 256
    → (index_from 0 (word_of i b) (table i) ≡ some b) × (is_word (word_of i b) ≡ true)
unfolding word_of
word_of-Stands i b h = elim (Bool-cases (i % 2 == 0)) [
  | inl even ↦ rw even (even-Stands b h)
  | inr odd ↦ rw odd (odd-Stands b h)
]

-- The words of a text, split at each space; `word` is the one that is being read.
unfoldable pub split_from : Text → Text → List Text
split_from word [] = word ∷ []
split_from word (c ∷ cs) =
    let done = word ∷ split_from [] cs in
    let more = split_from (word ++ (c ∷ [])) cs in if c == b' ' then done else more

abbrev pub prepend : Option ℕ → Option Bytes → Option Bytes
prepend (some b) (some bs) = some (b ∷ bs)
prepend b bs = none

-- The bytes of words, looked up in the two tables in turn.
unfoldable pub decode_words : ℕ → List Text → Option Bytes
decode_words i [] = some []
decode_words i (w ∷ ws) = prepend (index_from 0 w (table i)) (decode_words (i + 1) ws)

unfoldable pub words_to_bytes : Text → Option Bytes
words_to_bytes [] = some []
words_to_bytes (c ∷ cs) = decode_words 0 (split_from [] (c ∷ cs))

abbrev spaced : List Text → Text
spaced [] = []
spaced (w ∷ ws) = b' ' ∷ (w ++ spaced ws)

abbrev AreWords : List Text → Type 0
AreWords [] = Unit
AreWords (w ∷ ws) = (is_word w ≡ true) × AreWords ws

no_space_of_is_word : (w : Text) → is_word w ≡ true → no_space w ≡ true
unfolding is_word
no_space_of_is_word [] h = refl
no_space_of_is_word (c ∷ cs) h = h

join_onto-spaced :
    (ws : List Text) (c : ℕ) (acc : Text) → join_onto (c ∷ acc) ws ≡ (c ∷ acc) ++ spaced ws
unfolding join_onto
join_onto-spaced [] c acc = sym (append-nil (c ∷ acc))
join_onto-spaced (w ∷ ws) c acc =
    join_onto-spaced ws c (acc ++ (b' ' ∷ w)) ∙ append_assoc (c ∷ acc) (b' ' ∷ w) (spaced ws)

split_from-no_space :
    (w rest word : Text)
    → no_space w ≡ true
    → split_from word (w ++ rest) ≡ split_from (word ++ w) rest
unfolding split_from no_space
split_from-no_space [] rest word h = rw append-nil
split_from-no_space (c ∷ cs) rest word h =
    ground (arith, split_from-no_space cs rest (word ++ (c ∷ [])), append_assoc word (c ∷ []) cs)

split_from-spaced :
    (ws : List Text) (word : Text) → AreWords ws → split_from word (spaced ws) ≡ word ∷ ws
unfolding split_from
split_from-spaced [] word h = refl
split_from-spaced (w ∷ ws) word h =
    ap (◌∷◌ word) (
      split_from-no_space w (spaced ws) [] (no_space_of_is_word w h.0) ∙ split_from-spaced ws w h.1)

words_from-AreWords : (i : ℕ) (bs : Bytes) → All IsByte bs → AreWords (words_from i bs)
unfolding words_from
words_from-AreWords i [] h = tt
words_from-AreWords i (b ∷ bs) h = ((word_of-Stands i b h.0).1, words_from-AreWords (i + 1) bs h.1)

decode_words-found :
    (i : ℕ) (w : Text) (ws : List Text) (b : ℕ) (bs : Bytes)
    → index_from 0 w (table i) ≡ some b
    → decode_words (i + 1) ws ≡ some bs
    → decode_words i (w ∷ ws) ≡ some (b ∷ bs)
unfolding decode_words
decode_words-found i w ws b bs here rest = ap₂ prepend here rest

decode_words-words_from :
    (i : ℕ) (bs : Bytes) → All IsByte bs → decode_words i (words_from i bs) ≡ some bs
unfolding words_from
decode_words-words_from i [] h = unfold decode_words in refl
decode_words-words_from i (b ∷ bs) h =
    decode_words-found i (word_of i b) (words_from (i + 1) bs) b bs (word_of-Stands i b h.0).0
      (decode_words-words_from (i + 1) bs h.1)

split_from-joined :
    (ws : List Text) (c : ℕ) (cs : Text)
    → AreWords ((c ∷ cs) ∷ ws)
    → split_from [] (join_spaced ((c ∷ cs) ∷ ws)) ≡ (c ∷ cs) ∷ ws
unfolding join_spaced join_onto
split_from-joined ws c cs h =
    ap (split_from []) (join_onto-spaced ws c cs)
    ∙ split_from-no_space (c ∷ cs) (spaced ws) [] (no_space_of_is_word (c ∷ cs) h.0)
    ∙ split_from-spaced ws (c ∷ cs) h.1

words_to_bytes-spaced :
    (c : ℕ) (cs : Text) (ws : List Text)
    → words_to_bytes (join_spaced ((c ∷ cs) ∷ ws))
      ≡ decode_words 0 (split_from [] (join_spaced ((c ∷ cs) ∷ ws)))
unfolding words_to_bytes join_spaced join_onto
words_to_bytes-spaced c cs ws = rw (join_onto-spaced ws c cs) refl

words_to_bytes-join_spaced :
    (ws : List Text) (w : Text)
    → AreWords (w ∷ ws)
    → words_to_bytes (join_spaced (w ∷ ws)) ≡ decode_words 0 (w ∷ ws)
words_to_bytes-join_spaced ws [] h = unfold is_word in cc
words_to_bytes-join_spaced ws (c ∷ cs) h =
    words_to_bytes-spaced c cs ws ∙ ap (decode_words 0) (split_from-joined ws c cs h)

words_to_bytes-nil : words_to_bytes (join_spaced []) ≡ some []
unfolding words_to_bytes join_spaced join_onto
words_to_bytes-nil = refl

-- The bytes are read back from their words: the words that `bytes_to_words` gives for bytes,
-- split at the spaces and looked up in the two tables in turn, give the bytes again.
pub words_to_bytes-bytes_to_words :
    (bs : Bytes) → All IsByte bs → words_to_bytes (bytes_to_words bs) ≡ some bs
unfolding bytes_to_words words_from
words_to_bytes-bytes_to_words [] h = words_to_bytes-nil
words_to_bytes-bytes_to_words (b ∷ bs) h =
    let words : AreWords (words_from 0 (b ∷ bs)) = words_from-AreWords 0 (b ∷ bs) h in
    words_to_bytes-join_spaced (words_from 1 bs) (word_of 0 b) words
    ∙ decode_words-words_from 0 (b ∷ bs) h
