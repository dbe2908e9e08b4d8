-- ===== src/Cli/Expand.antt =====
-- Reading back the expansion of combined flags, of rs/src/cli.rs.
use minisign_rs.Base.{
  ◌≡◌, refl, ap, Bool, true, false, List, [], ◌∷◌, if◌then◌else◌, Text, contains_char,
}
use minisign_rs.Cli.{Arg, unicode, raw, value_flags, embedded, expand_chars}

-- The value that follows a flag.
abbrev pub value_of : List Arg → Text
value_of [] = []
value_of (raw bytes ∷ args) = []
value_of (unicode s ∷ args) = s

-- A reader of expanded arguments: one flag for each argument, up to the first that takes a value.
unfoldable pub gathered : List Arg → Text
unfolding contains_char
gathered [] = []
gathered (raw bytes ∷ args) = []
gathered (unicode [] ∷ args) = []
gathered (unicode (d ∷ []) ∷ args) = []
gathered (unicode (d ∷ c ∷ []) ∷ args) =
    let rest = gathered args in c ∷ (if contains_char c value_flags then value_of args else rest)
gathered (unicode (d ∷ c ∷ e ∷ cs) ∷ args) = []

value_of-embedded : (cs : Text) → value_of (embedded cs) ≡ cs
unfolding embedded
value_of-embedded [] = refl
value_of-embedded (c ∷ cs) = refl

chosen :
    (b : Bool) (xs ys : List Arg) (cs : Text)
    → value_of xs ≡ cs
    → gathered ys ≡ cs
    → (if b then value_of (if b then xs else ys) else gathered (if b then xs else ys)) ≡ cs
chosen true xs ys cs h k = h
chosen false xs ys cs h k = k

-- A bundle of flags can be read back from what it is expanded to: the flags in their order, up to
-- the first that takes a value, and then its value.
pub gathered-expand_chars : (cs : Text) → gathered (expand_chars cs) ≡ cs
unfolding gathered expand_chars
gathered-expand_chars [] = refl
gathered-expand_chars (c ∷ cs) =
    ap (◌∷◌ c) (
      chosen (contains_char c value_flags) _ _ cs (value_of-embedded cs) (gathered-expand_chars cs))
