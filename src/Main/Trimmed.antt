-- ===== src/Main/Trimmed.antt =====
-- `trim_end`, which rs/src/main.rs calls on what a password file holds.
use minisign_rs.Base.{
  ◌≡◌, refl, ap, Bool, true, false, ◌&&◌, [], ◌∷◌, ◌++◌, All, if◌then◌else◌, Text,
}
use minisign_rs.Main.{is_whitespace, is_empty, trim_end}

abbrev pub IsBlank : Text → Type 0
IsBlank w = All (λ c. is_whitespace c ≡ true) w

split_off :
    (b : Bool) (c : _) (cs rest w : Text)
    → is_whitespace c ≡ b
    → cs ≡ rest ++ w
    → IsBlank w
    → (v : Text) × (c ∷ cs ≡ (if b && is_empty rest then [] else c ∷ rest) ++ v) × IsBlank v
split_off true c cs [] w h e blank = (c ∷ w, ap (◌∷◌ c) e, (h, blank))
split_off true c cs (r ∷ rs) w h e blank = (w, ap (◌∷◌ c) e, blank)
split_off false c cs rest w h e blank = (w, ap (◌∷◌ c) e, blank)

-- Only white space is cut off.
pub trim_end-IsBlank : (t : Text) → (w : Text) × (t ≡ trim_end t ++ w) × IsBlank w
unfolding trim_end
trim_end-IsBlank [] = ([], refl, tt)
trim_end-IsBlank (c ∷ cs) =
    let (w, e, blank) = trim_end-IsBlank cs in
    split_off (is_whitespace c) c cs (trim_end cs) w refl e blank

kept :
    (b : Bool) (c : _) (rest : Text)
    → is_whitespace c ≡ b
    → trim_end rest ≡ rest
    → trim_end (if b && is_empty rest then [] else c ∷ rest)
      ≡ (if b && is_empty rest then [] else c ∷ rest)
unfolding trim_end
kept true c [] h e = refl
kept true c (r ∷ rs) h e = rw (h, e) refl
kept false c rest h e = rw (h, e) refl

-- Nothing is left to cut off.
pub trim_end-trim_end : (t : Text) → trim_end (trim_end t) ≡ trim_end t
unfolding trim_end
trim_end-trim_end [] = refl
trim_end-trim_end (c ∷ cs) = kept (is_whitespace c) c (trim_end cs) refl (trim_end-trim_end cs)
