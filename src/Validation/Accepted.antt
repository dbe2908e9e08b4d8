-- ===== src/Validation/Accepted.antt =====
-- The comments that the checks of rs/src/validation.rs let through.
use minisign_rs.Base.{
  ℕ, ◌-◌, ◌≤◌, ◌<◌, ◌≡◌, refl, ◌≢◌, ◌↔◌, ◌⊎◌, some, [], ◌∷◌, arith, All, Text, text_len, IsInLine,
}
use minisign_rs.Errors.{ok}
use minisign_rs.Validation.{
  is_printable, validate_comment_with_length, validate_untrusted_comment, validate_key_comment,
  validate_trusted_comment,
}

-- A tab, or no control character: from 0x20 on, without 0x7f to 0x9f.
abbrev pub IsPrintableChar : ℕ → Type 0
IsPrintableChar c = (c ≡ 9) ⊎ ((0x20 ≤ c) × ((c < 0x7f) ⊎ (0x9f < c)))

is_printable_sound : (s : Text) → is_printable s ≡ ok tt → All IsPrintableChar s
unfolding is_printable
is_printable_sound [] h = tt
is_printable_sound (c ∷ cs) h = ground (arith, is_printable_sound cs)

is_printable_complete : (s : Text) → All IsPrintableChar s → is_printable s ≡ ok tt
unfolding is_printable
is_printable_complete [] h = refl
is_printable_complete (c ∷ cs) h = ground (arith, is_printable_complete cs)

-- `validate_untrusted_comment` accepts exactly the texts of printable characters with fewer than
-- 1004 bytes of UTF-8.
pub validate_untrusted_comment_iff :
    (s : Text)
    → (validate_untrusted_comment s ≡ ok tt) ↔ (All IsPrintableChar s × (text_len s < 1004))
unfolding validate_untrusted_comment
validate_untrusted_comment_iff s =
    (λ h. ground (arith, is_printable_sound s), λ c. ground (arith, is_printable_complete s))

-- `validate_trusted_comment` accepts exactly the texts of printable characters with fewer than
-- 8174 bytes of UTF-8.
pub validate_trusted_comment_iff :
    (s : Text)
    → (validate_trusted_comment s ≡ ok tt) ↔ (All IsPrintableChar s × (text_len s < 8174))
unfolding validate_trusted_comment
validate_trusted_comment_iff s =
    (λ h. ground (arith, is_printable_sound s), λ c. ground (arith, is_printable_complete s))

-- `validate_key_comment` accepts exactly the non-empty texts of printable characters with fewer
-- than 1004 bytes of UTF-8.
pub validate_key_comment_iff :
    (s : Text)
    → (validate_key_comment s ≡ ok tt) ↔ ((s ≢ []) × All IsPrintableChar s × (text_len s < 1004))
unfolding validate_key_comment
validate_key_comment_iff [] = (λ h. cc, λ c. absurd (c.0 refl))
validate_key_comment_iff (c ∷ cs) = (
  λ h. let a = (validate_untrusted_comment_iff (c ∷ cs)).0 h in (λ e. cc, a.0, a.1),
  λ a. (validate_untrusted_comment_iff (c ∷ cs)).1 (a.1, a.2),
)

IsPrintableChar-IsInLine : (c : ℕ) → IsPrintableChar c → IsInLine c
IsPrintableChar-IsInLine c h = ground arith

printable-IsInLine : (s : Text) → All IsPrintableChar s → All IsInLine s
printable-IsInLine [] h = tt
printable-IsInLine (c ∷ cs) h = (IsPrintableChar-IsInLine c h.0, printable-IsInLine cs h.1)

-- An accepted comment stays on its line of the file.
pub untrusted_comment-IsInLine : (s : Text) → validate_untrusted_comment s ≡ ok tt → All IsInLine s
untrusted_comment-IsInLine s h = printable-IsInLine s ((validate_untrusted_comment_iff s).0 h).0

pub trusted_comment-IsInLine : (s : Text) → validate_trusted_comment s ≡ ok tt → All IsInLine s
trusted_comment-IsInLine s h = printable-IsInLine s ((validate_trusted_comment_iff s).0 h).0

-- The check that signing makes before any work, with the limits it passes, lets through exactly
-- what the constructor of a signature box lets through: 1004 bytes for the untrusted comment and
-- 8174 for the trusted one.
pub validate_comment_with_length_agrees :
    (untrusted trusted kind : Text)
    → ((validate_comment_with_length untrusted (some (1024 - 20)) kind ≡ ok tt)
        ↔ (validate_untrusted_comment untrusted ≡ ok tt))
      × ((validate_comment_with_length trusted (some (8192 - 18)) kind ≡ ok tt)
          ↔ (validate_trusted_comment trusted ≡ ok tt))
unfolding validate_comment_with_length validate_untrusted_comment validate_trusted_comment
validate_comment_with_length_agrees untrusted trusted kind =
    ((λ h. ground arith, λ h. ground arith), (λ h. ground arith, λ h. ground arith))
