-- ===== src/Ops/Sign/Batch/Covers.antt =====
-- Which files the batch of rs/src/ops/sign.rs keeps when it drops repeated ones.
use minisign_rs.Base.{
  ◌≡◌, refl, sym, ap, ◌∙◌, ◌⊎◌, inl, inr, Bool, true, false, ◌||◌, List, [], ◌∷◌, All,
  if◌then◌else◌,
}
use minisign_rs.Errors.{FilePath, Result, ok, >>=-eq-ok}
use minisign_rs.Formats.{Base64}
use minisign_rs.Crypto.{Primitives}
use minisign_rs.Ops.Files.{IoResult, io_ok, io_err, or_file_read}
use minisign_rs.Ops.Paths.{Place, place_eq}
use minisign_rs.Ops.Paths.Distinct.{place_eq-true}
use minisign_rs.Ops.Sign.File.{System}
use minisign_rs.Ops.Sign.Batch.{seen_before, deduplicate}

pub ok_inj : (a c : List FilePath) → ok a ≡ ok c → a ≡ c
ok_inj a c h = cc

pub branch :
    (c : Bool) (x y : Result (List FilePath)) (out : List FilePath)
    → (if c then x else y) ≡ ok out
    → ((c ≡ true) × (x ≡ ok out)) ⊎ ((c ≡ false) × (y ≡ ok out))
branch true x y out h = inl (refl, h)
branch false x y out h = inr (refl, h)

pub or_file_read-ok :
    (file : FilePath) (x : IoResult Place) (place : Place)
    → or_file_read file x ≡ ok place
    → x ≡ io_ok place
or_file_read-ok file (io_ok q) place h = cc
or_file_read-ok file (io_err e) place h = cc

module _ (p : Primitives) (b : Base64) (system : System) where
  open system use {directories}
  open directories use {canonicalize}

  -- A file of a list leads to a place.
  unfoldable pub IsAmong : Place → List FilePath → Type 0
  IsAmong place [] = false ≡ true
  IsAmong place (file ∷ files) = (canonicalize file ≡ io_ok place) ⊎ IsAmong place files

  -- Every file leads to a place, and a file of the other list leads there too.
  abbrev pub AreCovered : List FilePath → List FilePath → Type 0
  AreCovered deduped files =
      All (λ file. (place : Place) × (canonicalize file ≡ io_ok place) × IsAmong place deduped)
        files

  -- The same, but for files that lead to places that were seen before.
  abbrev IsFound : List Place → List FilePath → FilePath → Type 0
  IsFound seen deduped file =
      (place : Place) × (canonicalize file ≡ io_ok place)
      × ((seen_before place seen ≡ true) ⊎ IsAmong place deduped)

  -- A place that is new is seen from then on, and the file that led to it is kept.
  IsFound-kept :
      (seen : List Place) (place : Place) (kept : FilePath) (deduped : List FilePath)
      (file : FilePath)
      → canonicalize kept ≡ io_ok place
      → IsFound (place ∷ seen) deduped file
      → IsFound seen (kept ∷ deduped) file
  unfolding seen_before IsAmong
  IsFound-kept seen place kept deduped file e (q, found, inr among) = (q, found, inr (inr among))
  IsFound-kept seen place kept deduped file e (q, found, inl again) =
      elim (split (place_eq q place) (seen_before q seen) again) [
        | inl same ↦ (q, found, inr (inl (e ∙ ap io_ok (sym (place_eq-true q place same)))))
        | inr older ↦ (q, found, inl older)
      ]
    where
      split : (x y : Bool) → (x || y) ≡ true → (x ≡ true) ⊎ (y ≡ true)
      split true y h = inl refl
      split false y h = inr h

  AreFound-kept :
      (seen : List Place) (place : Place) (kept : FilePath) (deduped files : List FilePath)
      → canonicalize kept ≡ io_ok place
      → All (IsFound (place ∷ seen) deduped) files
      → All (IsFound seen (kept ∷ deduped)) files
  AreFound-kept seen place kept deduped [] e h = tt
  AreFound-kept seen place kept deduped (file ∷ files) e (h, rest) = (
    IsFound-kept seen place kept deduped file e h,
    AreFound-kept seen place kept deduped files e rest,
  )

  IsFound-same :
      (seen : List Place) (xs ys files : List FilePath)
      → xs ≡ ys
      → All (IsFound seen xs) files
      → All (IsFound seen ys) files
  IsFound-same seen xs ys [] e h = tt
  IsFound-same seen xs ys (file ∷ files) e (h, rest) =
      (rw (← e) h, IsFound-same seen xs ys files e rest)

  deduplicate-AreFound :
      (seen : List Place) (files deduped : List FilePath)
      → deduplicate p b system seen files ≡ ok deduped
      → All (IsFound seen deduped) files
  unfolding deduplicate IsAmong
  deduplicate-AreFound seen [] deduped h = tt
  deduplicate-AreFound seen (file ∷ files) deduped h =
      let (place, found, h1) = >>=-eq-ok (or_file_read file (canonicalize file)) _ h in
      let e = or_file_read-ok file (canonicalize file) place found in
      elim (branch (seen_before place seen) _ _ deduped h1) [
        | inl (again, h2) ↦ ((place, e, inl again), deduplicate-AreFound seen files deduped h2)
        | inr (new, h2) ↦
            let (rest, h3, h4) = >>=-eq-ok (deduplicate p b system (place ∷ seen) files) _ h2 in
            IsFound-same seen (file ∷ rest) deduped (file ∷ files) (ok_inj (file ∷ rest) deduped h4)
              (
                (place, e, inr (inl e)),
                AreFound-kept seen place file rest files e
                    (deduplicate-AreFound (place ∷ seen) files rest h3),
              )
      ]

  AreFound-AreCovered :
      (deduped files : List FilePath) → All (IsFound [] deduped) files → AreCovered deduped files
  unfolding seen_before
  AreFound-AreCovered deduped [] h = tt
  AreFound-AreCovered deduped (file ∷ files) ((place, e, inl again), rest) = absurd cc
  AreFound-AreCovered deduped (file ∷ files) ((place, e, inr among), rest) =
      ((place, e, among), AreFound-AreCovered deduped files rest)

  -- No file is lost when repeated ones are dropped.
  pub deduplicate-AreCovered :
      (files deduped : List FilePath)
      → deduplicate p b system [] files ≡ ok deduped
      → AreCovered deduped files
  deduplicate-AreCovered files deduped h =
      AreFound-AreCovered deduped files (deduplicate-AreFound [] files deduped h)
