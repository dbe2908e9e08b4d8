-- ===== src/Ops/Paths/Distinct.antt =====
-- What the check of an output path of rs/src/ops/file_utils.rs rules out.
use minisign_rs.Base.{
  ◌≡◌, ◌≢◌, refl, ap, ap₂, arith, ◌∙◌, sym, true, false, Bool, List, [], ◌∷◌, All, list_eq_iff,
  if◌then◌else◌,
}
use minisign_rs.Errors.{FilePath, Error, Result, ok, err, >>=-eq-ok}
use minisign_rs.Ops.Paths.{
  Component, root_dir, cur_dir, parent_dir, normal, component_eq, Place, place_eq, Directories,
  resolve_destination, resolve_input, reject_among, reject_output_alias,
}

component_eq_refl : (a : Component) → component_eq a a ≡ true
unfolding component_eq
component_eq_refl root_dir = refl
component_eq_refl cur_dir = refl
component_eq_refl parent_dir = refl
component_eq_refl (normal a) = (list_eq_iff a a).1 refl

place_eq_refl : (a : Place) → place_eq a a ≡ true
unfolding place_eq
place_eq_refl [] = refl
place_eq_refl (a ∷ as') = rw (component_eq_refl a, place_eq_refl as') refl

-- An input leads elsewhere than a place.
abbrev pub LeadsElsewhere : Directories → Place → FilePath → Type 0
LeadsElsewhere dirs destination other =
    (place : Place) × (resolve_input dirs other ≡ ok place) × (place ≢ destination)

pub differs : (a b : Place) → place_eq a b ≡ false → a ≢ b
differs a b h e =
    let same : place_eq a b ≡ true = ap (λ x. place_eq a x) (sym e) ∙ place_eq_refl a in absurd cc

component_eq-true : (a b : Component) → component_eq a b ≡ true → a ≡ b
unfolding component_eq
component_eq-true root_dir root_dir h = refl
component_eq-true cur_dir cur_dir h = refl
component_eq-true parent_dir parent_dir h = refl
component_eq-true (normal a) (normal b) h = ap normal ((list_eq_iff a b).0 h)
component_eq-true _ _ h = absurd cc

pub place_eq-true : (a b : Place) → place_eq a b ≡ true → a ≡ b
unfolding place_eq
place_eq-true [] [] h = refl
place_eq-true (a ∷ as') (b ∷ bs) h =
    let parts : (component_eq a b ≡ true) × (place_eq as' bs ≡ true) = ground arith in
    ap₂ (◌∷◌) (component_eq-true a b parts.0) (place_eq-true as' bs parts.1)
place_eq-true _ _ h = absurd cc

module _ (dirs : Directories) where
  passes :
      (b : Bool) (e : Error) (r : Result (Unit {0}))
      → (if b then err e else r) ≡ ok tt
      → (b ≡ false) × (r ≡ ok tt)
  passes true e r h = cc
  passes false e r h = (refl, h)

  reject_among-ok :
      (output : FilePath) (destination : Place) (others : List FilePath)
      → reject_among dirs output destination others ≡ ok tt
      → All (LeadsElsewhere dirs destination) others
  unfolding reject_among
  reject_among-ok output destination [] h = tt
  reject_among-ok output destination (other ∷ others) h =
      let (place, resolved, h1) = >>=-eq-ok (resolve_input dirs other) _ h in
      let (apart, h2) = passes (place_eq place destination) _ _ h1 in
      (
        (place, resolved, differs place destination apart),
        reject_among-ok output destination others h2,
      )

  -- An output that passes the check of its path leads to a place, and each of the inputs leads to
  -- another place.
  pub reject_output_alias-ok :
      (output : FilePath) (others : List FilePath)
      → reject_output_alias dirs output others ≡ ok tt
      → (destination : Place) × (resolve_destination dirs output ≡ ok destination)
        × All (LeadsElsewhere dirs destination) others
  unfolding reject_output_alias
  reject_output_alias-ok output others h =
      let (destination, resolved, h1) = >>=-eq-ok (resolve_destination dirs output) _ h in
      (destination, resolved, reject_among-ok output destination others h1)
