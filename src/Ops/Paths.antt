-- ===== src/Ops/Paths.antt =====
-- Where a path leads, of rs/src/ops/file_utils.rs, on Unix. An absolute path is its components,
-- the last one first.
pub mod Distinct
use minisign_rs.Base.{Bool, true, false, ◌&&◌, List, [], ◌∷◌, if◌then◌else◌, Text, list_eq}
use minisign_rs.Errors.{
  FilePath, IoError, not_found, already_exists, interrupted_call, other_kind, Result, ok, err,
  ◌>>=◌, ◌>>◌, file_write, output_alias,
}
use minisign_rs.Ops.Files.{IoResult, io_ok, io_err}

-- `std::path::Component`
pub data Component : Type 0 where
  root_dir cur_dir parent_dir : Component
  normal : Text → Component

abbrev pub Place : Type 0
Place = List Component

unfoldable pub component_eq : Component → Component → Bool
unfolding list_eq
component_eq root_dir root_dir = true
component_eq cur_dir cur_dir = true
component_eq parent_dir parent_dir = true
component_eq (normal a) (normal b) = list_eq a b
component_eq _ _ = false

unfoldable pub place_eq : Place → Place → Bool
unfolding component_eq
place_eq [] [] = true
place_eq (a ∷ as') (b ∷ bs) = component_eq a b && place_eq as' bs
place_eq _ _ = false

-- What the system says of paths: `std::path::absolute`, and `canonicalize` of a path that is given
-- and of one that has been taken apart.
pub record Directories : Type 0 where
  pub absolute : FilePath → IoResult Place
  pub canonicalize : FilePath → IoResult Place
  pub canonicalize_place : Place → IoResult Place

-- `Path::parent`, and the path itself where there is none.
abbrev pub parent_or_self : Place → Place
parent_or_self [] = []
parent_or_self (root_dir ∷ rest) = root_dir ∷ rest
parent_or_self (cur_dir ∷ rest) = rest
parent_or_self (parent_dir ∷ rest) = rest
parent_or_self (normal n ∷ rest) = rest

-- The last component, applied to the place of its parent.
unfoldable pub join : Component → Place → Place
join root_dir parent = root_dir ∷ []
join cur_dir parent = parent
join parent_dir parent = parent_or_self parent
join (normal n) parent = normal n ∷ parent

abbrev pub joined : Component → IoResult Place → IoResult Place
joined c (io_ok parent) = io_ok (join c parent)
joined c (io_err e) = io_err e

-- A directory that is not there is itself resolved.
abbrev pub or_resolved : IoResult Place → IoResult Place → IoResult Place
or_resolved (io_ok canonical) resolved = io_ok canonical
or_resolved (io_err not_found) resolved = resolved
or_resolved (io_err already_exists) resolved = io_err already_exists
or_resolved (io_err interrupted_call) resolved = io_err interrupted_call
or_resolved (io_err other_kind) resolved = io_err other_kind

abbrev pub or_file_write : FilePath → IoResult Place → Result Place
or_file_write path (io_ok place) = ok place
or_file_write path (io_err e) = err (file_write path e)

module _ (dirs : Directories) where
  open dirs use {absolute, canonicalize, canonicalize_place}

  unfoldable pub resolve : Place → IoResult Place
  unfolding join
  resolve [] = io_ok []
  resolve (root_dir ∷ rest) = io_ok (root_dir ∷ rest)
  resolve (cur_dir ∷ rest) = joined cur_dir (or_resolved (canonicalize_place rest) (resolve rest))
  resolve (parent_dir ∷ rest) =
      joined parent_dir (or_resolved (canonicalize_place rest) (resolve rest))
  resolve (normal n ∷ rest) =
      joined (normal n) (or_resolved (canonicalize_place rest) (resolve rest))

  unfoldable pub resolve_absolute : IoResult Place → IoResult Place
  unfolding resolve
  resolve_absolute (io_ok place) = resolve place
  resolve_absolute (io_err e) = io_err e

  unfoldable pub resolve_destination : FilePath → Result Place
  unfolding resolve_absolute
  resolve_destination path = or_file_write path (resolve_absolute (absolute path))

  -- An input that exists is where it leads to, and one that does not is resolved as an output.
  unfoldable pub resolve_input_by : FilePath → IoResult Place → Result Place
  unfolding resolve_destination
  resolve_input_by other (io_ok canonical) = ok canonical
  resolve_input_by other (io_err not_found) = resolve_destination other
  resolve_input_by other (io_err e) = err (file_write other e)

  unfoldable pub resolve_input : FilePath → Result Place
  unfolding resolve_input_by
  resolve_input other = resolve_input_by other (canonicalize other)

  unfoldable pub reject_among : FilePath → Place → List FilePath → Result (Unit {0})
  unfolding resolve_input place_eq
  reject_among output destination [] = ok tt
  reject_among output destination (other ∷ others) =
      let rest = reject_among output destination others in
      resolve_input other >>= λ resolved.
      if place_eq resolved destination then err (output_alias output other) else rest

  unfoldable pub reject_output_alias : FilePath → List FilePath → Result (Unit {0})
  unfolding resolve_destination reject_among
  reject_output_alias output others = do
    destination ← resolve_destination output
    reject_among output destination others
