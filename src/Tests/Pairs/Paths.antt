-- ===== src/Tests/Pairs/Paths.antt =====
-- Seven paths that are told apart by their lengths.
use minisign_rs.Base.{ℕ, ◌≡◌, refl, sym, ap, ◌∙◌, if◌then◌else◌, codes, length, ◌==◌}
use minisign_rs.Ops.Generate.Pair.{PairPaths}
use minisign_rs.Ops.Generate.Steps.{
  Role, secret_at, public_at, secret_tmp_at, public_tmp_at, secret_backup_at, public_backup_at,
  lock_at, path_of, AreDistinct,
}

abbrev pub paths : PairPaths
paths = record {
  secret_path = codes "k";
  public_path = codes "kp";
  secret_tmp = codes ".kt";
  public_tmp = codes ".kpt";
  secret_backup = codes ".kbak";
  public_backup = codes ".kpbak";
  lock_path = codes ".k.lock";
}

abbrev role_at : ℕ → Role
role_at n =
    if n == 1
    then secret_at
    else if n == 2
    then public_at
    else if n == 3
    then secret_tmp_at
    else if n == 4
    then public_tmp_at
    else if n == 5
    then secret_backup_at
    else if n == 6
    then public_backup_at
    else lock_at

found_again : (r : Role) → role_at (length (path_of paths r)) ≡ r
found_again secret_at = refl
found_again public_at = refl
found_again secret_tmp_at = refl
found_again public_tmp_at = refl
found_again secret_backup_at = refl
found_again public_backup_at = refl
found_again lock_at = refl

pub paths-AreDistinct : AreDistinct paths
paths-AreDistinct a b e = sym (found_again a) ∙ ap (λ p. role_at (length p)) e ∙ found_again b
