-- ===== src/Tests/Zfs.antt =====
-- The theorems on pkg/zfs at a pool whose first listing fails to find the dataset.
use stockyard.Base.{
  Text, String, ◌≡◌, ◌⊎◌, refl, true, false, List, [], ◌∷◌, none, some, codes, ok, err, text_eq,
  lacks,
}
use stockyard.Zfs.Snapshots.{names_of, lines_for, snapshots_of-names}
use stockyard.Zfs.{
  snapshots_of, Call, check_context, zfs, Output, ZfsError, Manager, destroy_dataset_recursive,
  dataset_path_exists, judge_list, is_missing, check_ctx, list_command,
}
use stockyard.Zfs.Datasets.{destroy_recursive_ok}
use stockyard.Zfs.Imports.{
  import_image_rootfs, image_path, snapshot_command, destroy_command, import_image_rootfs-ends,
}

-- There is no dataset `tank/x`.
abbrev absent_output : List Call → Output
absent_output (zfs (command ∷ h ∷ o ∷ n ∷ dataset ∷ []) ∷ _) = record {
  failed = true;
  exit_code = some 1;
  stdout = [];
  stderr = codes "cannot open 'tank/x': dataset does not exist\n";
}
absent_output _ = record { failed = false; exit_code = none; stdout = []; stderr = [] }

abbrev manager : Manager
manager = record {
  pool_name = codes "tank";
  base_path = codes "stockyard";
  output = absent_output;
  is_canceled = λ h. false;
  file_fails = λ h. false;
  join = λ ps. [];
  timestamp = λ h. codes "2026-01-02T03-04-05";
}

gone : (destroy_dataset_recursive manager (codes "tank/x") []).0 ≡ ok tt
unfolding destroy_dataset_recursive dataset_path_exists check_ctx judge_list is_missing text_eq
gone = refl

destroy_recursive_ok_example :
    (older : List Call) × ((destroy_dataset_recursive manager (codes "tank/x") []).1
      ≡ check_context ∷ zfs (list_command manager (codes "tank/x")) ∷ older)
    × (is_missing manager
          (codes "tank/x")
          (absent_output (zfs (list_command manager (codes "tank/x")) ∷ older))
        ≡ true)
    × (false ≡ false)
destroy_recursive_ok_example = destroy_recursive_ok manager (codes "tank/x") [] gone

import_image_rootfs-ends_example :
    let dataset = image_path manager (codes "images") (codes "node") in
    let (r, v) = import_image_rootfs manager (codes "images") (codes "node") (codes "/r.ext4") [] in
    ((r ≡ ok tt)
      × ((older : List Call) × (v ≡ snapshot_command manager dataset ∷ older)
          × ((absent_output v).failed ≡ false)))
    ⊎ ((e : ZfsError) × (r ≡ err e) × (v ≡ zfs (codes "create" ∷ codes "-p" ∷ dataset ∷ []) ∷ []))
    ⊎ ((e : ZfsError) × (r ≡ err e)
        × ((older : List Call) × (v ≡ destroy_command manager dataset ∷ older)))
import_image_rootfs-ends_example =
    import_image_rootfs-ends manager (codes "images") (codes "node") (codes "/r.ext4") []

abbrev taken : List (Text × String)
taken = (codes "2026-01-02T03-04-05", "before@fix") ∷ (codes "2026-01-03T03-04-05", "") ∷ []

snapshots_of-names_example :
    snapshots_of (lines_for manager (codes "a1") (names_of manager (codes "a1") taken))
    ≡ names_of manager (codes "a1") taken
unfolding lacks
snapshots_of-names_example = snapshots_of-names manager (codes "a1") taken refl (refl, (refl, tt))
