-- ===== src/Zfs/Imports.antt =====
-- `ImportImageRootfs` of pkg/zfs/zfs.go, with the copy of the file.
use stockyard.Base.{
  ◌≡◌, ◌⊎◌, refl, inl, inr, Text, codes, false, List, [], ◌∷◌, ◌++◌, ok, err, arith, Result-cases,
  Bool-cases,
}
use stockyard.Base.Steps.{◌>>=◌, ◌>>◌, map_err}
use stockyard.Zfs.{
  Call, zfs, open_file, create_file, close_file, remove_file, copy_bytes, sync_file, ZfsError,
  wrapped, command_failed, Manager, M, run_zfs, mountpoint_of, file_call,
}

module _ (m : Manager) where
  -- The file is closed in any case, and removed where it could not be written.
  unfoldable pub copy_open_file : Text → Text → M (Unit {0})
  copy_open_file from to h =
      let (r, h') = (do file_call m (copy_bytes from to); file_call m (sync_file from to)) h in
      elim r [
        | ok _ ↦ (ok tt, close_file to ∷ h')
        | err e ↦ (err e, remove_file to ∷ close_file to ∷ h')
      ]

  -- `copyFile`
  unfoldable pub copy_file : Text → Text → M (Unit {0})
  copy_file from to = do
    file_call m (open_file from)
    λ h.
        let (r, h') = (do file_call m (create_file to); copy_open_file from to) h in
        (r, close_file from ∷ h')

  -- What has to succeed once there is a dataset.
  unfoldable pub fill_image : Text → Text → M (Unit {0})
  fill_image dataset from = do
    mountpoint ← map_err (wrapped "failed to get mountpoint") (mountpoint_of m dataset)
    map_err (wrapped "failed to copy rootfs")
        (copy_file from (m.join (mountpoint ∷ codes "rootfs.ext4" ∷ [])))
    map_err (wrapped "failed to create snapshot")
        (run_zfs m (codes "snapshot" ∷ (dataset ++ codes "@base") ∷ []))

  abbrev pub destroy_command : Text → Call
  destroy_command dataset = zfs (codes "destroy" ∷ codes "-r" ∷ dataset ∷ [])

  abbrev pub image_path : Text → Text → Text
  image_path images_path name = m.pool_name ++ codes "/" ++ images_path ++ codes "/" ++ name

  -- The deferred function destroys the dataset where this fails.
  unfoldable pub or_destroy : Text → M (Unit {0}) → M (Unit {0})
  or_destroy dataset k h =
      let (r, h') = k h in
      elim r [ ok _ ↦ (ok tt, h') | err e ↦ (err e, destroy_command dataset ∷ h') ]

  unfoldable pub import_image_rootfs : Text → Text → Text → M (Unit {0})
  unfolding or_destroy
  import_image_rootfs images_path name from = do
    let dataset : Text = image_path images_path name
    map_err (wrapped "failed to create image dataset")
        (run_zfs m (codes "create" ∷ codes "-p" ∷ dataset ∷ []))
    or_destroy dataset (fill_image dataset from)

  -- `ImportRootfsImage`
  unfoldable pub import_rootfs_image : Text → Text → M (Unit {0})
  unfolding import_image_rootfs
  import_rootfs_image images_path from = import_image_rootfs images_path (codes "rootfs") from

  abbrev pub snapshot_command : Text → Call
  snapshot_command dataset = zfs (codes "snapshot" ∷ (dataset ++ codes "@base") ∷ [])

  fill_image-ok :
      (dataset from : Text) (h : List Call)
      → (fill_image dataset from h).0 ≡ ok tt
      → (older : List Call) × ((fill_image dataset from h).1 ≡ snapshot_command dataset ∷ older)
        × ((m.output (snapshot_command dataset ∷ older)).failed ≡ false)
  unfolding fill_image run_zfs
  fill_image-ok dataset from h e =
      let h₁ = (mountpoint_of m dataset h).1 in
      elim (Result-cases (mountpoint_of m dataset h).0) [
        | inr (x, q) ↦ ground arith
        | inl (mountpoint, q) ↦
            let to = m.join (mountpoint ∷ codes "rootfs.ext4" ∷ []) in
            elim (Result-cases (copy_file from to h₁).0) [
              | inr (x, s) ↦ ground arith
              | inl (_, s) ↦ ((copy_file from to h₁).1, ground arith, ground arith)
            ]
      ]

  run_zfs-cases :
      (args : List Text) (h : List Call)
      → let h' = zfs args ∷ h in
        (run_zfs m args h ≡ (err (command_failed (m.output h').stderr), h'))
        ⊎ (run_zfs m args h ≡ (ok tt, h'))
  unfolding run_zfs
  run_zfs-cases args h = elim (Bool-cases (m.output (zfs args ∷ h)).failed) [
    | inl q ↦ inl (rw (q) refl)
    | inr q ↦ inr (rw (q) refl)
  ]

  -- An import that succeeds ends with the snapshot `@base`, which was made. One that fails has either
  -- only failed to create the dataset, or it ends with the destruction of the dataset.
  pub import_image_rootfs-ends :
      (images_path name from : Text) (h : List Call)
      → let dataset = image_path images_path name in
        let (r, v) = import_image_rootfs images_path name from h in
        ((r ≡ ok tt)
          × ((older : List Call) × (v ≡ snapshot_command dataset ∷ older)
              × ((m.output v).failed ≡ false)))
        ⊎ ((e : ZfsError) × (r ≡ err e)
            × (v ≡ zfs (codes "create" ∷ codes "-p" ∷ dataset ∷ []) ∷ h))
        ⊎ ((e : ZfsError) × (r ≡ err e)
            × ((older : List Call) × (v ≡ destroy_command dataset ∷ older)))
  unfolding import_image_rootfs
  import_image_rootfs-ends images_path name from h =
      let dataset = image_path images_path name in
      let h₁ = zfs (codes "create" ∷ codes "-p" ∷ dataset ∷ []) ∷ h in
      elim (run_zfs-cases (codes "create" ∷ codes "-p" ∷ dataset ∷ []) h) [
        | inl q ↦
            let x =
              wrapped "failed to create image dataset" (command_failed (m.output h₁).stderr) in
            inr (inl (x, ground arith, ground arith))
        | inr q ↦ elim (Result-cases (fill_image dataset from h₁).0) [
          | inr (e, s) ↦ inr (inr (e, ground arith, ((fill_image dataset from h₁).1, ground arith)))
          | inl (_, s) ↦
              let (older, last, made) = fill_image-ok dataset from h₁ s in
              inl (ground arith, (older, ground (arith, last), ground (arith, last, made)))
        ]
      ]
