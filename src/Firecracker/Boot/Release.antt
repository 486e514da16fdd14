-- ===== src/Firecracker/Boot/Release.antt =====
-- What a VM that could not be created holds, and its release.
use stockyard.Base.{
  ◌≡◌, inl, inr, Text, codes, text_eq, String, none, some, List, [], ◌∷◌, err, arith, if◌then◌else◌,
  Result-cases,
}
use stockyard.Firecracker.Host.{Call, zfs, Env, Client, M, Fault}
use stockyard.Firecracker.Network.{show_link, delete_link, delete_tap, link_exists}
use stockyard.Firecracker.Boot.{release_vm, or_release, destroy_zfs_dataset}

module _ (env : Env) where
  -- The tap is looked for, and deleted where it is there.
  abbrev pub tap_dropped : Text → List Call → List Call
  tap_dropped tap h = elim (env.outcome (show_link tap ∷ h)) [
    | none ↦ delete_link tap ∷ show_link tap ∷ h
    | some e ↦ show_link tap ∷ h
  ]

  abbrev pub clone_destroyed : Text → List Call → List Call
  clone_destroyed dataset h =
      if text_eq dataset [] then h else zfs (codes "destroy" ∷ codes "-r" ∷ dataset ∷ []) ∷ h

  -- The clone is destroyed, where there is one, and the tap is dropped.
  abbrev pub released : Text → Text → List Call → List Call
  released dataset tap h = tap_dropped tap (clone_destroyed dataset h)

  pub release_vm-history :
      (dataset tap : Text) (w : Client)
      → (release_vm env dataset tap w).1.history ≡ released dataset tap w.history
  unfolding release_vm destroy_zfs_dataset delete_tap link_exists
  release_vm-history dataset tap w = ground arith

  pub or_release_err :
      {A : Type 0} (what : String) (dataset tap : Text) (m : M A) (w : Client) (e : Fault)
      → (or_release env what dataset tap m w).0 ≡ err e
      → (or_release env what dataset tap m w).1.history ≡ released dataset tap (m w).1.history
  unfolding or_release
  or_release_err what dataset tap m w e h = elim (Result-cases (m w).0) [
    | inl (a, q) ↦ ground arith
    | inr (x, q) ↦ ground (arith, release_vm-history dataset tap (m w).1)
  ]
