-- ===== src/Firecracker/Create/Failure.antt =====
-- What a creation or a restart that fails leaves behind.
use stockyard.Base.{
  ℕ, ◌≡◌, refl, ap, ◌∙◌, ok, some, true, false, if◌then◌else◌, ◌⊎◌, subst, inl, inr, Text, codes,
  text_eq, String, List, [], ◌∷◌, arith, Option-cases, Result-cases, Bool-cases, decimal,
}
use stockyard.Base.Steps.{◌>>=◌, ◌>>◌, return}
use stockyard.Base.Steps.OnError.{OnError, bind-OnError, bind-OnError_of, then-OnError}
use stockyard.Firecracker.Host.{
  Fault, Call, start, zfs, kill, wait_child, stat, write_file, Env, Client, M, call, effect,
  is_not_exist,
}
use stockyard.Firecracker.Config.{VmConfig, VmInfo}
use stockyard.Firecracker.Delete.{vm_dataset_path, api_socket_path, delete_vm}
use stockyard.Firecracker.Boot.{file, or_release, start_process, write_process_metadata, boot}
use stockyard.Firecracker.Boot.Release.{released, tap_dropped, or_release_err}
use stockyard.Firecracker.Boot.Abandon.{Abandoned, boot-Abandoned}
use stockyard.Firecracker.Create.{
  Rootfs, clone_mountpoint, clone_rootfs, copy_file, copy_rootfs, make_rootfs, record_process,
  parent_dataset, or_default, base_snapshot,
}

module _ (env : Env) where
  -- The clone of a VM, which has no name without ZFS.
  abbrev pub own_clone : String → Text
  own_clone id = if env.has_zfs then vm_dataset_path env id else []

  abbrev pub clone_call : VmConfig → Call
  clone_call config = zfs (
      codes "clone"
      ∷ or_default env config.rootfs_snapshot (base_snapshot env)
      ∷ vm_dataset_path env config.id
      ∷ [])

  abbrev pub start_call : Text → Call
  start_call dir = start env.firecracker_bin (codes "--api-sock" ∷ api_socket_path env dir ∷ [])

  -- No process could be started: the VM's clone, where there is one, and the tap are released.
  abbrev pub Released : String → Text → Client → Type 0
  Released id tap v = (h : List Call) × (v.history ≡ released env (own_clone id) tap h)

  -- The clone could not be made: the tap is dropped.
  abbrev pub Unmade : VmConfig → Text → Client → Type 0
  Unmade config tap v =
      (h : List Call) × (e : Fault) × (env.outcome (clone_call config ∷ h) ≡ some e)
      × (v.history ≡ tap_dropped env tap (clone_call config ∷ h))

  module _ (namespace dir tap : Text) (config : VmConfig) where
    abbrev id : String
    id = config.id

    -- The process is killed and the VM deleted.
    abbrev pub deleted_after : ℕ → Client → Client
    deleted_after pid u =
        (delete_vm env namespace id
          (record u { history = wait_child pid ∷ kill pid ∷ u.history })).1

    -- The ways to fail once there is a tap: without a clone; before there is a process; with one whose
    -- files cannot be written, which is killed and whose VM is deleted; and with one that is
    -- abandoned, with the VM's clone. The process is the one that the start has given.
    abbrev pub Undone : Client → Type 0
    Undone v =
        Unmade config tap v
        ⊎ Released id tap v
        ⊎ ((h : List Call) × (u : Client) × (v ≡ deleted_after (env.pid (start_call dir ∷ h)) u))
        ⊎ ((h : List Call) × Abandoned env dir (env.pid (start_call dir ∷ h)) (own_clone id) tap v)

    abbrev Bad : {A : Type 0} → M A → Type 0
    Bad m = OnError Undone m

    or_release-Bad :
        {A : Type 0} (what : String) (dataset : Text) (m : M A)
        → dataset ≡ own_clone id
        → Bad (or_release env what dataset tap m)
    or_release-Bad what dataset m own w e h = inr (
        inl (
          (m w).1.history,
          or_release_err env what dataset tap m w e h
              ∙ ap (λ d. released env d tap (m w).1.history) own,
        ))

    then-Bad : {A B : Type 0} (m : M A) (k : M B) → Bad m → Bad k → Bad (m >> k)
    then-Bad = then-OnError Undone

    effect-Bad : (c : Call) → Bad (effect c)
    effect-Bad c w e h = ground arith

    abbrev clone_of : Text
    clone_of = vm_dataset_path env id

    abbrev made_parent : M (Unit {0})
    made_parent = effect (zfs (codes "create" ∷ codes "-p" ∷ parent_dataset env ∷ []))

    abbrev cloned : M (Unit {0})
    cloned = or_release env "failed to clone rootfs" [] tap (call env (clone_call config))

    abbrev mounted : M Text
    mounted =
        or_release env "failed to get clone mountpoint" clone_of tap (clone_mountpoint env clone_of)

    abbrev rootfs_at : Text → M Rootfs
    rootfs_at mountpoint =
        return (record { path = file env mountpoint "rootfs.ext4"; dataset = clone_of })

    cloned-Bad : Bad cloned
    unfolding or_release text_eq
    cloned-Bad w e h =
        let asked = call env (clone_call config) in
        let dropped = or_release_err env "failed to clone rootfs" [] tap asked w e h in
        elim (Option-cases (env.outcome (clone_call config ∷ w.history))) [
          | inl q ↦ ground arith
          | inr (x, q) ↦ inl (w.history, x, q, dropped ∙ rw (q, call) refl)
        ]

    clone_rootfs-Bad : env.has_zfs ≡ true → Bad (clone_rootfs env config tap)
    unfolding clone_rootfs
    clone_rootfs-Bad q =
        then-Bad made_parent (cloned >> (mounted >>= rootfs_at))
          (effect-Bad (zfs (codes "create" ∷ codes "-p" ∷ parent_dataset env ∷ [])))
          (then-Bad cloned (mounted >>= rootfs_at) cloned-Bad (
            bind-OnError Undone mounted rootfs_at
              (or_release-Bad "failed to get clone mountpoint" clone_of
                (clone_mountpoint env clone_of) (rw (q) refl))
              (λ m w e h. ground arith)))

    abbrev own_rootfs : Text
    own_rootfs = file env dir "rootfs.ext4"

    copy_rootfs-Bad : env.has_zfs ≡ false → Bad (copy_rootfs env config dir tap)
    unfolding copy_rootfs
    copy_rootfs-Bad z w e h =
        let seen = stat own_rootfs ∷ w.history in
        let u = record w { history = seen } in
        let m = copy_file env config.rootfs_path own_rootfs in
        elim (Option-cases (env.outcome seen)) [
          | inl q ↦ ground arith
          | inr (x, q) ↦ elim (Bool-cases (is_not_exist x)) [
            | inr d ↦ ground arith
            | inl d ↦ elim (Result-cases (or_release env "failed to copy rootfs" [] tap m u).0) [
              | inl (_, s) ↦ ground arith
              | inr (y, s) ↦
                  subst Undone (ground arith)
                    (or_release-Bad "failed to copy rootfs" [] m (rw (z) refl) u y s)
            ]
          ]
        ]

    pub make_rootfs-Bad : Bad (make_rootfs env config dir tap)
    unfolding make_rootfs
    make_rootfs-Bad w e h = elim (Bool-cases env.has_zfs) [
      | inl q ↦ subst Undone (ground arith) (clone_rootfs-Bad q w e (ground arith))
      | inr q ↦ subst Undone (ground arith) (copy_rootfs-Bad q w e (ground arith))
    ]

    -- A rootfs that was made is in the VM's own clone.
    pub make_rootfs-own :
        (w : Client) (r : Rootfs)
        → (make_rootfs env config dir tap w).0 ≡ ok r
        → r.dataset ≡ own_clone id
    unfolding make_rootfs clone_rootfs copy_rootfs or_release
    make_rootfs-own w r h = ground arith

    start_process-Bad :
        (dataset : Text) → dataset ≡ own_clone id → Bad (start_process env dir dataset tap)
    unfolding start_process
    start_process-Bad dataset own w e h =
        let u = record w {
          history =
              write_file (file env dir "stderr.log") []
              ∷ write_file (file env dir "stdout.log") []
              ∷ w.history;
        } in
        let m = call env (start_call dir) in
        elim (Result-cases (or_release env "failed to start firecracker" dataset tap m u).0) [
          | inl (_, s) ↦ ground arith
          | inr (y, s) ↦
              subst Undone (ground arith)
                (or_release-Bad "failed to start firecracker" dataset m own u y s)
        ]

    -- The process is the one that was started.
    abbrev Started : ℕ → Type 0
    Started pid = (h : List Call) × (pid ≡ env.pid (start_call dir ∷ h))

    start_process-Started :
        (dataset : Text) (w : Client) (pid : ℕ)
        → (start_process env dir dataset tap w).0 ≡ ok pid
        → Started pid
    unfolding start_process or_release
    start_process-Started dataset w pid h = (
      write_file (file env dir "stderr.log") []
          ∷ write_file (file env dir "stdout.log") []
          ∷ w.history,
      ground arith,
    )

    record_process-Bad : (pid : ℕ) → Started pid → Bad (record_process env namespace id dir pid)
    unfolding record_process
    record_process-Bad pid (from, started) w e h =
        let path = api_socket_path env dir in
        let u = (write_process_metadata env dir pid (decimal pid) path w).1 in
        elim (Result-cases (write_process_metadata env dir pid (decimal pid) path w).0) [
          | inl (_, q) ↦ ground arith
          | inr (x, q) ↦
              let deleted : (record_process env namespace id dir pid w).1 ≡ deleted_after pid u =
                ground arith in
              inr (inr (inl (from, u, deleted ∙ ap (λ p. deleted_after p u) started)))
        ]

    -- The end of `CreateVM`, with a rootfs.
    abbrev pub launched : Text → Rootfs → M VmInfo
    launched mac rootfs = do
      effect (write_file (file env dir "tap_name") tap)
      effect (write_file (file env dir "mac_addr") mac)
      pid ← start_process env dir rootfs.dataset tap
      record_process env namespace id dir pid
      boot env config dir pid rootfs.dataset tap namespace mac rootfs.path

    boot-Bad :
        (mac : Text) (rootfs : Rootfs) (pid : ℕ)
        → rootfs.dataset ≡ own_clone id
        → Started pid
        → Bad (boot env config dir pid rootfs.dataset tap namespace mac rootfs.path)
    boot-Bad mac rootfs pid own (from, started) w e h =
        let v = (boot env config dir pid rootfs.dataset tap namespace mac rootfs.path w).1 in
        let left =
          boot-Abandoned env dir pid rootfs.dataset tap config namespace mac rootfs.path w e h in
        inr (
          inr (
            inr (
              from,
              subst (λ p. Abandoned env dir p (own_clone id) tap v) started
                  (subst (λ d. Abandoned env dir pid d tap v) own left),
            )))

    pub launched-Bad :
        (mac : Text) (rootfs : Rootfs) → rootfs.dataset ≡ own_clone id → Bad (launched mac rootfs)
    launched-Bad mac rootfs own =
        let last : ℕ → M VmInfo = λ pid.
          record_process env namespace id dir pid
          >> boot env config dir pid rootfs.dataset tap namespace mac rootfs.path in
        let run : M VmInfo = start_process env dir rootfs.dataset tap >>= last in
        then-Bad (effect (write_file (file env dir "tap_name") tap))
          (effect (write_file (file env dir "mac_addr") mac) >> run)
          (effect-Bad (write_file (file env dir "tap_name") tap))
          (then-Bad (effect (write_file (file env dir "mac_addr") mac)) run
            (effect-Bad (write_file (file env dir "mac_addr") mac))
            (bind-OnError_of Undone Started (start_process env dir rootfs.dataset tap) last
              (start_process-Bad rootfs.dataset own) (start_process-Started rootfs.dataset)
              (λ pid started.
                then-Bad (record_process env namespace id dir pid)
                  (boot env config dir pid rootfs.dataset tap namespace mac rootfs.path)
                  (record_process-Bad pid started) (boot-Bad mac rootfs pid own started))))
