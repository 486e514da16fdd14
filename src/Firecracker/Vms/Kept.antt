-- ===== src/Firecracker/Vms/Kept.antt =====
-- Stopping and restarting a VM keep its rootfs and its directory.
use stockyard.Base.{
  ℕ, ℤ, suc, ◌≡◌, inl, inr, Text, codes, text_eq, String, List, [], ◌∷◌, arith, Result-cases, false,
  Bool, if◌then◌else◌,
}
use stockyard.Firecracker.Host.{
  Call, zfs, destroy_rootfs, remove_all, Env, Client, M, stat, remove, write_file,
}
use stockyard.Firecracker.Network.{
  tap_name_for_vm, delete_tap, create_tap, link_exists, or_delete_link,
}
use stockyard.Firecracker.Config.{VmConfig}
use stockyard.Firecracker.Delete.{default_namespace, vm_dir, api_socket_path}
use stockyard.Firecracker.Boot.{
  release_vm, or_release, or_abandon, destroy_zfs_dataset, await_socket, configure_machine,
  configure_guest, start_with_metrics, make_metrics_fifo, boot, track, allocate_cid, start_process,
  write_process_metadata, file,
}
use stockyard.Firecracker.Create.{make_tap, or_default}
use stockyard.Firecracker.Start.{find_rootfs, recall_mac, record_restart, start_with_tap, start_vm}
use stockyard.Firecracker.Vms.{
  get_vm, require_directory, read_or_empty, recorded_process, process_running, ask_to_shut_down,
  stop_by_pid, stop_vm,
}

abbrev pub is_destroy : List Text → Bool
is_destroy [] = false
is_destroy (command ∷ args) = text_eq command (codes "destroy")

-- How many calls destroy a clone or remove a directory.
unfoldable pub destructions : List Call → ℕ
destructions [] = 0
destructions (zfs args ∷ h) = let n = destructions h in if is_destroy args then suc n else n
destructions (destroy_rootfs _ ∷ h) = suc (destructions h)
destructions (remove_all _ ∷ h) = suc (destructions h)
destructions (_ ∷ h) = destructions h

module _ (env : Env) where
  -- No call of `m` destroys anything.
  abbrev Kept : {A : Type 0} → M A → Type 0
  Kept m = (w : Client) → destructions (m w).1.history ≡ destructions w.history

  module _ (config : VmConfig) (dir : Text) (pid : ℕ) (tap : Text) where
    await_socket-Kept : Kept (await_socket env dir pid [] tap)
    unfolding await_socket release_vm destroy_zfs_dataset delete_tap link_exists destructions
        text_eq
    await_socket-Kept w = ground arith

    configure_machine-Kept :
        (mac rootfs : Text) → Kept (configure_machine env config dir pid [] tap mac rootfs)
    unfolding configure_machine or_abandon release_vm destroy_zfs_dataset delete_tap link_exists
        destructions text_eq
    configure_machine-Kept mac rootfs w = ground arith

    configure_guest-Kept : Kept (configure_guest env config dir pid [] tap)
    unfolding configure_guest allocate_cid or_abandon release_vm destroy_zfs_dataset delete_tap
        link_exists destructions text_eq
    configure_guest-Kept w = ground arith

    start_with_metrics-Kept : Kept (start_with_metrics env config dir pid [] tap)
    unfolding start_with_metrics make_metrics_fifo or_abandon release_vm destroy_zfs_dataset
        delete_tap link_exists destructions text_eq
    start_with_metrics-Kept w = ground arith

    boot-Kept :
        (namespace mac rootfs : Text) → Kept (boot env config dir pid [] tap namespace mac rootfs)
    unfolding boot track
    boot-Kept namespace mac rootfs w =
        let w₁ = (track config.id pid w).1 in
        let w₂ = (await_socket env dir pid [] tap w₁).1 in
        let w₃ = (configure_machine env config dir pid [] tap mac rootfs w₂).1 in
        let w₄ = (configure_guest env config dir pid [] tap w₃).1 in
        ground (
          arith,
          await_socket-Kept w₁,
          configure_machine-Kept mac rootfs w₂,
          configure_guest-Kept w₃,
          start_with_metrics-Kept w₄,
        )

  make_tap-Kept : (tap : Text) → Kept (make_tap env tap)
  unfolding make_tap delete_tap create_tap link_exists or_delete_link destructions text_eq
  make_tap-Kept tap w = ground arith

  find_rootfs-Kept : (id : String) (dir : Text) → Kept (find_rootfs env id dir)
  unfolding find_rootfs destructions text_eq
  find_rootfs-Kept id dir w = ground arith

  recall_mac-Kept : (dir : Text) → Kept (recall_mac env dir)
  unfolding recall_mac destructions text_eq
  recall_mac-Kept dir w = ground arith

  start_process-Kept : (dir tap : Text) → Kept (start_process env dir [] tap)
  unfolding start_process or_release release_vm destroy_zfs_dataset delete_tap link_exists
      destructions text_eq
  start_process-Kept dir tap w = ground arith

  record_restart-Kept : (dir : Text) (pid : ℕ) (tap : Text) → Kept (record_restart env dir pid tap)
  unfolding record_restart write_process_metadata delete_tap link_exists destructions text_eq
  record_restart-Kept dir pid tap w = ground arith

  start_with_tap-Kept :
      (config : VmConfig) (namespace dir tap : Text)
      → Kept (start_with_tap env config namespace dir tap)
  unfolding start_with_tap destructions
  start_with_tap-Kept config namespace dir tap w =
      let w₁ = (recall_mac env dir w).1 in
      let w₂ = record w₁ {
        history =
            remove (api_socket_path env dir)
            ∷ write_file (file env dir "tap_name") tap
            ∷ w₁.history;
      } in
      let w₃ = (start_process env dir [] tap w₂).1 in
      elim (Result-cases (recall_mac env dir w).0) [
        | inr (x, q) ↦ ground (arith, recall_mac-Kept dir w)
        | inl (mac, q) ↦ elim (Result-cases (start_process env dir [] tap w₂).0) [
          | inr (x, s) ↦ ground (arith, recall_mac-Kept dir w, start_process-Kept dir tap w₂)
          | inl (pid, s) ↦
              let w₄ = (record_restart env dir pid tap w₃).1 in
              ground (
                arith,
                recall_mac-Kept dir w,
                start_process-Kept dir tap w₂,
                record_restart-Kept dir pid tap w₃,
                boot-Kept config dir pid tap namespace mac config.rootfs_path w₄,
              )
        ]
      ]

  start_vm-Kept : (config : VmConfig) → Kept (start_vm env config)
  unfolding start_vm destructions
  start_vm-Kept given w =
      let namespace = default_namespace given.namespace in
      let dir = vm_dir env namespace given.id in
      let tap = tap_name_for_vm given.id in
      let w₁ = (find_rootfs env given.id dir w).1 in
      elim (Result-cases (find_rootfs env given.id dir w).0) [
        | inr (x, q) ↦ ground (arith, find_rootfs-Kept given.id dir w)
        | inl (rootfs, q) ↦
            let w₂ = record w₁ { history = stat rootfs ∷ w₁.history } in
            let w₃ = (make_tap env tap w₂).1 in
            let config = record given {
              kernel_path = or_default env given.kernel_path env.kernel_path;
              rootfs_path = rootfs;
            } in
            ground (
              arith,
              find_rootfs-Kept given.id dir w,
              make_tap-Kept tap w₂,
              start_with_tap-Kept config namespace dir tap w₃,
            )
      ]

  get_vm-Kept : (namespace : Text) (id : String) → Kept (get_vm env namespace id)
  unfolding get_vm require_directory read_or_empty recorded_process process_running destructions
  get_vm-Kept namespace id w = ground arith

  ask_to_shut_down-Kept : (socket : Text) → Kept (ask_to_shut_down env socket)
  unfolding ask_to_shut_down destructions
  ask_to_shut_down-Kept socket w = ground arith

  stop_by_pid-Kept : (id : String) (pid : ℤ) → Kept (stop_by_pid env id pid)
  unfolding stop_by_pid process_running destructions
  stop_by_pid-Kept id pid w = ground arith

  delete_tap-Kept : (tap : Text) → Kept (delete_tap env tap)
  unfolding delete_tap link_exists destructions
  delete_tap-Kept tap w = ground arith

  stop_vm-Kept : (namespace : Text) (id : String) → Kept (stop_vm env namespace id)
  unfolding stop_vm destructions
  stop_vm-Kept namespace id w =
      let w₁ = (get_vm env namespace id w).1 in
      elim (Result-cases (get_vm env namespace id w).0) [
        | inr (x, q) ↦ ground (arith, get_vm-Kept namespace id w)
        | inl (vm, q) ↦
            let w₂ = (ask_to_shut_down env (api_socket_path env (vm_dir env namespace id)) w₁).1 in
            let w₃ = (stop_by_pid env id vm.pid w₂).1 in
            ground (
              arith,
              get_vm-Kept namespace id w,
              ask_to_shut_down-Kept (api_socket_path env (vm_dir env namespace id)) w₁,
              stop_by_pid-Kept id vm.pid w₂,
              delete_tap-Kept vm.tap_device w₃,
            )
      ]

  -- However they end, `StopVM` and `StartVM` destroy no clone and remove no directory.
  pub stop_start-Kept :
      (namespace : Text) (id : String) (config : VmConfig) (w : Client)
      → (destructions (stop_vm env namespace id w).1.history ≡ destructions w.history)
        × (destructions (start_vm env config w).1.history ≡ destructions w.history)
  stop_start-Kept namespace id config w = (stop_vm-Kept namespace id w, start_vm-Kept config w)
