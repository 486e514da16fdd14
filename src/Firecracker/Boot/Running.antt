-- ===== src/Firecracker/Boot/Running.antt =====
-- What a VM that has been started has been given, and the context ids of successive VMs.
use stockyard.Base.{
  ℕ, zero, suc, ◌+◌, ◌%◌, ◌^◌, ◌<◌, ◌≡◌, ◌≢◌, inl, inr, Text, codes, true, false, List, [], ◌∷◌,
  some, ok, arith, lookup, Result-cases, lookup-insert, eq_iff,
}
use stockyard.Firecracker.Host.{
  Call, Env, Client, put, wait_socket, boot_source, drive, network_interface, machine_config, vsock,
  mmds_config, mmds_data, metrics, start_instance, open_fifo, make_fifo,
}
use stockyard.Firecracker.Delete.{api_socket_path}
use stockyard.Firecracker.Network.{delete_tap, link_exists}
use stockyard.Firecracker.Config.{VmConfig, VmInfo, build_mmds_data}
use stockyard.Firecracker.Boot.{
  boot_args, file, release_vm, or_abandon, destroy_zfs_dataset, await_socket, configure_machine,
  configure_guest, start_with_metrics, make_metrics_fifo, boot, track, allocate_cid,
}

-- The client's own state is the same.
abbrev pub SameState : Client → Client → Type 0
SameState w v =
    (v.procs ≡ w.procs) × (v.next_serial ≡ w.next_serial) × (v.cid_counter ≡ w.cid_counter)

module _ (env : Env) (config : VmConfig) (dir : Text) (pid : ℕ) (dataset tap : Text) where
  abbrev socket : Text
  socket = api_socket_path env dir

  -- The calls that configure a VM and start it, the latest first.
  abbrev pub machine_calls : Text → Text → List Call → List Call
  machine_calls mac rootfs h =
      put socket (machine_config config.vcpu config.memory_mb)
      ∷ put socket (network_interface (codes "eth0") mac tap)
      ∷ put socket (drive (codes "rootfs") rootfs true false)
      ∷ put socket (boot_source config.kernel_path (boot_args config.static_ip_args))
      ∷ h

  abbrev pub guest_calls : ℕ → List Call → List Call
  guest_calls cid h =
      put socket (mmds_data (build_mmds_data env.base64 config))
      ∷ put socket (mmds_config (codes "eth0" ∷ []))
      ∷ put socket (vsock cid (file env dir "vsock.sock"))
      ∷ h

  abbrev pub start_calls : List Call → List Call
  start_calls h =
      put socket start_instance
      ∷ put socket (metrics (file env dir "metrics.fifo"))
      ∷ open_fifo (file env dir "metrics.fifo")
      ∷ make_fifo (file env dir "metrics.fifo")
      ∷ h

  release_vm-SameState : (w : Client) → SameState w (release_vm env dataset tap w).1
  unfolding release_vm destroy_zfs_dataset delete_tap link_exists
  release_vm-SameState w = ground arith

  await_socket-SameState : (w : Client) → SameState w (await_socket env dir pid dataset tap w).1
  unfolding await_socket release_vm destroy_zfs_dataset delete_tap link_exists
  await_socket-SameState w = ground arith

  await_socket-ok :
      (w : Client)
      → (await_socket env dir pid dataset tap w).0 ≡ ok tt
      → (await_socket env dir pid dataset tap w).1.history ≡ wait_socket socket ∷ w.history
  unfolding await_socket
  await_socket-ok w e = ground arith

  configure_machine-ok :
      (mac rootfs : Text) (w : Client)
      → (configure_machine env config dir pid dataset tap mac rootfs w).0 ≡ ok tt
      → let v = (configure_machine env config dir pid dataset tap mac rootfs w).1 in
        SameState w v × (v.history ≡ machine_calls mac rootfs w.history)
  unfolding configure_machine or_abandon
  configure_machine-ok mac rootfs w e = ground arith

  configure_guest-ok :
      (cid : ℕ) (w : Client)
      → (configure_guest env config dir pid dataset tap w).0 ≡ ok cid
      → let v = (configure_guest env config dir pid dataset tap w).1 in
        (cid ≡ w.cid_counter)
        × (v.procs ≡ w.procs)
        × (v.next_serial ≡ w.next_serial)
        × (v.cid_counter ≡ (w.cid_counter + 1) % 2 ^ 32)
        × (v.history ≡ guest_calls cid w.history)
  unfolding configure_guest or_abandon allocate_cid
  configure_guest-ok cid w e = ground arith

  start_with_metrics-ok :
      (w : Client)
      → (start_with_metrics env config dir pid dataset tap w).0 ≡ ok tt
      → let v = (start_with_metrics env config dir pid dataset tap w).1 in
        SameState w v × (v.history ≡ start_calls w.history)
  unfolding start_with_metrics or_abandon make_metrics_fifo
  start_with_metrics-ok w e = ground arith

  -- A VM that has been started has the context id that the counter showed, and the counter goes on;
  -- its process is tracked under the next serial number, and the serial numbers go on; the result
  -- names the VM and the process; and the calls were, in this order, the wait for the socket, the
  -- requests that give the VM its kernel, rootfs, interface and size, those that give it that context
  -- id and its metadata, the opening of the metrics and the start.
  pub boot-running :
      (namespace mac rootfs : Text) (w : Client) (vm : VmInfo)
      → (boot env config dir pid dataset tap namespace mac rootfs w).0 ≡ ok vm
      → let v = (boot env config dir pid dataset tap namespace mac rootfs w).1 in
        (vm.id ≡ config.id)
        × (vm.pid ≡ pid)
        × (vm.cid ≡ w.cid_counter)
        × (v.cid_counter ≡ (w.cid_counter + 1) % 2 ^ 32)
        × (lookup config.id v.procs ≡ some (record { serial = w.next_serial; pid = pid }))
        × (v.next_serial ≡ w.next_serial + 1)
        × (v.history
            ≡ start_calls
                (guest_calls vm.cid (machine_calls mac rootfs (wait_socket socket ∷ w.history))))
  unfolding boot track
  boot-running namespace mac rootfs w vm e =
      let w₁ = (track config.id pid w).1 in
      let w₂ = (await_socket env dir pid dataset tap w₁).1 in
      let w₃ = (configure_machine env config dir pid dataset tap mac rootfs w₂).1 in
      let w₄ = (configure_guest env config dir pid dataset tap w₃).1 in
      elim (Result-cases (await_socket env dir pid dataset tap w₁).0) [
        | inr (x, q) ↦ ground arith
        | inl (_, q) ↦
            elim (Result-cases (configure_machine env config dir pid dataset tap mac rootfs w₂).0) [
              | inr (x, r) ↦ ground arith
              | inl (_, r) ↦
                  elim (Result-cases (configure_guest env config dir pid dataset tap w₃).0) [
                    | inr (x, s) ↦ ground arith
                    | inl (cid, s) ↦
                        elim (Result-cases
                          (start_with_metrics env config dir pid dataset tap w₄).0) [
                            | inr (x, t) ↦ ground arith
                            | inl (_, t) ↦
                                let a = await_socket-SameState w₁ in
                                let m = configure_machine-ok mac rootfs w₂ r in
                                let g = configure_guest-ok cid w₃ s in
                                let f = start_with_metrics-ok w₄ t in
                                ground (
                                  arith,
                                  a,
                                  await_socket-ok w₁ q,
                                  m,
                                  g,
                                  f,
                                  lookup-insert config.id config.id
                                      (record { serial = w.next_serial; pid = pid }) w.procs,
                                  eq_iff config.id config.id,
                                )
                          ]
                  ]
            ]
      ]

-- `n` allocations, and the context id of the last but none: the one that would follow.
unfoldable pub after_allocations : ℕ → Client → Client
after_allocations zero c = c
after_allocations (suc n) c = (allocate_cid (after_allocations n c)).1

after_allocations-counter :
    (n : ℕ) (c : Client)
    → c.cid_counter < 2 ^ 32
    → (after_allocations n c).cid_counter ≡ (c.cid_counter + n) % 2 ^ 32
unfolding after_allocations allocate_cid
after_allocations-counter zero c lt = ground arith
after_allocations-counter (suc n) c lt =
    let ih = after_allocations-counter n c lt in ground (arith, ih)

-- Of fewer than 2^32 successive allocations, no two give the same context id.
pub allocate_cid-distinct :
    (m k : ℕ) (c : Client)
    → c.cid_counter < 2 ^ 32
    → suc k < 2 ^ 32
    → let (early, _) = allocate_cid (after_allocations m c) in
      let (late, _) = allocate_cid (after_allocations (m + suc k) c) in early ≢ late
unfolding allocate_cid
allocate_cid-distinct m k c lt few =
    let a = after_allocations-counter m c lt in
    let b = after_allocations-counter (m + suc k) c lt in λ same. ground (arith, a, b)
