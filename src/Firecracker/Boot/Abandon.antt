-- ===== src/Firecracker/Boot/Abandon.antt =====
-- What a VM that could not be configured or started leaves behind.
use stockyard.Base.{
  ℕ, ◌≡◌, ◌⊎◌, inl, inr, Text, codes, true, false, String, List, [], ◌∷◌, ok, arith, Option-cases,
  Result-cases, Bool-cases,
}
use stockyard.Base.Steps.{◌>>=◌, ◌>>◌, return}
use stockyard.Base.Steps.OnError.{OnError, bind-OnError, then-OnError}
use stockyard.Firecracker.Host.{
  Call, boot_source, drive, network_interface, machine_config, vsock, mmds_config, mmds_data,
  metrics, start_instance, open_fifo, effect, Request, put, wait_socket, is_process_death, kill,
  read_file, Env, Client, M, call,
}
use stockyard.Firecracker.Boot.Release.{released, release_vm-history}
use stockyard.Firecracker.Config.{VmConfig, VmInfo, build_mmds_data}
use stockyard.Firecracker.Delete.{api_socket_path}
use stockyard.Firecracker.Boot.{
  info, boot_args, file, or_abandon, await_socket, configure_machine, configure_guest,
  start_with_metrics, make_metrics_fifo, boot, track, allocate_cid,
}

module _ (env : Env) where
  -- The last calls: the process is killed, what it held is released, and at most its output is read.
  abbrev pub Abandoned : Text → ℕ → Text → Text → Client → Type 0
  Abandoned dir pid dataset tap v =
      (h : List Call) × ((v.history ≡ released env dataset tap (kill pid ∷ h))
        ⊎ (v.history
            ≡ read_file (file env dir "stderr.log") ∷ released env dataset tap (kill pid ∷ h)))

  module _ (dir : Text) (pid : ℕ) (dataset tap : Text) where
    abbrev Bad : {A : Type 0} → M A → Type 0
    Bad m = OnError (Abandoned dir pid dataset tap) m

    or_abandon-Bad :
        {A : Type 0} (what : String) (m : M A) → Bad (or_abandon env what pid dataset tap m)
    unfolding or_abandon
    or_abandon-Bad what m w e h =
        let u = record (m w).1 { history = kill pid ∷ (m w).1.history } in
        elim (Result-cases (m w).0) [
          | inl (a, q) ↦ ground arith
          | inr (x, q) ↦
              ((m w).1.history, inl (ground (arith, release_vm-history env dataset tap u)))
        ]

    await_socket-Bad : Bad (await_socket env dir pid dataset tap)
    unfolding await_socket
    await_socket-Bad w e h =
        let asked = wait_socket (api_socket_path env dir) ∷ w.history in
        let u = record w { history = kill pid ∷ asked } in
        elim (Option-cases (env.outcome asked)) [
          | inl q ↦ ground arith
          | inr (x, q) ↦ elim (Bool-cases (is_process_death x)) [
            | inl d ↦ (asked, inr (ground (arith, release_vm-history env dataset tap u)))
            | inr d ↦ (asked, inl (ground (arith, release_vm-history env dataset tap u)))
          ]
        ]

    module _ (config : VmConfig) where
      abbrev asked_for : String → Request → M (Unit {0})
      asked_for what r =
          or_abandon env what pid dataset tap (call env (put (api_socket_path env dir) r))

      asked_for-Bad : (what : String) (r : Request) → Bad (asked_for what r)
      asked_for-Bad what r = or_abandon-Bad what (call env (put (api_socket_path env dir) r))

      then-Bad : {A B : Type 0} (m : M A) (k : M B) → Bad m → Bad k → Bad (m >> k)
      then-Bad = then-OnError (Abandoned dir pid dataset tap)

      module _ (mac rootfs : Text) where
        abbrev asked_boot : M (Unit {0})
        asked_boot =
            asked_for "set boot source"
              (boot_source config.kernel_path (boot_args config.static_ip_args))

        abbrev asked_drive : M (Unit {0})
        asked_drive = asked_for "set drive" (drive (codes "rootfs") rootfs true false)

        abbrev asked_interface : M (Unit {0})
        asked_interface =
            asked_for "set network interface" (network_interface (codes "eth0") mac tap)

        abbrev asked_machine : M (Unit {0})
        asked_machine = asked_for "set machine config" (machine_config config.vcpu config.memory_mb)

        configure_machine-Bad : Bad (configure_machine env config dir pid dataset tap mac rootfs)
        unfolding configure_machine
        configure_machine-Bad =
            then-Bad asked_boot (asked_drive >> (asked_interface >> asked_machine))
              (asked_for-Bad "set boot source"
                (boot_source config.kernel_path (boot_args config.static_ip_args)))
              (then-Bad asked_drive (asked_interface >> asked_machine)
                (asked_for-Bad "set drive" (drive (codes "rootfs") rootfs true false))
                (then-Bad asked_interface asked_machine
                  (asked_for-Bad "set network interface" (network_interface (codes "eth0") mac tap))
                  (asked_for-Bad "set machine config"
                    (machine_config config.vcpu config.memory_mb))))

      abbrev asked_vsock : ℕ → M (Unit {0})
      asked_vsock cid = asked_for "set vsock" (vsock cid (file env dir "vsock.sock"))

      abbrev asked_mmds : M (Unit {0})
      asked_mmds = asked_for "set MMDS config" (mmds_config (codes "eth0" ∷ []))

      abbrev asked_data : M (Unit {0})
      asked_data = asked_for "set MMDS data" (mmds_data (build_mmds_data env.base64 config))

      guest_of : (cid : ℕ) → Bad (asked_vsock cid >> (asked_mmds >> (asked_data >> return cid)))
      guest_of cid =
          then-Bad (asked_vsock cid) (asked_mmds >> (asked_data >> return cid))
            (asked_for-Bad "set vsock" (vsock cid (file env dir "vsock.sock")))
            (then-Bad asked_mmds (asked_data >> return cid)
              (asked_for-Bad "set MMDS config" (mmds_config (codes "eth0" ∷ [])))
              (then-Bad asked_data (return cid)
                (asked_for-Bad "set MMDS data" (mmds_data (build_mmds_data env.base64 config)))
                (λ w e h. ground arith)))

      allocate_cid-Bad : Bad allocate_cid
      unfolding allocate_cid
      allocate_cid-Bad w e h = ground arith

      configure_guest-Bad : Bad (configure_guest env config dir pid dataset tap)
      unfolding configure_guest
      configure_guest-Bad =
          bind-OnError (Abandoned dir pid dataset tap) allocate_cid
            (λ cid. asked_vsock cid >> (asked_mmds >> (asked_data >> return cid))) allocate_cid-Bad
            guest_of

      abbrev made_fifo : M (Unit {0})
      made_fifo =
          or_abandon env "create metrics fifo" pid dataset tap
            (make_metrics_fifo env (file env dir "metrics.fifo"))

      abbrev opened_fifo : M (Unit {0})
      opened_fifo =
          or_abandon env "open metrics fifo" pid dataset tap
            (call env (open_fifo (file env dir "metrics.fifo")))

      abbrev asked_metrics : M (Unit {0})
      asked_metrics = effect (put (api_socket_path env dir) (metrics (file env dir "metrics.fifo")))

      abbrev asked_start : M (Unit {0})
      asked_start = asked_for "start instance" start_instance

      start_with_metrics-Bad : Bad (start_with_metrics env config dir pid dataset tap)
      unfolding start_with_metrics
      start_with_metrics-Bad =
          then-Bad made_fifo (opened_fifo >> (asked_metrics >> asked_start))
            (or_abandon-Bad "create metrics fifo"
              (make_metrics_fifo env (file env dir "metrics.fifo")))
            (then-Bad opened_fifo (asked_metrics >> asked_start)
              (or_abandon-Bad "open metrics fifo"
                (call env (open_fifo (file env dir "metrics.fifo"))))
              (then-Bad asked_metrics asked_start (λ w e h. ground arith)
                (asked_for-Bad "start instance" start_instance)))

      module _ (namespace mac rootfs : Text) where
        abbrev report : ℕ → M VmInfo
        report cid w =
            (ok (info env config dir pid dataset tap namespace rootfs cid (env.now w.history)), w)

        abbrev from_guest : M VmInfo
        from_guest = configure_guest env config dir pid dataset tap >>= λ cid.
            start_with_metrics env config dir pid dataset tap >> report cid

        from_guest-Bad : Bad from_guest
        from_guest-Bad =
            bind-OnError (Abandoned dir pid dataset tap)
              (configure_guest env config dir pid dataset tap)
              (λ cid. start_with_metrics env config dir pid dataset tap >> report cid)
              configure_guest-Bad
              (λ cid.
                then-Bad (start_with_metrics env config dir pid dataset tap) (report cid)
                  start_with_metrics-Bad (λ w e h. ground arith))

        track-Bad : Bad (track config.id pid)
        unfolding track
        track-Bad w e h = ground arith

        -- Where the configuration of the machine or its start fails, the last calls kill the process,
        -- destroy the clone and drop the tap.
        pub boot-Abandoned : Bad (boot env config dir pid dataset tap namespace mac rootfs)
        unfolding boot
        boot-Abandoned =
            then-Bad (track config.id pid)
              (await_socket env dir pid dataset tap
                >> (configure_machine env config dir pid dataset tap mac rootfs >> from_guest))
              track-Bad
              (then-Bad (await_socket env dir pid dataset tap)
                (configure_machine env config dir pid dataset tap mac rootfs >> from_guest)
                await_socket-Bad
                (then-Bad (configure_machine env config dir pid dataset tap mac rootfs) from_guest
                  (configure_machine-Bad mac rootfs) from_guest-Bad))
