-- ===== src/Tests/Firecracker.antt =====
-- The theorems on pkg/firecracker and pkg/vmbackend at a client with one VM.
use stockyard.Base.{
  ℕ, ◌+◌, ◌*◌, ◌==◌, ◌≡◌, refl, true, false, List, [], ◌∷◌, ◌++◌, Option, none, some, Text, codes,
  ok, err, Result, arith, lookup, text_eq, pos, is_ok, ◌%◌, ◌^◌,
}
use stockyard.Firecracker.Host.{
  wait_socket, Call, stat, remove_all, candidate_pids, start, Fault, not_exist, other, wrapped, Env,
  Client, check_context, call,
}
use stockyard.Firecracker.Network.{tap_name_for_vm, delete_tap, link_exists}
use stockyard.Firecracker.Processes.{find_process_by_socket, require_process_absent}
use stockyard.Firecracker.Processes.Handles.{opened, closed}
use stockyard.Firecracker.Config.{VmConfig, VmInfo}
use stockyard.Firecracker.Delete.{
  default_namespace, vm_dir, api_socket_path, mem_text, path_exists, tap_exists, signal_child,
  stop_tracked, stop_process, end_process, remove_tap, remove_rootfs, remove_directory,
  remove_resources, delete_vm_at, delete_vm,
}
use stockyard.Firecracker.Delete.Verified.{Verified, delete_vm-Verified}
use stockyard.Firecracker.Delete.Order.{removals, delete_vm-guarded}
use stockyard.Firecracker.Delete.Handles.{delete_vm-Even}
use stockyard.Firecracker.Boot.{
  allocate_cid, track, or_abandon, await_socket, make_metrics_fifo, configure_machine,
  configure_guest, start_with_metrics, boot, info,
}
use stockyard.Firecracker.Boot.Running.{boot-running, machine_calls, guest_calls, start_calls}
use stockyard.Firecracker.Start.{start_vm}
use stockyard.Firecracker.Wait.{Polls, Advances, wait, Ends, wait-Ends}
use stockyard.Firecracker.Vms.{stop_vm}
use stockyard.Firecracker.Vms.Kept.{destructions, stop_start-Kept}

-- What has been removed is not there.
abbrev calm_outcome : List Call → Option Fault
calm_outcome (stat _ ∷ remove_all _ ∷ _) = some not_exist
calm_outcome _ = none

abbrev joined_path : List Text → Text
joined_path [] = []
joined_path (p ∷ ps) = p ++ codes "/" ++ joined_path ps

abbrev host : Env
host = record {
  outcome = calm_outcome;
  yes = λ h. false;
  pid = λ h. 41;
  pids = λ h. [];
  text = λ h. codes "/tank";
  texts = λ h. codes "lo" ∷ [];
  entries = λ h. [];
  now = λ h. 5;
  join = joined_path;
  base64 = λ t. t;
  state_dir = codes "/vms";
  firecracker_bin = codes "firecracker";
  bridge_name = codes "flbr0";
  kernel_path = codes "/vmlinux";
  rootfs_path = codes "/rootfs.ext4";
  images_path = codes "images";
  vms_path = codes "vms";
  has_archive = true;
  has_zfs = true;
  pool_name = codes "tank";
}

abbrev client_a : Client
client_a = record {
  procs = ("a1", record { serial = 0; pid = 40 }) ∷ [];
  next_serial = 1;
  cid_counter = 100;
  history = [];
}

deletes : (delete_vm host [] "a1" client_a).0 ≡ ok tt
unfolding delete_vm delete_vm_at path_exists end_process stop_process stop_tracked signal_child
    require_process_absent find_process_by_socket remove_resources remove_tap delete_tap link_exists
    tap_exists mem_text text_eq remove_rootfs remove_directory lookup tap_name_for_vm
deletes = refl

delete_vm-Verified_example :
    Verified host "a1" (vm_dir host (default_namespace []) "a1") (delete_vm host [] "a1" client_a).1
delete_vm-Verified_example = delete_vm-Verified host [] "a1" client_a deletes

delete_vm-Even_example :
    let v = (delete_vm host [] "a1" client_a).1 in
    opened host 40 v.history + closed 40 client_a.history
    ≡ opened host 40 client_a.history + closed 40 v.history
delete_vm-Even_example = delete_vm-Even host 40 [] "a1" client_a

abbrev blind_outcome : List Call → Option Fault
blind_outcome (candidate_pids _ ∷ _) = some (other "no /proc")
blind_outcome _ = none

-- The processes cannot be listed.
abbrev blind_host : Env
blind_host = record host { outcome = blind_outcome }

abbrev dir_a : Text
dir_a = vm_dir blind_host (default_namespace []) "a1"

abbrev not_listed : Fault
not_listed =
    wrapped "verify Firecracker process deletion"
      (wrapped "list process candidates" (other "no /proc"))

abbrev looked : Client
looked = (path_exists blind_host dir_a (call blind_host check_context client_a).1).1

guards : (end_process blind_host "a1" (api_socket_path blind_host dir_a) looked).0 ≡ err not_listed
unfolding end_process stop_process stop_tracked signal_child require_process_absent
    find_process_by_socket lookup path_exists
guards = refl

delete_vm-guarded_example :
    let (r, v) = delete_vm blind_host [] "a1" client_a in
    (is_ok r ≡ false) × (removals v.history ≡ removals client_a.history)
delete_vm-guarded_example = delete_vm-guarded blind_host [] "a1" client_a not_listed guards

abbrev start_fails : List Call → Option Fault
start_fails (start _ _ ∷ _) = some (other "no such file")
start_fails _ = none

-- Firecracker is not installed.
abbrev bare_host : Env
bare_host = record host { outcome = start_fails }

abbrev config_b : VmConfig
config_b = record {
  id = "b2";
  namespace = codes "stockyard";
  vcpu = pos 2;
  memory_mb = pos 512;
  rootfs_path = [];
  rootfs_snapshot = [];
  kernel_path = [];
  cloud_init_data = [];
  tailscale_auth_key = [];
  ssh_authorized_keys = [];
  static_ip_args = [];
  network_mmds = none;
  dot_env = [];
}

abbrev not_started : Fault
not_started = wrapped "failed to start firecracker" (other "no such file")

abbrev run_boot : Result Fault VmInfo × Client
run_boot =
    boot host config_b (codes "/d") 41 (codes "tank/vms/b2") (codes "tap-b2") (codes "stockyard")
      (codes "02:00") (codes "/r") client_a

abbrev vm_b : VmInfo
vm_b =
    info host config_b (codes "/d") 41 (codes "tank/vms/b2") (codes "tap-b2") (codes "stockyard")
      (codes "/r") 100 5

boots : run_boot.0 ≡ ok vm_b
unfolding boot track await_socket configure_machine or_abandon configure_guest allocate_cid
    start_with_metrics make_metrics_fifo
boots = refl

boot-running_example :
    (vm_b.id ≡ "b2")
    × (vm_b.pid ≡ 41)
    × (vm_b.cid ≡ 100)
    × (run_boot.1.cid_counter ≡ (100 + 1) % 2 ^ 32)
    × (lookup "b2" run_boot.1.procs ≡ some (record { serial = 1; pid = 41 }))
    × (run_boot.1.next_serial ≡ 1 + 1)
    × (run_boot.1.history
        ≡ start_calls host config_b (codes "/d") 41 (codes "tank/vms/b2") (codes "tap-b2") (
            guest_calls host config_b (codes "/d") 41 (codes "tank/vms/b2") (codes "tap-b2") 100 (
              machine_calls host config_b
                (codes "/d")
                41
                (codes "tank/vms/b2")
                (codes "tap-b2")
                (codes "02:00")
                (codes "/r")
                (wait_socket (api_socket_path host (codes "/d")) ∷ client_a.history))))
boot-running_example =
    boot-running host config_b (codes "/d") 41 (codes "tank/vms/b2") (codes "tap-b2")
      (codes "stockyard") (codes "02:00") (codes "/r") client_a vm_b boots

stop_start-Kept_example :
    (destructions (stop_vm host (codes "stockyard") "a1" client_a).1.history
      ≡ destructions client_a.history)
    × (destructions (start_vm host config_b client_a).1.history ≡ destructions client_a.history)
stop_start-Kept_example = stop_start-Kept host (codes "stockyard") "a1" config_b client_a

-- A process that ends in the third round.
abbrev polls : Polls
polls = record { clock = λ n. 10 * n; context = λ n. none; ready = λ n ms. ok (n == 2) }

polls-Advances : Advances polls
polls-Advances n = ground arith

wait-Ends_example :
    (r : Result Fault (Unit {0})) × (m : ℕ) × (wait polls 0 1000 ≡ some r)
    × Ends polls (0 + 1000) m r
wait-Ends_example = wait-Ends polls 0 1000 polls-Advances (ground arith)
