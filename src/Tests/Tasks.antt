-- ===== src/Tests/Tasks.antt =====
-- The theorems on the life cycle of tasks (pkg/daemon) in a world with two tasks.
use stockyard.Base.{
  ◌≡◌, ◌≢◌, ◌⊎◌, refl, true, false, List, [], ◌∷◌, Option, none, some, String, ok, err, eq_iff,
  arith, codes,
}
use stockyard.Network.Pool.Disk.{saved}
use stockyard.Network.Pool.Defs.{IpPool}
use stockyard.Daemon.World.{Task, Call, delete_vm, destroy_dataset, Env, World, other}
use stockyard.Daemon.State.{get_task, find_task, cleanup_pending, update_task_status}
use stockyard.Daemon.Tasks.{
  destroy_task_locked, tear_down, stop_watching, destroy_vm, stop_task_locked, fail_task_locked,
  restart_task_locked, has_vm, uses_zfs,
}
use stockyard.Daemon.Access.{
  get_attach_task, list_zfs_snapshots, list_recorded_snapshots, create_task_snapshot,
  restore_task_snapshot,
}
use stockyard.Daemon.TearDown.{Same, Past}
use stockyard.Daemon.Closing.{allocation_of, Retained}
use stockyard.Daemon.Destroy.{destroy_ok, destroy_err, destroy_resources_first}
use stockyard.Daemon.Retry.{Calm, destroy_calm}
use stockyard.Daemon.Guards.{Refused, cleanup_pending-Refused}

-- Nothing fails.
abbrev pub calm_env : Env
calm_env = record {
  outcome = λ h. none;
  disk_fails = λ h s. false;
  now = λ h. 7;
  dataset_there = λ h. false;
  vm_info = λ h. record { id = "a1"; cid = 3; vsock_path = "/vm/a1/vsock"; ip = "10.0.1.2" };
  names = λ h. [];
  text = λ h. "";
  has_backend = true;
  has_zfs = true;
  has_log_tailer = true;
  has_metrics_poller = true;
  has_activity_feed = true;
  has_callback = true;
  backend = "firecracker";
  has_images = true;
  backend_validates = false;
  apple_image = "";
  pool_name = "tank";
  images_path = "stockyard/images";
  file_size = λ h. 100;
}

abbrev delete_vm_fails : List Call → Option String
delete_vm_fails (delete_vm _ ∷ _) = some "device busy"
delete_vm_fails _ = none

-- The deletion of a VM fails.
abbrev pub broken_env : Env
broken_env = record calm_env { outcome = delete_vm_fails }

calm_env-Calm : Calm calm_env
calm_env-Calm = record { outcome = λ h. refl; gone = λ h. refl; disk = λ h s. refl }

abbrev pub task_a : Task
task_a = record {
  id = "a1";
  name = "build";
  command = "make";
  status = "stopped";
  vmid = "a1";
  cid = 3;
  vsock_path = "/vm/a1/vsock";
  ip = "10.0.1.2";
  owner = "";
  tailscale_hostname = "";
  image = "";
  created_at = 5;
  stopped_at = none;
}

abbrev task_b : Task
task_b = record task_a { id = "b2"; vmid = "b2"; status = cleanup_pending }

abbrev a_pool : IpPool
a_pool = record {
  network = record { a = 10; b = 0; c = 1; d = 0 };
  ones = 30;
  gateway = codes "10.0.1.1";
  allocated = ("a1", codes "10.0.1.2") ∷ [];
  available = [];
  persist_path = "ip_pool.json";
}

abbrev pub a_world : World
a_world = record {
  tasks = task_a ∷ task_b ∷ [];
  snapshots = [];
  images = [];
  pool = some a_pool;
  disk = record { state_file = saved a_pool.allocated; temp_files = 0 };
  history = [];
}

a-there : find_task "a1" a_world.tasks ≡ some task_a
unfolding find_task
a-there = refl

b-there : find_task "b2" a_world.tasks ≡ some task_b
unfolding find_task
b-there = refl

abbrev a_id : String
a_id = "a1"

a-not-b : a_id ≢ "b2"
a-not-b = ground (arith, eq_iff a_id "b2")

destroy_calm_example : (destroy_task_locked calm_env "a1" a_world).0 ≡ ok tt
destroy_calm_example = destroy_calm calm_env calm_env-Calm "a1" a_world

abbrev destroyed : World
destroyed = (destroy_task_locked calm_env "a1" a_world).1

destroy_ok_example :
    (find_task "a1" destroyed.tasks ≡ none)
    × ((find_task "a1" a_world.tasks ≡ none) ⊎ (allocation_of "a1" destroyed ≡ none))
destroy_ok_example =
    destroy_ok calm_env "a1" a_world (destroy_calm calm_env calm_env-Calm "a1" a_world)

abbrev half_destroyed : World
half_destroyed = (destroy_task_locked broken_env "a1" a_world).1

broken-fails : (destroy_task_locked broken_env "a1" a_world).0 ≡ err (other "device busy")
unfolding destroy_task_locked get_task find_task tear_down stop_watching destroy_vm
broken-fails = refl

destroy_err_example : Retained "a1" task_a half_destroyed
destroy_err_example =
    destroy_err broken_env "a1" a_world task_a {e = other "device busy"} a-there broken-fails

destroy_resources_first_example :
    Same a_world destroyed
    ⊎ (((has_vm calm_env task_a ≡ false) ⊎ Past calm_env "a1" task_a (delete_vm "a1") destroyed)
        × ((uses_zfs calm_env ≡ false)
            ⊎ Past calm_env "a1" task_a (destroy_dataset "a1") destroyed))
destroy_resources_first_example = destroy_resources_first calm_env "a1" a_world task_a a-there

cleanup_pending-Refused_example :
    Refused "b2" (stop_task_locked calm_env "b2") a_world
    × Refused "b2" (fail_task_locked calm_env "b2") a_world
    × Refused "b2" (restart_task_locked calm_env "b2") a_world
    × Refused "b2" (get_attach_task calm_env "b2") a_world
    × Refused "b2" (list_zfs_snapshots calm_env "b2") a_world
    × Refused "b2" (list_recorded_snapshots calm_env "b2") a_world
    × Refused "b2" (create_task_snapshot calm_env "b2") a_world
    × Refused "b2" (restore_task_snapshot calm_env "b2") a_world
cleanup_pending-Refused_example = cleanup_pending-Refused calm_env "b2" task_b a_world b-there refl

abbrev running : String
running = "running"

abbrev updated : World
updated = (update_task_status calm_env "a1" "running" a_world).1
