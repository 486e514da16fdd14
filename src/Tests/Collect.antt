-- ===== src/Tests/Collect.antt =====
-- The garbage collector of cmd/stockyard/gc.go on a host with a stopped task and an orphan.
use stockyard.Base.{
  ◌⊎◌, text_eq, find_text, trim_space, trim_front, strip_first, has_prefix, split_on, second_field,
  cut_prefix, ◌≡◌, refl, true, false, List, [], ◌∷◌, Option, none, some, Text, codes,
}
use stockyard.Gc.Collect.{Host, Flags, load_tasks, find_resources, is_among}
use stockyard.Gc.Clean.{
  Command, run_gc, destroy_task, kill_vm, delete_link, archive, remove_dir, destroy_dataset,
}
use stockyard.Gc.Runs.{Asked, AllMayRun, run_gc-AllMayRun}

abbrev a_host : Host
a_host = record {
  vm_path = codes "/vms";
  vm_base = codes "tank/vms";
  workspace_base = codes "tank/ws";
  vm_dirs = some (
      record {
        name = codes "a1";
        is_dir = true;
        is_running = false;
        has_pid = false;
        tap_name = none;
      }
      ∷ record {
        name = codes "zz";
        is_dir = true;
        is_running = false;
        has_pid = true;
        tap_name = some (codes "tap-zz");
      }
      ∷ []);
  vm_datasets = some (codes "tank/vms" ∷ codes "tank/vms/a1" ∷ codes "tank/vms/zz" ∷ []);
  workspace_datasets = none;
  links = some (codes "7: tap-zz: <UP>" ∷ []);
  has_archiver = true;
}

abbrev all_flags : Flags
all_flags = record { clean_all = true; clean_orphans = true; dry_run = false }

abbrev listed : Option (List (Text × Text))
listed = some ((codes "a1", codes "stopped") ∷ [])

abbrev no_failure : Command → Option Text
no_failure c = none

run_gc-AllMayRun_example :
    AllMayRun a_host
      (load_tasks ((codes "a1", codes "stopped") ∷ []) [])
      (run_gc no_failure all_flags a_host listed).0
    × (((run_gc no_failure all_flags a_host listed).0 ≡ []) ⊎ Asked all_flags listed)
run_gc-AllMayRun_example = run_gc-AllMayRun no_failure all_flags a_host listed

-- The stopped task goes through the daemon, and all that is left of `zz` goes.
commands : run_gc no_failure all_flags a_host listed ≡ (
  destroy_task (codes "a1")
      ∷ kill_vm (codes "/vms/zz")
      ∷ delete_link (codes "tap-zz")
      ∷ archive (codes "/vms/zz") (codes "zz")
      ∷ remove_dir (codes "/vms/zz")
      ∷ destroy_dataset (codes "tank/vms/zz")
      ∷ delete_link (codes "tap-zz")
      ∷ [],
  0,
)
unfolding run_gc find_resources load_tasks text_eq is_among find_text trim_space trim_front
    strip_first has_prefix split_on second_field cut_prefix
commands = refl
