-- ===== src/Tests/Reconcile.antt =====
-- The reconciliation at the start of the daemon (pkg/daemon/daemon.go) with a live and a dead process.
use stockyard.Base.{true, false, [], ◌∷◌, none, some, pos, str_eq, if◌then◌else◌}
use stockyard.Daemon.World.{Task, World}
use stockyard.Daemon.Reconcile.{Vms}
use stockyard.Tests.Tasks.{a_world, task_a}

abbrev live_task : Task
live_task = record task_a { id = "live"; status = "running" }

abbrev dead_task : Task
dead_task = record task_a { id = "dead"; status = "running" }

abbrev started_world : World
started_world = record a_world { tasks = live_task ∷ dead_task ∷ [] }

-- There are two PID files, and one process.
abbrev a_vms : Vms
a_vms = record {
  pid_file = λ id. if str_eq id "live" then some (some (pos 7)) else some none;
  process_there = λ pid. true;
  answers = λ pid. true;
  states = [];
  has_log_ensurer = false;
}
