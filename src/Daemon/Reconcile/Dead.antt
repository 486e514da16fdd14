-- ===== src/Daemon/Reconcile/Dead.antt =====
-- Rows of dead processes at the start of the daemon (pkg/daemon/daemon.go).
use stockyard.Base.{◌≡◌, Bool, false, ◌||◌, String, none, some, List, [], ◌∷◌, str_eq}
use stockyard.Daemon.World.{Task, Env, World}
use stockyard.Daemon.State.{find_task}
use stockyard.Daemon.Keeps.{Keeps}
use stockyard.Daemon.Reconcile.{Vms}
use stockyard.Daemon.World.{Call}

-- A row with the id.
unfoldable has_id : String → List Task → Bool
has_id j [] = false
has_id j (t ∷ ts) = str_eq t.id j || has_id j ts

module _ (env : Env) (vms : Vms) (calm : (h : List Call) → env.outcome h ≡ none) where
  abbrev pub Stopped : String → World → Type 0
  Stopped j w = (s : Task) × (find_task j w.tasks ≡ some s) × (s.status ≡ "stopped")
