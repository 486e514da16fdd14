-- ===== src/Daemon/Create/After.antt =====
-- What follows each stage of `CreateTask` (pkg/daemon/tasks.go) once it has returned.
use stockyard.Base.{String, TextMap}
use stockyard.Daemon.World.{Task, Env, M, ◌>>=◌}
use stockyard.Daemon.Tasks.{uses_zfs}
use stockyard.Daemon.Create.{
  or_clean_up, build_environment, vm_config, find_auth_key, generate_cloud_init, find_image_source,
  start_recorded, ImageSource, Address,
}
use stockyard.Daemon.Create.Config.{CreateTaskRequest}

module _ (env : Env) (id : String) (req : CreateTaskRequest) (image : String)
    (address : Address) where
  abbrev pub at_source : TextMap → String → String → ImageSource → M Task
  at_source vars auth_key cloud source =
      start_recorded env req id image auth_key
        (vm_config env req id image address vars auth_key cloud source)

  abbrev pub at_cloud : TextMap → String → String → M Task
  at_cloud vars auth_key cloud =
      or_clean_up env id "" (uses_zfs env) (find_image_source env image)
      >>= at_source vars auth_key cloud

  abbrev pub at_key : TextMap → String → M Task
  at_key vars auth_key =
      or_clean_up env id "" (uses_zfs env) (generate_cloud_init env id) >>= at_cloud vars auth_key

  abbrev pub at_environment : TextMap → M Task
  at_environment vars = find_auth_key env req >>= at_key vars

  abbrev pub at_workspace : String → M Task
  at_workspace workspace = build_environment env req.env >>= at_environment
