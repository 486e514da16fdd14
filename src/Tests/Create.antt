-- ===== src/Tests/Create.antt =====
-- The creation of a task and the import of an image (pkg/daemon) at concrete inputs.
use stockyard.Base.{
  ◌≡◌, ◌≢◌, ◌⊎◌, refl, true, false, List, [], ◌∷◌, ◌++◌, Option, none, some, String, ok, err, pos,
  codes, arith, eq_iff, find_text, lookup, insert,
}
use stockyard.Daemon.World.{Task, Error, other, Call, create_vm, Env, World}
use stockyard.Daemon.State.{find_task}
use stockyard.Daemon.Closing.{allocation_of}
use stockyard.Network.Pool.Defs.{IpPool, allocate, release, copy_allocations}
use stockyard.Network.Pool.Disk.{persist_locked}
use stockyard.Daemon.Tasks.{cleanup_create_task, release_task_ip}
use stockyard.Daemon.Images.{find_image}
use stockyard.Daemon.Registry.{import_image}
use stockyard.Daemon.Registry.Import.{Registered, import_image_lem}
use stockyard.Daemon.Create.{create_new_task, join_errors}
use stockyard.Daemon.Create.Config.{CreateTaskRequest, build_vm_env, with_defaults}
use stockyard.Daemon.Create.DotEnv.{parse_dot_env}
use stockyard.Daemon.Create.Environment.{expected_value, container_env_precedence}
use stockyard.Daemon.Create.Outcome.{create_new_task_lem}
use stockyard.Daemon.Create.Frees.{CleansUp, create_new_task-freed}
use stockyard.Tests.Tasks.{calm_env, a_world}

abbrev pub a_request : CreateTaskRequest
a_request = record {
  name = "test";
  command = "make" ∷ "test" ∷ [];
  env = (codes "CI", codes "1") ∷ [];
  cpus = pos 0;
  memory_mb = pos 4096;
  no_tailscale = true;
  tailscale_auth_key = "";
  ssh_authorized_keys = [];
  dot_env = [];
  image = "";
}

abbrev pool_with_room : Option IpPool
pool_with_room = elim a_world.pool [
  | none ↦ none
  | some p ↦ some (record p { available = codes "10.0.1.3" ∷ [] })
]

-- One task has an address, and one is free.
abbrev room_world : World
room_world = record a_world { pool = pool_with_room }

abbrev plain_env : Env
plain_env = record calm_env { has_images = false }

abbrev new_id : String
new_id = "c3"

new-not-a : new_id ≢ "a1"
new-not-a = ground (arith, eq_iff new_id "a1")

create_new_task_lem_example :
    (allocation_of "a1" (create_new_task plain_env "c3" a_request room_world).1
      ≡ allocation_of "a1" room_world)
    × (((e : Error) × ((create_new_task plain_env "c3" a_request room_world).0 ≡ err e))
          × ((create_new_task plain_env "c3" a_request room_world).1.tasks ≡ room_world.tasks)
        ⊎ ((t : Task) × ((create_new_task plain_env "c3" a_request room_world).0 ≡ ok t)
            × (find_task "c3" room_world.tasks ≡ none)
            × (t.id ≡ "c3")
            × (t.status ≡ "running")
            × ((create_new_task plain_env "c3" a_request room_world).1.tasks
                ≡ room_world.tasks ++ (t ∷ []))))
create_new_task_lem_example = create_new_task_lem plain_env "c3" a_request room_world "a1" new-not-a

abbrev create_vm_fails : List Call → Option String
create_vm_fails (create_vm _ ∷ _) = some "no memory"
create_vm_fails _ = none

abbrev full_env : Env
full_env = record plain_env { outcome = create_vm_fails }

full_env-CleansUp : CleansUp full_env
full_env-CleansUp = record { deletes = λ vm_id h. refl; saves = λ h s. refl }

new-fresh : allocation_of "c3" room_world ≡ none
unfolding lookup
new-fresh = refl

refused : (create_new_task full_env "c3" a_request room_world).0 ≡ err (other "no memory")
unfolding create_new_task with_defaults allocate lookup persist_locked join_errors
    cleanup_create_task release_task_ip release insert copy_allocations
refused = refl

create_new_task-freed_example :
    allocation_of "c3" (create_new_task full_env "c3" a_request room_world).1 ≡ none
create_new_task-freed_example =
    create_new_task-freed full_env full_env-CleansUp "c3" a_request room_world new-fresh refused

container_env_precedence_example :
    find_text (codes "CI") (build_vm_env true a_request.env [] (codes "h") [] (codes "CI=2"))
    ≡ expected_value (parse_dot_env (codes "CI=2")) a_request.env [] (codes "h") (codes "CI")
container_env_precedence_example =
    container_env_precedence a_request.env [] (codes "h") [] (codes "CI=2") (codes "CI")

abbrev image_a : String
image_a = "debian"

images-differ : image_a ≢ "arch"
images-differ = ground (arith, eq_iff image_a "arch")

import_image_lem_example :
    (find_image "arch" (import_image calm_env "debian" "/tmp/rootfs" "" a_world).1.images
      ≡ find_image "arch" a_world.images)
    × (((e : Error) × ((import_image calm_env "debian" "/tmp/rootfs" "" a_world).0 ≡ err e))
        ⊎ ((import_image calm_env "debian" "/tmp/rootfs" "" a_world).0 ≡ ok tt)
          × Registered calm_env "debian" "" a_world
              (import_image calm_env "debian" "/tmp/rootfs" "" a_world).1)
import_image_lem_example =
    import_image_lem calm_env "debian" "/tmp/rootfs" "" a_world "arch" images-differ
