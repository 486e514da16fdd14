-- ===== src/Firecracker/Vms.antt =====
-- The operations of pkg/firecracker/client.go on VMs that are there: GetVM, ListVMs, StopVM, Close,
-- and the goroutine that reaps a process.
pub mod Kept
pub mod Reaper
use stockyard.Base.{
  ℕ, zero, suc, ◌-◌, ◌^◌, ℤ, pos, negsuc, Text, codes, text_eq, Bool, true, false, not, ◌&&◌, ◌==◌,
  leb, String, Option, none, some, List, [], ◌∷◌, ok, err, lookup, erase, Dict, if◌then◌else◌,
}
use stockyard.Console.Names.{is_digit, number_from}
use stockyard.Base.Steps.{◌>>=◌, ◌>>◌, return, throw, done, when, ignore, outcome_of}
use stockyard.Firecracker.Host.{
  Call, stat, read_file, read_dir, put, send_ctrl_alt_del, sleep, terminate, exits_within, kill,
  wait_child, signal_pid, alive, remove, Fault, other, wrapped, is_not_exist, Env, TrackedProc,
  Client, M, effect, call, ask,
}
use stockyard.Firecracker.Network.{delete_tap}
use stockyard.Firecracker.Delete.{default_namespace, vm_dir, api_socket_path, forget}
use stockyard.Firecracker.Boot.{file}

-- VMStatus
pub data VmStatus : Type 0 where
  unknown pending running stopped failed : VmStatus

unfoldable pub is_running_status : VmStatus → Bool
is_running_status running = true
is_running_status _ = false

pub record Vm : Type 0 where
  pub id : String
  pub namespace : Text
  pub status : VmStatus
  pub pid : ℤ
  pub tap_device : Text
  pub mac : Text
  pub state_dir : Text

unfoldable pub all_digits : Text → Bool
all_digits [] = true
all_digits (c ∷ s) = is_digit c && all_digits s

-- Digits, at least one, of a value up to `most`.
abbrev digits_to : ℕ → Text → Option ℕ
digits_to most [] = none
digits_to most (c ∷ s) =
    if all_digits (c ∷ s) && leb (number_from 0 (c ∷ s)) most
    then some (number_from 0 (c ∷ s))
    else none

abbrev map_option : {A B : Type 0} → (A → B) → Option A → Option B
map_option f none = none
map_option f (some a) = some (f a)

abbrev negated : ℕ → ℤ
negated zero = pos 0
negated (suc n) = negsuc n

-- `strconv.Atoi`, of 64 bits
unfoldable pub atoi : Text → Option ℤ
atoi [] = none
atoi (c ∷ s) =
    if c == 45
    then map_option negated (digits_to (2 ^ 63) s)
    else if c == 43
    then map_option pos (digits_to (2 ^ 63 - 1) s)
    else map_option pos (digits_to (2 ^ 63 - 1) (c ∷ s))

module _ (env : Env) where
  -- `processRunning`
  unfoldable pub process_running : ℤ → M Bool
  process_running pid w =
      let (r, w') = call env (alive pid) w in
      elim r [ ok _ ↦ (ok true, w') | err e ↦ (ok false, w') ]

  -- A file's content, empty where it cannot be read.
  unfoldable pub read_or_empty : Text → M Text
  read_or_empty path w =
      let (r, w') = ask env env.text (read_file path) w in
      elim r [ ok content ↦ (ok content, w') | err e ↦ (ok [], w') ]

  -- The process id that is recorded, 0 where there is none, and whether that process runs.
  unfoldable pub recorded_process : Text → M (ℤ × VmStatus)
  unfolding process_running
  recorded_process dir = do
    read ← outcome_of (ask env env.text (read_file (file env dir "firecracker.pid")))
    (elim read [
      | err e ↦ return (pos 0, stopped)
      | ok content ↦ elim (atoi content) [
        | none ↦ return (pos 0, stopped)
        | some pid ↦ (do
          runs ← process_running pid
          return (pid, if runs then running else stopped))
      ]
    ])

  -- The directory of a VM has to be there; an error other than that it is not is passed over.
  unfoldable pub require_directory : Text → M (Unit {0})
  require_directory dir w =
      let (r, w') = call env (stat dir) w in
      elim r [
        | ok _ ↦ (ok tt, w')
        | err e ↦ if is_not_exist e then (err (other "VM not found"), w') else (ok tt, w')
      ]

  unfoldable pub get_vm : Text → String → M Vm
  unfolding require_directory read_or_empty recorded_process
  get_vm given id = do
    let namespace : Text = default_namespace given
    let dir : Text = vm_dir env namespace id
    require_directory dir
    tap ← read_or_empty (file env dir "tap_name")
    mac ← read_or_empty (file env dir "mac_addr")
    found ← recorded_process dir
    return (record {
      id = id;
      namespace = namespace;
      status = found.1;
      pid = found.0;
      tap_device = tap;
      mac = mac;
      state_dir = dir;
    })

  -- The loop of `ListVMs`: the directories that can be read as VMs.
  unfoldable pub collect_vms : Text → List (String × Bool) → M (List Vm)
  collect_vms namespace [] = return []
  collect_vms namespace ((name, is_directory) ∷ more) =
      if is_directory
      then (do
        read ← outcome_of (get_vm namespace name)
        rest ← collect_vms namespace more
        return (elim read [ ok vm ↦ vm ∷ rest | err e ↦ rest ]))
      else collect_vms namespace more

  unfoldable pub list_vms : Text → M (List Vm)
  list_vms given w =
      let namespace = default_namespace given in
      let (r, w') = ask env env.entries (read_dir (env.join (env.state_dir ∷ namespace ∷ []))) w in
      elim r [
        | ok entries ↦ collect_vms namespace entries w'
        | err e ↦ if is_not_exist e then (ok [], w') else (err (wrapped "failed to list VMs" e), w')
      ]

  -- Ctrl+Alt+Del, and two seconds where it was taken.
  unfoldable pub ask_to_shut_down : Text → M (Unit {0})
  ask_to_shut_down socket = do
    seen ← outcome_of (call env (stat socket))
    (elim seen [
      | err e ↦ done
      | ok _ ↦ (do
        sent ← outcome_of (call env (put socket send_ctrl_alt_del))
        (elim sent [ ok _ ↦ effect (sleep 2) | err e ↦ done ]))
    ])

  -- SIGTERM to the process, and SIGKILL if that does not end it.
  unfoldable pub stop_by_pid : String → ℤ → M (Unit {0})
  unfolding process_running
  stop_by_pid id recorded w = elim (lookup id w.procs) [
    | some proc ↦
        (do
          effect (terminate proc.pid)
          reaped ← λ v.
              let h = exits_within proc.pid 2 ∷ v.history in
              (ok (env.yes h), record v { history = h })
          when (not reaped) (do effect (kill proc.pid); effect (wait_child proc.pid))
          forget env id)
          w
    | none ↦
        (do
          runs ← process_running recorded
          when runs (do
            effect (signal_pid 15 recorded)
            effect (sleep 1)
            still ← process_running recorded
            when still (effect (signal_pid 9 recorded))))
          w
  ]

  -- `StopVM`. The directory it works in is that of the namespace as given.
  unfoldable pub stop_vm : Text → String → M (Unit {0})
  unfolding ask_to_shut_down stop_by_pid
  stop_vm namespace id = do
    vm ← get_vm namespace id
    when (is_running_status vm.status) (do
      let dir : Text = vm_dir env namespace id
      ask_to_shut_down (api_socket_path env dir)
      stop_by_pid id vm.pid
      when (not (text_eq vm.tap_device [])) (ignore (delete_tap env vm.tap_device))
      effect (remove (file env dir "firecracker.pid")))

-- The reaper's end: the entry goes if it is still the reaper's own process.
unfoldable pub reap : String → ℕ → Client → Client
reap id serial c = elim (lookup id c.procs) [
  | none ↦ c
  | some proc ↦ if proc.serial == serial then record c { procs = erase id c.procs } else c
]

-- The loop of `Close`.
unfoldable kill_all : Dict TrackedProc → List Call → List Call
kill_all [] h = h
kill_all ((id, proc) ∷ more) h = kill_all more (wait_child proc.pid ∷ kill proc.pid ∷ h)

unfoldable pub close : Client → Client
unfolding kill_all
close c = record c { procs = []; history = kill_all c.procs c.history }
