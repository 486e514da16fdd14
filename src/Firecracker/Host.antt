-- ===== src/Firecracker/Host.antt =====
-- What a firecracker.Client works on (client.go, api.go and types.go of pkg/firecracker): its own
-- state, and the record of every call that leaves it. The outcome of such a call is the
-- environment's, which may choose it by all the calls made so far.
use stockyard.Base.{
  ℕ, ℤ, Text, Dict, Bool, true, false, ◌||◌, String, Option, none, some, List, ◌∷◌, ok, err,
}
use stockyard.Base.Steps.{Step}

-- The errors that the code compares with `errors.Is`, and all others; `wrapped` is `%w`.
pub data Fault : Type 0 where
  process_absent still_running process_died process_done not_exist already_exists canceled : Fault
  other : String → Fault
  wrapped : String → Fault → Fault
  joined : Fault → Fault → Fault

-- `errors.Is(err, errProcessAbsent)`
unfoldable pub is_absent : Fault → Bool
is_absent process_absent = true
is_absent (wrapped what e) = is_absent e
is_absent (joined d e) = is_absent d || is_absent e
is_absent _ = false

-- `errors.Is(err, errFirecrackerProcessStillRunning)`
unfoldable pub is_running : Fault → Bool
is_running still_running = true
is_running (wrapped what e) = is_running e
is_running (joined d e) = is_running d || is_running e
is_running _ = false

-- `errors.Is(err, os.ErrProcessDone)`
unfoldable pub is_done : Fault → Bool
is_done process_done = true
is_done (wrapped what e) = is_done e
is_done (joined d e) = is_done d || is_done e
is_done _ = false

-- `err == errProcessDied`
abbrev pub is_process_death : Fault → Bool
is_process_death process_died = true
is_process_death _ = false

-- `os.IsExist`, which does not look through `%w`
abbrev pub is_exist : Fault → Bool
is_exist already_exists = true
is_exist _ = false

-- `os.IsNotExist`, and `errors.Is(err, os.ErrNotExist)` of a bare error of the file system
abbrev pub is_not_exist : Fault → Bool
is_not_exist not_exist = true
is_not_exist _ = false

-- MMDSNetworkConfig
pub record MmdsNetworkConfig : Type 0 where
  pub ip : Text
  pub netmask : Text
  pub gateway : Text
  pub dns : Text

-- What BuildMMDSData makes: the two maps under `latest`, their text fields and the network.
pub record MmdsData : Type 0 where
  pub meta_data : List (Text × Text)
  pub network_config : Option MmdsNetworkConfig
  pub user_data : Text

-- The requests of an APIClient, with the fields of their JSON bodies.
pub data Request : Type 0 where
  boot_source : Text → Text → Request
  drive : Text → Text → Bool → Bool → Request
  network_interface : Text → Text → Text → Request
  machine_config : ℤ → ℤ → Request
  vsock : ℕ → Text → Request
  mmds_config : List Text → Request
  mmds_data : MmdsData → Request
  metrics : Text → Request
  start_instance send_ctrl_alt_del : Request

pub data Call : Type 0 where
  check_context list_interfaces random_bytes : Call
  stat mkdir_all remove remove_all read_file make_fifo open_fifo read_dir : Text → Call
  write_file : Text → Text → Call
  ip zfs : List Text → Call  -- the commands, with their arguments
  start : Text → List Text → Call  -- `cmd.Start`
  kill terminate wait_child processes_end : ℕ → Call  -- of the child with this process id
  signal_pid : ℕ → ℤ → Call  -- `syscall.Kill`
  alive : ℤ → Call  -- signal 0
  exits_within : ℕ → ℕ → Call  -- a child's `done`, within so many seconds
  sleep : ℕ → Call
  candidate_pids : Text → Call
  resolve_executable : Text → Call
  open_process read_identity close_process send_term send_kill wait_process : ℕ → Call
  wait_socket : Text → Call
  put : Text → Request → Call
  destroy_rootfs rootfs_exists : Text → Call
  archive : Text → String → Text → Call

-- What stands outside the client, and the client's configuration. The list given to an answer has
-- the call itself at its head.
pub record Env : Type 0 where
  pub outcome : List Call → Option Fault
  pub yes : List Call → Bool
  pub pid : List Call → ℕ
  pub pids : List Call → List ℕ
  pub text : List Call → Text
  pub texts : List Call → List Text
  pub entries : List Call → List (String × Bool)  -- of a directory: the name, and whether a directory
  pub now : List Call → ℕ
  pub join : List Text → Text  -- filepath.Join
  pub base64 : Text → Text
  pub state_dir : Text
  pub firecracker_bin : Text
  pub bridge_name : Text
  pub kernel_path : Text
  pub rootfs_path : Text
  pub images_path : Text
  pub vms_path : Text
  pub has_archive : Bool
  pub has_zfs : Bool
  pub pool_name : Text

-- A trackedProc: `serial` tells the pointers apart, also where a process id is used again.
pub record TrackedProc : Type 0 where
  pub serial : ℕ
  pub pid : ℕ

pub record Client : Type 0 where
  pub procs : Dict TrackedProc
  pub next_serial : ℕ
  pub cid_counter : ℕ  -- uint32
  pub history : List Call

abbrev pub M : Type 0 → Type 0
M A = Step Client Fault A

-- A call that cannot fail, or whose error the code does not look at.
abbrev pub effect : Call → M (Unit {0})
effect c w = (ok tt, record w { history = c ∷ w.history })

module _ (env : Env) where
  -- A call with an outcome.
  abbrev pub call : Call → M (Unit {0})
  call c w = elim (env.outcome (c ∷ w.history)) [
    | none ↦ (ok tt, record w { history = c ∷ w.history })
    | some e ↦ (err e, record w { history = c ∷ w.history })
  ]

  -- A call that answers.
  abbrev pub ask : {A : Type 0} → (List Call → A) → Call → M A
  ask answer c w = elim (env.outcome (c ∷ w.history)) [
    | none ↦ (ok (answer (c ∷ w.history)), record w { history = c ∷ w.history })
    | some e ↦ (err e, record w { history = c ∷ w.history })
  ]
