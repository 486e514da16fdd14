-- ===== src/Firecracker/Vms/Reaper.antt =====
-- The goroutines that reap processes, and the processes that are tracked.
use stockyard.Base.{
  ℕ, ◌≡◌, ◌<◌, String, none, some, lookup, insert, lookup-insert, lookup-erase, eq_iff, arith,
}
use stockyard.Firecracker.Host.{Client, TrackedProc}
use stockyard.Firecracker.Boot.{track}
use stockyard.Firecracker.Vms.{reap}

-- The reaper of a process that was tracked before leaves a later process of any VM tracked; and the
-- reaper of that process itself ends its tracking.
pub reap-track :
    (c : Client) (id : String) (pid : ℕ) (other : String) (earlier : ℕ)
    → earlier < c.next_serial
    → let later = (track id pid c).1 in
      (lookup id (reap other earlier later).procs
        ≡ some (record { serial = c.next_serial; pid = pid }))
      × (lookup id (reap id c.next_serial later).procs ≡ none)
unfolding reap track
reap-track c id pid other earlier lt =
    let proc : TrackedProc = record { serial = c.next_serial; pid = pid } in
    ground (
      arith,
      lookup-insert id id proc c.procs,
      lookup-insert id other proc c.procs,
      lookup-erase other id (insert id proc c.procs),
      lookup-erase id id (insert id proc c.procs),
      eq_iff id id,
      eq_iff id other,
      eq_iff other id,
    )
