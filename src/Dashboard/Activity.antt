-- ===== src/Dashboard/Activity.antt =====
-- The activity feed of pkg/dashboard/activity.go. Its lock makes each method one step.
pub mod Recent
use stockyard.Base.{
  decimal, ℕ, zero, suc, ◌+◌, ◌-◌, ◌≤◌, ◌<◌, ◌/◌, ◌%◌, ◌≡◌, refl, ap, sym, ◌∙◌, ◌⊎◌, inl, inr, Bool,
  true, false, Option, none, some, String, str_append, Text, codes, List, [], ◌∷◌, ◌++◌, length,
  drop, ltb, if◌then◌else◌, arith, length-append, length-drop, Bool-cases,
}
use stockyard.Dashboard.Buffer.{
  append_bounded, get_elem?, newest, append_bounded-newest, newest_bound, get_elem?-drop,
  get_elem?-some,
}

pub record ActivityEvent : Type 0 where
  pub id : Text
  pub kind : String  -- `Type`
  pub task_id : String
  pub task_name : String
  pub owner : String
  pub message : String
  pub timestamp : Option ℕ  -- empty is the zero time

-- `sent` is what the hub has been given to broadcast, newest first.
pub record ActivityFeed : Type 0 where
  pub events : List ActivityEvent
  pub max_size : ℕ
  pub has_hub : Bool
  pub sequence : ℕ
  pub sent : List ActivityEvent

unfoldable pub new_feed : ℕ → Bool → ActivityFeed
new_feed max_size has_hub = record {
  events = [];
  max_size = max_size;
  has_hub = has_hub;
  sequence = 0;
  sent = [];
}

-- What `RecordEvent` makes of an event: its number, and the time where it has none.
unfoldable pub stamp : ℕ → ℕ → ActivityEvent → ActivityEvent
stamp sequence now event = record event {
  id = codes "evt-" ++ decimal sequence;
  timestamp = elim event.timestamp [ none ↦ some now | some t ↦ some t ];
}

unfoldable pub record_event : ℕ → ActivityEvent → ActivityFeed → ActivityFeed
unfolding stamp
record_event now event feed =
    let e = stamp (suc feed.sequence) now event in
    record feed {
      events = append_bounded feed.max_size e feed.events;
      sequence = suc feed.sequence;
      sent = if feed.has_hub then e ∷ feed.sent else feed.sent;
    }

-- The loop of `GetRecent` from index `i` on, for `n` more; an index out of range would panic.
unfoldable pub recent_from : List ActivityEvent → ℕ → ℕ → Option (List ActivityEvent)
recent_from events zero i = some []
recent_from events (suc n) i =
    let rest = recent_from events n (suc i) in
    elim (get_elem? events (length events - 1 - i)) [
      | none ↦ none
      | some e ↦ elim rest [ none ↦ none | some es ↦ some (e ∷ es) ]
    ]

unfoldable pub get_recent : ℕ → ActivityFeed → Option (List ActivityEvent)
unfolding recent_from
get_recent n feed =
    let m = if ltb (length feed.events) n then length feed.events else n in
    recent_from feed.events m 0

unfoldable pub count : ActivityFeed → ℕ
count feed = length feed.events

-- `VMStarted`, `VMStopped`, `VMFailed`, `SnapshotCreated`: the events they record.
abbrev pub vm_event : String → String → String → String → String → ActivityEvent
vm_event kind task_id task_name owner message = record {
  id = [];
  kind = kind;
  task_id = task_id;
  task_name = task_name;
  owner = owner;
  message = message;
  timestamp = none;
}

unfoldable pub vm_started : ℕ → String → String → String → ActivityFeed → ActivityFeed
vm_started now task_id task_name owner =
    record_event now (vm_event "vm_started" task_id task_name owner "VM started")

unfoldable pub vm_stopped : ℕ → String → String → ActivityFeed → ActivityFeed
vm_stopped now task_id task_name =
    record_event now (vm_event "vm_stopped" task_id task_name "" "VM stopped")

unfoldable pub vm_failed : ℕ → String → String → String → ActivityFeed → ActivityFeed
vm_failed now task_id task_name reason =
    record_event now (vm_event "vm_failed" task_id task_name "" (str_append "VM failed: " reason))

unfoldable pub snapshot_created : ℕ → String → String → ActivityFeed → ActivityFeed
snapshot_created now task_id snapshot_name =
    record_event now
      (vm_event "snapshot_created" task_id "" "" (str_append "Snapshot created: " snapshot_name))

-- Events recorded one after the other, each with the time at which it is.
unfoldable pub record_all : List (ℕ × ActivityEvent) → ActivityFeed → ActivityFeed
record_all [] feed = feed
record_all ((now, event) ∷ more) feed = record_all more (record_event now event feed)
