-- ===== src/Tests/Dashboard.antt =====
-- The bounded logs of pkg/dashboard at concrete inputs.
use stockyard.Base.{
  ℕ, ◌≡◌, true, List, [], ◌∷◌, none, some, Text, codes, length, ltb, ◌-◌, if◌then◌else◌,
}
use stockyard.Dashboard.Buffer.{get_elem?}
use stockyard.Dashboard.Activity.{ActivityEvent, vm_event, new_feed, record_all, get_recent}
use stockyard.Dashboard.Activity.Recent.{log_all, smallest, get_recent-record_all}
use stockyard.Dashboard.History.{LogHistory, line_at}

abbrev a_run : List (ℕ × ActivityEvent)
a_run =
    (1, vm_event "vm_started" "a1" "build" "" "VM started")
    ∷ (2, vm_event "vm_stopped" "a1" "build" "" "VM stopped")
    ∷ (3, vm_event "vm_failed" "b2" "test" "" "VM failed: killed")
    ∷ []

get_recent-record_all_example :
    (es : List ActivityEvent) × (get_recent 5 (record_all a_run (new_feed 2 true)) ≡ some es)
    × (length es ≡ smallest (smallest (length (log_all a_run [])) 2) 5)
    × (get_elem? es 1 ≡ (
        if ltb 1 (smallest (smallest (length (log_all a_run [])) 2) 5)
        then get_elem? (log_all a_run []) (length (log_all a_run []) - 1 - 1)
        else none))
get_recent-record_all_example = get_recent-record_all 2 true a_run 5 1

abbrev a_history : LogHistory
a_history = record {
  lines =
      line_at 1 "a1" "stdout" (codes "starting")
      ∷ line_at 2 "a1" "stderr" (codes "start failed")
      ∷ line_at 3 "b2" "stderr" (codes "start")
      ∷ [];
  max_lines = 3;
}

-- All texts are in lower case.
abbrev as_it_is : Text → Text
as_it_is s = s
