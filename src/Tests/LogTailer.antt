-- ===== src/Tests/LogTailer.antt =====
-- The theorems on pkg/daemon/logtailer.go at a tailer that is used again.
use stockyard.Base.{◌≡◌, false, List, [], ◌∷◌}
use stockyard.Daemon.LogTailer.Channels.{
  Use, tails, stops_task, stops_all, run_uses, new_log_tailer, Open, uses_calm,
}

abbrev uses : List Use
uses =
    tails "a1" "stdout"
    ∷ tails "a1" "stderr"
    ∷ stops_task "a1"
    ∷ tails "a1" "stdout"
    ∷ stops_all
    ∷ []

uses_calm_example :
    let t = run_uses uses new_log_tailer in
    (t.panicked ≡ false) × Open t.tailers t.closed t.next_channel
uses_calm_example = uses_calm uses
