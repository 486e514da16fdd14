-- ===== src/Daemon/LogTailer.antt =====
-- pkg/daemon/logtailer.go: which files are tailed, and how the pieces of a file become lines. A stop
-- channel is a number; closing a closed channel would panic.
pub mod Channels
use stockyard.Base.{
  ℕ, suc, ◌+◌, ◌==◌, Text, codes, Bool, true, false, not, ◌&&◌, ◌||◌, String, str_append, Option,
  none, some, List, [], ◌∷◌, ◌++◌, Dict, lookup, insert, has_prefix, if◌then◌else◌,
}

pub record LogTailer : Type 0 where
  pub tailers : Dict ℕ
  pub next_channel : ℕ
  pub closed : List ℕ
  pub panicked : Bool

unfoldable pub is_closed : ℕ → List ℕ → Bool
is_closed channel [] = false
is_closed channel (c ∷ cs) = c == channel || is_closed channel cs

abbrev pub key_of : String → String → String
key_of task_id stream = str_append task_id (str_append ":" stream)

-- `close(stop)`
unfoldable pub close_channel : ℕ → List ℕ × Bool → List ℕ × Bool
close_channel channel (closed, panicked) = (channel ∷ closed, panicked || is_closed channel closed)

-- `TailFile`; the goroutine that it starts has the new channel.
unfoldable pub tail_file : String → String → LogTailer → LogTailer
tail_file task_id stream t = elim (lookup (key_of task_id stream) t.tailers) [
  | some channel ↦ t
  | none ↦ record t {
    tailers = insert (key_of task_id stream) t.next_channel t.tailers;
    next_channel = t.next_channel + 1;
  }
]

-- `len(key) > len(taskID) && key[:len(taskID)+1] == taskID+":"`
abbrev pub is_key_of : String → String → Bool
is_key_of task_id key = has_prefix (codes key) (codes task_id ++ codes ":")

-- The loop of `StopTask`: the tailers that stay, and the channels after it.
unfoldable pub stop_keys : String → Dict ℕ → List ℕ × Bool → Dict ℕ × (List ℕ × Bool)
stop_keys task_id [] channels = ([], channels)
stop_keys task_id ((key, channel) ∷ more) channels =
    let closing = stop_keys task_id more (close_channel channel channels) in
    let staying = stop_keys task_id more channels in
    if is_key_of task_id key then closing else ((key, channel) ∷ staying.0, staying.1)

unfoldable pub stop_task : String → LogTailer → LogTailer
stop_task task_id t =
    let (tailers, (closed, panicked)) = stop_keys task_id t.tailers (t.closed, t.panicked) in
    record t { tailers = tailers; closed = closed; panicked = panicked }

-- The loop of `Stop`.
unfoldable pub close_all : Dict ℕ → List ℕ × Bool → List ℕ × Bool
close_all [] channels = channels
close_all ((key, channel) ∷ more) channels = close_all more (close_channel channel channels)

unfoldable pub stop : LogTailer → LogTailer
stop t =
    let (closed, panicked) = close_all t.tailers (t.closed, t.panicked) in
    record t { tailers = []; closed = closed; panicked = panicked }

-- What a round of `tailLoop` meets: the stop channel, a piece of a line (with whether the line goes
-- on), the end of the file, or an error.
pub data Read : Type 0 where
  stopped end_of_file read_failed : Read
  piece : Text → Bool → Read

-- `tailLoop` of a file that could be opened: the lines that it sends. The text is `lineBuf`.
unfoldable pub tail_loop : Text → List Read → List Text
tail_loop buffer [] = []
tail_loop buffer (stopped ∷ reads) = []
tail_loop buffer (end_of_file ∷ reads) = tail_loop buffer reads
tail_loop buffer (read_failed ∷ reads) = []
tail_loop buffer (piece line is_prefix ∷ reads) =
    let more = tail_loop (buffer ++ line) reads in
    let fresh = tail_loop [] reads in if is_prefix then more else (buffer ++ line) ∷ fresh
