-- ===== src/Daemon/LogTailer/Channels.antt =====
-- No stop channel is closed twice, whatever is tailed and stopped in whatever order.
use stockyard.Base.{
  ℕ, ◌+◌, ◌<◌, ◌==◌, ◌≡◌, refl, inl, inr, subst, sym, Bool, false, ◌||◌, String, str_eq, none, List,
  [], ◌∷◌, Dict, lookup, insert, arith, Option-cases, Bool-cases,
}
use stockyard.Daemon.LogTailer.{
  LogTailer, is_closed, close_channel, tail_file, is_key_of, stop_keys, stop_task, close_all, stop,
  key_of,
}

unfoldable pub has_channel : ℕ → Dict ℕ → Bool
has_channel channel [] = false
has_channel channel ((key, c) ∷ m) = c == channel || has_channel channel m

-- The channels of the tailers are old, open and different.
abbrev pub Open : Dict ℕ → List ℕ → ℕ → Type 0
Open [] closed next = Unit {0}
Open ((key, c) ∷ m) closed next =
    (c < next) × (is_closed c closed ≡ false) × (has_channel c m ≡ false) × Open m closed next

abbrev pub AllOld : List ℕ → ℕ → Type 0
AllOld [] next = Unit {0}
AllOld (c ∷ cs) next = (c < next) × AllOld cs next

pub record Sound (t : LogTailer) : Type 0 where
  pub open_channels : Open t.tailers t.closed t.next_channel
  pub old_channels : AllOld t.closed t.next_channel
  pub calm : t.panicked ≡ false

old-open : (next : ℕ) (closed : List ℕ) → AllOld closed next → is_closed next closed ≡ false
unfolding is_closed
old-open next [] h = refl
old-open next (c ∷ cs) h = ground (arith, h.0, old-open next cs h.1)

old-suc : (next : ℕ) (closed : List ℕ) → AllOld closed next → AllOld closed (next + 1)
old-suc next [] h = tt
old-suc next (c ∷ cs) h = (ground (arith, h.0), old-suc next cs h.1)

-- A new channel under a new key.
insert-absent :
    (key : String) (next c : ℕ) (m : Dict ℕ)
    → lookup key m ≡ none
    → c < next
    → has_channel c m ≡ false
    → has_channel c (insert key next m) ≡ false
unfolding lookup insert has_channel
insert-absent key next c [] new lt h = ground arith
insert-absent key next c ((k, d) ∷ m) new lt h = ground (arith, insert-absent key next c m)

insert-Open :
    (key : String) (next : ℕ) (m : Dict ℕ) (closed : List ℕ)
    → lookup key m ≡ none
    → AllOld closed next
    → Open m closed next
    → Open (insert key next m) closed (next + 1)
unfolding lookup insert has_channel
insert-Open key next [] closed new old open_m = (ground arith, old-open next closed old, refl, tt)
insert-Open key next ((k, c) ∷ m) closed new old (lt, free, absent, rest) =
    elim (Bool-cases (str_eq k key)) [
      | inl e ↦ ground arith
      | inr e ↦
          let later : lookup key m ≡ none = ground arith in
          let whole : Open ((k, c) ∷ insert key next m) closed (next + 1) = (
            ground (arith, lt),
            free,
            insert-absent key next c m later lt absent,
            insert-Open key next m closed later old rest,
          ) in
          rw (e) whole
    ]

tail_file-Sound :
    (task_id stream : String) (t : LogTailer) → Sound t → Sound (tail_file task_id stream t)
unfolding tail_file
tail_file-Sound task_id stream t s =
    elim (Option-cases (lookup (key_of task_id stream) t.tailers)) [
      | inr (channel, e) ↦ rw (e, tail_file) s
      | inl e ↦
          rw (e, tail_file)
            (record {
              open_channels =
                  insert-Open (key_of task_id stream) t.next_channel t.tailers t.closed e
                    s.old_channels s.open_channels;
              old_channels = old-suc t.next_channel t.closed s.old_channels;
              calm = s.calm;
            })
    ]

close-Open :
    (c : ℕ) (m : Dict ℕ) (closed : List ℕ) (next : ℕ)
    → has_channel c m ≡ false
    → Open m closed next
    → Open m (c ∷ closed) next
unfolding has_channel is_closed
close-Open c [] closed next absent o = tt
close-Open c ((k, d) ∷ m) closed next absent (lt, free, alone, rest) =
    (lt, ground arith, alone, close-Open c m closed next (ground arith) rest)

-- A channel that no tailer has stays as it is.
stop_keys-other :
    (task_id : String) (d : ℕ) (m : Dict ℕ) (closed : List ℕ) (panicked : Bool)
    → has_channel d m ≡ false
    → is_closed d closed ≡ false
    → let (left, (after, _)) = stop_keys task_id m (closed, panicked) in
      (has_channel d left ≡ false) × (is_closed d after ≡ false)
unfolding stop_keys has_channel is_closed close_channel
stop_keys-other task_id d [] closed panicked absent free = (refl, free)
stop_keys-other task_id d ((k, c) ∷ m) closed panicked absent free =
    let more = stop_keys-other task_id d m (c ∷ closed) (panicked || is_closed c closed) in
    let same = stop_keys-other task_id d m closed panicked in
    elim (Bool-cases (is_key_of task_id k)) [
      | inl e ↦ rw (e, stop_keys) (more (ground arith) (ground arith))
      | inr e ↦ let rest = same (ground arith) free in (ground (arith, rest), ground (arith, rest))
    ]

stop_keys-Open :
    (task_id : String) (m : Dict ℕ) (closed : List ℕ) (next : ℕ)
    → Open m closed next
    → AllOld closed next
    → let (left, (after, panicked)) = stop_keys task_id m (closed, false) in
      Open left after next × AllOld after next × (panicked ≡ false)
unfolding stop_keys close_channel
stop_keys-Open task_id [] closed next o old = (tt, old, refl)
stop_keys-Open task_id ((k, c) ∷ m) closed next (lt, free, alone, rest) old =
    elim (Bool-cases (is_key_of task_id k)) [
      | inl e ↦
          let later =
            stop_keys-Open task_id m (c ∷ closed) next (close-Open c m closed next alone rest)
              (lt, old) in
          rw (e, stop_keys, free) later
      | inr e ↦
          let later = stop_keys-Open task_id m closed next rest old in
          let other = stop_keys-other task_id c m closed false alone free in
          rw (e, stop_keys) ((lt, other.1, other.0, later.0), later.1, later.2)
    ]

close_all-calm :
    (m : Dict ℕ) (closed : List ℕ) (next : ℕ)
    → Open m closed next
    → AllOld closed next
    → AllOld (close_all m (closed, false)).0 next × ((close_all m (closed, false)).1 ≡ false)
unfolding close_all close_channel
close_all-calm [] closed next o old = (old, refl)
close_all-calm ((k, c) ∷ m) closed next (lt, free, alone, rest) old =
    subst
      (λ b. AllOld (close_all m (c ∷ closed, b)).0 next × ((close_all m (c ∷ closed, b)).1 ≡ false))
      (sym free)
      (close_all-calm m (c ∷ closed) next (close-Open c m closed next alone rest) (lt, old))

stop_task-Sound : (task_id : String) (t : LogTailer) → Sound t → Sound (stop_task task_id t)
unfolding stop_task
stop_task-Sound task_id t s =
    let (left, closed, calm) =
      stop_keys-Open task_id t.tailers t.closed t.next_channel s.open_channels s.old_channels in
    subst
      (λ b. Sound (record t {
        tailers = (stop_keys task_id t.tailers (t.closed, b)).0;
        closed = (stop_keys task_id t.tailers (t.closed, b)).1.0;
        panicked = (stop_keys task_id t.tailers (t.closed, b)).1.1;
      }))
      (sym s.calm) (record { open_channels = left; old_channels = closed; calm = calm })

stop-Sound : (t : LogTailer) → Sound t → Sound (stop t)
unfolding stop
stop-Sound t s =
    let (closed, calm) =
      close_all-calm t.tailers t.closed t.next_channel s.open_channels s.old_channels in
    subst
      (λ b. Sound (record t {
        tailers = [];
        closed = (close_all t.tailers (t.closed, b)).0;
        panicked = (close_all t.tailers (t.closed, b)).1;
      }))
      (sym s.calm) (record { open_channels = tt; old_channels = closed; calm = calm })

-- What callers do with a tailer.
pub data Use : Type 0 where
  tails : String → String → Use
  stops_task : String → Use
  stops_all : Use

unfoldable pub run_uses : List Use → LogTailer → LogTailer
run_uses [] t = t
run_uses (tails task_id stream ∷ uses) t = run_uses uses (tail_file task_id stream t)
run_uses (stops_task task_id ∷ uses) t = run_uses uses (stop_task task_id t)
run_uses (stops_all ∷ uses) t = run_uses uses (stop t)

uses-Sound : (uses : List Use) (t : LogTailer) → Sound t → Sound (run_uses uses t)
unfolding run_uses
uses-Sound [] t s = s
uses-Sound (tails task_id stream ∷ uses) t s =
    uses-Sound uses (tail_file task_id stream t) (tail_file-Sound task_id stream t s)
uses-Sound (stops_task task_id ∷ uses) t s =
    uses-Sound uses (stop_task task_id t) (stop_task-Sound task_id t s)
uses-Sound (stops_all ∷ uses) t s = uses-Sound uses (stop t) (stop-Sound t s)

abbrev pub new_log_tailer : LogTailer
new_log_tailer = record { tailers = []; next_channel = 0; closed = []; panicked = false }

-- A new tailer, however it is used, never closes a stop channel twice; and the channels it holds are
-- open and different.
pub uses_calm :
    (uses : List Use)
    → let t = run_uses uses new_log_tailer in
      (t.panicked ≡ false) × Open t.tailers t.closed t.next_channel
uses_calm uses =
    let s =
      uses-Sound uses new_log_tailer
        (record { open_channels = tt; old_channels = tt; calm = refl }) in
    (s.calm, s.open_channels)
