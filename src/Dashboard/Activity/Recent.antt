-- ===== src/Dashboard/Activity/Recent.antt =====
-- What the activity feed shows of all the events recorded (pkg/dashboard/activity.go).
use stockyard.Base.{
  ℕ, zero, suc, ◌+◌, ◌-◌, ◌≤◌, ◌<◌, ◌≡◌, refl, ap, sym, ◌∙◌, inl, inr, Bool, none, some, List, [],
  ◌∷◌, ◌++◌, length, ltb, if◌then◌else◌, arith, length-append, length-drop, Bool-cases,
}
use stockyard.Dashboard.Buffer.{
  append_bounded, get_elem?, newest, append_bounded-newest, newest_bound, get_elem?-drop,
  get_elem?-some,
}
use stockyard.Dashboard.Activity.{
  ActivityEvent, ActivityFeed, stamp, new_feed, record_event, recent_from, get_recent, count,
  record_all,
}

-- The log that the feed stands for: every event ever recorded, oldest first.
unfoldable pub log_event : ℕ → ActivityEvent → List ActivityEvent → List ActivityEvent
log_event now event log = log ++ (stamp (suc (length log)) now event ∷ [])

-- The feed shows the newest events of the log, and has numbered them all.
pub record Shows (feed : ActivityFeed) (log : List ActivityEvent) : Type 0 where
  pub events : feed.events ≡ newest feed.max_size log
  pub sequence : feed.sequence ≡ length log

-- The new feed shows the empty log.
new_feed-Shows : (max_size : ℕ) (has_hub : Bool) → Shows (new_feed max_size has_hub) []
unfolding new_feed
new_feed-Shows max_size has_hub = record { events = ground arith; sequence = refl }

-- `RecordEvent` is an entry in the log: a feed that shows a log shows the longer log afterwards,
-- and never holds more events than its bound.
pub record_event-Shows :
    (now : ℕ) (event : ActivityEvent) (feed : ActivityFeed) (log : List ActivityEvent)
    → Shows feed log
    → Shows (record_event now event feed) (log_event now event log)
      × (count (record_event now event feed) ≤ feed.max_size)
unfolding record_event log_event count
record_event-Shows now event feed log shows =
    let e = stamp (suc (length log)) now event in
    let held : append_bounded feed.max_size (stamp (suc feed.sequence) now event) feed.events
        ≡ newest feed.max_size (log ++ (e ∷ [])) =
      rw (shows.events, shows.sequence) (append_bounded-newest feed.max_size e log) in
    (
      record {
        events = held;
        sequence = ground (arith, shows.sequence, length-append log (e ∷ []));
      },
      rw held (newest_bound feed.max_size (log ++ (e ∷ []))),
    )

-- The longer log after a run.
unfoldable pub log_all : List (ℕ × ActivityEvent) → List ActivityEvent → List ActivityEvent
log_all [] log = log
log_all ((now, event) ∷ more) log = log_all more (log_event now event log)

record_all-Shows :
    (run : List (ℕ × ActivityEvent)) (feed : ActivityFeed) (log : List ActivityEvent)
    → Shows feed log
    → Shows (record_all run feed) (log_all run log)
unfolding record_all log_all
record_all-Shows [] feed log shows = shows
record_all-Shows ((now, event) ∷ more) feed log shows =
    record_all-Shows more (record_event now event feed) (log_event now event log)
      (record_event-Shows now event feed log shows).0

record_all-max_size :
    (run : List (ℕ × ActivityEvent)) (feed : ActivityFeed)
    → (record_all run feed).max_size ≡ feed.max_size
unfolding record_all record_event
record_all-max_size [] feed = refl
record_all-max_size ((now, event) ∷ more) feed =
    record_all-max_size more (record_event now event feed)

module _ (events : List ActivityEvent) where
  first_then :
      (e : ActivityEvent) (es : List ActivityEvent) (n i : ℕ)
      → get_elem? events (length events - 1 - i) ≡ some e
      → ((j : ℕ) → j < n → get_elem? es j ≡ get_elem? events (length events - 1 - (suc i + j)))
      → (j : ℕ) → j < suc n
      → get_elem? (e ∷ es) j ≡ get_elem? events (length events - 1 - (i + j))
  first_then e es n i q at zero l = sym q ∙ ap (get_elem? events) (omega arith)
  first_then e es n i q at (suc j) l = at j (omega (arith, l)) ∙ ap (get_elem? events) (omega arith)

  -- The loop stays in range, and reads backwards.
  recent_from_lem :
      (n i : ℕ)
      → i + n ≤ length events
      → (es : List ActivityEvent) × (recent_from events n i ≡ some es)
        × (length es ≡ n)
        × ((j : ℕ) → j < n → get_elem? es j ≡ get_elem? events (length events - 1 - (i + j)))
  unfolding recent_from
  recent_from_lem zero i h = ([], refl, refl, λ j l. ground (arith, l))
  recent_from_lem (suc n) i h =
      let (e, q) = get_elem?-some events (length events - 1 - i) (omega arith) in
      let (es, p, len, at) = recent_from_lem n (suc i) (omega arith) in
      (e ∷ es, rw (q, recent_from, p) refl, ap suc len, first_then e es n i q at)

abbrev pub smallest : ℕ → ℕ → ℕ
smallest a b = if ltb a b then a else b

get_recent_lem :
    (n : ℕ) (feed : ActivityFeed) (log : List ActivityEvent)
    → Shows feed log
    → (es : List ActivityEvent) × (get_recent n feed ≡ some es)
      × (length es ≡ smallest (smallest (length log) feed.max_size) n)
      × ((j : ℕ) → j < length es → get_elem? es j ≡ get_elem? log (length log - 1 - j))
unfolding get_recent count
get_recent_lem n feed log shows =
    let m = smallest (length feed.events) n in
    let k = length log - feed.max_size in
    let (es, p, len, at) = recent_from_lem feed.events m 0 (ground arith) in
    let size : length feed.events ≡ length log - k = ap length shows.events ∙ length-drop k log in
    (
      es,
      p,
      ground (arith, len, size),
      λ j l.
          at j (ground (arith, len, l))
          ∙ ap (λ xs. get_elem? xs (length feed.events - 1 - (0 + j))) shows.events
          ∙ get_elem?-drop k log (length feed.events - 1 - (0 + j))
          ∙ ap (get_elem? log) (ground (arith, len, l, size)),
    )

past_end : (es : List ActivityEvent) (j : ℕ) → length es ≤ j → get_elem? es j ≡ none
past_end [] j h = refl
past_end (e ∷ es) zero h = ground (arith, h)
past_end (e ∷ es) (suc j) h = past_end es j (ground (arith, h))

-- After any run of events on a new feed, `GetRecent` returns, and gives the newest events of all
-- that were recorded: as many as asked for, or as many as there are within the feed's bound, and the
-- one at index `j` is the one at `j` from the end.
pub get_recent-record_all :
    (max_size : ℕ) (has_hub : Bool) (run : List (ℕ × ActivityEvent)) (n j : ℕ)
    → let log = log_all run [] in
      let size = smallest (smallest (length log) max_size) n in
      (es : List ActivityEvent) × (get_recent n (record_all run (new_feed max_size has_hub))
        ≡ some es)
      × (length es ≡ size)
      × (get_elem? es j ≡ (if ltb j size then get_elem? log (length log - 1 - j) else none))
unfolding new_feed
get_recent-record_all max_size has_hub run n j =
    let feed = record_all run (new_feed max_size has_hub) in
    let log = log_all run [] in
    let (es, q, len, at) =
      get_recent_lem n feed log
        (record_all-Shows run (new_feed max_size has_hub) [] (new_feed-Shows max_size has_hub)) in
    let bound = record_all-max_size run (new_feed max_size has_hub) in
    let size = smallest (smallest (length log) max_size) n in
    let sized : length es ≡ size = ground (arith, len, bound) in
    (
      es,
      q,
      sized,
      elim (Bool-cases (ltb j size)) [
        | inl e ↦ rw e (at j (ground (arith, e, sized)))
        | inr e ↦ rw e (past_end es j (ground (arith, e, sized)))
      ],
    )
