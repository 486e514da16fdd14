-- ===== src/Dashboard/History.antt =====
-- The log history of pkg/dashboard/log_history.go. Its lock makes each method one step. The lower
-- case of a text is Unicode's and a parameter here.
use stockyard.Base.{
  ℕ, ◌≡◌, ◌≤◌, refl, ap, Bool, ◌&&◌, ◌||◌, List, [], ◌∷◌, ◌++◌, String, str_eq, Text, text_eq,
  contains_text, length, if◌then◌else◌, arith,
}
use stockyard.Dashboard.Buffer.{append_bounded, newest, append_bounded-newest, newest_bound}

pub record LogLine : Type 0 where
  pub task_id : String
  pub stream : String
  pub text : Text
  pub timestamp : ℕ

-- The capacity of the backing array is no part of the state: compacting copies every line.
pub record LogHistory : Type 0 where
  pub lines : List LogLine
  pub max_lines : ℕ

unfoldable pub new_history : ℕ → LogHistory
new_history max_lines = record { lines = []; max_lines = max_lines }

abbrev pub line_at : ℕ → String → String → Text → LogLine
line_at now task_id stream text = record {
  task_id = task_id;
  stream = stream;
  text = text;
  timestamp = now;
}

unfoldable pub add_line : ℕ → String → String → Text → LogHistory → LogHistory
add_line now task_id stream text lh = record lh {
  lines = append_bounded lh.max_lines (line_at now task_id stream text) lh.lines;
}

module _ (to_lower : Text → Text) where
  -- The test on a line's text; the query is in lower case.
  unfoldable pub matches_query : Text → LogLine → Bool
  matches_query query line = text_eq query [] || contains_text (to_lower line.text) query

  unfoldable pub search_lines : String → Text → List LogLine → List LogLine
  unfolding matches_query
  search_lines task_id query [] = []
  search_lines task_id query (line ∷ lines) =
      let rest = search_lines task_id query lines in
      if str_eq line.task_id task_id
      then if matches_query query line then line ∷ rest else rest
      else rest

  unfoldable pub search_stream_lines : String → String → Text → List LogLine → List LogLine
  unfolding matches_query
  search_stream_lines task_id stream query [] = []
  search_stream_lines task_id stream query (line ∷ lines) =
      let rest = search_stream_lines task_id stream query lines in
      if str_eq line.task_id task_id && str_eq line.stream stream
      then if matches_query query line then line ∷ rest else rest
      else rest

  unfoldable pub search : String → Text → LogHistory → List LogLine
  unfolding search_lines
  search task_id query lh = search_lines task_id (to_lower query) lh.lines

  unfoldable pub search_stream : String → String → Text → LogHistory → List LogLine
  unfolding search_stream_lines
  search_stream task_id stream query lh =
      search_stream_lines task_id stream (to_lower query) lh.lines

  -- The lines of a stream.
  unfoldable pub of_stream : String → List LogLine → List LogLine
  of_stream stream [] = []
  of_stream stream (line ∷ lines) =
      let rest = of_stream stream lines in if str_eq line.stream stream then line ∷ rest else rest

  search_stream_lines_lem :
      (task_id stream : String) (query : Text) (lines : List LogLine)
      → search_stream_lines task_id stream query lines
        ≡ of_stream stream (search_lines task_id query lines)
  unfolding search_lines search_stream_lines of_stream
  search_stream_lines_lem task_id stream query [] = refl
  search_stream_lines_lem task_id stream query (line ∷ lines) =
      ground (arith, search_stream_lines_lem task_id stream query lines)

  -- A search in one stream finds what the search in all streams finds, less the other streams' lines.
  pub search_stream-search :
      (task_id stream : String) (query : Text) (lh : LogHistory)
      → search_stream task_id stream query lh ≡ of_stream stream (search task_id query lh)
  unfolding search search_stream
  search_stream-search task_id stream query lh =
      search_stream_lines_lem task_id stream (to_lower query) lh.lines

  -- A history that shows a log's newest lines is searched as they are: after one more line, a search
  -- goes through the newest lines of the longer log, at most `max_lines` of them.
  pub search-add_line :
      (now : ℕ) (task_id stream : String) (text : Text) (lh : LogHistory) (log : List LogLine)
      (wanted : String) (query : Text)
      → lh.lines ≡ newest lh.max_lines log
      → let shown = newest lh.max_lines (log ++ (line_at now task_id stream text ∷ [])) in
        (search wanted query (add_line now task_id stream text lh)
          ≡ search_lines wanted (to_lower query) shown)
        × (length (add_line now task_id stream text lh).lines ≤ lh.max_lines)
  unfolding search add_line
  search-add_line now task_id stream text lh log wanted query h =
      let line = line_at now task_id stream text in
      let held : append_bounded lh.max_lines line lh.lines
          ≡ newest lh.max_lines (log ++ (line ∷ [])) =
        rw h (append_bounded-newest lh.max_lines line log) in
      (
        ap (search_lines wanted (to_lower query)) held,
        rw held (newest_bound lh.max_lines (log ++ (line ∷ []))),
      )
