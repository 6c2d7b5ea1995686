-- ===== src/Providers/OpenAi/Events.antt =====
-- internal/providers/openai.go: parseCodexSSEResponse against its events, read all at once.
use pi_go_coding_agent.Base.{
  String, Bool, false, List, [], ◌∷◌, ◌++◌, Option, none, some, ◌≡◌, inl, inr, ◌==◌, if◌then◌else◌,
  Bool-cases, Option-cases, append_assoc, append-nil,
}
use pi_go_coding_agent.Base.Text.{trim_space}
use pi_go_coding_agent.Base.Strings.{trim_right_of, has_prefix, trim_prefix}
use pi_go_coding_agent.Session.World.{Result}
use pi_go_coding_agent.Providers.OpenAi.Completion.{ResponsesAnswer}
use pi_go_coding_agent.Providers.Http.{end_of_file}
use pi_go_coding_agent.Providers.OpenAi.Stream.{
  Event, is_line_end, parse_event, waits, ends_or, read_line, after_step, ended_early,
  finish_stream, read_stream, parse_codex_sse_response,
}

is_blank : String → Bool
is_blank line = trim_right_of is_line_end line == ""

-- What a line adds to the data of its event
line_data : String → List String
line_data line =
    let trimmed = trim_right_of is_line_end line in
    if has_prefix trimmed "data:" then trim_space (trim_prefix trimmed "data:") ∷ [] else []

-- The data of the first event, and that of the others
abbrev Events : Type 0
Events = List String × List (List String)

abbrev with_data : List String → Events → Events
with_data ds (first, others) = (ds ++ first, others)

abbrev after_blank : Events → Events
after_blank (first, others) = ([], first ∷ others)

-- The events of a text: a blank line stands between two of them.
unfoldable pub events_of : List String → Events
unfolding is_blank line_data
events_of [] = ([], [])
events_of (line ∷ lines) =
    let rest = events_of lines in
    if is_blank line then after_blank rest else with_data (line_data line) rest

module _ (event_of : String → Option Event) where
  or_later :
      Option (Result ResponsesAnswer)
      → Option (Result ResponsesAnswer)
      → Option (Result ResponsesAnswer)
  or_later none later = later
  or_later (some r) later = some r

  first_of : List (List String) → Option (Result ResponsesAnswer)
  unfolding or_later
  first_of [] = none
  first_of (e ∷ es) = or_later (parse_event event_of e) (first_of es)

  -- The result of the first event that has one
  unfoldable pub first_result : Events → Option (Result ResponsesAnswer)
  unfolding first_of
  first_result (first, others) = or_later (parse_event event_of first) (first_of others)

  read_line-data :
      (line : String) (ds : List String)
      → is_blank line ≡ false
      → read_line event_of line ds ≡ waits (ds ++ line_data line)
  unfolding is_blank read_line line_data
  read_line-data line ds full =
      elim (Bool-cases (has_prefix (trim_right_of is_line_end line) "data:")) [
        | inl given ↦ rw (full, given)
        | inr other ↦ rw (full, other, append-nil)
      ]

  finish_stream-events :
      (last : String) (ds : List String)
      → finish_stream event_of (end_of_file last) ds
        ≡ ended_early (first_result (with_data ds (events_of (last ∷ []))))
  unfolding finish_stream events_of first_result ends_or ended_early after_step parse_event
  finish_stream-events last ds = elim (Bool-cases (is_blank last)) [
    | inl blank ↦ elim (Option-cases (parse_event event_of ds)) [
      | inl none_yet ↦ rw (blank, append-nil, none_yet)
      | inr (r, found) ↦ rw (blank, append-nil, found)
    ]
    | inr full ↦ elim (Option-cases (parse_event event_of (ds ++ line_data last))) [
      | inl none_yet ↦ rw (read_line-data last ds full, full, append-nil, none_yet)
      | inr (r, found) ↦ rw (read_line-data last ds full, full, append-nil, found)
    ]
  ]

  read_stream-events :
      (lines : List String) (last : String) (ds : List String)
      → read_stream event_of lines (end_of_file last) ds
        ≡ ended_early (first_result (with_data ds (events_of (lines ++ last ∷ []))))
  unfolding read_stream events_of first_result ends_or ended_early after_step
  read_stream-events [] last ds = finish_stream-events last ds
  read_stream-events (line ∷ lines) last ds = elim (Bool-cases (is_blank line)) [
    | inl blank ↦ elim (Option-cases (parse_event event_of ds)) [
      | inl none_yet ↦ rw (blank, append-nil, none_yet) (read_stream-events lines last [])
      | inr (r, found) ↦ rw (blank, append-nil, found)
    ]
    | inr full ↦
        rw (read_line-data line ds full, full, ← append_assoc)
          (read_stream-events lines last (ds ++ line_data line))
  ]

  -- parseCodexSSEResponse reads a stream as its events do: on every text that the reader gives to its
  -- end, as lines and what stands after the last of them, its result is that of the first event, of
  -- those that blank lines divide the text into, that has a result, and if none has one, the error
  -- that the stream ended before completion.
  pub parse_codex_sse_response-events_of :
      (lines : List String) (last : String)
      → parse_codex_sse_response event_of lines (end_of_file last)
        ≡ ended_early (first_result (events_of (lines ++ last ∷ [])))
  unfolding parse_codex_sse_response
  parse_codex_sse_response-events_of lines last = read_stream-events lines last []
