-- ===== src/Providers/OpenAi/Stream.antt =====
-- internal/providers/openai.go: parseCodexSSEResponse, which reads the events of a stream up to the
-- one that ends it. `event_of` is json.Unmarshal of an event, none where the text is malformed.
use pi_go_coding_agent.Base.{
  ℕ, String, Bool, List, [], ◌∷◌, ◌++◌, Option, none, some, ◌==◌, ◌||◌, if◌then◌else◌,
}
use pi_go_coding_agent.Base.Text.{trim_space, join, ◌^^◌}
use pi_go_coding_agent.Base.Strings.{is_code, trim_right_of, has_prefix, trim_prefix}
use pi_go_coding_agent.Session.World.{Result, ok, err}
use pi_go_coding_agent.Providers.Http.{Ending, end_of_file, broken}
use pi_go_coding_agent.Providers.OpenAi.Ids.{text_or}
use pi_go_coding_agent.Providers.OpenAi.Completion.{ResponsesAnswer}

-- The field `response` of an event: absent, no answer, or an answer
pub data RawResponse : Type 0 where
  absent : RawResponse
  malformed : String → RawResponse
  given : ResponsesAnswer → RawResponse

pub record Event : Type 0 where
  pub type : String
  pub code : String
  pub message : String
  pub response : RawResponse
  -- response.error.message
  pub failure : String

unfoldable pub completed_or : ResponsesAnswer → ResponsesAnswer
completed_or a = record a { status = if trim_space a.status == "" then "completed" else a.status }

unfoldable pub answer_of : RawResponse → Result ResponsesAnswer
unfolding completed_or
answer_of absent = err "provider error: codex stream missing completed response"
answer_of (malformed why) = err why
answer_of (given a) = ok (completed_or a)

-- What an event makes of the stream: nothing, or its end
unfoldable pub event_result : Event → Option (Result ResponsesAnswer)
unfolding answer_of
event_result e =
    let said = text_or (trim_space e.message) (text_or (trim_space e.code) "codex stream error") in
    let failed = text_or (trim_space e.failure) "codex response failed" in
    if e.type == "error"
    then some (err ("provider error: " ^^ said))
    else if e.type == "response.failed"
    then some (err ("provider error: " ^^ failed))
    else if (e.type == "response.completed") || (e.type == "response.done")
    then some (answer_of e.response)
    else none

unfoldable pub is_line_end : ℕ → Bool
is_line_end c = is_code c 13 || is_code c 10

-- One line: the data that waits after it, or the result of the event that it ends
pub data Step : Type 0 where
  waits : List String → Step
  ends : Result ResponsesAnswer → Step

unfoldable pub ends_or : List String → Option (Result ResponsesAnswer) → Step
ends_or data_lines none = waits data_lines
ends_or data_lines (some r) = ends r

-- What follows a line that does not end the stream
unfoldable pub after_step : Step → (List String → Result ResponsesAnswer) → Result ResponsesAnswer
after_step (ends r) f = r
after_step (waits ds) f = f ds

unfoldable pub ended_early : Option (Result ResponsesAnswer) → Result ResponsesAnswer
ended_early none = err "provider error: codex stream ended before completion"
ended_early (some r) = r

module _ (event_of : String → Option Event) where
  -- parseEvent, on the lines of data that wait
  unfoldable pub parse_event : List String → Option (Result ResponsesAnswer)
  unfolding event_result
  parse_event [] = none
  parse_event (d ∷ ds) =
      let payload = trim_space (join "\n" (d ∷ ds)) in
      if (payload == "") || (payload == "[DONE]")
      then none
      else elim (event_of payload) [ none ↦ none | some e ↦ event_result e ]

  unfoldable pub read_line : String → List String → Step
  unfolding parse_event ends_or is_line_end
  read_line line data_lines =
      let trimmed = trim_right_of is_line_end line in
      if trimmed == ""
      then ends_or [] (parse_event data_lines)
      else if has_prefix trimmed "data:"
      then waits (data_lines ++ trim_space (trim_prefix trimmed "data:") ∷ [])
      else waits data_lines

  -- The last line, and the event that no empty line ends
  unfoldable pub finish_stream : Ending → List String → Result ResponsesAnswer
  unfolding read_line ended_early after_step
  finish_stream (broken why) data_lines = err why
  finish_stream (end_of_file line) data_lines =
      after_step (read_line line data_lines) λ ds. ended_early (parse_event ds)

  unfoldable pub read_stream : List String → Ending → List String → Result ResponsesAnswer
  unfolding finish_stream after_step
  read_stream [] ending data_lines = finish_stream ending data_lines
  read_stream (line ∷ lines) ending data_lines =
      after_step (read_line line data_lines) (read_stream lines ending)

  -- parseCodexSSEResponse
  unfoldable pub parse_codex_sse_response : List String → Ending → Result ResponsesAnswer
  unfolding read_stream
  parse_codex_sse_response lines ending = read_stream lines ending []
