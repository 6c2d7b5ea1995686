-- ===== src/Providers/Google/Answer.antt =====
-- internal/providers/google.go: what the client makes of an answer. `random` gives what randomID draws,
-- by the number of the call.
use pi_go_coding_agent.Base.{
  ℕ, suc, ◌^◌, String, Bool, true, false, List, [], ◌∷◌, ◌++◌, Option, none, some, ltb, ◌==◌, ◌||◌,
  if◌then◌else◌,
}
use pi_go_coding_agent.Base.Text.{trim_space, equal_fold, ◌^^◌}
use pi_go_coding_agent.Base.Int64.{Int64, int64_add, int64_sub}
use pi_go_coding_agent.Types.{
  assistant, tool_call, ContentBlock, empty_block, text_block, empty_message, ToolCall, str, obj,
  Fields, end, lookup_field, Usage,
}
use pi_go_coding_agent.Session.World.{Result, ok, err}
use pi_go_coding_agent.Config.Models.{Model}
use pi_go_coding_agent.Providers.OpenAi.Completion.{CompletionResponse, call_of_block}

-- googleUsage
pub record GoogleUsage : Type 0 where
  pub prompt_tokens : Int64
  pub candidates_tokens : Int64
  pub thoughts_tokens : Int64
  pub total_tokens : Int64
  pub cached_tokens : Int64

-- googleUsageToUsage
unfoldable pub google_usage_to_usage : GoogleUsage → Bool → Usage
google_usage_to_usage u subtract_cached =
    let less = int64_sub u.prompt_tokens u.cached_tokens in
    let input =
      if subtract_cached then if ltb less (2 ^ 63) then less else 0 else u.prompt_tokens in
    let output = int64_add u.candidates_tokens u.thoughts_tokens in
    record {
      input = input;
      output = output;
      cache_read = u.cached_tokens;
      cache_write = 0;
      total =
          if ltb 0 u.total_tokens
          then u.total_tokens
          else int64_add (int64_add input output) u.cached_tokens;
    }

-- mapGoogleStopReason
unfoldable pub map_google_stop_reason : String → Bool → String
map_google_stop_reason reason has_calls =
    let s = trim_space reason in
    if has_calls
    then "toolUse"
    else if (s == "") || equal_fold s "stop"
    then "stop"
    else if equal_fold s "max_tokens"
    then "length"
    else "error"

string_at : String → Fields → String
string_at key fields = elim (lookup_field key fields) [
  | none ↦ ""
  | some j ↦ elim j [ str s ↦ s | _ ↦ "" ]
]

object_at : String → Fields → Option Fields
object_at key fields = elim (lookup_field key fields) [
  | none ↦ none
  | some j ↦ elim j [ obj fs ↦ some fs | _ ↦ none ]
]

fields_or_end : Option Fields → Fields
fields_or_end none = end
fields_or_end (some fields) = fields

module _ (random : ℕ → String) where
  -- The call of a part, in the round of the loop that has the number n
  call_in : Fields → ℕ → List ContentBlock
  unfolding string_at object_at fields_or_end
  call_in part n = elim (object_at "functionCall" part) [
    | none ↦ []
    | some call ↦
        record (empty_block tool_call) {
          id =
              if trim_space (string_at "id" call) == ""
              then "fc_" ^^ random n
              else string_at "id" call;
          name = string_at "name" call;
          arguments = fields_or_end (object_at "args" call);
        }
        ∷ []
  ]

  part_blocks : Fields → ℕ → List ContentBlock
  unfolding call_in
  part_blocks part n =
      let s = string_at "text" part in (if s == "" then [] else text_block s ∷ []) ++ call_in part n

  -- appendGoogleParts: the blocks that it appends, and the number of the next round
  unfoldable pub append_google_parts : List Fields → ℕ → List ContentBlock × ℕ
  unfolding part_blocks
  append_google_parts [] n = ([], n)
  append_google_parts (p ∷ ps) n =
      let (rest, n') = append_google_parts ps (suc n) in (part_blocks p n ++ rest, n')

-- The calls among the blocks
unfoldable pub google_calls : List ContentBlock → List ToolCall
google_calls [] = []
google_calls (b ∷ bs) = elim b.type [
  | tool_call ↦ call_of_block b ∷ google_calls bs
  | _ ↦ google_calls bs
]

abbrev pub has_some : {A : Type 0} → List A → Bool
has_some [] = false
has_some (x ∷ xs) = true

pub record Candidate : Type 0 where
  pub parts : List Fields
  pub finish_reason : String

-- googleResp, and a chunk of the Cloud Code Assist
pub record GoogleAnswer : Type 0 where
  pub candidates : List Candidate
  pub usage : GoogleUsage

-- googleResponseToCompletion
unfoldable pub google_response_to_completion :
    (ℕ → String) → ℕ → Model → GoogleAnswer → Result CompletionResponse
unfolding append_google_parts google_calls
google_response_to_completion random now model a = elim a.candidates [
  | [] ↦ err "empty response"
  | c ∷ cs ↦
      let (blocks, n) = append_google_parts random c.parts 0 in
      let calls = google_calls blocks in
      let m = record (empty_message assistant) {
        timestamp = now;
        api = model.api;
        provider = model.provider;
        model = model.id;
        usage = google_usage_to_usage a.usage false;
        content = blocks;
        stop_reason = map_google_stop_reason c.finish_reason (has_some calls);
      } in
      ok (record { message = m; tool_calls = calls })
]
