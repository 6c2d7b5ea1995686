-- ===== src/Agent/Compact.antt =====
-- internal/agent/runtime.go and output.go: which entries a compaction keeps, the text that is
-- summarised, and the estimate of a context's tokens.
pub mod Select
pub mod Chosen
pub mod Run
use Prim.Native.String.{len}
use pi_go_coding_agent.Base.{
  ℕ, zero, suc, ◌+◌, ◌-◌, ◌/◌, String, Bool, true, false, List, [], ◌∷◌, ◌++◌, Option, none, some,
  length, get_elem?, drop, ltb, leb, not, ◌||◌, ◌&&◌, ◌==◌, if◌then◌else◌,
}
use pi_go_coding_agent.Base.Text.{trim_space, join, ◌^^◌}
use pi_go_coding_agent.Types.{
  Role, user, assistant, tool, other, BlockType, text, thinking, tool_call, ContentBlock, Message,
  Usage, Fields, is_empty_fields,
}
use pi_go_coding_agent.Session.Data.{
  EntryType, message, custom_message, branch_summary, model_change, thinking_level_change, Entry,
}

-- AssistantText
assistant_text_from : String → List ContentBlock → String
assistant_text_from out [] = out
assistant_text_from out (b ∷ bs) =
    assistant_text_from
      (elim b.type [ text ↦ if out == "" then b.body else out ^^ "\n" ^^ b.body | _ ↦ out ]) bs

unfoldable pub assistant_text : Message → String
unfolding assistant_text_from
assistant_text m = assistant_text_from "" m.content

-- latestUserPromptText: the last text of the user that is not blank.
unfoldable pub latest_user_prompt_text : List Message → String
latest_user_prompt_text [] = ""
latest_user_prompt_text (m ∷ ms) =
    let later = latest_user_prompt_text ms in
    if later == "" then elim m.role [ user ↦ trim_space (assistant_text m) | _ ↦ "" ] else later

-- contentBlocksText
text_parts : List ContentBlock → List String
text_parts [] = []
text_parts (b ∷ bs) =
    let rest = text_parts bs in
    let line = trim_space b.body in
    elim b.type [ text ↦ if line == "" then rest else line ∷ rest | _ ↦ rest ]

unfoldable pub content_blocks_text : List ContentBlock → String
unfolding text_parts
content_blocks_text bs = join "\n" (text_parts bs)

abbrev pub role_name : Role → String
role_name user = "user"
role_name assistant = "assistant"
role_name tool = "toolResult"
role_name (other s) = s

-- The line that formatCompactionSource makes of an entry, if it makes one.
line_if : String → String → List String
line_if label line = if line == "" then [] else (label ^^ line) ∷ []

message_line : Option Message → List String
unfolding line_if
message_line none = []
message_line (some m) = line_if (role_name m.role ^^ ": ") (trim_space (assistant_text m))

unfoldable pub source_line : Entry → List String
unfolding message_line line_if
source_line e = elim e.type [
  | message ↦ message_line e.body
  | custom_message ↦
      line_if (if e.custom_type == "" then "custom: " else "custom[" ^^ e.custom_type ^^ "]: ")
        (trim_space (content_blocks_text e.content))
  | branch_summary ↦ line_if "branch_summary: " (trim_space e.summary)
  | model_change ↦ ("model_change: " ^^ e.provider ^^ "/" ^^ e.model_id) ∷ []
  | thinking_level_change ↦ ("thinking_level_change: " ^^ e.thinking_level) ∷ []
  | _ ↦ []
]

unfoldable pub source_lines : String → List Entry → List String
source_lines first [] = []
source_lines first (e ∷ es) =
    let rest = source_lines first es in if e.id == first then [] else source_line e ++ rest

-- formatCompactionSource
unfoldable pub format_compaction_source : List Entry → String → String
format_compaction_source es first = join "\n" (source_lines first es)

abbrev pub is_message_like : Entry → Bool
is_message_like e = elim e.type [
  | message ↦ true
  | custom_message ↦ true
  | branch_summary ↦ true
  | _ ↦ false
]

unfoldable pub message_like_ids : List Entry → List String
message_like_ids [] = []
message_like_ids (e ∷ es) =
    let rest = message_like_ids es in if is_message_like e then e.id ∷ rest else rest

abbrev pub at_least_one : ℕ → ℕ
at_least_one zero = 1
at_least_one (suc n) = suc n

-- selectCompactionFirstKeptEntry; the code's "", false is `none`.
unfoldable pub select_first_kept : List Entry → ℕ → Option String
select_first_kept es keep_recent =
    let n = at_least_one keep_recent in
    let ids = message_like_ids es in
    if leb (length ids) n then none else get_elem? ids (length ids - n)

-- branchHasEntryID
unfoldable pub branch_has_entry_id : List Entry → String → Bool
branch_has_entry_id [] id = false
branch_has_entry_id (e ∷ es) id = (e.id == id) || branch_has_entry_id es id

-- calculateContextTokens
unfoldable pub calculate_context_tokens : Usage → ℕ
calculate_context_tokens u =
    if ltb 0 u.total then u.total else u.input + u.output + u.cache_read + u.cache_write

-- `marshal_size` is the length of what json.Marshal makes of the arguments of a tool call.
module _ (marshal_size : Fields → ℕ) where
  block_chars : ContentBlock → ℕ
  block_chars b = elim b.type [
    | text ↦ len b.body
    | thinking ↦ len b.thoughts
    | tool_call ↦ len b.name + (if is_empty_fields b.arguments then 0 else marshal_size b.arguments)
    | _ ↦ len b.body
  ]

  content_chars : List ContentBlock → ℕ
  unfolding block_chars
  content_chars [] = 0
  content_chars (b ∷ bs) = block_chars b + content_chars bs

  -- estimateMessageTokens
  unfoldable pub estimate_message_tokens : Message → ℕ
  unfolding content_chars
  estimate_message_tokens m =
      let chars = content_chars m.content in if leb chars 0 then 0 else (chars + 3) / 4

  unfoldable pub sum_tokens : List Message → ℕ
  sum_tokens [] = 0
  sum_tokens (m ∷ ms) = estimate_message_tokens m + sum_tokens ms

  -- A message whose usage counts for all before it.
  abbrev pub has_usage : Message → Bool
  has_usage m = elim m.role [
    | assistant ↦
        not ((m.stop_reason == "aborted") || (m.stop_reason == "error"))
        && ltb 0 (calculate_context_tokens m.usage)
    | _ ↦ false
  ]

  -- The index of the last such message, and its tokens; -1 in the code is `none`.
  unfoldable pub last_usage : List Message → Option (ℕ × ℕ)
  last_usage [] = none
  last_usage (m ∷ ms) = elim (last_usage ms) [
    | some (i, tokens) ↦ some (suc i, tokens)
    | none ↦ if has_usage m then some (0, calculate_context_tokens m.usage) else none
  ]

  -- estimateContextTokens
  unfoldable pub estimate_context_tokens : List Message → ℕ
  estimate_context_tokens ms = elim (last_usage ms) [
    | none ↦ sum_tokens ms
    | some (i, tokens) ↦ tokens + sum_tokens (drop (suc i) ms)
  ]
