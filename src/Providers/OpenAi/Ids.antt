-- ===== src/Providers/OpenAi/Ids.antt =====
-- internal/providers/openai.go: the identifiers of the tool calls. The text that randomOpenAIID draws
-- is an argument of each function that may ask for one.
use Prim.Native.Char.{code}
use Prim.Native.String
use pi_go_coding_agent.Base.{
  ℕ, zero, suc, String, Bool, leb, ltb, ◌==◌, ◌&&◌, ◌||◌, not, if◌then◌else◌, ℕ_discrete,
}
use pi_go_coding_agent.Base.Text.{trim_space, ◌^^◌}
use pi_go_coding_agent.Base.Strings.{
  is_code, cut_at, take_bytes, trim_right_of, has_prefix, contains, byte_length, utf8_size,
  text_or_empty,
}
use pi_go_coding_agent.Config.Models.{Model}

abbrev pub bar : ℕ
bar = 124

abbrev pub is_alphanumeric : ℕ → Bool
is_alphanumeric c = (leb 97 c && leb c 122) || (leb 65 c && leb c 90) || (leb 48 c && leb c 57)

abbrev pub is_underscore : ℕ → Bool
is_underscore c = is_code c 95

underscores : ℕ → String
underscores zero = ""
underscores (suc n) = "_" ^^ underscores n

-- sanitizeID: each byte of a character that is not allowed becomes an underscore.
unfoldable pub sanitize_id : String → String
unfolding underscores ℕ_discrete
sanitize_id String.[] = ""
sanitize_id (String.◌∷◌ c s) =
    let rest = sanitize_id s in
    if is_alphanumeric (code c) || is_underscore (code c) || is_code (code c) 45
    then String.◌∷◌ c rest
    else underscores (utf8_size (code c)) ^^ rest

-- trimAndSanitizeID
unfoldable pub trim_and_sanitize_id : String → ℕ → String
unfolding sanitize_id
trim_and_sanitize_id id most = take_bytes most (sanitize_id id)

abbrev pub text_or : String → String → String
text_or s t = if s == "" then t else s

-- The parts of a call's identifier before and after the bar.
unfoldable pub call_part : String → String
call_part id = trim_and_sanitize_id (cut_at bar id).0 64

unfoldable pub item_part : String → String
item_part id = trim_and_sanitize_id (text_or_empty (cut_at bar id).1) 64

-- splitToolCallIDForResponses, with the texts that are drawn for the call and for the item
unfoldable pub split_tool_call_id : String → String → String → String × String
unfolding call_part item_part
split_tool_call_id drawn drawn' id =
    let item = text_or (trim_right_of is_underscore (item_part id)) ("fc_" ^^ drawn') in
    (
      text_or (trim_right_of is_underscore (call_part id)) ("call_" ^^ drawn),
      if has_prefix item "fc" then item else take_bytes 64 ("fc_" ^^ item),
    )

-- extractCallID
unfoldable pub extract_call_id : String → String → String
unfolding call_part
extract_call_id drawn id =
    if trim_space id == ""
    then "call_" ^^ drawn
    else if trim_space (call_part (trim_space id)) == ""
    then "call_" ^^ drawn
    else call_part (trim_space id)

abbrev pub has_responses_ids : String → Bool
has_responses_ids provider =
    (provider == "openai")
    || (provider == "openai-codex")
    || (provider == "opencode")
    || (provider == "azure-openai-responses")

-- normalizeOpenAIResponsesToolCallID
unfoldable pub normalize_responses_id : String → String → Model → String → String
unfolding split_tool_call_id
normalize_responses_id drawn drawn' model id =
    if (id == "") || not (has_responses_ids model.provider)
    then id
    else if not (contains id "|")
    then trim_and_sanitize_id id 64
    else let (call, item) = split_tool_call_id drawn drawn' id in call ^^ "|" ^^ item

-- The letters and digits of an identifier
unfoldable pub alphanumerics : String → String
unfolding ℕ_discrete
alphanumerics String.[] = ""
alphanumerics (String.◌∷◌ c s) =
    let rest = alphanumerics s in if is_alphanumeric (code c) then String.◌∷◌ c rest else rest

-- normalizeMistralToolID: nine letters and digits, the last of them from a pad where there are fewer.
unfoldable pub normalize_mistral_tool_id : String → String
unfolding alphanumerics
normalize_mistral_tool_id id =
    let s = alphanumerics id in take_bytes 9 (s ^^ String.slice "ABCDEFGHI" (byte_length s) 9)

-- normalizeOpenAIToolCallID
unfoldable pub normalize_tool_call_id : Bool → Model → String → String
unfolding normalize_mistral_tool_id
normalize_tool_call_id requires_mistral_ids model id =
    if id == ""
    then id
    else if requires_mistral_ids
    then normalize_mistral_tool_id id
    else if contains id "|"
    then take_bytes 40 (sanitize_id (cut_at bar id).0)
    else if (model.provider == "openai") && ltb 40 (byte_length id)
    then take_bytes 40 id
    else id
