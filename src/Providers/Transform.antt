-- ===== src/Providers/Transform.antt =====
-- internal/providers/transform.go: transformMessages, which prepares a stored history for a model.
-- The time of a message that it makes is an argument.
pub mod Answers
pub mod Normal
use pi_go_coding_agent.Base.{
  ℕ, String, Bool, true, false, List, [], ◌∷◌, ◌++◌, Option, none, some, any, keep, ◌&&◌, ◌||◌, not,
  ◌==◌, if◌then◌else◌,
}
use pi_go_coding_agent.Base.Text.{trim_space}
use pi_go_coding_agent.Base.Dict.{Dict, lookup, insert}
use pi_go_coding_agent.Types.{
  Role, user, assistant, tool, other, BlockType, text, thinking, tool_call, ContentBlock, Message,
  empty_message, text_block,
}

-- The fields of types.Model that the transformation reads.
pub record Target : Type 0 where
  pub id : String
  pub api : String
  pub provider : String

abbrev pub is_same_model : Target → Message → Bool
is_same_model t m = (m.provider == t.provider) && (m.api == t.api) && (m.model == t.id)

abbrev pub is_dropped : Message → Bool
is_dropped m = (m.stop_reason == "error") || (m.stop_reason == "aborted")

-- One block of an assistant message: the blocks that replace it, and the new idMap. `normalize` is
-- the function of the provider, none where it is nil.
unfoldable pub thinking_block : Bool → ContentBlock → List ContentBlock
thinking_block same b =
    let thoughts = trim_space b.thoughts in
    if thoughts == "" then [] else if same then b ∷ [] else text_block thoughts ∷ []

rename : ContentBlock → Dict String → String → ContentBlock × Dict String
rename b ids id =
    if not (id == "") && not (id == b.id)
    then (record b { id = id }, insert b.id id ids)
    else (b, ids)

unfoldable pub call_block :
    Option (String → String) → Bool → ContentBlock → Dict String → ContentBlock × Dict String
unfolding rename
call_block normalize true b ids = (b, ids)
call_block none false b ids = (record b { thought_signature = "" }, ids)
call_block (some f) false b ids = rename (record b { thought_signature = "" }) ids (f b.id)

unfoldable pub transform_block :
    Option (String → String) → Bool → ContentBlock → Dict String → List ContentBlock × Dict String
transform_block normalize same b ids = elim b.type [
  | thinking ↦ (thinking_block same b, ids)
  | tool_call ↦ let (b', ids') = call_block normalize same b ids in (b' ∷ [], ids')
  | _ ↦ (b ∷ [], ids)
]

unfoldable pub transform_blocks :
    Option (String → String)
    → Bool
    → List ContentBlock
    → Dict String
    → List ContentBlock × Dict String
transform_blocks normalize same [] ids = ([], ids)
transform_blocks normalize same (b ∷ bs) ids =
    let (front, ids₁) = transform_block normalize same b ids in
    let (back, ids₂) = transform_blocks normalize same bs ids₁ in (front ++ back, ids₂)

-- A tool result takes the new identifier of its call.
unfoldable pub rename_result : Dict String → Message → Message
rename_result ids m = elim (lookup m.tool_call_id ids) [
  | none ↦ m
  | some id ↦ if id == "" then m else record m { tool_call_id = id }
]

-- One round of the first loop.
unfoldable pub first_step :
    Option (String → String) → Target → Message → Dict String → List Message × Dict String
first_step normalize t m ids = elim m.role [
  | tool ↦ (rename_result ids m ∷ [], ids)
  | assistant ↦
      if is_dropped m
      then ([], ids)
      else let (blocks, ids') = transform_blocks normalize (is_same_model t m) m.content ids in
        (record m { content = blocks } ∷ [], ids')
  | _ ↦ (m ∷ [], ids)
]

unfoldable pub first_pass :
    Option (String → String) → Target → List Message → Dict String → List Message
first_pass normalize t [] ids = []
first_pass normalize t (m ∷ ms) ids =
    let (front, ids') = first_step normalize t m ids in front ++ first_pass normalize t ms ids'

abbrev pub is_call : ContentBlock → Bool
is_call b = elim b.type [ tool_call ↦ true | _ ↦ false ]

-- The message that stands in for a missing tool result.
abbrev pub no_result : ℕ → ContentBlock → Message
no_result now call = record (empty_message tool) {
  tool_call_id = call.id;
  tool_name = call.name;
  timestamp = now;
  is_error = true;
  content = text_block "No result provided" ∷ [];
}

-- appendMissingToolResults: what it adds to the result.
unfoldable pub missing_results : ℕ → List ContentBlock → List String → List Message
missing_results now [] answered = []
missing_results now (c ∷ cs) answered =
    let rest = missing_results now cs answered in
    if is_call c && not (any (λ id. id == c.id) answered) then no_result now c ∷ rest else rest

-- The second loop, with the calls that wait for a result and the identifiers of the results seen.
unfoldable pub second_pass : ℕ → List Message → List ContentBlock → List String → List Message
second_pass now [] pending answered = []
second_pass now (m ∷ ms) pending answered = elim m.role [
  | assistant ↦
      missing_results now pending answered ++ m ∷ second_pass now ms (keep is_call m.content) []
  | tool ↦ m ∷ second_pass now ms pending (m.tool_call_id ∷ answered)
  | user ↦ elim pending [
    | [] ↦ m ∷ second_pass now ms [] answered
    | c ∷ cs ↦ missing_results now (c ∷ cs) answered ++ m ∷ second_pass now ms [] []
  ]
  | other r ↦ m ∷ second_pass now ms pending answered
]

unfoldable pub transform_messages :
    ℕ → Option (String → String) → Target → List Message → List Message
transform_messages now normalize t ms = second_pass now (first_pass normalize t ms []) [] []
