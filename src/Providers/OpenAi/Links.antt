-- ===== src/Providers/OpenAi/Links.antt =====
-- internal/providers/openai.go: which calls the outputs of openAIResponsesInput answer.
use pi_go_coding_agent.Base.{
  ℕ, suc, ◌+◌, ◌*◌, String, Bool, true, false, List, [], ◌∷◌, ◌++◌, ◌≡◌, refl, ap, all, flat_map,
  inl, inr, ◌==◌, ◌&&◌, not, arith, Bool-cases, ==→≡,
}
use pi_go_coding_agent.Base.Text.{trim_space}
use pi_go_coding_agent.Base.Strings.{trim_right_of}
use pi_go_coding_agent.Types.{
  Role, user, assistant, tool, BlockType, text, thinking, tool_call, ContentBlock, Message, Fields,
}
use pi_go_coding_agent.Config.Models.{Model}
use pi_go_coding_agent.Providers.OpenAi.Messages.{ModelContext}
use pi_go_coding_agent.Providers.OpenAi.Ids.{
  is_underscore, call_part, split_tool_call_id, extract_call_id,
}
use pi_go_coding_agent.Providers.OpenAi.Input.{
  Item, prompt_item, output_message, function_call, function_call_output, input_items,
  message_items, assistant_items, block_items, call_item, output_text, or_empty_prompt,
  prompt_items, transformed_history, open_ai_responses_input,
}

-- A call or an answer to one, with the identifier that the service pairs them by
pub data Link : Type 0 where
  calls answers : String → Link

-- The links of the items that are sent
unfoldable pub sent_links : List Item → List Link
sent_links [] = []
sent_links (i ∷ is) = elim i [
  | prompt_item role parts ↦ sent_links is
  | output_message n s ↦ sent_links is
  | function_call item call name arguments ↦ calls call ∷ sent_links is
  | function_call_output call output ↦ answers call ∷ sent_links is
]

unfoldable pub block_links : ContentBlock → List Link
block_links b = elim b.type [ tool_call ↦ calls (call_part b.id) ∷ [] | _ ↦ [] ]

unfoldable pub message_links : Message → List Link
unfolding block_links
message_links m = elim m.role [
  | assistant ↦ flat_map block_links m.content
  | tool ↦ answers (call_part m.tool_call_id) ∷ []
  | _ ↦ []
]

-- An identifier that stays what it is: no space around it, and a part before the bar that is not
-- blank and does not end in an underscore.
unfoldable pub is_plain : String → Bool
is_plain id =
    (trim_space id == id)
    && not (id == "")
    && not (trim_space (call_part id) == "")
    && not (call_part id == "")
    && (trim_right_of is_underscore (call_part id) == call_part id)

unfoldable pub block_is_plain : ContentBlock → Bool
block_is_plain b = elim b.type [ tool_call ↦ is_plain b.id | _ ↦ true ]

unfoldable pub message_is_plain : Message → Bool
unfolding block_is_plain
message_is_plain m = elim m.role [
  | assistant ↦ all block_is_plain m.content
  | tool ↦ is_plain m.tool_call_id
  | _ ↦ true
]

sent_links-append : (is js : List Item) → sent_links (is ++ js) ≡ sent_links is ++ sent_links js
unfolding sent_links
sent_links-append [] js = refl
sent_links-append (prompt_item role parts ∷ is) js = sent_links-append is js
sent_links-append (output_message n s ∷ is) js = sent_links-append is js
sent_links-append (function_call i c n a ∷ is) js =
    ap (λ ls. calls c ∷ ls) (sent_links-append is js)
sent_links-append (function_call_output c o ∷ is) js =
    ap (λ ls. answers c ∷ ls) (sent_links-append is js)

extract_call_id-plain :
    (drawn id : String) → is_plain id ≡ true → extract_call_id drawn id ≡ call_part id
unfolding is_plain extract_call_id
extract_call_id-plain drawn id plain =
    let trimmed : trim_space id ≡ id = ==→≡ (trim_space id) id (ground arith) in
    let full : (id == "") ≡ false = ground arith in
    let named : (trim_space (call_part id) == "") ≡ false = ground arith in
    rw (trimmed, full, named)

split_tool_call_id-plain :
    (drawn drawn' id : String)
    → is_plain id ≡ true
    → (split_tool_call_id drawn drawn' id).0 ≡ call_part id
unfolding is_plain split_tool_call_id
split_tool_call_id-plain drawn drawn' id plain =
    let kept : trim_right_of is_underscore (call_part id) ≡ call_part id =
      ==→≡ (trim_right_of is_underscore (call_part id)) (call_part id) (ground arith) in
    let full : (call_part id == "") ≡ false = ground arith in rw (kept, full)

output_text-sent_links : (s : String) (k : ℕ) → sent_links (output_text s k).0 ≡ []
unfolding output_text sent_links
output_text-sent_links s k = elim (Bool-cases (trim_space s == "")) [
  | inl blank ↦ rw (blank)
  | inr full ↦ rw (full)
]

module _ (random : ℕ → String) (marshal : Fields → String) where
  block_items-links :
      (t : BlockType) (b : ContentBlock) (n k : ℕ)
      → b.type ≡ t
      → block_is_plain b ≡ true
      → sent_links (block_items random marshal n b k).0 ≡ block_links b
  unfolding block_items block_links block_is_plain call_item sent_links
  block_items-links text b n k is plain = rw (is) (output_text-sent_links b.body k)
  block_items-links thinking b n k is plain = rw (is) (output_text-sent_links b.thoughts k)
  block_items-links (BlockType.other t) b n k is plain = rw (is)
  block_items-links tool_call b n k is plain =
      let known : is_plain b.id ≡ true = rw (is) at plain in
      rw (is, split_tool_call_id-plain (random (2 * n)) (random (2 * n + 1)) b.id known)

  assistant_items-links :
      (bs : List ContentBlock) (n k : ℕ)
      → all block_is_plain bs ≡ true
      → sent_links (assistant_items random marshal bs n k).0 ≡ flat_map block_links bs
  unfolding assistant_items sent_links
  assistant_items-links [] n k plain = refl
  assistant_items-links (b ∷ bs) n k plain =
      let one : block_is_plain b ≡ true = ground arith in
      let others : all block_is_plain bs ≡ true = ground arith in
      let k' = (block_items random marshal n b k).1 in
      rw (
        sent_links-append,
        block_items-links b.type b n k refl one,
        assistant_items-links bs (suc n) k' others,
      )

  message_items-links :
      (r : Role) (m : Message) (n k : ℕ)
      → m.role ≡ r
      → message_is_plain m ≡ true
      → sent_links (message_items random marshal m n k).0 ≡ message_links m
  unfolding message_items message_links message_is_plain sent_links
  message_items-links user m n k is plain = rw (is)
  message_items-links (Role.other r) m n k is plain = rw (is)
  message_items-links assistant m n k is plain =
      rw (is) (assistant_items-links m.content n k (rw (is) at plain))
  message_items-links tool m n k is plain =
      rw (is, extract_call_id-plain (random (2 * n)) m.tool_call_id (rw (is) at plain))

  input_items-links :
      (ms : List Message) (n k : ℕ)
      → all message_is_plain ms ≡ true
      → sent_links (input_items random marshal ms n k) ≡ flat_map message_links ms
  unfolding input_items sent_links
  input_items-links [] n k plain = refl
  input_items-links (m ∷ ms) n k plain =
      let one : message_is_plain m ≡ true = ground arith in
      let others : all message_is_plain ms ≡ true = ground arith in
      let (front, n', k') = message_items random marshal m n k in
      rw (
        sent_links-append,
        message_items-links m.role m n k refl one,
        input_items-links ms n' k' others,
      )

  or_empty_prompt-sent_links : (is : List Item) → sent_links (or_empty_prompt is) ≡ sent_links is
  unfolding or_empty_prompt sent_links
  or_empty_prompt-sent_links [] = refl
  or_empty_prompt-sent_links (i ∷ is) = refl

  prompt_items-sent_links :
      (model : Model) (include : Bool) (prompt : String)
      → sent_links (prompt_items model include prompt) ≡ []
  unfolding prompt_items sent_links
  prompt_items-sent_links model include prompt =
      elim (Bool-cases (include && not (trim_space prompt == ""))) [
        | inl shown ↦ rw (shown)
        | inr left_out ↦ rw (left_out)
      ]

  -- openAIResponsesInput pairs every output with the call that it answers: if, in the transformed
  -- history, no identifier of a call or of a result has spaces around it, and its part before the bar,
  -- sanitized, is not blank and does not end in an underscore, then the call_ids of the calls and of
  -- the outputs are these parts, in the order of the calls and the results in that history.
  pub open_ai_responses_input-links :
      (drawn : String → String × String) (now : ℕ) (model : Model) (include : Bool)
      (ctx : ModelContext)
      → let ms = transformed_history drawn now model ctx.messages in
        all message_is_plain ms ≡ true
        → sent_links (open_ai_responses_input random marshal drawn now model include ctx)
          ≡ flat_map message_links ms
  unfolding open_ai_responses_input
  open_ai_responses_input-links drawn now model include ctx plain =
      rw (or_empty_prompt-sent_links, sent_links-append, prompt_items-sent_links)
        (input_items-links (transformed_history drawn now model ctx.messages) 0 0 plain)
