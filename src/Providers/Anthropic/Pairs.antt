-- ===== src/Providers/Anthropic/Pairs.antt =====
-- internal/providers/anthropic.go: which calls the results of anthropicMessagesFromContext answer.
use pi_go_coding_agent.Base.{
  ℕ, String, Bool, true, false, List, [], ◌∷◌, ◌++◌, some, ◌≡◌, refl, ap, inl, inr, ◌==◌, not, all,
  flat_map, arith, Bool-cases, append_assoc, append-nil,
}
use pi_go_coding_agent.Base.Text.{trim_space}
use pi_go_coding_agent.Types.{
  Role, user, assistant, tool, BlockType, text, thinking, tool_call, ContentBlock, Message,
}
use pi_go_coding_agent.Config.Models.{Model}
use pi_go_coding_agent.Providers.Transform.{transform_messages}
use pi_go_coding_agent.Providers.OpenAi.Chat.{transform_target}
use pi_go_coding_agent.Providers.OpenAi.Links.{Link, calls, answers}
use pi_go_coding_agent.Providers.OpenAi.Messages.{ModelContext}
use pi_go_coding_agent.Providers.Anthropic.History.{
  AnthropicPart, text_part, thinking_part, tool_use, tool_result, AnthropicMessage, flush, or_text,
  result_part, thinking_parts, block_part, block_parts, anthropic_loop, normalize_anthropic_id,
  anthropic_messages_from_context,
}

-- The calls and the answers among the parts that are sent
unfoldable pub part_links : List AnthropicPart → List Link
part_links [] = []
part_links (text_part s ∷ ps) = part_links ps
part_links (thinking_part s sig ∷ ps) = part_links ps
part_links (tool_use id name input ∷ ps) = calls id ∷ part_links ps
part_links (tool_result id content failed ∷ ps) = answers id ∷ part_links ps

unfoldable pub request_links : List AnthropicMessage → List Link
unfolding part_links
request_links ms = flat_map (λ m. part_links m.content) ms

-- The calls and the results of a history
unfoldable pub block_ids : ContentBlock → List Link
block_ids b = elim b.type [ tool_call ↦ calls b.id ∷ [] | _ ↦ [] ]

unfoldable pub message_ids : Message → List Link
unfolding block_ids
message_ids m = elim m.role [
  | assistant ↦ flat_map block_ids m.content
  | tool ↦ answers m.tool_call_id ∷ []
  | _ ↦ []
]

-- Whether a call has an identifier
unfoldable pub block_is_named : ContentBlock → Bool
block_is_named b = elim b.type [ tool_call ↦ not (b.id == "") | _ ↦ true ]

unfoldable pub calls_named : Message → Bool
unfolding block_is_named
calls_named m = elim m.role [ assistant ↦ all block_is_named m.content | _ ↦ true ]

part_links-append :
    (ps qs : List AnthropicPart) → part_links (ps ++ qs) ≡ part_links ps ++ part_links qs
unfolding part_links
part_links-append [] qs = refl
part_links-append (text_part s ∷ ps) qs = part_links-append ps qs
part_links-append (thinking_part s sig ∷ ps) qs = part_links-append ps qs
part_links-append (tool_use id name input ∷ ps) qs =
    ap (λ ls. calls id ∷ ls) (part_links-append ps qs)
part_links-append (tool_result id content failed ∷ ps) qs =
    ap (λ ls. answers id ∷ ls) (part_links-append ps qs)

request_links-flush :
    (ps : List AnthropicPart) (ms : List AnthropicMessage)
    → request_links (flush ps ++ ms) ≡ part_links ps ++ request_links ms
unfolding request_links flush part_links
request_links-flush [] ms = refl
request_links-flush (p ∷ ps) ms = refl

part_links-or_text :
    (m : Message) (ps : List AnthropicPart) → part_links (or_text m ps) ≡ part_links ps
unfolding part_links or_text
part_links-or_text m [] = refl
part_links-or_text m (p ∷ ps) = refl

part_links-thinking_parts : (b : ContentBlock) → part_links (thinking_parts b) ≡ []
unfolding part_links thinking_parts
part_links-thinking_parts b = elim (Bool-cases (trim_space b.thoughts == "")) [
  | inl blank ↦ rw (blank)
  | inr full ↦ elim (Bool-cases (b.thinking_sig == "")) [
    | inl unsigned ↦ rw (full, unsigned)
    | inr signed ↦ rw (full, signed)
  ]
]

module _ (random : ℕ → String) where
  part_links-block_part :
      (t : BlockType) (b : ContentBlock) (n : ℕ)
      → b.type ≡ t
      → block_is_named b ≡ true
      → part_links (block_part random b n).0 ≡ block_ids b
  unfolding block_part block_ids block_is_named part_links
  part_links-block_part text b n is named = rw (is)
  part_links-block_part thinking b n is named = rw (is) (part_links-thinking_parts b)
  part_links-block_part (BlockType.other t) b n is named = rw (is)
  part_links-block_part tool_call b n is named =
      let known : not (b.id == "") ≡ true = rw (is) at named in
      let full : (b.id == "") ≡ false = ground arith in rw (is, full)

  part_links-block_parts :
      (bs : List ContentBlock) (n : ℕ)
      → all block_is_named bs ≡ true
      → part_links (block_parts random bs n).0 ≡ flat_map block_ids bs
  unfolding block_parts part_links
  part_links-block_parts [] n named = refl
  part_links-block_parts (b ∷ bs) n named =
      let one : block_is_named b ≡ true = ground arith in
      let others : all block_is_named bs ≡ true = ground arith in
      let n' = (block_part random b n).1 in
      rw (
        part_links-append,
        part_links-block_part b.type b n refl one,
        part_links-block_parts bs n' others,
      )

  flushed : (ps : List AnthropicPart) → request_links (flush ps) ≡ part_links ps
  unfolding request_links flush part_links
  flushed [] = refl
  flushed (p ∷ ps) = rw (append-nil)

  Sends : List Message → Type 0
  Sends ms =
      (waiting : List AnthropicPart) (n : ℕ)
      → request_links (anthropic_loop random ms waiting n)
        ≡ part_links waiting ++ flat_map message_ids ms

  Sends-step :
      (r : Role) (m : Message) (ms : List Message)
      → m.role ≡ r
      → calls_named m ≡ true
      → Sends ms
      → Sends (m ∷ ms)
  unfolding Sends anthropic_loop message_ids calls_named request_links part_links result_part
  Sends-step user m ms is named sends waiting n = rw (is, request_links-flush, sends [] n)
  Sends-step (Role.other r) m ms is named sends waiting n = rw (is, request_links-flush, sends [] n)
  Sends-step tool m ms is named sends waiting n =
      rw (is, sends (waiting ++ result_part m ∷ []) n, part_links-append, append_assoc)
  Sends-step assistant m ms is named sends waiting n =
      let (parts, n') = block_parts random m.content n in
      let known : all block_is_named m.content ≡ true = rw (is) at named in
      rw (
        is,
        request_links-flush,
        part_links-or_text,
        part_links-block_parts m.content n known,
        sends [] n',
      )

  all-Sends : (ms : List Message) → all calls_named ms ≡ true → Sends ms
  unfolding Sends anthropic_loop
  all-Sends [] named waiting n = rw (flushed, append-nil)
  all-Sends (m ∷ ms) named waiting n =
      let one : calls_named m ≡ true = ground arith in
      let others : all calls_named ms ≡ true = ground arith in
      Sends-step m.role m ms refl one (all-Sends ms others) waiting n

  -- Every call and every result is sent once and in order by anthropicMessagesFromContext: if every
  -- call of the transformed history has an identifier, the identifiers of the calls and of the results
  -- in the request, read message by message, are those of the calls and of the results of that history.
  pub anthropic_messages_from_context-message_ids :
      (now : ℕ) (ctx : ModelContext) (model : Model)
      → let ms =
          transform_messages now
            (some normalize_anthropic_id)
            (transform_target model)
            ctx.messages in
        all calls_named ms ≡ true
        → request_links (anthropic_messages_from_context random now ctx model)
          ≡ flat_map message_ids ms
  unfolding anthropic_messages_from_context Sends part_links
  anthropic_messages_from_context-message_ids now ctx model named =
      let ms =
        transform_messages now (some normalize_anthropic_id) (transform_target model)
          ctx.messages in
      all-Sends ms named [] 0
