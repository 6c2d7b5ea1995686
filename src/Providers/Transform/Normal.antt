-- ===== src/Providers/Transform/Normal.antt =====
-- internal/providers/transform.go: what the two passes leave out and add.
use pi_go_coding_agent.Base.{
  ℕ, String, ◌≡◌, refl, Bool-cases, true, false, List, [], ◌∷◌, ◌++◌, Option, none, some, any, keep,
  All, All-append, ◌&&◌, not, ◌==◌, arith, inl, inr, ◌⊎◌, Option-cases, if◌then◌else◌,
}
use pi_go_coding_agent.Base.Dict.{Dict, lookup}
use pi_go_coding_agent.Base.Text.{trim_space}
use pi_go_coding_agent.Types.{
  user, assistant, tool, BlockType, text, thinking, tool_call, ContentBlock, Message,
}
use pi_go_coding_agent.Providers.Transform.{
  thinking_block, call_block, is_call, is_dropped, is_same_model, no_result, missing_results,
  second_pass, first_pass, first_step, transform_block, transform_blocks, rename_result,
  transform_messages, Target,
}
use pi_go_coding_agent.Providers.Transform.Answers.{Role-cases}

-- `Filled now ms out`: `out` is `ms` in order, with stand-ins for tool results between.
pub data Filled (now : ℕ) : List Message → List Message → Type 0 where
  nothing : Filled now [] []
  same : {m : Message} {ms out : List Message} → Filled now ms out → Filled now (m ∷ ms) (m ∷ out)
  stand_in :
      (c : ContentBlock) {ms out : List Message}
      → Filled now ms out
      → Filled now ms (no_result now c ∷ out)

missing-Filled :
    (now : ℕ) (cs : List ContentBlock) (answered : List String) {ms out : List Message}
    → Filled now ms out
    → Filled now ms (missing_results now cs answered ++ out)
unfolding missing_results
missing-Filled now [] answered f = f
missing-Filled now (c ∷ cs) answered f =
    elim (Bool-cases (is_call c && not (any (λ id. id == c.id) answered))) [
      | inl open_call ↦ rw open_call (stand_in c (missing-Filled now cs answered f))
      | inr closed ↦ rw closed (missing-Filled now cs answered f)
    ]

user-Filled :
    (now : ℕ) (m : Message) (ms : List Message) (pending : List ContentBlock)
    (answered : List String)
    → m.role ≡ user
    → ((ids : List String) → Filled now ms (second_pass now ms [] ids))
    → Filled now (m ∷ ms) (second_pass now (m ∷ ms) pending answered)
unfolding second_pass
user-Filled now m ms [] answered is_user rest = simp is_user (same (rest answered))
user-Filled now m ms (c ∷ cs) answered is_user rest =
    simp is_user (missing-Filled now (c ∷ cs) answered (same (rest [])))

-- The second pass keeps every message, in order, and adds stand-ins alone.
pub second_pass-Filled :
    (now : ℕ) (ms : List Message) (pending : List ContentBlock) (answered : List String)
    → Filled now ms (second_pass now ms pending answered)
unfolding second_pass
second_pass-Filled now [] pending answered = nothing
second_pass-Filled now (m ∷ ms) pending answered = elim (Role-cases m.role) [
  | inl is_user ↦ user-Filled now m ms pending answered is_user (second_pass-Filled now ms [])
  | inr (inl is_assistant) ↦ simp is_assistant (
      missing-Filled now pending answered
        (same (second_pass-Filled now ms (keep is_call m.content) [])))
  | inr (inr (inl is_tool)) ↦
      simp is_tool (same (second_pass-Filled now ms pending (m.tool_call_id ∷ answered)))
  | inr (inr (inr (r, is_other))) ↦
      simp is_other (same (second_pass-Filled now ms pending answered))
]

-- A block that a model which did not write it may be sent: no thoughts, and a tool call without
-- the signature of thoughts.
abbrev pub IsPlain : ContentBlock → Type 0
IsPlain b = elim b.type [ thinking ↦ ⊥ | tool_call ↦ b.thought_signature ≡ "" | _ ↦ Unit {0} ]

-- What holds of an assistant message that is sent to the model `t`.
abbrev pub IsFit : Target → Message → Type 0
IsFit t m = elim m.role [
  | assistant ↦ (is_dropped m ≡ false) × ((is_same_model t m ≡ true) ⊎ All IsPlain m.content)
  | _ ↦ Unit {0}
]

BlockType-cases :
    (b : BlockType)
    → (b ≡ text) ⊎ (b ≡ thinking) ⊎ (b ≡ tool_call) ⊎ ((s : String) × (b ≡ BlockType.other s))
BlockType-cases text = inl refl
BlockType-cases thinking = inr (inl refl)
BlockType-cases tool_call = inr (inr (inl refl))
BlockType-cases (BlockType.other s) = inr (inr (inr (s, refl)))

thinking_block-IsPlain : (b : ContentBlock) → All IsPlain (thinking_block false b)
unfolding thinking_block
thinking_block-IsPlain b = elim (Bool-cases (trim_space b.thoughts == "")) [
  | inl blank ↦ rw blank tt
  | inr shown ↦ rw shown (tt, tt)
]

call_block-IsPlain :
    (normalize : Option (String → String)) (b : ContentBlock) (ids : Dict String)
    → b.type ≡ tool_call
    → IsPlain (call_block normalize false b ids).0
unfolding call_block
call_block-IsPlain none b ids is_call = simp is_call refl
call_block-IsPlain (some f) b ids is_call =
    elim (Bool-cases (not (f b.id == "") && not (f b.id == b.id))) [
      | inl new ↦ rw new (simp is_call refl)
      | inr old ↦ rw old (simp is_call refl)
    ]

module _ (normalize : Option (String → String)) where
  transform_block-IsPlain :
      (b : ContentBlock) (ids : Dict String) → All IsPlain (transform_block normalize false b ids).0
  unfolding transform_block
  transform_block-IsPlain b ids = elim (BlockType-cases b.type) [
    | inl is_text ↦ simp (is_text, transform_block) (simp (is_text, IsPlain) tt, tt)
    | inr (inl is_thinking) ↦ simp (is_thinking, transform_block) (thinking_block-IsPlain b)
    | inr (inr (inl is_tool_call)) ↦
        simp (is_tool_call, transform_block) (call_block-IsPlain normalize b ids is_tool_call, tt)
    | inr (inr (inr (s, is_other))) ↦
        simp (is_other, transform_block) (simp (is_other, IsPlain) tt, tt)
  ]

  transform_blocks-IsPlain :
      (bs : List ContentBlock) (ids : Dict String)
      → All IsPlain (transform_blocks normalize false bs ids).0
  unfolding transform_blocks
  transform_blocks-IsPlain [] ids = tt
  transform_blocks-IsPlain (b ∷ bs) ids =
      All-append IsPlain _ _ (transform_block-IsPlain b ids)
        (transform_blocks-IsPlain bs (transform_block normalize false b ids).1)

  rename_result-IsFit :
      (t : Target) (m : Message) (ids : Dict String) → m.role ≡ tool → IsFit t (rename_result ids m)
  unfolding rename_result
  rename_result-IsFit t m ids is_tool = elim (Option-cases (lookup m.tool_call_id ids)) [
    | inl missing ↦ rw (missing, IsFit, rename_result) (simp is_tool tt)
    | inr (id, there) ↦ elim (Bool-cases (id == "")) [
      | inl blank ↦ rw (there, blank, IsFit, rename_result) (simp is_tool tt)
      | inr new ↦ rw (there, new, IsFit, rename_result) (simp is_tool tt)
    ]
  ]

  abbrev sent : Target → Message → Dict String → List Message
  sent t m ids =
      if is_dropped m
      then []
      else record m { content = (transform_blocks normalize (is_same_model t m) m.content ids).0 }
        ∷ []

  IsPlain-or_same :
      (t : Target) (m : Message) (ids : Dict String)
      → (is_same_model t m ≡ true)
        ⊎ All IsPlain (transform_blocks normalize (is_same_model t m) m.content ids).0
  IsPlain-or_same t m ids = elim (Bool-cases (is_same_model t m)) [
    | inl native ↦ inl native
    | inr foreign ↦ inr (rw foreign (transform_blocks-IsPlain m.content ids))
  ]

  assistant-IsFit :
      (t : Target) (m : Message) (ids : Dict String)
      → m.role ≡ assistant
      → All (IsFit t) (sent t m ids)
  assistant-IsFit t m ids is_assistant = elim (Bool-cases (is_dropped m)) [
    | inl dropped ↦ rw dropped tt
    | inr kept ↦ rw kept (simp (is_assistant, IsFit) ((kept, IsPlain-or_same t m ids), tt))
  ]

  first_step-sent :
      (t : Target) (m : Message) (ids : Dict String)
      → m.role ≡ assistant
      → (first_step normalize t m ids).0 ≡ sent t m ids
  unfolding first_step
  first_step-sent t m ids is_assistant = ground arith

  first_step-IsFit :
      (t : Target) (m : Message) (ids : Dict String)
      → All (IsFit t) (first_step normalize t m ids).0
  unfolding first_step
  first_step-IsFit t m ids = elim (Role-cases m.role) [
    | inl is_user ↦ simp (is_user, first_step) (simp (is_user, IsFit) tt, tt)
    | inr (inl is_assistant) ↦
        rw (first_step-sent t m ids is_assistant) (assistant-IsFit t m ids is_assistant)
    | inr (inr (inl is_tool)) ↦ simp (is_tool, first_step) (rename_result-IsFit t m ids is_tool, tt)
    | inr (inr (inr (s, is_other))) ↦ simp (is_other, first_step) (simp (is_other, IsFit) tt, tt)
  ]

  -- The first pass leaves no failed message of a model and, in the messages of a model other than
  -- the target, no thoughts and no signatures on tool calls.
  pub first_pass-IsFit :
      (t : Target) (ms : List Message) (ids : Dict String)
      → All (IsFit t) (first_pass normalize t ms ids)
  unfolding first_pass
  first_pass-IsFit t [] ids = tt
  first_pass-IsFit t (m ∷ ms) ids =
      All-append (IsFit t) _ _ (first_step-IsFit t m ids)
        (first_pass-IsFit t ms (first_step normalize t m ids).1)

-- What transformMessages gives is, in order, the history after its first pass, with nothing but
-- stand-ins for tool results between.
pub transform_messages-Filled :
    (now : ℕ) (normalize : Option (String → String)) (t : Target) (ms : List Message)
    → Filled now (first_pass normalize t ms []) (transform_messages now normalize t ms)
unfolding transform_messages
transform_messages-Filled now normalize t ms =
    second_pass-Filled now (first_pass normalize t ms []) [] []
