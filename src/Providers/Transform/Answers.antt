-- ===== src/Providers/Transform/Answers.antt =====
-- internal/providers/transform.go: the tool calls of the prepared history and their results.
use pi_go_coding_agent.Base.{
  ℕ, String, ◌≡◌, refl, Bool-cases, true, List, [], ◌∷◌, ◌++◌, Option, any, keep, All, ◌&&◌, not,
  ◌==◌, ==-refl, arith, inl, inr, ◌⊎◌, if◌then◌else◌,
}
use pi_go_coding_agent.Types.{Role, user, assistant, tool, other, ContentBlock, Message}
use pi_go_coding_agent.Providers.Transform.{
  is_call, missing_results, second_pass, first_pass, transform_messages, Target,
}

-- The identifiers of the tool calls of a message.
abbrev pub call_ids : List ContentBlock → List String
call_ids [] = []
call_ids (b ∷ bs) = let rest = call_ids bs in if is_call b then b.id ∷ rest else rest

abbrev pub without : String → List String → List String
without id = keep (λ x. not (x == id))

-- `waiting` are the calls that wait for a result. None is left where the user or the model speaks.
abbrev pub Answered : List String → List Message → Type 0
Answered waiting [] = Unit {0}
Answered waiting (m ∷ ms) =
    let after_call = Answered (call_ids m.content) ms in
    let after_result = Answered (without m.tool_call_id waiting) ms in
    let after_user = Answered [] ms in
    let after_other = Answered waiting ms in
    elim m.role [
      | assistant ↦ (waiting ≡ []) × after_call
      | tool ↦ after_result
      | user ↦ (waiting ≡ []) × after_user
      | other r ↦ after_other
    ]

-- The calls among `pending` whose identifier is not in `answered`.
waiting_ids : List ContentBlock → List String → List String
waiting_ids [] answered = []
waiting_ids (c ∷ cs) answered =
    let rest = waiting_ids cs answered in
    if is_call c && not (any (λ id. id == c.id) answered) then c.id ∷ rest else rest

waiting-call_ids : (bs : List ContentBlock) → waiting_ids (keep is_call bs) [] ≡ call_ids bs
unfolding waiting_ids
waiting-call_ids [] = refl
waiting-call_ids (b ∷ bs) = ground (arith, waiting-call_ids bs)

without-waiting_ids :
    (id : String) (cs : List ContentBlock) (answered : List String)
    → without id (waiting_ids cs answered) ≡ waiting_ids cs (id ∷ answered)
unfolding waiting_ids
without-waiting_ids id [] answered = refl
without-waiting_ids id (c ∷ cs) answered = ground (arith, without-waiting_ids id cs answered)

-- Every element of the first list is in the second.
abbrev Within : List String → List String → Type 0
Within xs ys = All (λ x. any (λ y. y == x) ys ≡ true) xs

Within-nil : (xs : List String) → Within xs [] → xs ≡ []
Within-nil [] w = refl
Within-nil (x ∷ xs) w = cc

Within-without :
    (id : String) (xs ys : List String) → Within xs (id ∷ ys) → Within (without id xs) ys
Within-without id [] ys w = tt
Within-without id (x ∷ xs) ys w = ground (arith, Within-without id xs ys w.1)

Within-cons : (y : String) (xs ys : List String) → Within xs ys → Within xs (y ∷ ys)
Within-cons y [] ys w = tt
Within-cons y (x ∷ xs) ys w = (ground arith, Within-cons y xs ys w.1)

Within-refl : (xs : List String) → Within xs xs
Within-refl [] = tt
Within-refl (x ∷ xs) = (rw ==-refl, Within-cons x xs xs (Within-refl xs))

-- The stand-ins close every call that waits.
missing-Answered :
    (now : ℕ) (cs : List ContentBlock) (answered waiting : List String) (rest : List Message)
    → Within waiting (waiting_ids cs answered)
    → Answered [] rest
    → Answered waiting (missing_results now cs answered ++ rest)
unfolding waiting_ids missing_results
missing-Answered now [] answered waiting rest w h = rw (Within-nil waiting w) h
missing-Answered now (c ∷ cs) answered waiting rest w h =
    elim (Bool-cases (is_call c && not (any (λ id. id == c.id) answered))) [
      | inl open_call ↦
          let within : Within waiting (c.id ∷ waiting_ids cs answered) =
            rw (open_call, waiting_ids) at w in
          rw open_call (
            missing-Answered now cs answered (without c.id waiting) rest
              (Within-without c.id waiting (waiting_ids cs answered) within) h)
      | inr closed ↦
          let within : Within waiting (waiting_ids cs answered) = rw (closed, waiting_ids) at w in
          rw closed (missing-Answered now cs answered waiting rest within h)
    ]

pub Role-cases :
    (r : Role) → (r ≡ user) ⊎ (r ≡ assistant) ⊎ (r ≡ tool) ⊎ ((s : String) × (r ≡ other s))
Role-cases user = inl refl
Role-cases assistant = inr (inl refl)
Role-cases tool = inr (inr (inl refl))
Role-cases (other s) = inr (inr (inr (s, refl)))

at_user :
    (now : ℕ) (m : Message) (ms : List Message) (pending : List ContentBlock)
    (answered : List String)
    → m.role ≡ user
    → ((ids : List String) → Answered [] (second_pass now ms [] ids))
    → Answered (waiting_ids pending answered) (second_pass now (m ∷ ms) pending answered)
unfolding second_pass waiting_ids
at_user now m ms [] answered is_user rest = simp is_user (refl, rest answered)
at_user now m ms (c ∷ cs) answered is_user rest = simp is_user (
    missing-Answered now (c ∷ cs) answered (waiting_ids (c ∷ cs) answered)
      (m ∷ second_pass now ms [] []) (Within-refl (waiting_ids (c ∷ cs) answered))
      (simp is_user (refl, rest [])))

second_pass-Answered :
    (now : ℕ) (ms : List Message) (pending : List ContentBlock) (answered : List String)
    → Answered (waiting_ids pending answered) (second_pass now ms pending answered)
unfolding second_pass waiting_ids
second_pass-Answered now [] pending answered = tt
second_pass-Answered now (m ∷ ms) pending answered = elim (Role-cases m.role) [
  | inl is_user ↦ (at_user now m ms pending answered is_user (second_pass-Answered now ms []))
  | inr (inl is_assistant) ↦ simp is_assistant (
      missing-Answered now pending answered (waiting_ids pending answered)
        (m ∷ second_pass now ms (keep is_call m.content) [])
        (Within-refl (waiting_ids pending answered))
        (simp is_assistant (
          refl,
          rw (← waiting-call_ids m.content)
              (second_pass-Answered now ms (keep is_call m.content) []),
        )))
  | inr (inr (inl is_tool)) ↦
      simp is_tool
        (rw without-waiting_ids (second_pass-Answered now ms pending (m.tool_call_id ∷ answered)))
  | inr (inr (inr (r, is_other))) ↦ simp is_other (second_pass-Answered now ms pending answered)
]

-- In the history that a provider is sent, no tool call waits for a result where the user or the
-- model speaks: each has its result, or a stand-in for it, before.
pub transform_messages-Answered :
    (now : ℕ) (normalize : Option (String → String)) (t : Target) (ms : List Message)
    → Answered [] (transform_messages now normalize t ms)
unfolding transform_messages waiting_ids
transform_messages-Answered now normalize t ms =
    second_pass-Answered now (first_pass normalize t ms []) [] []
