-- ===== src/Agent/Run/Calls/Answers.antt =====
-- internal/agent/runtime.go: the answers that the loop over the tool calls appends.
use pi_go_coding_agent.Base.{String, List, [], ◌∷◌, ◌++◌, ◌≡◌, refl, ◌⊎◌, inl, inr}
use pi_go_coding_agent.Types.{tool, Message, ToolCall, ToolResult}
use pi_go_coding_agent.Session.World.{Result, ok, err}
use pi_go_coding_agent.Agent.Queues.{Queues, dequeue_steering}
use pi_go_coding_agent.Agent.Run.{Transcript, Outside, Run}
use pi_go_coding_agent.Agent.Run.Calls.{CallsEnd, finished, stopped, answer, move}

-- A tool result that answers a call.
pub record Answer (c : ToolCall) (m : Message) : Type 0 where
  pub role : m.role ≡ tool
  pub call_id : m.tool_call_id ≡ c.id
  pub call_name : m.tool_name ≡ c.name

-- The messages answer the calls one by one, in order: all of them, or those that come first.
abbrev pub Answers : List ToolCall → List Message → Type 0
Answers [] [] = Unit
Answers [] (m ∷ ms) = ⊥
Answers (c ∷ cs) [] = ⊥
Answers (c ∷ cs) (m ∷ ms) = Answer c m × Answers cs ms

abbrev pub FirstAnswers : List ToolCall → List Message → Type 0
FirstAnswers cs [] = Unit
FirstAnswers [] (m ∷ ms) = ⊥
FirstAnswers (c ∷ cs) (m ∷ ms) = Answer c m × FirstAnswers cs ms

-- All calls are answered where the loop comes to its end, and the first ones where the run stops.
abbrev pub AnswersAt : CallsEnd → List ToolCall → List Message → Type 0
AnswersAt (finished steering) cs ms = Answers cs ms
AnswersAt (stopped why) cs ms = FirstAnswers cs ms

pub result_cases : (r : Result (Unit {0})) → (r ≡ ok tt) ⊎ ((why : String) × (r ≡ err why))
result_cases (ok u) = inl refl
result_cases (err why) = inr (why, refl)

pub list_cases : {A : Type 0} (xs : List A) → (xs ≡ []) ⊎ ((x : A) × (ys : List A) × (xs ≡ x ∷ ys))
list_cases [] = inl refl
list_cases (x ∷ xs) = inr (x, xs, refl)

module _ (o : Outside) {T : Type 0} (session : Transcript T) where
  -- The transcript has grown by messages that answer the calls.
  abbrev pub Grown : List ToolCall → T → CallsEnd × Run T → Type 0
  Grown cs t r =
      (ms : List Message) × AnswersAt r.0 cs ms
      × (session.messages r.1.transcript ≡ session.messages t ++ ms)

  abbrev after_answer : ToolCall → ToolResult → Run T → Run T
  after_answer c result s =
      move o session (session.append (answer o s.point c result) s.transcript).1
        (dequeue_steering (o.arrivals s.point s.queues)).1 s
