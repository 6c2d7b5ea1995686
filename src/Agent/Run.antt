-- ===== src/Agent/Run.antt =====
-- internal/agent/runtime.go: runLoop, the turns of the agent. Its session is a transcript, of which
-- the loop uses two operations; the provider, the tools, the extensions and the other threads are
-- `Outside`, whose answers may differ at each point of the run.
pub mod Calls
pub mod Rounds
pub mod Backed
use pi_go_coding_agent.Base.{ℕ, String, Bool, List, [], ◌∷◌, ◌++◌, Option, ◌≡◌}
use pi_go_coding_agent.Types.{Message, ContentBlock, Fields, ToolCall, ToolResult}
use pi_go_coding_agent.Session.World.{Result, ok, err}
use pi_go_coding_agent.Agent.Queues.{Queues}

-- What the loop uses of a session: AppendMessage, and the messages of its entries.
pub record Transcript (T : Type 0) : Type 0 where
  pub append : Message → T → Result (Unit {0}) × T
  pub messages : T → List Message
  -- the messages of BuildContext at the leaf
  pub context : T → List Message
  -- maybeAutoCompactThreshold, and the compaction after an overflow with its success
  pub compact_threshold : ℕ → T → T
  pub compact : ℕ → T → Bool × T
  pub append-messages :
      (m : Message) (t : T)
      → (append m t).0 ≡ ok tt
      → messages (append m t).1 ≡ messages t ++ m ∷ []
  pub append_failed :
      (m : Message) (t : T) (why : String)
      → (append m t).0 ≡ err why
      → messages (append m t).1 ≡ messages t
  pub compact_threshold-messages : (n : ℕ) (t : T) → messages (compact_threshold n t) ≡ messages t
  pub compact-messages : (n : ℕ) (t : T) → messages (compact n t).1 ≡ messages t

-- How the execution of a tool fails.
pub data Failure : Type 0 where
  canceled : Failure
  failed : String → Failure

-- The answer of an extension to the event tool_result.
pub record Override : Type 0 where
  pub content : List ContentBlock
  pub details : Option Fields
  pub is_error : Option Bool

-- What Provider.Complete returns: the message with its calls, or an error.
pub data Completion : Type 0 where
  completed : Message → List ToolCall → Completion
  interrupted : Completion
  fails : String → Completion

pub record Outside : Type 0 where
  -- runCtx.Err() is not nil
  pub is_aborted : ℕ → Bool
  pub is_tool_active : ℕ → String → Bool
  -- the reason of an extension that blocks the call
  pub blocks : ℕ → ToolCall → Option String
  -- what Registry.Execute returns
  pub execute : ℕ → ToolCall → ToolResult × Option Failure
  pub overrides : ℕ → ToolCall → ToolResult → Option Override
  -- what other threads and the extensions queue
  pub arrivals : ℕ → Queues → Queues
  pub time : ℕ → ℕ
  -- AutoCompactionEnabled and AutoRetryEnabled
  pub auto_compaction : ℕ → Bool
  pub auto_retry : ℕ → Bool
  -- the error of currentProvider
  pub no_provider : ℕ → Option String
  -- Provider.Complete, on the context as the extensions leave it
  pub complete : ℕ → List Message → Completion
  -- the patterns of isContextOverflowProviderError and of retryable errors
  pub is_overflow : String → Bool
  pub is_retryable : String → Bool
  -- waitForRetryDelay is cancelled
  pub wait_cancelled : ℕ → Bool

-- The state of a run, with the number of the next point.
pub record Run (T : Type 0) : Type 0 where
  pub transcript : T
  pub queues : Queues
  pub point : ℕ

-- Why a run stops: ErrAborted, the error of the session, that of the provider, or too many turns.
pub data Stop : Type 0 where
  aborted : Stop
  refused : String → Stop
  provider_failed : String → Stop
  exceeded : Stop
