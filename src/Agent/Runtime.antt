-- ===== src/Agent/Runtime.antt =====
-- internal/agent/runtime.go: the runtime with its session, tools, model and queues, and the steps
-- that a caller of it takes. The lock makes each a step of its own. What an extension answers to
-- an event depends on the state; the actions that it asks for in an answer are not modelled, those
-- of a command are.
pub mod Models
pub mod Active
pub mod Setup
pub mod Navigate
pub mod Actions
pub mod Prompt
pub mod Stats
pub mod Cycle
pub mod Entries
pub mod Moved
pub mod Added
pub mod Wanted
use pi_go_coding_agent.Base.{
  ℕ, String, Bool, true, false, List, Option, none, some, ◌||◌, ◌==◌, if◌then◌else◌,
}
use pi_go_coding_agent.Base.Text.{trim_space}
use pi_go_coding_agent.Base.Dict.{Dict}
use pi_go_coding_agent.Types.{Message, ContentBlock, Json, Fields, Tool}
use pi_go_coding_agent.Session.World.{Session, Result, ok, err, Action}
use pi_go_coding_agent.Session.World
use pi_go_coding_agent.Session.Data.{Header}
use pi_go_coding_agent.Tools.Registry.{Registry}
use pi_go_coding_agent.Config.Models.{Model, ModelRegistry}
use pi_go_coding_agent.Config.Auth.{System, Store}
use pi_go_coding_agent.Agent.Queues.{Queues}
use pi_go_coding_agent.Agent.Compact.Run.{Helpers}
use pi_go_coding_agent.Agent.Run

-- The three flags say whether the functions abortRun, abortRetry and abortBash are set, and
-- `cancelled` that the first was called.
pub record Runtime : Type 0 where
  pub session : Session
  pub tools : Registry
  pub active_tools : Dict (Unit {0})
  pub model_registry : ModelRegistry
  pub auth : Store
  pub model : Model
  pub thinking_level : String
  pub system_prompt : String
  pub queues : Queues
  pub auto_compaction_enabled : Bool
  pub auto_retry_enabled : Bool
  pub is_running : Bool
  pub is_retrying : Bool
  pub is_bash_running : Bool
  pub cancelled : Bool

-- An action that an extension asks for.
pub record HostAction : Type 0 where
  pub type : String
  pub body : String
  pub role : String
  pub deliver_as : String
  pub provider : String
  pub model : String
  pub thinking_level : String
  pub name : String
  pub target_id : String
  pub caption : String
  pub custom_type : String
  pub fields : Option Fields
  pub content : List ContentBlock
  pub display : Bool
  pub tool_names : List String
  pub session_path : String
  pub entry_id : String
  pub parent_session : String
  pub request_id : String
  pub setup_entries : List Fields
  pub custom_instructions : String
  pub skip_before_hooks : Bool
  pub summary : String
  pub summary_details : Option Fields

-- The answers to session_before_tree, to input, and to a command.
pub record TreeAnswer : Type 0 where
  pub cancel : Bool
  pub summary : Option (String × Option Fields)

pub record InputAnswer : Type 0 where
  pub action : String
  pub body : String
  pub assistant_text : String

pub record CommandAnswer : Type 0 where
  pub handled : Bool
  pub output : String
  pub actions : List HostAction

pub record Environment : Type 0 where
  pub outside : World.Outside
  pub system : System
  pub now : ℕ
  -- the values of encoding/json as a message and as content, and fmt.Sprint of other values
  pub message_of : Option Json → Message
  pub content_of : Option Json → List ContentBlock
  pub sprint : Json → String
  -- whether there is a sidecar, and what it answers
  pub has_sidecar : Bool
  pub cancels_switch : Runtime → String → String → Bool
  pub cancels_fork : Runtime → String → Bool
  pub before_tree : Runtime → String → Option TreeAnswer
  pub start_fails : Runtime → Option String
  pub input : Runtime → String → Option InputAnswer
  pub command : Runtime → String → String → Result CommandAnswer
  -- the messages that before_agent_start adds to a run
  pub before_agent_start : Runtime → List Message
  pub helpers : Runtime → Helpers
  pub is_over_threshold : ℕ → Session → Bool
  -- what the run loop meets
  pub run_outside : Runtime → Run.Outside

abbrev pub Host : Type 0 → Type 0
Host A = Runtime → Result A × Runtime

abbrev pub continue : {A B : Type 0} → Result A → (A → Host B) → Host B
continue (ok a) f r = f a r
continue (err e) f r = (err e, r)

infixl 10 ◌>>=◌
abbrev pub ◌>>=◌ : {A B : Type 0} → Host A → (A → Host B) → Host B
◌>>=◌ m f r = let (a, r') = m r in continue a f r'

abbrev pub return : {A : Type 0} → A → Host A
return a r = (ok a, r)

-- A step on the session alone.
abbrev pub on_session : {A : Type 0} → Action A → Host A
on_session f r = let (a, s) = f r.session in (a, record r { session = s })

-- A step on the queues alone.
abbrev pub on_queues : {A : Type 0} → (Queues → Result A × Queues) → Host A
on_queues f r = let (a, q) = f r.queues in (a, record r { queues = q })

-- SetAutoCompactionEnabled and SetAutoRetryEnabled
unfoldable pub set_auto_compaction_enabled : Bool → Runtime → Runtime
set_auto_compaction_enabled enabled r = record r { auto_compaction_enabled = enabled }

unfoldable pub set_auto_retry_enabled : Bool → Runtime → Runtime
set_auto_retry_enabled enabled r = record r { auto_retry_enabled = enabled }

-- AbortRetry
unfoldable pub abort_retry : Runtime → Runtime
abort_retry r = record r { is_retrying = false }

-- Abort: without a run there is nothing to cancel.
unfoldable pub abort : Runtime → Runtime
abort r = record r { is_retrying = false; cancelled = r.cancelled || r.is_running }

abbrev pub default_system_prompt : String → String
default_system_prompt override =
    if trim_space override == ""
    then "You are a coding agent. Use tools when needed. Prefer correct and minimal changes."
    else override
