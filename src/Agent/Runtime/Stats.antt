-- ===== src/Agent/Runtime/Stats.antt =====
-- internal/agent/runtime.go: what a caller reads of the session: its messages, the messages that it
-- can fork at, and its statistics. The cost, a float, is left out.
use pi_go_coding_agent.Base.{
  ℕ, zero, suc, ◌+◌, String, List, [], ◌∷◌, Option, none, some, ◌==◌, if◌then◌else◌,
}
use pi_go_coding_agent.Base.Text.{trim_space}
use pi_go_coding_agent.Types.{
  user, assistant, tool, Message, ContentBlock, tool_call, Usage, no_usage,
}
use pi_go_coding_agent.Session.Data.{Entry, message}
use pi_go_coding_agent.Session.Branch.{branch}
use pi_go_coding_agent.Session.Context.{build_context}
use pi_go_coding_agent.Agent.Compact.{assistant_text}
use pi_go_coding_agent.Agent.Runtime.{Runtime, Environment}

pub record ForkMessage : Type 0 where
  pub entry_id : String
  pub body : String

-- The message of an entry, if it is one.
abbrev pub message_of : Entry → Option Message
message_of e = elim e.type [ message ↦ e.body | _ ↦ none ]

-- The text of a message that a fork can start from.
abbrev pub fork_text : Option Message → String
fork_text none = ""
fork_text (some m) = elim m.role [ user ↦ trim_space (assistant_text m) | _ ↦ "" ]

unfoldable pub fork_messages_of : List Entry → List ForkMessage
fork_messages_of [] = []
fork_messages_of (e ∷ es) =
    let rest = fork_messages_of es in
    let text = fork_text (message_of e) in
    if text == "" then rest else record { entry_id = e.id; body = text } ∷ rest

-- ForkMessages
unfoldable pub fork_messages : Runtime → List ForkMessage
unfolding fork_messages_of
fork_messages r = fork_messages_of (branch r.session.manager r.session.leaf_id)

-- The first entry with the identifier that is a message decides.
unfoldable pub text_by_entry_id : String → List Entry → String
text_by_entry_id id [] = ""
text_by_entry_id id (e ∷ es) =
    let rest = text_by_entry_id id es in
    elim (message_of e) [ none ↦ rest | some m ↦ if e.id == id then fork_text (some m) else rest ]

-- userMessageTextByEntryID
unfoldable pub user_message_text_by_entry_id : String → Runtime → String
unfolding text_by_entry_id
user_message_text_by_entry_id id r = if id == "" then "" else text_by_entry_id id r.session.entries

-- Messages
unfoldable pub messages : Environment → Runtime → List Message
messages env r = (build_context env.now r.session.manager r.session.leaf_id).messages

unfoldable pub last_text_of : Option String → List Message → Option String
last_text_of found [] = found
last_text_of found (m ∷ ms) =
    last_text_of (elim m.role [ assistant ↦ some (trim_space (assistant_text m)) | _ ↦ found ]) ms

-- LastAssistantText
unfoldable pub last_assistant_text : Environment → Runtime → Option String
unfolding last_text_of
last_assistant_text env r = last_text_of none (messages env r)

pub record SessionStats : Type 0 where
  pub user_messages : ℕ
  pub assistant_messages : ℕ
  pub tool_calls : ℕ
  pub tool_results : ℕ
  pub total_messages : ℕ
  pub tokens : Usage

abbrev pub no_stats : SessionStats
no_stats = record {
  user_messages = 0;
  assistant_messages = 0;
  tool_calls = 0;
  tool_results = 0;
  total_messages = 0;
  tokens = no_usage;
}

unfoldable pub count_calls : List ContentBlock → ℕ
count_calls [] = 0
count_calls (b ∷ bs) = let rest = count_calls bs in elim b.type [ tool_call ↦ suc rest | _ ↦ rest ]

abbrev total_or_sum : Usage → ℕ
total_or_sum u = elim u.total [
  | zero ↦ u.input + u.output + u.cache_read + u.cache_write
  | suc n ↦ suc n
]

unfoldable pub add_usage : Usage → Usage → Usage
add_usage u t = record {
  input = t.input + u.input;
  output = t.output + u.output;
  cache_read = t.cache_read + u.cache_read;
  cache_write = t.cache_write + u.cache_write;
  total = t.total + total_or_sum u;
}

abbrev pub counted : Message → SessionStats → SessionStats
counted m s = record s {
  total_messages = suc s.total_messages;
  tool_calls = s.tool_calls + count_calls m.content;
}

unfoldable pub add_message : Message → SessionStats → SessionStats
unfolding add_usage count_calls
add_message m s = elim m.role [
  | user ↦ record (counted m s) { user_messages = suc s.user_messages }
  | assistant ↦ record (counted m s) {
    assistant_messages = suc s.assistant_messages;
    tokens = add_usage m.usage s.tokens;
  }
  | tool ↦ record (counted m s) { tool_results = suc s.tool_results }
  | _ ↦ counted m s
]

abbrev add_entry_stats : Option Message → SessionStats → SessionStats
add_entry_stats none s = s
add_entry_stats (some m) s = add_message m s

unfoldable pub stats_of : SessionStats → List Entry → SessionStats
unfolding add_message
stats_of s [] = s
stats_of s (e ∷ es) = stats_of (add_entry_stats (message_of e) s) es

-- SessionStats
unfoldable pub session_stats : Runtime → SessionStats
unfolding stats_of
session_stats r = stats_of no_stats (branch r.session.manager r.session.leaf_id)
