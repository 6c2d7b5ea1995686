-- ===== src/Session/Context.antt =====
-- internal/session/manager.go: BuildContext, the messages and settings of a branch. The code reads
-- the clock for each message that it makes; here one reading serves a whole call.
use pi_go_coding_agent.Base.{
  ℕ, suc, String, Bool, true, false, List, [], ◌∷◌, ◌++◌, Option, none, some, take, drop, ◌||◌,
  ◌&&◌, ◌==◌, if◌then◌else◌,
}
use pi_go_coding_agent.Base.Text.{◌^^◌}
use pi_go_coding_agent.Types.{user, assistant, Message, ContentBlock, text_message, empty_message}
use pi_go_coding_agent.Session.Data.{
  message, model_change, thinking_level_change, compaction, branch_summary, custom_message, Entry,
  Manager,
}
use pi_go_coding_agent.Session.Branch.{branch}

pub record Context : Type 0 where
  pub messages : List Message
  pub thinking_level : String
  pub model_provider : String
  pub model_id : String

-- The variables of the first loop.
pub record Settings : Type 0 where
  pub thinking : String
  pub provider : String
  pub model_id : String
  pub compacted : Option Entry

abbrev pub or_keep : String → String → String
or_keep new old = if new == "" then old else new

message_settings : Option Message → Settings → Settings
message_settings none s = s
message_settings (some m) s = elim m.role [
  | assistant ↦ record s {
    provider = or_keep m.provider s.provider;
    model_id = or_keep m.model s.model_id;
  }
  | _ ↦ s
]

unfoldable pub settings_step : Settings → Entry → Settings
unfolding message_settings
settings_step s e = elim e.type [
  | thinking_level_change ↦ record s { thinking = or_keep e.thinking_level s.thinking }
  | model_change ↦ record s { provider = e.provider; model_id = e.model_id }
  | message ↦ message_settings e.body s
  | compaction ↦ record s { compacted = some e }
  | _ ↦ s
]

unfoldable pub settings_of : Settings → List Entry → Settings
unfolding settings_step
settings_of s [] = s
settings_of s (e ∷ es) = settings_of (settings_step s e) es

abbrev pub first_settings : Settings
first_settings = record { thinking = "medium"; provider = ""; model_id = ""; compacted = none }

option_list {ℓ} : {A : Type ℓ} → Option A → List A
option_list none = []
option_list (some a) = a ∷ []

content_messages : ℕ → List ContentBlock → List Message
content_messages now [] = []
content_messages now (b ∷ bs) =
    record (empty_message user) { timestamp = now; content = b ∷ bs } ∷ []

unfoldable pub summary_messages : ℕ → String → String → String → List Message
summary_messages now before s after =
    if s == "" then [] else text_message now user (before ^^ s ^^ after) ∷ []

-- appendEntryMessage: the messages that an entry adds, one at most.
unfoldable pub entry_messages : ℕ → Entry → List Message
unfolding option_list content_messages summary_messages
entry_messages now e = elim e.type [
  | message ↦ option_list e.body
  | custom_message ↦ content_messages now e.content
  | branch_summary ↦ summary_messages now "<branch_summary>\n" e.summary "\n</branch_summary>"
  | _ ↦ []
]

unfoldable pub all_messages : ℕ → List Entry → List Message
all_messages now [] = []
all_messages now (e ∷ es) = entry_messages now e ++ all_messages now es

abbrev pub is_compaction : Entry → Bool
is_compaction e = elim e.type [ compaction ↦ true | _ ↦ false ]

-- The index of the first compaction entry with this identifier; -1 in the code is `none`.
unfoldable pub compaction_index : String → List Entry → Option ℕ
compaction_index id [] = none
compaction_index id (e ∷ es) =
    let rest = compaction_index id es in
    if is_compaction e && (e.id == id)
    then some 0
    else elim rest [ none ↦ none | some i ↦ some (suc i) ]

-- The loop over the entries before the compaction, with foundFirstKept.
unfoldable pub kept_messages : ℕ → String → Bool → List Entry → List Message
kept_messages now first found [] = []
kept_messages now first found (e ∷ es) =
    let found' = found || (e.id == first) in
    (if found' then entry_messages now e else []) ++ kept_messages now first found' es

unfoldable pub before_index : Option ℕ → List Entry → List Entry
before_index none es = []
before_index (some i) es = take i es

unfoldable pub after_index : Option ℕ → List Entry → List Entry
after_index none es = es
after_index (some i) es = drop (suc i) es

unfoldable pub compacted_messages : ℕ → Entry → List Entry → List Message
unfolding before_index after_index
compacted_messages now c es =
    let at = compaction_index c.id es in
    summary_messages now "<summary>\n" c.summary "\n</summary>"
    ++ (kept_messages now c.first_kept_entry false (before_index at es)
        ++ all_messages now (after_index at es))

unfoldable pub branch_messages : ℕ → Option Entry → List Entry → List Message
branch_messages now none es = all_messages now es
branch_messages now (some c) es = compacted_messages now c es

-- BuildContext on a branch
unfoldable pub context_of : ℕ → List Entry → Context
context_of now es =
    let s = settings_of first_settings es in
    record {
      messages = branch_messages now s.compacted es;
      thinking_level = s.thinking;
      model_provider = s.provider;
      model_id = s.model_id;
    }

unfoldable pub build_context : ℕ → Manager → String → Context
unfolding context_of
build_context now m leaf = context_of now (branch m leaf)
