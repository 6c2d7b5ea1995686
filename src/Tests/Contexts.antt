-- ===== src/Tests/Contexts.antt =====
-- internal/session/manager.go, internal/agent/runtime.go: compaction and fork on small sessions.
use pi_go_coding_agent.Base.{
  String, true, false, List, [], ◌∷◌, ◌++◌, none, some, ◌≡◌, ◌≢◌, refl, string_discrete, ==→≢,
  length,
}
use pi_go_coding_agent.Base.Dict.{lookup, insert, has_key}
use pi_go_coding_agent.Base.Text.{trim_space}
use pi_go_coding_agent.Types.{user, assistant, text_message}
use pi_go_coding_agent.Session.Data.{
  EntryType, message, compaction, Entry, empty_entry, new_manager,
}
use pi_go_coding_agent.Session.World.{Outside, Session, ok}
use pi_go_coding_agent.Session.Context.{context_of, all_messages, summary_messages}
use pi_go_coding_agent.Session.Compaction.{from_entry, messages-context_of}
use pi_go_coding_agent.Session.Branch.{branch, walk, start_of, entry_at}
use pi_go_coding_agent.Session.Ids.{short_id, next_id_loop, next_id_seen}
use pi_go_coding_agent.Session.Append.{
  add_entry, append_new, append_entry, append_message, append_model_change, append_thinking_level,
}
use pi_go_coding_agent.Session.Open.{create_new, begin_session, flush_all, write_all, entry_lines}
use pi_go_coding_agent.Agent.Compact.{
  select_first_kept, message_like_ids, at_least_one, branch_has_entry_id,
}
use pi_go_coding_agent.Agent.Compact.Select.{compacted_context}
use pi_go_coding_agent.Agent.Compact.Run.{
  Helpers, Chosen, compaction, plan_compaction, choose, candidate_or,
}
use pi_go_coding_agent.Agent.Compact.Chosen.{plan_compaction-branch_has_entry_id}
use pi_go_coding_agent.Agent.Fork.{
  Setup, fork_session, copy_branch, copy_entries, copy_entry, copy_setup, saw_model_change,
  saw_thinking_level,
}
use pi_go_coding_agent.Agent.Fork.Messages.{messages-fork_session}

abbrev said : String → Entry
said id = record (empty_entry message) { id = id; body = some (text_message 1 user id) }

abbrev said_two : List Entry
said_two = said "a" ∷ said "b" ∷ []

abbrev summed_up : Entry
summed_up = record (empty_entry EntryType.compaction) {
  id = "c";
  summary = "so far";
  first_kept_entry = "b";
}

messages-context_of_example :
    (context_of 5 (said_two ++ summed_up ∷ said "d" ∷ [])).messages
    ≡ summary_messages 5 "<summary>\n" summed_up.summary "\n</summary>"
      ++ (all_messages 5 (from_entry summed_up.first_kept_entry said_two)
          ++ all_messages 5 (said "d" ∷ []))
messages-context_of_example =
    messages-context_of 5 said_two (said "d" ∷ []) summed_up refl (refl, (refl, tt)) (refl, tt)

keeps_one : select_first_kept said_two 1 ≡ some summed_up.first_kept_entry
unfolding select_first_kept message_like_ids
keeps_one = refl

b_differs : (said "b").id ≢ (said "a").id
unfolding string_discrete
b_differs = ==→≢ _ _ refl

compacted_context_example :
    (before : List Entry) × (kept : List Entry) × (said_two ≡ before ++ kept)
    × (length (message_like_ids kept) ≡ at_least_one 1)
    × ((context_of 5 (said_two ++ summed_up ∷ [])).messages
        ≡ summary_messages 5 "<summary>\n" summed_up.summary "\n</summary>" ++ all_messages 5 kept)
compacted_context_example =
    compacted_context 5 said_two 1 summed_up ((b_differs, tt), (tt, tt)) refl (refl, (refl, tt))
      keeps_one

-- Nine messages, and an extension that proposes an entry that is not there.
abbrev nine : List Entry
nine =
    said "1"
    ∷ said "2"
    ∷ said "3"
    ∷ said "4"
    ∷ said "5"
    ∷ said "6"
    ∷ said "7"
    ∷ said "8"
    ∷ said "9"
    ∷ []

abbrev helpers : Helpers
helpers = record {
  now = 1;
  marshal_size = λ fs. 2;
  before_compact = λ first tokens. compaction (record {
    summary = "short";
    first_kept_entry_id = "lost";
    tokens_before = 10;
    details = none;
  });
  no_provider = none;
  complete = λ prompt. ok (text_message 1 assistant "sum");
}

abbrev chosen : Chosen
chosen = record { summary = "short"; first_kept = "2"; tokens_before = 10; details = none }

nine_planned : plan_compaction helpers nine [] "" ≡ ok chosen
unfolding plan_compaction choose candidate_or branch_has_entry_id select_first_kept message_like_ids
    trim_space string_discrete
nine_planned = refl

plan_compaction-branch_has_entry_id_example : branch_has_entry_id nine chosen.first_kept ≡ true
plan_compaction-branch_has_entry_id_example =
    plan_compaction-branch_has_entry_id helpers nine [] "" chosen nine_planned

abbrev quiet : Outside
quiet = record {
  random = λ n. some (n ∷ 0 ∷ 0 ∷ 7 ∷ []);
  nanos = λ n. n;
  timestamp = λ n. "now";
  refuses = λ n. none;
  header_size = λ h. 90;
  entry_size = λ e. 200;
}

abbrev begun : Session
begun =
    (create_new quiet "/work" ""
      (record { manager = new_manager "dir"; world = record { files = []; calls = 0 } })).1

abbrev greeted : Session
greeted = (append_message quiet (text_message 1 user "hello") begun).1

abbrev setup : Setup
setup = record { provider = "anthropic"; model_id = "claude"; thinking_level = "medium" }

fork_ok : (fork_session quiet setup false greeted.leaf_id greeted).0 ≡ ok false
unfolding fork_session copy_branch copy_entries copy_entry copy_setup saw_model_change
    saw_thinking_level branch walk start_of entry_at create_new begin_session flush_all write_all
    short_id string_discrete insert lookup new_manager entry_lines append_message
    append_model_change append_thinking_level append_new append_entry add_entry next_id_seen
    next_id_loop has_key
fork_ok = refl

messages-fork_session_example :
    all_messages 5 (fork_session quiet setup false greeted.leaf_id greeted).1.entries
    ≡ all_messages 5 (branch greeted.manager greeted.leaf_id)
messages-fork_session_example = messages-fork_session quiet 5 setup greeted.leaf_id greeted fork_ok
