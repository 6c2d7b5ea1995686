-- ===== src/Tests/Hosts.antt =====
-- internal/agent/runtime.go and internal/tools/index.go: the theorems of the runtime on small inputs.
use pi_go_coding_agent.Base.{String, true, false, List, [], ◌∷◌, none, some, ◌≡◌, ◌⊎◌}
use pi_go_coding_agent.Types.{Message, user, text_message, end}
use pi_go_coding_agent.Session.Data.{Entry, empty_entry, message}
use pi_go_coding_agent.Session.World.{Session, ok, err}
use pi_go_coding_agent.Session.Append.{stamp}
use pi_go_coding_agent.Session.Invariant.{IsTree}
use pi_go_coding_agent.Session.Placed.{IsPlaced}
use pi_go_coding_agent.Tools.Registry.{
  Registry, ToolExecutor, new_registry, execute, definitions_of,
}
use pi_go_coding_agent.Tools.Registry.Refines.{
  RegistryOp, registers, sets_executor, run_ops, built_in, is_registered, executor_after, specified,
  execute-run_ops_refines,
}
use pi_go_coding_agent.Config.Models.{Model}
use pi_go_coding_agent.Agent.Compact.Run.{no_answer}
use pi_go_coding_agent.Agent.Queues.{new_queues}
use pi_go_coding_agent.Agent.Runtime.{Runtime, HostAction, Environment}
use pi_go_coding_agent.Agent.Runtime.Active.{names_of, set_active_tools_by_name, is_tool_active}
use pi_go_coding_agent.Agent.Runtime.Wanted.{has_unknown, is_wanted, set_active_tools_by_name_cases}
use pi_go_coding_agent.Agent.Runtime.Actions.{apply_sidecar_actions}
use pi_go_coding_agent.Agent.Runtime.Entries.Requests.{apply_sidecar_actions-IsPlaced}
use pi_go_coding_agent.Tests.Files.{quiet}
use pi_go_coding_agent.Tests.Sessions.{two_entries, two_entries-IsTree}
use pi_go_coding_agent.Tests.Others.{opus}
use pi_go_coding_agent.Tests.Agents.{helpful}
use pi_go_coding_agent.Tests.Auth.{system, store}

abbrev read_tool : ToolExecutor
read_tool = record {
  definition = record { name = "read"; label = ""; description = ""; parameters = end };
  execute = λ id args. (record { content = []; details = none; is_error = false }, none);
}

abbrev tools : Registry
tools = new_registry (read_tool ∷ [])

abbrev extended : List RegistryOp
extended =
    registers (record { name = "search"; label = ""; description = ""; parameters = end } ∷ [])
    ∷ sets_executor (
        some (λ name id args.
          (false, (record { content = []; details = none; is_error = false }, none))))
    ∷ []

execute-run_ops_refines_example :
    execute (run_ops extended tools) "search" "1" end
    ≡ specified
        (built_in "search" (read_tool ∷ []))
        (is_registered "search" extended)
        (executor_after extended none)
        "search"
        "1"
        end
execute-run_ops_refines_example = execute-run_ops_refines (read_tool ∷ []) extended "search" "1" end

abbrev environment : Environment
environment = record {
  outside = quiet;
  system = system;
  now = 5;
  message_of = λ j. text_message 0 user "";
  content_of = λ j. [];
  sprint = λ j. "";
  has_sidecar = false;
  cancels_switch = λ r a b. false;
  cancels_fork = λ r a. false;
  before_tree = λ r a. none;
  start_fails = λ r. none;
  input = λ r a. none;
  command = λ r a b. err "no sidecar";
  before_agent_start = λ r. [];
  helpers = λ r. record {
    now = 5;
    marshal_size = λ fs. 0;
    before_compact = λ first n. no_answer;
    no_provider = none;
    complete = λ prompt. err "none";
  };
  is_over_threshold = λ n s. false;
  run_outside = λ r. helpful;
}

abbrev saved : Session
saved = record {
  manager = record two_entries { session_file = "file" };
  world = record { files = ("file", []) ∷ []; calls = 0 };
}

abbrev sonnet : Model
sonnet = record opus { id = "claude-sonnet" }

abbrev runtime : Runtime
runtime = record {
  session = saved;
  tools = tools;
  active_tools = [];
  model_registry = record { models = opus ∷ sonnet ∷ []; provider_cfg = []; default_model = [] };
  auth = store;
  model = opus;
  thinking_level = "medium";
  system_prompt = "";
  queues = new_queues;
  auto_compaction_enabled = true;
  auto_retry_enabled = true;
  is_running = false;
  is_retrying = false;
  is_bash_running = false;
  cancelled = false;
}

set_active_tools_by_name_cases_example :
    let available = names_of (definitions_of runtime.tools) in
    let (result, after) = set_active_tools_by_name ("read" ∷ []) runtime in
    ((has_unknown available ("read" ∷ []) ≡ false)
      × ((result ≡ ok tt) × (is_tool_active after "read" ≡ is_wanted "read" ("read" ∷ []))))
    ⊎ ((has_unknown available ("read" ∷ []) ≡ true)
        × (((why : String) × (result ≡ err why)) × (after ≡ runtime)))
set_active_tools_by_name_cases_example = set_active_tools_by_name_cases ("read" ∷ []) "read" runtime

saved-IsTree : IsTree saved.manager
saved-IsTree = record {
  places = record { indexed = two_entries-IsTree.indexed; leaf = two_entries-IsTree.leaf };
  listed = two_entries-IsTree.listed;
  named = two_entries-IsTree.named;
  parents = two_entries-IsTree.parents;
}

-- From b to a, with a summary.
abbrev go_back : HostAction
go_back = record {
  type = "navigate_tree";
  body = "";
  role = "";
  deliver_as = "";
  provider = "";
  model = "";
  thinking_level = "";
  name = "";
  target_id = "a";
  caption = "";
  custom_type = "";
  fields = none;
  content = [];
  display = false;
  tool_names = [];
  session_path = "";
  entry_id = "";
  parent_session = "";
  request_id = "";
  setup_entries = [];
  custom_instructions = "";
  skip_before_hooks = true;
  summary = "done";
  summary_details = none;
}

apply_sidecar_actions-IsPlaced_example :
    IsPlaced (apply_sidecar_actions environment true (go_back ∷ []) runtime).1.session.manager
apply_sidecar_actions-IsPlaced_example =
    apply_sidecar_actions-IsPlaced environment true (go_back ∷ []) runtime saved-IsTree.indexed

abbrev hello : Message
hello = text_message 1 user "hello"

abbrev said : Entry
said = stamp quiet saved (record (empty_entry message) { body = some hello })
