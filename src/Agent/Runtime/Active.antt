-- ===== src/Agent/Runtime/Active.antt =====
-- internal/agent/runtime.go: the active tools, and the bash command of a caller.
use pi_go_coding_agent.Base.{String, Bool, List, [], ◌∷◌, some, keep, ◌==◌, if◌then◌else◌}
use pi_go_coding_agent.Base.Text.{trim_space, ◌^^◌}
use pi_go_coding_agent.Base.Dict.{Dict, insert, has_key}
use pi_go_coding_agent.Types.{Tool, Fields, Json}
use pi_go_coding_agent.Session.World.{Result, ok, err}
use pi_go_coding_agent.Tools.Registry.{
  Outcome, definitions_of, execute, failed_result, names, sort_names,
}
use pi_go_coding_agent.Agent.Runtime.{Runtime, Host}

abbrev pub Names : Type 0
Names = Dict (Unit {0})

unfoldable pub names_of : List Tool → Names
names_of [] = []
names_of (t ∷ ts) = insert t.name tt (names_of ts)

-- resetActiveToolsToAll
unfoldable pub reset_active_tools_to_all : Runtime → Runtime
unfolding names_of
reset_active_tools_to_all r = record r { active_tools = names_of (definitions_of r.tools) }

-- The names that are asked for, or the first that is not available.
unfoldable pub choose_tools : Names → List String → Names → Result Names
choose_tools available [] next = ok next
choose_tools available (text ∷ more) next =
    let name = trim_space text in
    let rest = choose_tools available more in
    if name == ""
    then rest next
    else if has_key name available
    then rest (insert name tt next)
    else err ("unknown tool in set_active_tools: " ^^ name)

abbrev pub become_active : Result Names → Host (Unit {0})
become_active (err why) r = (err why, r)
become_active (ok next) r = (ok tt, record r { active_tools = next })

-- setActiveToolsByName
unfoldable pub set_active_tools_by_name : List String → Host (Unit {0})
unfolding choose_tools names_of
set_active_tools_by_name wanted r =
    become_active (choose_tools (names_of (definitions_of r.tools)) wanted []) r

-- currentActiveToolNames
unfoldable pub current_active_tool_names : Runtime → List String
unfolding sort_names
current_active_tool_names r = sort_names (names r.active_tools)

-- isToolActive
unfoldable pub is_tool_active : Runtime → String → Bool
is_tool_active r name = has_key name r.active_tools

-- currentToolsDefinitions
unfoldable pub current_tools_definitions : Runtime → List Tool
current_tools_definitions r = keep (λ t. has_key t.name r.active_tools) (definitions_of r.tools)

abbrev pub bash_arguments : String → Fields
bash_arguments command = Fields.field "command" (Json.str command) Fields.end

-- ExecuteBash: the flag is set while the command runs, and reset after it.
unfoldable pub execute_bash : String → Runtime → Outcome
execute_bash text r =
    let command = trim_space text in
    if command == ""
    then (failed_result, some "bash command is empty")
    else if r.is_bash_running
    then (failed_result, some "bash command already running")
    else execute r.tools "bash" "rpc_bash" (bash_arguments command)
