-- ===== src/Tools/Registry.antt =====
-- internal/tools/index.go: the registry of tools. An executor returns a result and an error, as in
-- the code; the external one says whether it has handled the call, too.
pub mod Refines
use pi_go_coding_agent.Base.{
  String, Bool, true, false, List, [], ◌∷◌, Option, none, some, ◌==◌, if◌then◌else◌,
}
use pi_go_coding_agent.Base.Text.{◌^^◌}
use pi_go_coding_agent.Base.Dict.{Dict, lookup, insert, has_key}
use pi_go_coding_agent.Types.{Tool, ToolResult, Fields}
use pi_go_coding_agent.Config.Models.Search.{string_ltb}

abbrev pub Outcome : Type 0
Outcome = ToolResult × Option String

-- Definition and Execute, whose arguments are the call's identifier and those of the call.
pub record ToolExecutor : Type 0 where
  pub definition : Tool
  pub execute : String → Fields → Outcome

-- The arguments are the tool's name, the call's identifier and the arguments.
abbrev pub ExternalExecutor : Type 0
ExternalExecutor = String → String → Fields → Bool × Outcome

pub record Registry : Type 0 where
  pub tools : Dict ToolExecutor
  pub definitions : Dict Tool
  pub external_def : Dict (Unit {0})
  pub external : Option ExternalExecutor

unfoldable pub add_executors : List ToolExecutor → Registry → Registry
add_executors [] r = r
add_executors (ex ∷ exs) r =
    let def = ex.definition in
    add_executors exs (record r {
      tools = insert def.name ex r.tools;
      definitions = insert def.name def r.definitions;
    })

-- NewRegistry
unfoldable pub new_registry : List ToolExecutor → Registry
unfolding add_executors
new_registry executors =
    add_executors executors
      (record { tools = []; definitions = []; external_def = []; external = none })

unfoldable pub register_definition : Tool → Registry → Registry
register_definition def r = if def.name == "" then r else record r {
  definitions = insert def.name def r.definitions;
  external_def = insert def.name tt r.external_def;
}

-- RegisterDefinitions
unfoldable pub register_definitions : List Tool → Registry → Registry
unfolding register_definition
register_definitions [] r = r
register_definitions (def ∷ defs) r = register_definitions defs (register_definition def r)

-- SetExternalExecutor
unfoldable pub set_external_executor : Option ExternalExecutor → Registry → Registry
set_external_executor executor r = record r { external = executor }

abbrev pub failed_result : ToolResult
failed_result = record { content = []; details = none; is_error = true }

abbrev pub unknown_tool : String → Outcome
unknown_tool name = (failed_result, some ("unknown tool: " ^^ name))

-- The result of an external call that was handled, or else another outcome.
abbrev pub handled_or : Bool × Outcome → Outcome → Outcome
handled_or (true, outcome) other = outcome
handled_or (false, outcome) other = other

unfoldable pub execute_external : Option ExternalExecutor → String → String → Fields → Outcome
execute_external none name call_id args = unknown_tool name
execute_external (some ext) name call_id args =
    handled_or (ext name call_id args) (unknown_tool name)

unfoldable pub execute_tool :
    Option ToolExecutor → Option ExternalExecutor → String → String → Fields → Outcome
unfolding execute_external
execute_tool (some ex) external name call_id args = ex.execute call_id args
execute_tool none external name call_id args = execute_external external name call_id args

-- A call for which the registry prefers the external executor, or else the call as any.
unfoldable pub execute_preferred :
    Bool → Option ExternalExecutor → Outcome → String → String → Fields → Outcome
execute_preferred true (some ext) other name call_id args =
    handled_or (ext name call_id args)
      (failed_result, some ("external tool registered but not handled: " ^^ name))
execute_preferred true none other name call_id args = other
execute_preferred false external other name call_id args = other

-- Execute
unfoldable pub execute : Registry → String → String → Fields → Outcome
unfolding execute_tool execute_preferred
execute r name call_id args =
    execute_preferred (has_key name r.external_def) r.external
      (execute_tool (lookup name r.tools) r.external name call_id args) name call_id args

abbrev pub names : {V : Type 0} → Dict V → List String
names [] = []
names ((k, v) ∷ d) = k ∷ names d

unfoldable pub insert_name : String → List String → List String
insert_name x [] = x ∷ []
insert_name x (y ∷ ys) =
    let rest = insert_name x ys in if string_ltb y x then y ∷ rest else x ∷ y ∷ ys

-- sort.Strings
unfoldable pub sort_names : List String → List String
unfolding insert_name
sort_names [] = []
sort_names (x ∷ xs) = insert_name x (sort_names xs)

-- Go's zero value, for a name that is not there.
abbrev pub found_tool : Option Tool → Tool
found_tool none = record { name = ""; label = ""; description = ""; parameters = Fields.end }
found_tool (some t) = t

unfoldable pub tools_at : List String → Dict Tool → List Tool
tools_at [] d = []
tools_at (x ∷ xs) d = found_tool (lookup x d) ∷ tools_at xs d

-- Definitions
unfoldable pub definitions_of : Registry → List Tool
unfolding sort_names tools_at
definitions_of r = tools_at (sort_names (names r.definitions)) r.definitions
