-- ===== src/Tools/Registry/Refines.antt =====
-- internal/tools/index.go: what a registry does after any sequence of calls, from the calls alone.
use pi_go_coding_agent.Base.{
  String, Bool, true, false, List, [], ◌∷◌, Option, none, some, ◌≡◌, refl, arith, ap, ◌∙◌, ◌==◌,
  not, ◌&&◌, ◌||◌, if◌then◌else◌,
}
use pi_go_coding_agent.Base.Text.{◌^^◌}
use pi_go_coding_agent.Base.Dict.{lookup, insert, has_key, lookup-insert, has_key-insert}
use pi_go_coding_agent.Types.{Tool, Fields}
use pi_go_coding_agent.Tools.Registry.{
  Outcome, ToolExecutor, ExternalExecutor, Registry, add_executors, new_registry,
  register_definition, register_definitions, set_external_executor, failed_result, unknown_tool,
  handled_or, execute_external, execute_tool, execute_preferred, execute,
}

-- The calls that change a registry.
pub data RegistryOp : Type 0 where
  registers : List Tool → RegistryOp
  sets_executor : Option ExternalExecutor → RegistryOp

unfoldable pub run_ops : List RegistryOp → Registry → Registry
run_ops [] r = r
run_ops (registers defs ∷ ops) r = run_ops ops (register_definitions defs r)
run_ops (sets_executor ext ∷ ops) r = run_ops ops (set_external_executor ext r)

-- Later values go before earlier ones.
abbrev pub or_before : {A : Type 0} → Option A → Option A → Option A
or_before none o = o
or_before (some a) o = some a

-- The last executor with the name.
abbrev pub built_in : String → List ToolExecutor → Option ToolExecutor
built_in name [] = none
built_in name (ex ∷ exs) =
    or_before (built_in name exs) (if ex.definition.name == name then some ex else none)

-- Whether one of the definitions has the name, which is not empty.
abbrev pub has_definition : String → List Tool → Bool
has_definition name [] = false
has_definition name (def ∷ defs) =
    has_definition name defs || (not (def.name == "") && (def.name == name))

abbrev pub is_registered : String → List RegistryOp → Bool
is_registered name [] = false
is_registered name (registers defs ∷ ops) = is_registered name ops || has_definition name defs
is_registered name (sets_executor ext ∷ ops) = is_registered name ops

-- The executor that was set last, after one that was there before.
abbrev pub executor_after : List RegistryOp → Option ExternalExecutor → Option ExternalExecutor
executor_after [] ext = ext
executor_after (registers defs ∷ ops) ext = executor_after ops ext
executor_after (sets_executor e ∷ ops) ext = executor_after ops e

-- Who executes a call: the built-in tool, if the name was not registered for the external
-- executor; or that one, which for a registered name has to handle the call.
abbrev pub specified :
    Option ToolExecutor → Bool → Option ExternalExecutor → String → String → Fields → Outcome
specified tool registered none name call_id args = elim tool [
  | none ↦ unknown_tool name
  | some ex ↦ ex.execute call_id args
]
specified tool true (some ext) name call_id args =
    handled_or (ext name call_id args)
      (failed_result, some ("external tool registered but not handled: " ^^ name))
specified (some ex) false (some ext) name call_id args = ex.execute call_id args
specified none false (some ext) name call_id args =
    handled_or (ext name call_id args) (unknown_tool name)

register_one :
    (name : String) (def : Tool) (r : Registry)
    → has_key name (register_definition def r).external_def
      ≡ (has_key name r.external_def || (not (def.name == "") && (def.name == name)))
unfolding register_definition
register_one name def r = ground (arith, has_key-insert def.name name tt r.external_def)

register-external_def :
    (name : String) (defs : List Tool) (r : Registry)
    → has_key name (register_definitions defs r).external_def
      ≡ (has_key name r.external_def || has_definition name defs)
unfolding register_definitions
register-external_def name [] r = ground arith
register-external_def name (def ∷ defs) r =
    ground
      (arith, register-external_def name defs (register_definition def r), register_one name def r)

register_keeps :
    (defs : List Tool) (r : Registry)
    → ((register_definitions defs r).tools ≡ r.tools)
      × ((register_definitions defs r).external ≡ r.external)
unfolding register_definitions register_definition
register_keeps [] r = (refl, refl)
register_keeps (def ∷ defs) r = ground (arith, register_keeps defs (register_definition def r))

run_ops-external_def :
    (name : String) (ops : List RegistryOp) (r : Registry)
    → has_key name (run_ops ops r).external_def
      ≡ (has_key name r.external_def || is_registered name ops)
unfolding run_ops set_external_executor
run_ops-external_def name [] r = ground arith
run_ops-external_def name (registers defs ∷ ops) r = ground (
  arith,
  run_ops-external_def name ops (register_definitions defs r),
  register-external_def name defs r,
)
run_ops-external_def name (sets_executor ext ∷ ops) r =
    run_ops-external_def name ops (set_external_executor ext r)

run_ops-executor :
    (ops : List RegistryOp) (r : Registry)
    → ((run_ops ops r).tools ≡ r.tools) × ((run_ops ops r).external ≡ executor_after ops r.external)
unfolding run_ops set_external_executor
run_ops-executor [] r = (refl, refl)
run_ops-executor (registers defs ∷ ops) r =
    let (tools, external) = register_keeps defs r in
    let (tools', external') = run_ops-executor ops (register_definitions defs r) in
    (tools' ∙ tools, external' ∙ ap (executor_after ops) external)
run_ops-executor (sets_executor ext ∷ ops) r = run_ops-executor ops (set_external_executor ext r)

lookup-add_executors :
    (name : String) (exs : List ToolExecutor) (r : Registry)
    → lookup name (add_executors exs r).tools ≡ or_before (built_in name exs) (lookup name r.tools)
unfolding add_executors
lookup-add_executors name [] r = refl
lookup-add_executors name (ex ∷ exs) r = ground (
  arith,
  lookup-add_executors name exs (record r {
    tools = insert ex.definition.name ex r.tools;
    definitions = insert ex.definition.name ex.definition r.definitions;
  }),
  lookup-insert ex.definition.name name ex r.tools,
)

add_executors_keeps :
    (exs : List ToolExecutor) (r : Registry)
    → ((add_executors exs r).external_def ≡ r.external_def)
      × ((add_executors exs r).external ≡ r.external)
unfolding add_executors
add_executors_keeps [] r = (refl, refl)
add_executors_keeps (ex ∷ exs) r = add_executors_keeps exs _

parts-specified :
    (tool : Option ToolExecutor) (registered : Bool) (ext : Option ExternalExecutor)
    (name call_id : String) (args : Fields)
    → execute_preferred registered ext (execute_tool tool ext name call_id args) name call_id args
      ≡ specified tool registered ext name call_id args
unfolding execute_preferred execute_tool execute_external
parts-specified none true none name call_id args = refl
parts-specified none false none name call_id args = refl
parts-specified (some ex) true none name call_id args = refl
parts-specified (some ex) false none name call_id args = refl
parts-specified none true (some ext) name call_id args = refl
parts-specified none false (some ext) name call_id args = refl
parts-specified (some ex) true (some ext) name call_id args = refl
parts-specified (some ex) false (some ext) name call_id args = refl

execute-specified :
    (r : Registry) (name call_id : String) (args : Fields)
    → execute r name call_id args
      ≡ specified (lookup name r.tools) (has_key name r.external_def) r.external name call_id args
unfolding execute
execute-specified r name call_id args =
    parts-specified (lookup name r.tools) (has_key name r.external_def) r.external name call_id args

or_before-none : {A : Type 0} (o : Option A) → or_before o none ≡ o
or_before-none none = refl
or_before-none (some a) = refl

empty_registry : Registry
empty_registry = record { tools = []; definitions = []; external_def = []; external = none }

new_registry_parts :
    (exs : List ToolExecutor) (name : String)
    → ((lookup name (new_registry exs).tools ≡ built_in name exs)
        × ((has_key name (new_registry exs).external_def ≡ false)
            × ((new_registry exs).external ≡ none)))
unfolding new_registry has_key empty_registry
new_registry_parts exs name =
    let (registered, external) = add_executors_keeps exs empty_registry in
    (
      lookup-add_executors name exs empty_registry ∙ or_before-none (built_in name exs),
      (ap (has_key name) registered, external),
    )

-- After any sequence of RegisterDefinitions and SetExternalExecutor on a new registry, Execute
-- does what the calls specify: a tool whose name one of them registered belongs to the executor
-- that was set last, which has to handle it, and otherwise a built-in tool of the name goes
-- first; without an executor only the built-in tools are there.
pub execute-run_ops_refines :
    (exs : List ToolExecutor) (ops : List RegistryOp) (name call_id : String) (args : Fields)
    → execute (run_ops ops (new_registry exs)) name call_id args
      ≡ specified
          (built_in name exs)
          (is_registered name ops)
          (executor_after ops none)
          name
          call_id
          args
execute-run_ops_refines exs ops name call_id args =
    let r = new_registry exs in
    let (tools, (registered, external)) = new_registry_parts exs name in
    let (tools', external') = run_ops-executor ops r in
    rw
      (
        execute-specified (run_ops ops r) name call_id args,
        tools',
        external',
        run_ops-external_def name ops r,
        tools,
        registered,
        external,
      )
      refl
