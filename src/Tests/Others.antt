-- ===== src/Tests/Others.antt =====
-- internal/providers/transform.go, internal/agent, internal/config and internal/tools: the theorems
-- on small inputs.
use pi_go_coding_agent.Base.{
  String, true, List, [], ◌∷◌, ◌++◌, none, ◌≡◌, ◌≢◌, refl, arith, string_discrete, ==→≢, drop, All,
}
use native.Mathlib.Decide.{ℕ_discrete}
use pi_go_coding_agent.Types.{Message, user, assistant, text_message}
use pi_go_coding_agent.Session.World.{ok}
use pi_go_coding_agent.Providers.Transform.{Target, first_pass, transform_messages}
use pi_go_coding_agent.Providers.Transform.Answers.{Answered, transform_messages-Answered}
use pi_go_coding_agent.Providers.Transform.Normal.{
  Filled, IsFit, transform_messages-Filled, first_pass-IsFit,
}
use pi_go_coding_agent.Agent.Queues.{new_queues}
use pi_go_coding_agent.Agent.Queues.Order.{
  QueueOp, steers, take_steering, run_ops, steered, taken, steering_fifo,
}
use pi_go_coding_agent.Config.Models.{Model, ModelRegistry}
use pi_go_coding_agent.Config.Models.Search.{
  resolve_model, resolve_at, resolve_any, find_model, matches_both,
}
use pi_go_coding_agent.Config.Models.Resolve.{
  Found, of_provider, resolve_model-Found, resolve_model-finds,
}
use pi_go_coding_agent.Base.Text.{equal_fold, ◌^^◌}
use pi_go_coding_agent.Tools.Edit.{edit_text, cut, cut_prefix, count, count_from, replaced}
use pi_go_coding_agent.Tools.Edit.Replaced.{edit_text-replaces}
use pi_go_coding_agent.Tools.Read.Pages.{read_on, read_on-drop}

abbrev target : Target
target = record { id = "claude"; api = "anthropic-messages"; provider = "anthropic" }

abbrev chat : List Message
chat = text_message 1 user "hi" ∷ text_message 2 assistant "hello" ∷ []

transform_messages-Answered_example : Answered [] (transform_messages 3 none target chat)
transform_messages-Answered_example = transform_messages-Answered 3 none target chat

transform_messages-Filled_example :
    Filled 3 (first_pass none target chat []) (transform_messages 3 none target chat)
transform_messages-Filled_example = transform_messages-Filled 3 none target chat

first_pass-IsFit_example : All (IsFit target) (first_pass none target chat [])
first_pass-IsFit_example = first_pass-IsFit none target chat []

abbrev ops : List QueueOp
ops =
    steers 1 (text_message 1 user "stop") ∷ take_steering ∷ steers 2 (text_message 2 user "go") ∷ []

steering_fifo_example :
    taken ops new_queues ++ (run_ops ops new_queues).steering_queue
    ≡ new_queues.steering_queue ++ steered ops
steering_fifo_example = steering_fifo ops new_queues

abbrev pub opus : Model
opus = record {
  id = "claude-opus";
  name = "Opus";
  api = "anthropic-messages";
  provider = "anthropic";
  base_url = "";
  reasoning = true;
  input = "text" ∷ [];
  context_window = 200000;
  max_tokens = 32768;
  headers = [];
  compat = none;
}

abbrev registry : ModelRegistry
registry = record {
  models = opus ∷ [];
  provider_cfg = [];
  default_model = ("anthropic", "claude-opus") ∷ [];
}

anthropic_named : opus.provider ≢ ""
unfolding string_discrete
anthropic_named = ==→≢ "anthropic" "" refl

opus_named : opus.id ≢ ""
unfolding string_discrete
opus_named = ==→≢ opus.id "" refl

opus_resolved : resolve_model registry opus.provider "Claude-Opus" ≡ ok opus
unfolding resolve_model resolve_at find_model equal_fold string_discrete ℕ_discrete
opus_resolved = refl

resolve_model-Found_example : Found (of_provider opus.provider) registry.models opus
resolve_model-Found_example =
    resolve_model-Found registry opus.provider "Claude-Opus" opus opus_resolved anthropic_named

opus_found : resolve_any registry.models "claude-opus" ≡ ok opus
unfolding resolve_any find_model equal_fold ℕ_discrete
opus_found = refl

opus_matches : matches_both opus.provider opus.id opus ≡ true
unfolding equal_fold ℕ_discrete
opus_matches = refl

resolve_model-finds_example :
    (n : Model) × (resolve_model registry opus.provider opus.id ≡ ok n)
    × Found (matches_both opus.provider opus.id) registry.models n
resolve_model-finds_example =
    resolve_model-finds registry opus.provider opus.id 0 opus refl opus_matches anthropic_named
      opus_named

abbrev three_lines : List String
three_lines = "one" ∷ "two" ∷ "three" ∷ []

read_on-drop_example : read_on 3 three_lines 2 1 ≡ drop 0 three_lines
read_on-drop_example = read_on-drop 3 three_lines 2 0 (omega arith) (omega arith) (omega arith)

b_replaced : edit_text "b" "x" "abc" ≡ ok "axc"
unfolding edit_text cut cut_prefix count count_from replaced string_discrete
b_replaced = refl

edit_text-replaces_example :
    (b : String) × (a : String) × (◌≡◌ {A = String} "abc" (b ^^ "b" ^^ a))
    × (◌≡◌ {A = String} "axc" (b ^^ "x" ^^ a))
    × (cut "b" a ≡ none)
edit_text-replaces_example = edit_text-replaces "b" "x" "abc" "axc" b_replaced
