-- ===== src/Tests/Agents.antt =====
-- internal/agent/runtime.go: the theorems of the run, the compaction and the fork on small inputs.
use pi_go_coding_agent.Base.{true, false, List, [], ◌∷◌, ◌++◌, none, ◌≡◌, refl, arith}
use pi_go_coding_agent.Types.{Message, user, assistant, text_message, ToolCall, end, text_block}
use pi_go_coding_agent.Session.World.{ok}
use pi_go_coding_agent.Agent.Queues.{new_queues}
use pi_go_coding_agent.Agent.Run.{Transcript, completed, fails, Outside, Run, provider_failed}
use pi_go_coding_agent.Agent.Run.Rounds.{rounds, stopped_at}
use pi_go_coding_agent.Agent.Run.Rounds.Retries.{KeepsFailing, retries_run_out}

-- A transcript that is the list of its messages.
abbrev in_memory : Transcript (List Message)
in_memory = record {
  append = λ m t. (ok tt, t ++ m ∷ []);
  messages = λ t. t;
  context = λ t. t;
  compact_threshold = λ n t. t;
  compact = λ n t. (false, t);
  append-messages = λ m t done. refl;
  append_failed = λ m t why failed. ground arith;
  compact_threshold-messages = λ n t. refl;
  compact-messages = λ n t. refl;
}

-- A provider that says hello, and tools that succeed.
abbrev pub helpful : Outside
helpful = record {
  is_aborted = λ n. false;
  is_tool_active = λ n name. true;
  blocks = λ n c. none;
  execute =
      λ n c. (record { content = text_block "done" ∷ []; details = none; is_error = false }, none);
  overrides = λ n c r. none;
  arrivals = λ n q. q;
  time = λ n. n;
  auto_compaction = λ n. false;
  auto_retry = λ n. true;
  no_provider = λ n. none;
  complete = λ n ms. completed (text_message n assistant "hello") [];
  is_overflow = λ why. false;
  is_retryable = λ why. true;
  wait_cancelled = λ n. false;
}

-- A provider that is overloaded.
abbrev overloaded : Outside
overloaded = record helpful { complete = λ n ms. fails "overloaded" }

abbrev idle : Run (List Message)
idle = record { transcript = text_message 1 user "hi" ∷ []; queues = new_queues; point = 0 }

abbrev two_calls : List ToolCall
two_calls =
    record { id = "1"; name = "read"; arguments = end }
    ∷ record { id = "2"; name = "ls"; arguments = end }
    ∷ []

overloaded_fails : KeepsFailing overloaded "overloaded"
overloaded_fails = record {
  fails_each_time = λ n ms. refl;
  provider_there = λ n. refl;
  may_retry = refl;
  not_aborted = λ n. refl;
  not_cancelled = λ n. refl;
  retries_on = λ n. refl;
  compaction_off = λ n. refl;
}

retries_run_out_example :
    rounds overloaded in_memory 128 [] 0 (text_message 0 assistant "") idle
    ≡ stopped_at
        (text_message 0 assistant "")
        (provider_failed "overloaded")
        (record idle { point = 4 })
retries_run_out_example =
    retries_run_out overloaded in_memory "overloaded" overloaded_fails 124
      (text_message 0 assistant "") idle
