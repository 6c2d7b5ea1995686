-- ===== src/Agent/Compact/Run.antt =====
-- internal/agent/runtime.go: compactContext and generateCompactionSummary, on the session. The
-- extension's answer to session_before_compact, and the provider, are arguments.
use pi_go_coding_agent.Base.{
  ℕ, zero, suc, String, List, [], ◌∷◌, Option, none, some, ◌&&◌, not, ◌==◌, if◌then◌else◌,
}
use pi_go_coding_agent.Base.Text.{trim_space, ◌^^◌}
use pi_go_coding_agent.Types.{Message, Fields}
use pi_go_coding_agent.Session.Data.{Entry}
use pi_go_coding_agent.Session.World.{Outside, Result, ok, err, Action}
use pi_go_coding_agent.Session.Append.{append_compaction}
use pi_go_coding_agent.Session.Branch.{branch}
use pi_go_coding_agent.Session.Context.{build_context}
use pi_go_coding_agent.Agent.Compact.{
  assistant_text, format_compaction_source, select_first_kept, branch_has_entry_id,
  estimate_context_tokens,
}

-- What an extension proposes for a compaction.
pub record Proposal : Type 0 where
  pub summary : String
  pub first_kept_entry_id : String
  pub tokens_before : ℕ
  pub details : Option Fields

pub data Before : Type 0 where
  no_answer : Before
  cancel : Before
  compaction : Proposal → Before

pub record Helpers : Type 0 where
  pub now : ℕ
  pub marshal_size : Fields → ℕ
  -- emitSessionBeforeCompact, for the first kept entry and the tokens
  pub before_compact : String → ℕ → Before
  -- the error of currentProvider, or of a missing key
  pub no_provider : Option String
  -- Provider.Complete on the prompt
  pub complete : String → Result Message

abbrev pub keep_recent_messages : ℕ
keep_recent_messages = 8

-- The arguments of AppendCompactionWithDetails.
pub record Chosen : Type 0 where
  pub summary : String
  pub first_kept : String
  pub tokens_before : ℕ
  pub details : Option Fields

summary_prompt : String → String → String
summary_prompt instructions source =
    "Summarize the earlier conversation context for a coding-agent session. Keep critical decisions, constraints, open tasks, and file/tool details concise and actionable."
    ^^ (if instructions == "" then "" else "\n\nAdditional instructions:\n" ^^ instructions)
    ^^ "\n\nConversation to summarize:\n"
    ^^ source

or_unavailable : String → String
or_unavailable s = if s == "" then "Compaction summary unavailable." else s

module _ (h : Helpers) where
  -- generateCompactionSummary
  unfoldable pub generate_summary : List Entry → String → String → Result String
  unfolding summary_prompt or_unavailable
  generate_summary es first instructions =
      let source = format_compaction_source es first in
      if trim_space source == ""
      then err "nothing to compact: no summarizable messages before cut point"
      else elim h.no_provider [
        | some why ↦ err why
        | none ↦ elim (h.complete (summary_prompt instructions source)) [
          | err why ↦ err why
          | ok m ↦ ok (or_unavailable (trim_space (assistant_text m)))
        ]
      ]

  unfoldable pub generated : List Entry → String → String → ℕ → Result Chosen
  generated es instructions first tokens = elim (generate_summary es first instructions) [
    | err why ↦ err why
    | ok summary ↦
        ok
          (record { summary = summary; first_kept = first; tokens_before = tokens; details = none })
  ]

  unfoldable pub candidate_or : String → String → List Entry → String
  candidate_or candidate first es =
      if not (candidate == "") && branch_has_entry_id es candidate then candidate else first

  unfoldable pub positive_or : ℕ → ℕ → ℕ
  positive_or zero n = n
  positive_or (suc k) n = suc k

  -- The summary and the first entry that is kept, of an extension or of the model.
  unfoldable pub choose : List Entry → String → String → ℕ → Result Chosen
  unfolding generated candidate_or positive_or
  choose es instructions first tokens = elim (h.before_compact first tokens) [
    | cancel ↦ err "compaction cancelled"
    | no_answer ↦ generated es instructions first tokens
    | compaction p ↦
        if trim_space p.summary == ""
        then generated es instructions first tokens
        else ok (record {
          summary = trim_space p.summary;
          first_kept = candidate_or (trim_space p.first_kept_entry_id) first es;
          tokens_before = positive_or p.tokens_before tokens;
          details = p.details;
        })
  ]

  unfoldable pub plan_compaction : List Entry → List Message → String → Result Chosen
  plan_compaction [] ms instructions = err "nothing to compact: session is empty"
  plan_compaction (e ∷ es) ms instructions =
      elim (select_first_kept (e ∷ es) keep_recent_messages) [
        | none ↦ err "nothing to compact (session too small)"
        | some first ↦
            choose (e ∷ es) instructions first (estimate_context_tokens h.marshal_size ms)
      ]

  -- compactContext
  unfoldable pub compact_context : Outside → String → Action Entry
  compact_context o instructions s =
      elim (plan_compaction (branch s.manager s.leaf_id)
        (build_context h.now s.manager s.leaf_id).messages instructions) [
          | err why ↦ (err why, s)
          | ok c ↦ append_compaction o c.summary c.first_kept c.tokens_before c.details s
        ]
