-- ===== src/Agent/Compact/Chosen.antt =====
-- internal/agent/runtime.go: the entry from which a compaction keeps the branch.
use pi_go_coding_agent.Base.{
  ℕ, String, Bool, Bool-cases, true, false, List, [], ◌∷◌, ◌++◌, Option-cases, some, ◌≡◌, refl, sym,
  subst, ◌⊎◌, inl, inr, arith, ◌||◌, ◌==◌, ==-refl,
}
use pi_go_coding_agent.Base.Text.{trim_space}
use pi_go_coding_agent.Types.{Message}
use pi_go_coding_agent.Session.Data.{Entry}
use pi_go_coding_agent.Session.World.{Result, ok, err}
use pi_go_coding_agent.Agent.Compact.{
  select_first_kept, branch_has_entry_id, estimate_context_tokens,
}
use pi_go_coding_agent.Agent.Compact.Select.{select_first_kept-KeptFrom}
use pi_go_coding_agent.Agent.Compact.Run.{
  Helpers, Before, no_answer, cancel, compaction, Chosen, generate_summary, generated, candidate_or,
  choose, plan_compaction, keep_recent_messages,
}

or_true : (b : Bool) → (b || true) ≡ true
or_true true = refl
or_true false = refl

branch_has_entry_id-split :
    (before behind : List Entry) (e : Entry)
    → branch_has_entry_id (before ++ e ∷ behind) e.id ≡ true
unfolding branch_has_entry_id
branch_has_entry_id-split [] behind e = rw ==-refl
branch_has_entry_id-split (x ∷ xs) behind e = rw (branch_has_entry_id-split xs behind e) (or_true _)

select_first_kept-branch_has_entry_id :
    (es : List Entry) (n : ℕ) (first : String)
    → select_first_kept es n ≡ some first
    → branch_has_entry_id es first ≡ true
select_first_kept-branch_has_entry_id es n first chosen =
    let k = select_first_kept-KeptFrom es n first chosen in
    subst (λ (fs : List Entry). branch_has_entry_id fs first ≡ true) (sym k.split)
      (subst (λ (id : String). branch_has_entry_id (k.before ++ k.entry ∷ k.behind) id ≡ true)
        k.found (branch_has_entry_id-split k.before k.behind k.entry))

module _ (h : Helpers) (es : List Entry) (instructions : String) where
  -- A result that, if it is no error, keeps from an entry of the branch.
  abbrev FromBranch : Result Chosen → Type 0
  FromBranch (ok c) = branch_has_entry_id es c.first_kept ≡ true
  FromBranch (err why) = Unit

  generated-FromBranch :
      (first : String) (tokens : ℕ)
      → branch_has_entry_id es first ≡ true
      → FromBranch (generated h es instructions first tokens)
  unfolding generated
  generated-FromBranch first tokens there =
      elim (result_of (generate_summary h es first instructions)) [
        | inl (summary, fine) ↦ simp (fine, generated) there
        | inr (why, failed) ↦ simp (failed, generated) tt
      ]
    where
      result_of :
          (r : Result String) → ((a : String) × (r ≡ ok a)) ⊎ ((why : String) × (r ≡ err why))
      result_of (ok a) = inl (a, refl)
      result_of (err why) = inr (why, refl)

  candidate_there :
      (candidate first : String)
      → branch_has_entry_id es first ≡ true
      → branch_has_entry_id es (candidate_or h candidate first es) ≡ true
  unfolding candidate_or
  candidate_there candidate first there = ground arith

  choose-FromBranch :
      (first : String) (tokens : ℕ)
      → branch_has_entry_id es first ≡ true
      → FromBranch (choose h es instructions first tokens)
  unfolding choose
  choose-FromBranch first tokens there = by_answer (h.before_compact first tokens) refl
    where
      by_answer :
          (b : Before)
          → h.before_compact first tokens ≡ b
          → FromBranch (choose h es instructions first tokens)
      by_answer no_answer at = simp (at, choose) (generated-FromBranch first tokens there)
      by_answer cancel at = simp (at, choose) tt
      by_answer (compaction p) at = elim (Bool-cases (trim_space p.summary == "")) [
        | inl blank ↦ simp (at, blank, choose) (generated-FromBranch first tokens there)
        | inr given ↦
            simp (at, given, choose)
              (candidate_there (trim_space p.first_kept_entry_id) first there)
      ]

-- Whatever an extension proposes, a compaction that is planned keeps from an entry of the branch.
pub plan_compaction-branch_has_entry_id :
    (h : Helpers) (es : List Entry) (ms : List Message) (instructions : String) (c : Chosen)
    → plan_compaction h es ms instructions ≡ ok c
    → branch_has_entry_id es c.first_kept ≡ true
unfolding plan_compaction
plan_compaction-branch_has_entry_id h [] ms instructions c planned = ground arith
plan_compaction-branch_has_entry_id h (e ∷ es) ms instructions c planned =
    elim (Option-cases (select_first_kept (e ∷ es) keep_recent_messages)) [
      | inl nothing ↦ ground arith
      | inr (first, chosen) ↦
          let tokens = estimate_context_tokens h.marshal_size ms in
          let made : choose h (e ∷ es) instructions first tokens ≡ ok c =
            simp (chosen, plan_compaction) at planned in
          subst (FromBranch h (e ∷ es) instructions) made (
            choose-FromBranch h (e ∷ es) instructions first tokens
              (select_first_kept-branch_has_entry_id (e ∷ es) keep_recent_messages first chosen))
    ]
