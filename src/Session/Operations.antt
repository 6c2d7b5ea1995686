-- ===== src/Session/Operations.antt =====
-- internal/session/manager.go: all the operations that change the manager of an open session.
use pi_go_coding_agent.Base.{
  ℕ, String, ◌≡◌, ◌≢◌, refl, inl, inr, List, [], ◌∷◌, Option, none, Bool, Bool-cases, ◌==◌,
}
use pi_go_coding_agent.Base.Dict.{lookup}
use pi_go_coding_agent.Types.{Message, ContentBlock, Fields}
use pi_go_coding_agent.Session.Data.{Line, header_line}
use pi_go_coding_agent.Session.World.{
  Outside, Session, Result, write_line, create_file, on_world, continue_keeps,
}
use pi_go_coding_agent.Session.Ids.{next_id_seen}
use pi_go_coding_agent.Session.Append.{
  append_message, append_model_change, append_thinking_level, append_compaction,
  append_branch_summary, append_label, append_session_name, append_custom_entry,
  append_custom_message, set_leaf,
}
use pi_go_coding_agent.Session.Open.{create_new, flush_all, write_all, entry_lines}

-- A call of one of the methods.
pub data Call : Type 0 where
  message : Message → Call
  model_change : String → String → Call
  thinking_level : String → Call
  compaction : String → String → ℕ → Option Fields → Call
  branch_summary : String → String → Option Fields → Call
  label : String → String → Call
  session_name : String → Call
  custom_entry : String → Option Fields → Call
  custom_message : String → List ContentBlock → Bool → Option Fields → Call
  leaf : String → Call
  create : String → String → Call

module _ (o : Outside) where
  abbrev after : {A : Type 0} → Result A × Session → Session
  after r = r.1

  unfoldable pub apply : Call → Session → Session
  apply (message m) s = after (append_message o m s)
  apply (model_change p m) s = after (append_model_change o p m s)
  apply (thinking_level l) s = after (append_thinking_level o l s)
  apply (compaction t f n d) s = after (append_compaction o t f n d s)
  apply (branch_summary f t d) s = after (append_branch_summary o f t d s)
  apply (label t l) s = after (append_label o t l s)
  apply (session_name n) s = after (append_session_name o n s)
  apply (custom_entry t d) s = after (append_custom_entry o t d s)
  apply (custom_message t c v d) s = after (append_custom_message o t c v d s)
  apply (leaf id) s = after (set_leaf id s)
  apply (create cwd parent) s = after (create_new o cwd parent s)

  -- The next identifier is neither empty nor one of the index.
  pub record NewId (s : Session) : Type 0 where
    pub fresh : lookup (next_id_seen o s.by_id s.calls).0 s.by_id ≡ none
    pub named : (next_id_seen o s.by_id s.calls).0 ≢ ""

  manager-write_all :
      (path : String) (ls : List Line) (s : Session) → (write_all o path ls s).1.manager ≡ s.manager
  unfolding write_all
  manager-write_all path [] s = refl
  manager-write_all path (l ∷ ls) s =
      continue_keeps (λ m. m ≡ s.manager) (write_line o path l s.world).0 _ _ refl
        (λ _. manager-write_all path ls _)

  -- flushAll writes the file and leaves the manager.
  pub manager-flush_all : (s : Session) → (flush_all o s).1.manager ≡ s.manager
  unfolding flush_all
  manager-flush_all s = elim (Bool-cases (s.session_file == "")) [
    | inl none_open ↦ rw (none_open, flush_all)
    | inr is_open ↦
        rw (is_open, flush_all)
          (continue_keeps (λ m. m ≡ s.manager) (create_file o s.session_file s.world).0 _ _ refl
            (λ _.
              manager-write_all s.session_file
                (header_line (o.header_size s.header) s.header ∷ entry_lines o s.entries)
                (on_world (create_file o s.session_file) s).1))
  ]
