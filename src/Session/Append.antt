-- ===== src/Session/Append.antt =====
-- internal/session/manager.go: appendEntry, the Append methods, SetLeaf and SessionName.
use pi_go_coding_agent.Base.{
  ℕ, suc, String, Bool, List, [], ◌∷◌, ◌++◌, Option, none, some, length, ◌==◌, if◌then◌else◌,
}
use pi_go_coding_agent.Base.Text.{trim_space, ◌^^◌}
use pi_go_coding_agent.Base.Dict.{insert, has_key}
use pi_go_coding_agent.Types.{Message, ContentBlock, Fields, is_empty_fields}
use pi_go_coding_agent.Session.Data.{
  message, model_change, thinking_level_change, compaction, branch_summary, label, session_info,
  custom, custom_message, Entry, empty_entry, entry_line, Manager,
}
use pi_go_coding_agent.Session.World.{
  Outside, Session, ok, err, Action, ◌>>=◌, return, on_world, open_append, write_line,
}
use pi_go_coding_agent.Session.Ids.{next_id_seen}

-- What appendEntry does to the manager once the line is written.
unfoldable pub add_entry : Entry → Manager → Manager
add_entry e m = record m {
  entries = m.entries ++ e ∷ [];
  by_id = insert e.id (length m.entries) m.by_id;
  leaf_id = e.id;
}

-- cloneMap and cloneAnyMap: a copy of a value is the value.
unfoldable pub clone_map : Option Fields → Option Fields
clone_map none = none
clone_map (some fs) = if is_empty_fields fs then none else some fs

unfoldable pub clone_any_map : Option Fields → Option Fields
clone_any_map fs = fs

-- SetLeaf
unfoldable pub set_leaf : String → Action (Unit {0})
set_leaf id s =
    if id == ""
    then (ok tt, record s { manager = record s.manager { leaf_id = "" } })
    else if has_key id s.by_id
    then (ok tt, record s { manager = record s.manager { leaf_id = id } })
    else (err ("leaf id not found: " ^^ id), s)

-- SessionName: the last name that is not blank.
unfoldable pub name_from : String → List Entry → String
name_from name [] = name
name_from name (e ∷ es) =
    name_from
      (elim e.type [ session_info ↦ if trim_space e.name == "" then name else e.name | _ ↦ name ])
      es

unfoldable pub session_name : Manager → String
unfolding name_from
session_name m = name_from "" m.entries

module _ (o : Outside) where
  keep_entry : Entry → Action (Unit {0})
  keep_entry e s = (ok tt, record s { manager = add_entry e s.manager })

  -- appendEntry
  unfoldable pub append_entry : Entry → Action (Unit {0})
  unfolding keep_entry
  append_entry e s =
      if s.session_file == ""
      then (err "session is not initialized", s)
      else (on_world (open_append o s.session_file) >>= λ _.
            on_world (write_line o s.session_file (entry_line (o.entry_size e) e)) >>= λ _.
            keep_entry e)
          s

  -- What every Append method does with the entry that it makes: a new identifier, the leaf as
  -- parent, and the time.
  abbrev pub stamp : Session → Entry → Entry
  stamp s draft =
      let (id, n) = next_id_seen o s.by_id s.calls in
      record draft { id = id; parent_id = s.leaf_id; timestamp = o.timestamp n }

  unfoldable pub append_new : Entry → Action Entry
  append_new draft s =
      let (id, n) = next_id_seen o s.by_id s.calls in
      let e = stamp s draft in
      (append_entry e >>= λ _. return e) (record s { world = record s.world { calls = suc n } })

  unfoldable pub append_message : Message → Action Entry
  append_message m = append_new (record (empty_entry message) { body = some m })

  unfoldable pub append_model_change : String → String → Action Entry
  append_model_change provider model_id =
      append_new (record (empty_entry model_change) { provider = provider; model_id = model_id })

  unfoldable pub append_thinking_level : String → Action Entry
  append_thinking_level level =
      append_new (record (empty_entry thinking_level_change) { thinking_level = level })

  -- AppendCompactionWithDetails
  unfoldable pub append_compaction : String → String → ℕ → Option Fields → Action Entry
  append_compaction summary first_kept tokens_before details =
      append_new (record (empty_entry compaction) {
        summary = summary;
        first_kept_entry = first_kept;
        tokens_before = tokens_before;
        details = clone_map details;
      })

  -- AppendBranchSummaryWithDetails
  unfoldable pub append_branch_summary : String → String → Option Fields → Action Entry
  append_branch_summary from_id summary details = append_new (record (empty_entry branch_summary) {
    from_id = from_id;
    summary = summary;
    details = clone_map details;
  })

  unfoldable pub append_label : String → String → Action Entry
  append_label target_id caption =
      append_new (record (empty_entry label) { target_id = target_id; caption = caption })

  unfoldable pub append_session_name : String → Action Entry
  append_session_name name = append_new (record (empty_entry session_info) { name = name })

  unfoldable pub append_custom_entry : String → Option Fields → Action Entry
  append_custom_entry custom_type fields = append_new (record (empty_entry custom) {
    custom_type = custom_type;
    custom_data = clone_any_map fields;
  })

  unfoldable pub append_custom_message :
      String → List ContentBlock → Bool → Option Fields → Action Entry
  append_custom_message custom_type content display details =
      append_new (record (empty_entry custom_message) {
        custom_type = custom_type;
        content = content;
        display = display;
        custom_data = clone_any_map details;
      })
