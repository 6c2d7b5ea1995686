-- ===== src/Session/Reopen.antt =====
-- internal/session/manager.go: Open of a file that the manager has written.
use pi_go_coding_agent.Base.{
  ℕ, suc, String, ◌≡◌, ◌≢◌, ◌∙◌, ◌⊎◌, inl, inr, List, [], ◌∷◌, ◌++◌, append-nil, append_assoc, none,
  some, true, arith, length, length-append, last?,
}
use pi_go_coding_agent.Base.Dict.{Dict, lookup, insert}
use pi_go_coding_agent.Session.Data.{Entry, Manager, Line, header_line}
use pi_go_coding_agent.Session.World.{Outside, Session}
use pi_go_coding_agent.Session.Open.{
  Rebuild, rebuild_step, rebuild_loop, is_session, entry_lines, has_type, current_version,
}

-- The index of a list of entries.
unfoldable pub index_from : Dict ℕ → ℕ → List Entry → Dict ℕ
index_from d n [] = d
index_from d n (e ∷ es) = index_from (insert e.id n d) (suc n) es

-- Every entry has a type and an identifier, and every entry behind another one has a parent.
abbrev pub IsWhole : String → List Entry → Type 0
IsWhole last [] = Unit {0}
IsWhole last (e ∷ es) =
    (has_type e.type ≡ true) × (e.id ≢ "") × ((last ≡ "") ⊎ (e.parent_id ≢ "")) × IsWhole e.id es

-- The identifier of the last entry.
unfoldable pub last_from : String → List Entry → String
last_from last [] = last
last_from last (e ∷ es) = last_from e.id es

length-snoc : {A : Type 0} (xs : List A) (x : A) → length (xs ++ x ∷ []) ≡ suc (length xs)
length-snoc xs x = omega (arith, length-append xs (x ∷ []))

-- A round that changes nothing.
abbrev stepped : Rebuild → Entry → Rebuild
stepped r e = record {
  done = r.done ++ e ∷ [];
  index = insert e.id (length r.done) r.index;
  last_id = e.id;
  changed = r.changed;
  calls = r.calls;
}

module _ (o : Outside) where
  rebuild_step-whole :
      (r : Rebuild) (e : Entry)
      → e.id ≢ ""
      → (r.last_id ≡ "") ⊎ (e.parent_id ≢ "")
      → rebuild_step o r e ≡ stepped r e
  unfolding rebuild_step
  rebuild_step-whole r e named (inl first) = ground arith
  rebuild_step-whole r e named (inr below) = ground arith

  -- The migration leaves whole entries as they are.
  pub rebuild_loop-whole :
      (r : Rebuild) (es : List Entry)
      → IsWhole r.last_id es
      → rebuild_loop o r es ≡ record {
        done = r.done ++ es;
        index = index_from r.index (length r.done) es;
        last_id = last_from r.last_id es;
        changed = r.changed;
        calls = r.calls;
      }
  unfolding rebuild_loop index_from last_from
  rebuild_loop-whole r [] w = rw append-nil
  rebuild_loop-whole r (e ∷ es) w = rw (rebuild_step-whole r e w.1 w.2) (
      rebuild_loop-whole (stepped r e) es w.3
      ∙ (rw (append_assoc r.done (e ∷ []) es, length-snoc r.done e)))

-- The lines of a session's file.
abbrev pub saved_lines : Outside → Manager → List Line
saved_lines o m = header_line (o.header_size m.header) m.header ∷ entry_lines o m.entries

-- The file of a session holds its header and entries, and its index is that of the entries.
pub record IsSaved (o : Outside) (s : Session) : Type 0 where
  pub stored : lookup s.session_file s.files ≡ some (saved_lines o s.manager)
  pub index_of : s.by_id ≡ index_from [] 0 s.entries
  pub whole : IsWhole "" s.entries
  pub kind : is_session s.header.type ≡ true
  pub version : s.header.version ≡ current_version

abbrev pub leaf_after : String → List Entry → String
leaf_after old es = elim (last? es) [ none ↦ old | some e ↦ e.id ]

module _ (o : Outside) (s t : Session) where
  abbrev loaded : Session
  loaded = record t {
    manager = record t.manager {
      header = s.header;
      entries = s.entries;
      session_file = s.session_file;
    };
    world = record t.world { calls = suc t.calls };
  }
