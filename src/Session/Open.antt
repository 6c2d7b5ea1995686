-- ===== src/Session/Open.antt =====
-- internal/session/manager.go: CreateNew, Open, flushAll and rebuildIndexAndMigrate.
use pi_go_coding_agent.Base.{
  ℕ, zero, suc, String, Bool, true, false, List, [], ◌∷◌, ◌++◌, Option, none, some, length, last?,
  ltb, not, ◌&&◌, ◌||◌, ◌==◌, if◌then◌else◌,
}
use pi_go_coding_agent.Base.Text.{◌^^◌}
use pi_go_coding_agent.Base.Dict.{Dict, insert}
use pi_go_coding_agent.Session.Data.{
  EntryType, session, other, Header, Entry, Line, header_line, entry_line,
}
use pi_go_coding_agent.Session.World.{
  Outside, Session, Result, ok, err, Action, ◌>>=◌, return, on_world, make_dir, create_file,
  write_line, read_lines,
}
use pi_go_coding_agent.Session.Ids.{short_id, next_id_seen}

abbrev pub current_version : ℕ
current_version = 3

-- filepath.Join of a directory and a plain file name.
abbrev pub join_path : String → String → String
join_path dir name = dir ^^ "/" ^^ name

abbrev pub has_type : EntryType → Bool
has_type (other s) = not (s == "")
has_type _ = true

-- Open: the lines that are entries with a type.
unfoldable pub parse_entries : List Line → List Entry
parse_entries [] = []
parse_entries (l ∷ ls) =
    let rest = parse_entries ls in
    elim l.as_entry [ none ↦ rest | some e ↦ if has_type e.type then e ∷ rest else rest ]

abbrev pub is_session : EntryType → Bool
is_session session = true
is_session _ = false

unfoldable pub check_header : Option Header → Result Header
check_header none = err "failed to parse session header"
check_header (some h) =
    if is_session h.type
    then ok (elim h.version [ zero ↦ record h { version = 1 } | suc n ↦ h ])
    else err "invalid session header type"

-- The lines of a file, as Open reads them.
unfoldable pub parse_file : List Line → Result (Header × List Entry)
unfolding check_header
parse_file [] = err "session file is empty"
parse_file (l ∷ ls) = elim (check_header l.as_header) [
  | err e ↦ err e
  | ok h ↦ ok (h, parse_entries ls)
]

-- The variables of the loop of rebuildIndexAndMigrate.
pub record Rebuild : Type 0 where
  pub done : List Entry
  pub index : Dict ℕ
  pub last_id : String
  pub changed : Bool
  pub calls : ℕ

module _ (o : Outside) where
  unfoldable pub write_all : String → List Line → Action (Unit {0})
  write_all path [] = return tt
  write_all path (l ∷ ls) =
      let rest = write_all path ls in on_world (write_line o path l) >>= λ _. rest

  unfoldable pub entry_lines : List Entry → List Line
  entry_lines [] = []
  entry_lines (e ∷ es) = entry_line (o.entry_size e) e ∷ entry_lines es

  -- flushAll
  unfoldable pub flush_all : Action (Unit {0})
  unfolding write_all entry_lines
  flush_all s =
      if s.session_file == ""
      then (err "session file path is empty", s)
      else (on_world (create_file o s.session_file) >>= λ _.
            write_all s.session_file
              (header_line (o.header_size s.header) s.header ∷ entry_lines s.entries))
          s

  -- The state that CreateNew writes out: a new header, and no entries.
  unfoldable pub begin_session : String → String → Session → Session
  begin_session cwd parent s =
      let (id, n) = short_id o s.calls in
      record {
        manager = record {
          session_dir = s.session_dir;
          session_file = join_path s.session_dir (id ^^ ".jsonl");
          header = record {
            type = session;
            version = current_version;
            id = id;
            timestamp = o.timestamp n;
            cwd = cwd;
            parent_session = parent;
          };
          entries = [];
          by_id = [];
          leaf_id = "";
        };
        world = record s.world { calls = suc n };
      }

  -- CreateNew
  unfoldable pub create_new : String → String → Action (Unit {0})
  create_new cwd parent s =
      (on_world (make_dir o s.session_dir) >>= λ _ s'. flush_all (begin_session cwd parent s')) s

  -- One round of the loop: an identifier if there is none, and the entry before as parent of an
  -- entry that has no parent.
  unfoldable pub rebuild_step : Rebuild → Entry → Rebuild
  rebuild_step r e =
      let (id, n) = if e.id == "" then next_id_seen o r.index r.calls else (e.id, r.calls) in
      let adopt = (e.parent_id == "") && not (r.last_id == "") in
      record {
        done =
            r.done
            ++ (record e { id = id; parent_id = if adopt then r.last_id else e.parent_id }) ∷ [];
        index = insert id (length r.done) r.index;
        last_id = id;
        changed = r.changed || (e.id == "") || adopt;
        calls = n;
      }

  unfoldable pub rebuild_loop : Rebuild → List Entry → Rebuild
  rebuild_loop r [] = r
  rebuild_loop r (e ∷ es) = rebuild_loop (rebuild_step r e) es

  abbrev pub rebuild_start : ℕ → Rebuild
  rebuild_start n = record { done = []; index = []; last_id = ""; changed = false; calls = n }

  -- rebuildIndexAndMigrate; an error of the flush is dropped.
  unfoldable pub rebuild : Session → Session
  rebuild s =
      let r = rebuild_loop (rebuild_start s.calls) s.entries in
      let old = ltb s.header.version current_version in
      let s' : Session = record {
        manager = record {
          session_dir = s.session_dir;
          session_file = s.session_file;
          header =
              if old then record (s.manager.header) { version = current_version } else s.header;
          entries = r.done;
          by_id = r.index;
          leaf_id = elim (last? r.done) [ none ↦ s.leaf_id | some e ↦ e.id ];
        };
        world = record s.world { calls = r.calls };
      } in
      if r.changed || old then (flush_all s').1 else s'

  -- What Open does with the lines of the file.
  unfoldable pub load_lines : String → List Line → Action (Unit {0})
  load_lines path lines s = elim (parse_file lines) [
    | err e ↦ (err e, s)
    | ok (h, es) ↦ (
      ok tt,
      rebuild (record s {
        manager = record s.manager { header = h; entries = es; session_file = path };
      }),
    )
  ]

  -- Open
  unfoldable pub open_session : String → Action (Unit {0})
  open_session path = on_world (read_lines o path) >>= load_lines path
