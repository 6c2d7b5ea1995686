-- ===== src/Session/Listing.antt =====
-- internal/session/manager.go: ListSessions, parseSessionInfo and OpenLatest. Two sessions that were
-- modified at the same time stand in the order of their names; sort.Slice may swap them. A first
-- message is cut before a character that the code would cut into.
use pi_go_coding_agent.Base.{
  ℕ, suc, String, Bool, true, false, List, [], ◌∷◌, Option, none, some, ltb, not, ◌==◌, ◌||◌,
  if◌then◌else◌,
}
use pi_go_coding_agent.Base.Dict.{lookup}
use pi_go_coding_agent.Base.Strings.{has_suffix, take_bytes}
use pi_go_coding_agent.Types.{text, ContentBlock}
use pi_go_coding_agent.Session.Data.{EntryType, message, Header, empty_header, Entry, Line}
use pi_go_coding_agent.Session.World.{
  Outside, World, Result, ok, err, Action, ◌>>=◌, return, on_world, make_dir, fits,
}
use pi_go_coding_agent.Session.Open.{join_path, open_session}

pub record DirEntry : Type 0 where
  pub name : String
  pub is_dir : Bool

-- What the listing meets outside: os.ReadDir, os.Stat, time.Parse, and the type that json.Unmarshal
-- finds in a line.
pub record Directory : Type 0 where
  pub read_dir : String → World → List DirEntry
  pub mod_time : String → World → ℕ
  pub parse_time : String → Option ℕ
  pub line_type : Line → Option EntryType

pub record Info : Type 0 where
  pub path : String
  pub id : String
  pub cwd : String
  pub name : String
  pub created : ℕ
  pub modified : ℕ
  pub message_count : ℕ
  pub first_message : String

-- The lines up to the first that is too long; the error of the Scanner is not read.
scanned : List Line → List Line
scanned [] = []
scanned (l ∷ ls) = let rest = scanned ls in if fits l then l ∷ rest else []

-- The first text of the blocks that is not empty
text_in : List ContentBlock → String
text_in [] = ""
text_in (b ∷ bs) =
    let rest = text_in bs in
    elim b.type [ text ↦ if b.body == "" then rest else take_bytes 120 b.body | _ ↦ rest ]

message_in : Option Entry → String
unfolding text_in
message_in none = ""
message_in (some e) = elim e.body [ none ↦ "" | some m ↦ text_in m.content ]

-- The count of the messages, and the first text of one
record Read : Type 0 where
  count : ℕ
  first : String

is_message : Option EntryType → Bool
is_message none = false
is_message (some t) = elim t [ message ↦ true | _ ↦ false ]

-- A session before the first that is not newer
unfoldable pub insert_newest : Info → List Info → List Info
insert_newest i [] = i ∷ []
insert_newest i (j ∷ js) =
    let rest = insert_newest i js in if ltb i.modified j.modified then j ∷ rest else i ∷ j ∷ js

-- The order of sort.Slice
unfoldable pub sort_newest : List Info → List Info
unfolding insert_newest
sort_newest [] = []
sort_newest (i ∷ is) = insert_newest i (sort_newest is)

module _ (d : Directory) where
  read_step : Line → Read → Read
  unfolding is_message message_in
  read_step l r =
      if is_message (d.line_type l)
      then record {
        count = suc r.count;
        first = if r.first == "" then message_in l.as_entry else r.first;
      }
      else r

  read_loop : List Line → Read → Read
  unfolding read_step
  read_loop [] r = r
  read_loop (l ∷ ls) r = read_loop ls (read_step l r)

  created_at : Header → ℕ → ℕ
  created_at h modified =
      if h.timestamp == ""
      then modified
      else elim (d.parse_time h.timestamp) [ none ↦ modified | some t ↦ t ]

  info_of : String → ℕ → Header → List Line → Info
  unfolding read_loop created_at
  info_of path modified h ls =
      let r = read_loop ls (record { count = 0; first = "" }) in
      record {
        path = path;
        id = h.id;
        cwd = h.cwd;
        name = "";
        created = created_at h modified;
        modified = modified;
        message_count = r.count;
        first_message = r.first;
      }

  -- What the lines of a file say; a file without lines has an empty header.
  unfoldable pub info_from : String → ℕ → List Line → Result Info
  unfolding info_of
  info_from path modified [] = ok (info_of path modified empty_header [])
  info_from path modified (l ∷ ls) = elim l.as_header [
    | none ↦ err "failed to parse session header"
    | some h ↦ ok (info_of path modified h ls)
  ]

  unfoldable pub tick : World → World
  tick w = record w { calls = suc w.calls }

  module _ (o : Outside) where
    -- os.Stat, after the lines have been read
    stat_after : String → Result Info → World → Result Info × World
    unfolding tick
    stat_after path (err why) w = (err why, w)
    stat_after path (ok info) w = elim (o.refuses w.calls) [
      | some why ↦ (err why, tick w)
      | none ↦ (ok info, tick w)
    ]

    -- parseSessionInfo
    unfoldable pub parse_session_info : String → World → Result Info × World
    unfolding info_from scanned stat_after tick
    parse_session_info path w = elim (o.refuses w.calls) [
      | some why ↦ (err why, tick w)
      | none ↦ elim (lookup path w.files) [
        | none ↦ (err "no such file or directory", tick w)
        | some lines ↦ stat_after path (info_from path (d.mod_time path w) (scanned lines)) (tick w)
      ]
    ]

    -- The sessions of the directory that can be read
    unfoldable pub infos_of : String → List DirEntry → World → List Info × World
    unfolding parse_session_info
    infos_of dir [] w = ([], w)
    infos_of dir (e ∷ es) w =
        if e.is_dir || not (has_suffix e.name ".jsonl")
        then infos_of dir es w
        else let (r, w₁) = parse_session_info (join_path dir e.name) w in
          let (infos, w₂) = infos_of dir es w₁ in
          elim r [ err why ↦ (infos, w₂) | ok info ↦ (info ∷ infos, w₂) ]

    unfoldable pub read_directory : String → World → Result (List Info) × World
    unfolding infos_of sort_newest tick
    read_directory dir w = elim (o.refuses w.calls) [
      | some why ↦ (err why, tick w)
      | none ↦
          let (infos, w') = infos_of dir (d.read_dir dir w) (tick w) in (ok (sort_newest infos), w')
    ]

    -- ListSessions
    unfoldable pub list_sessions : String → World → Result (List Info) × World
    unfolding read_directory
    list_sessions dir w =
        let (r, w') = make_dir o dir w in
        elim r [ err why ↦ (err why, w') | ok done ↦ read_directory dir w' ]

    open_first : List Info → Action Bool
    open_first [] = return false
    open_first (i ∷ is) = open_session o i.path >>= λ _. return true

    -- OpenLatest
    unfoldable pub open_latest : Action Bool
    unfolding open_first list_sessions
    open_latest s = (on_world (list_sessions s.session_dir) >>= open_first) s
