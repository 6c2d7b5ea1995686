-- ===== src/Session/Data.antt =====
-- internal/session/manager.go: the types, and the lines of a session file. A line stands for what
-- json.Unmarshal makes of its text: as a header, as an entry, or neither where the text is no
-- JSON object of these shapes. Its size is the length of the text in bytes. Blank lines are left out,
-- as Open leaves them out.
use pi_go_coding_agent.Base.{ℕ, String, Bool, false, List, [], Option, none, some}
use pi_go_coding_agent.Base.Dict.{Dict}
use pi_go_coding_agent.Types.{Message, ContentBlock, Fields}

pub data EntryType : Type 0 where
  session message model_change thinking_level_change compaction branch_summary : EntryType
  label session_info custom custom_message : EntryType
  other : String → EntryType

pub record Header : Type 0 where
  pub type : EntryType
  pub version : ℕ
  pub id : String
  pub timestamp : String
  pub cwd : String
  pub parent_session : String

pub record Entry : Type 0 where
  pub type : EntryType
  pub id : String
  pub parent_id : String
  pub timestamp : String
  pub body : Option Message
  pub thinking_level : String
  pub provider : String
  pub model_id : String
  pub summary : String
  pub first_kept_entry : String
  pub tokens_before : ℕ
  pub from_id : String
  pub from_hook : Bool
  pub details : Option Fields
  pub custom_type : String
  pub custom_data : Option Fields
  pub display : Bool
  pub content : List ContentBlock
  pub target_id : String
  pub caption : String
  pub name : String

-- Go's zero value, with a type.
abbrev pub empty_entry : EntryType → Entry
empty_entry t = record {
  type = t;
  id = "";
  parent_id = "";
  timestamp = "";
  body = none;
  thinking_level = "";
  provider = "";
  model_id = "";
  summary = "";
  first_kept_entry = "";
  tokens_before = 0;
  from_id = "";
  from_hook = false;
  details = none;
  custom_type = "";
  custom_data = none;
  display = false;
  content = [];
  target_id = "";
  caption = "";
  name = "";
}

abbrev pub empty_header : Header
empty_header = record {
  type = other "";
  version = 0;
  id = "";
  timestamp = "";
  cwd = "";
  parent_session = "";
}

pub record Line : Type 0 where
  pub as_header : Option Header
  pub as_entry : Option Entry
  pub size : ℕ

-- The two types share the fields type, id and timestamp.
abbrev pub header_line : ℕ → Header → Line
header_line size h = record {
  as_header = some h;
  as_entry = some (record (empty_entry h.type) { id = h.id; timestamp = h.timestamp });
  size = size;
}

abbrev pub entry_line : ℕ → Entry → Line
entry_line size e = record {
  as_header = some (record empty_header { type = e.type; id = e.id; timestamp = e.timestamp });
  as_entry = some e;
  size = size;
}

pub record Manager : Type 0 where
  pub session_dir : String
  pub session_file : String
  pub header : Header
  pub entries : List Entry
  pub by_id : Dict ℕ
  pub leaf_id : String

-- NewManager
unfoldable pub new_manager : String → Manager
new_manager dir = record {
  session_dir = dir;
  session_file = "";
  header = empty_header;
  entries = [];
  by_id = [];
  leaf_id = "";
}
