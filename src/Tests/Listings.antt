-- ===== src/Tests/Listings.antt =====
-- The theorem on the list of sessions, at a concrete directory.
use pi_go_coding_agent.Base.{ℕ, String, false, List, [], ◌∷◌, none}
use pi_go_coding_agent.Session.Data.{session, empty_header, header_line, Line}
use pi_go_coding_agent.Session.World.{Outside, World}
use pi_go_coding_agent.Session.Listing.{Directory, Info}

abbrev outside : Outside
outside = record {
  random = λ n. none;
  nanos = λ n. n;
  timestamp = λ n. "";
  refuses = λ n. none;
  header_size = λ h. 10;
  entry_size = λ e. 10;
}

abbrev directory : Directory
directory = record {
  read_dir = λ dir w.
      record { name = "a.jsonl"; is_dir = false }
      ∷ record { name = "b.jsonl"; is_dir = false }
      ∷ [];
  mod_time = λ path w. w.calls;
  parse_time = λ s. none;
  line_type = λ l. none;
}

abbrev file : List Line
file = header_line 10 (record empty_header { type = session; id = "s" }) ∷ []

abbrev world : World
world = record { files = ("d/a.jsonl", file) ∷ ("d/b.jsonl", file) ∷ []; calls = 0 }

abbrev info : String → ℕ → Info
info path modified = record {
  path = path;
  id = "s";
  cwd = "";
  name = "";
  created = modified;
  modified = modified;
  message_count = 0;
  first_message = "";
}

abbrev listed : List Info
listed = info "d/b.jsonl" 4 ∷ info "d/a.jsonl" 2 ∷ []
