-- ===== src/Tools/Read.antt =====
-- internal/tools/read.go: the tool that reads a file, page by page. The content of a file is the
-- list of the lines that strings.Split makes of it, which is never empty.
pub mod Pages
use pi_go_coding_agent.Base.{
  ℕ, zero, suc, ◌+◌, ◌-◌, String, Bool, true, false, List, [], ◌∷◌, Option, none, some, ltb, leb,
  length, take, drop, ◌&&◌, ◌==◌, if◌then◌else◌,
}
use pi_go_coding_agent.Base.Text.{trim_space, join, ◌^^◌}
use pi_go_coding_agent.Base.Int.{ℤ, pos, negsuc}
use pi_go_coding_agent.Types.{Json, num, str, Fields, lookup_field}
use pi_go_coding_agent.Session.World.{Result, ok, err}
use pi_go_coding_agent.Tools.Numbers.{decimal, atoi, clamp_int}

-- The files: resolvePath with os.ReadFile, and its error.
pub record Files : Type 0 where
  pub resolve_path : String → Result String
  pub read_file : String → Result (List String)

-- What the tool shows: the lines, with the number of the line before the first of them, and of the
-- last.
pub record Page : Type 0 where
  pub shown : List String
  pub start : ℕ
  pub end : ℕ
  pub total : ℕ

-- The result of Execute without an error.
pub record ReadResult : Type 0 where
  pub chunk : String
  pub path : String
  pub offset : ℕ
  pub limit : ℕ
  pub total_lines : ℕ

abbrev pub string_arg : Option Json → String
string_arg (some (str s)) = s
string_arg _ = ""

parsed_or : ℤ → Option ℤ → ℤ
parsed_or n none = n
parsed_or n (some m) = m

-- An argument that is a number, or a text with one; and whether it is given.
unfoldable pub number_arg : ℤ → Option Json → Bool × ℤ
unfolding parsed_or
number_arg default (some (num n)) = (true, n)
number_arg default (some (str s)) =
    if trim_space s == "" then (false, default) else (true, parsed_or default (atoi s))
number_arg default _ = (false, default)

-- The offset is at least 1.
unfoldable pub first_line : ℤ → ℕ
first_line (negsuc n) = 1
first_line (pos zero) = 1
first_line (pos (suc n)) = suc n

-- The lines from the offset on, at most `limit` of them; none at an offset that is not given.
unfoldable pub page_of : List String → Bool → ℕ → ℕ → Result Page
page_of ls provided offset limit =
    let start = offset - 1 in
    let total = length ls in
    if leb total start
    then if provided
      then err (
          "offset "
          ^^ decimal offset
          ^^ " is beyond end of file ("
          ^^ decimal total
          ^^ " lines total)")
      else ok (record { shown = []; start = start; end = start; total = total })
    else let end = if ltb total (start + limit) then total else start + limit in
      ok (record {
        shown = take (end - start) (drop start ls);
        start = start;
        end = end;
        total = total;
      })

-- The text of a page, with the notice that says how to go on.
unfoldable pub chunk_of : Page → String
chunk_of p =
    let text = join "\n" p.shown in
    if ltb p.end p.total
    then text
      ^^ "\n\n[Showing lines "
      ^^ decimal (suc p.start)
      ^^ "-"
      ^^ decimal p.end
      ^^ " of "
      ^^ decimal p.total
      ^^ ". Use offset="
      ^^ decimal (suc p.end)
      ^^ " to continue.]"
    else text

read_page : String → ℕ → Result Page → Result ReadResult
read_page path limit (err why) = err why
read_page path limit (ok p) = ok (record {
  chunk = chunk_of p;
  path = path;
  offset = suc p.start;
  limit = limit;
  total_lines = p.total;
})

read_resolved : Files → Bool → ℕ → ℕ → Result String → Result ReadResult
unfolding read_page
read_resolved files provided offset limit (err why) = err why
read_resolved files provided offset limit (ok path) = elim (files.read_file path) [
  | err why ↦ err why
  | ok ls ↦ read_page path limit (page_of ls provided offset limit)
]

-- ReadTool.Execute
unfoldable pub read : Files → Fields → Result ReadResult
unfolding read_resolved
read files args =
    let path = string_arg (lookup_field "path" args) in
    let (provided, offset) = number_arg (pos 1) (lookup_field "offset" args) in
    let (given, limit) = number_arg (pos 200) (lookup_field "limit" args) in
    if path == ""
    then err "missing path"
    else read_resolved files provided (first_line offset) (clamp_int limit 1 2000)
        (files.resolve_path path)
