-- ===== src/Tools/Edit.antt =====
-- internal/tools/edit.go: the tool that replaces a text that stands once in a file.
pub mod Replaced
use Prim.Native.Char.{Char}
use Prim.Native.String
use Prim.Native.String.{len}
use pi_go_coding_agent.Base.{
  ℕ, zero, suc, String, Bool, true, false, Option, none, some, ltb, ◌==◌, if◌then◌else◌,
}
use pi_go_coding_agent.Base.Text.{◌^^◌}
use pi_go_coding_agent.Types.{Fields, lookup_field}
use pi_go_coding_agent.Session.World.{Result, ok, err}
use pi_go_coding_agent.Tools.Numbers.{decimal}
use pi_go_coding_agent.Tools.Read.{string_arg}

-- The files: resolvePath, os.ReadFile and os.WriteFile, with its error.
pub record EditFiles : Type 0 where
  pub resolve_path : String → Result String
  pub read_file : String → Result String
  pub write_file : String → String → Option String

-- What is left of a text behind a beginning, if it begins with that.
unfoldable pub cut_prefix : String → String → Option String
cut_prefix s String.[] = some s
cut_prefix String.[] (String.◌∷◌ d t) = none
cut_prefix (String.◌∷◌ c s) (String.◌∷◌ d t) =
    let rest = cut_prefix s t in if String.◌∷◌ c "" == String.◌∷◌ d "" then rest else none

-- strings.Cut: what stands before and behind the first occurrence
unfoldable pub cut : String → String → Option (String × String)
cut old String.[] = elim (cut_prefix "" old) [ none ↦ none | some a ↦ some ("", a) ]
cut old (String.◌∷◌ c s) =
    let later = cut old s in
    elim (cut_prefix (String.◌∷◌ c s) old) [
      | some a ↦ some ("", a)
      | none ↦ elim later [ none ↦ none | some (b, a) ↦ some (String.◌∷◌ c b, a) ]
    ]

unfoldable pub count_from : ℕ → String → String → ℕ
count_from zero old s = 0
count_from (suc fuel) old s = elim (cut old s) [
  | none ↦ 0
  | some (b, a) ↦ suc (count_from fuel old a)
]

-- strings.Count of a text that is not empty. A content has no more occurrences than bytes, and the
-- last round finds none.
unfoldable pub count : String → String → ℕ
unfolding count_from
count old s = count_from (suc (suc (len s))) old s

unfoldable pub replaced : String → Option (String × String) → String → String
replaced new none s = s
replaced new (some (b, a)) s = b ^^ new ^^ a

-- The new content: strings.Replace with one replacement, if there is one occurrence.
unfoldable pub edit_text : String → String → String → Result String
unfolding replaced
edit_text old new content = elim (count old content) [
  | zero ↦ err "oldText not found"
  | suc zero ↦ ok (replaced new (cut old content) content)
  | suc (suc n) ↦ err ("found " ^^ decimal (suc (suc n)) ^^ " occurrences; oldText must be unique")
]

written : EditFiles → String → String → Result String
written files path updated = elim (files.write_file path updated) [
  | some why ↦ err why
  | none ↦ ok path
]

read_and_edit : EditFiles → String → String → String → Result String
unfolding written
read_and_edit files old new path = elim (files.read_file path) [
  | err why ↦ err why
  | ok content ↦ elim (edit_text old new content) [
    | err why ↦ err why
    | ok updated ↦ written files path updated
  ]
]

-- EditTool.Execute, which gives the path that it has written
unfoldable pub edit : EditFiles → Fields → Result String
unfolding read_and_edit
edit files args =
    let path = string_arg (lookup_field "path" args) in
    let old = string_arg (lookup_field "oldText" args) in
    let new = string_arg (lookup_field "newText" args) in
    if path == ""
    then err "missing path"
    else if old == ""
    then err "oldText cannot be empty"
    else if old == new
    then err "replacement produced no changes"
    else elim (files.resolve_path path) [
      | err why ↦ err why
      | ok abs ↦ read_and_edit files old new abs
    ]
