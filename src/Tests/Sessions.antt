-- ===== src/Tests/Sessions.antt =====
-- internal/session/manager.go: the theorems of the session manager on small sessions.
use pi_go_coding_agent.Base.{
  ◌+◌, String, false, [], ◌∷◌, ◌++◌, none, some, ◌≡◌, ◌≢◌, refl, ◌==◌, if◌then◌else◌,
  string_discrete, ==→≢, reverse,
}
use pi_go_coding_agent.Base.Dict.{lookup, insert}
use pi_go_coding_agent.Types.{user, text_message}
use pi_go_coding_agent.Session.Data.{message, Entry, empty_entry, Manager, new_manager}
use pi_go_coding_agent.Session.Append.{add_entry}
use pi_go_coding_agent.Session.Branch.{walk, branch, start_of, enough}
use pi_go_coding_agent.Session.Invariant.{IsTree, new_manager-IsTree}
use pi_go_coding_agent.Session.Grow.{add_entry-IsTree}
use pi_go_coding_agent.Session.Lineage.{Lineage, branch-Lineage}
use pi_go_coding_agent.Session.History.{branch-add}
use pi_go_coding_agent.Session.Total.{branch_total}

-- A user's message as an entry.
abbrev entry : String → String → Entry
entry id parent = record (empty_entry message) {
  id = id;
  parent_id = parent;
  body = some (text_message 1 user id);
}

abbrev empty_manager : Manager
empty_manager = new_manager "dir"

abbrev one_entry : Manager
one_entry = add_entry (entry "a" "") empty_manager

abbrev pub two_entries : Manager
two_entries = add_entry (entry "b" "a") one_entry

named : (s : String) → (s == "") ≡ false → s ≢ ""
named s h = ==→≢ s "" h

one_entry-IsTree : IsTree one_entry
unfolding lookup new_manager string_discrete
one_entry-IsTree =
    add_entry-IsTree (entry "a" "") empty_manager refl (named "a" refl) refl
      (new_manager-IsTree "dir")

b_fresh : lookup "b" one_entry.by_id ≡ none
unfolding lookup new_manager add_entry insert string_discrete
b_fresh = refl

pub two_entries-IsTree : IsTree two_entries
unfolding add_entry string_discrete
two_entries-IsTree =
    add_entry-IsTree (entry "b" "a") one_entry b_fresh (named "b" refl) refl one_entry-IsTree

b_listed : lookup "b" two_entries.by_id ≡ some 1
unfolding lookup new_manager add_entry insert string_discrete
b_listed = refl

a_listed : lookup "a" one_entry.by_id ≡ some 0
unfolding lookup new_manager add_entry insert string_discrete
a_listed = refl

branch-Lineage_example : Lineage two_entries "b" (reverse (branch two_entries "b"))
branch-Lineage_example = branch-Lineage two_entries two_entries-IsTree "b" 1 b_listed

branch-add_example :
    branch (add_entry (entry "b" "a") one_entry) "b"
    ≡ (if one_entry.leaf_id == "" then [] else branch one_entry one_entry.leaf_id)
      ++ entry "b" "a" ∷ []
unfolding add_entry string_discrete
branch-add_example =
    branch-add (entry "b" "a") one_entry one_entry-IsTree b_fresh (named "b" refl) refl

branch_total_example :
    reverse (walk two_entries (enough two_entries + 5) [] (start_of two_entries "b"))
    ≡ branch two_entries "b"
branch_total_example = branch_total two_entries "b" 5 two_entries-IsTree.places
