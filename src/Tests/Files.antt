-- ===== src/Tests/Files.antt =====
-- internal/session/manager.go: the theorems on the file of a session, on a new session.
use pi_go_coding_agent.Base.{
  ℕ, false, List, [], ◌∷◌, ◌++◌, none, some, ◌≡◌, ◌≢◌, refl, inl, arith, string_discrete, ==→≢,
}
use pi_go_coding_agent.Base.Dict.{Dict, lookup, insert, has_key}
use pi_go_coding_agent.Types.{user, text_message}
use pi_go_coding_agent.Session.Data.{
  message, Entry, empty_entry, new_manager, Line, entry_line, header_line,
}
use pi_go_coding_agent.Session.World.{Outside, Session, ok}
use pi_go_coding_agent.Session.Ids.{short_id, next_id_seen}
use pi_go_coding_agent.Session.Append.{add_entry}
use pi_go_coding_agent.Session.Open.{
  create_new, begin_session, flush_all, write_all, entry_lines, open_session, rebuild_loop,
  rebuild_start,
}
use pi_go_coding_agent.Session.Invariant.{IsIndexed, new_manager-IsTree}
use pi_go_coding_agent.Session.Fresh.{draw, next_id_seen-fresh}
use pi_go_coding_agent.Session.Rebuilt.{open_session-IsIndexed}
use pi_go_coding_agent.Session.Reopen.{IsWhole, last_from}
use pi_go_coding_agent.Session.Saved.{second_root_adopted}

-- Outside calls that all succeed.
abbrev pub quiet : Outside
quiet = record {
  random = λ n. some (n ∷ 0 ∷ 0 ∷ 7 ∷ []);
  nanos = λ n. n;
  timestamp = λ n. "now";
  refuses = λ n. none;
  header_size = λ h. 90;
  entry_size = λ e. 200;
}

abbrev start : Session
start = record { manager = new_manager "dir"; world = record { files = []; calls = 0 } }

abbrev created : Session
created = (create_new quiet "/work" "" start).1

abbrev hello : Entry
hello = record (empty_entry message) { body = some (text_message 1 user "hello") }

-- A manager that opens the file after a restart.
abbrev restarted : Session
restarted = record { manager = new_manager "dir"; world = created.world }

flushed_ok : (flush_all quiet created).0 ≡ ok tt
unfolding create_new begin_session flush_all write_all short_id string_discrete insert lookup
    new_manager entry_lines
flushed_ok = refl

abbrev taken : Dict ℕ
taken = ("00000007", 0) ∷ []

second_draw_free : has_key (draw quiet 1 0) taken ≡ false
unfolding has_key lookup draw short_id string_discrete
second_draw_free = refl

next_id_seen-fresh_example : has_key (next_id_seen quiet taken 0).0 taken ≡ false
next_id_seen-fresh_example = next_id_seen-fresh quiet 0 1 taken (omega arith) second_draw_free

-- A session with one entry, and another root.
abbrev with_root : Session
with_root = record {
  manager = add_entry (record hello { id = "a" }) (new_manager "dir");
  world = record { files = []; calls = 0 };
}

root-IsWhole : IsWhole "" with_root.entries
unfolding add_entry new_manager string_discrete
root-IsWhole = (refl, ==→≢ _ "" refl, inl refl, tt)

root_last : last_from "" with_root.entries ≢ ""
unfolding add_entry new_manager string_discrete last_from
root_last = ==→≢ _ "" refl

b_named : (record hello { id = "b" }).id ≢ ""
unfolding string_discrete
b_named = ==→≢ _ "" refl

second_root_adopted_example :
    (rebuild_loop quiet
      (rebuild_start quiet 0)
      (with_root.entries ++ record hello { id = "b" } ∷ [])).done
    ≡ with_root.entries
      ++ record (record hello { id = "b" }) { parent_id = last_from "" with_root.entries } ∷ []
second_root_adopted_example =
    second_root_adopted quiet with_root (record hello { id = "b" }) 0 root-IsWhole root_last b_named
      refl

-- A file with a line of 70,000 bytes
abbrev long_lines : List Line
long_lines = entry_line 70000 hello ∷ []

abbrev with_long : Session
with_long = record start { world = record { files = ("f", long_lines) ∷ []; calls = 0 } }

-- A file whose two entries are each other's parents.
abbrev cyclic : Session
cyclic = record start {
  world = record {
    files =
        (
          "f",
          header_line 90 created.header
              ∷ entry_line 200 (record hello { id = "a"; parent_id = "b" })
              ∷ entry_line 200 (record hello { id = "b"; parent_id = "a" })
              ∷ [],
        )
        ∷ [];
    calls = 0;
  };
}

no_leaf : cyclic.leaf_id ≡ ""
unfolding new_manager
no_leaf = refl

open_session-IsIndexed_example : IsIndexed (open_session quiet "f" cyclic).1.manager
open_session-IsIndexed_example =
    open_session-IsIndexed quiet "f" cyclic no_leaf (new_manager-IsTree "dir").places
