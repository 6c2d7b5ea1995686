-- ===== src/Session/Listed.antt =====
-- internal/session/manager.go: what ListSessions lists.
use mathlib.Core.List.{Perm}
use mathlib.Core.List.Perm
use pi_go_coding_agent.Base.{ℕ, String, Bool, true, List, [], ◌∷◌, leb, all, ◌&&◌}
use pi_go_coding_agent.Session.World.{Outside, World}
use pi_go_coding_agent.Session.Listing.{Directory, Info, infos_of, tick}

-- None of the sessions is newer than a time.
abbrev none_after : ℕ → List Info → Bool
none_after n is = all (λ i. leb i.modified n) is

-- No session is newer than one before it.
unfoldable pub newest_first : List Info → Bool
newest_first [] = true
newest_first (i ∷ is) = none_after i.modified is && newest_first is

module _ (d : Directory) (o : Outside) where
  -- The sessions that ListSessions finds, in the order of the directory
  unfoldable pub found : String → World → List Info
  found dir w = (infos_of d o dir (d.read_dir dir (tick d w)) (tick d (tick d w))).0
