-- ===== src/Session/Fresh.antt =====
-- internal/session/manager.go: the identifiers that nextIDSeen draws.
use pi_go_coding_agent.Base.{ℕ, zero, suc, ◌<◌, String, ◌≡◌, inl, inr, Bool-cases, false, arith}
use pi_go_coding_agent.Base.Dict.{Dict, has_key}
use pi_go_coding_agent.Session.World.{Outside}
use pi_go_coding_agent.Session.Ids.{short_id, next_id_loop, next_id_seen}

module _ (o : Outside) where
  -- The identifier that round `k` of the loop draws, from the outside call `n`.
  unfoldable pub draw : ℕ → ℕ → String
  draw zero n = (short_id o n).0
  draw (suc k) n = draw k (short_id o n).1

  next_id_loop-fresh :
      {V : Type 0} (rounds k n : ℕ) (seen : Dict V)
      → k < rounds
      → has_key (draw k n) seen ≡ false
      → has_key (next_id_loop o rounds seen n).0 seen ≡ false
  unfolding next_id_loop draw
  next_id_loop-fresh zero k n seen lt free = elim lt [ ]
  next_id_loop-fresh (suc rounds) zero n seen lt free = rw (free, next_id_loop) free
  next_id_loop-fresh (suc rounds) (suc k) n seen lt free =
      elim (Bool-cases (has_key (short_id o n).0 seen)) [
        | inl taken ↦
            rw (taken, next_id_loop)
              (next_id_loop-fresh rounds k (short_id o n).1 seen (omega arith) free)
        | inr found ↦ rw (found, next_id_loop) found
      ]

  -- If one of the hundred identifiers that the loop may draw is not taken, nextIDSeen gives one
  -- that is not taken.
  pub next_id_seen-fresh :
      {V : Type 0} (n k : ℕ) (seen : Dict V)
      → k < 100
      → has_key (draw k n) seen ≡ false
      → has_key (next_id_seen o seen n).0 seen ≡ false
  unfolding next_id_seen
  next_id_seen-fresh n k seen = next_id_loop-fresh 100 k n seen
