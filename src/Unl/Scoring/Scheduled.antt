-- ===== src/Unl/Scoring/Scheduled.antt =====
-- A change of the seeds in src/UniqueNodeList/UniqueNodeList.cpp has the list scored again.
use bytev.Prelude.{ℕ, ◌+◌, ◌≤◌, ◌≡◌, true, Option, none, some, arith}
use bytev.Unl.State.{Tables, NodeList}
use bytev.Unl.Scoring.{score_next, misc_save, fetch_dirty, score_delay_seconds, none_or_at_most}

-- A scoring is due at some time that is at least the limit.
abbrev pub IsDue : ℕ → Option ℕ → Type 0
IsDue limit none = ⊥
IsDue limit (some t) = limit ≤ t

module _ {Db : Type 0} (t : Tables Db) (now : ℕ) where
  -- After a change of the seeds while no scoring runs, where the last scoring was not later than
  -- now, the timer stands for a scoring that is at least the delay away.
  pub fetch_dirty-IsDue :
      (p : NodeList Db)
      → p.score_start ≡ none
      → none_or_at_most now p.score_updated ≡ true
      → IsDue (now + score_delay_seconds) (fetch_dirty t now p).0.score_next_at
  unfolding fetch_dirty score_next misc_save
  fetch_dirty-IsDue p h h' = ground (arith)
