-- ===== src/Unl/Rounds.antt =====
-- The rounds of scoring in src/UniqueNodeList/UniqueNodeList.cpp: scoreRound and the loop of
-- scoreCompute that calls it. Scores and points are C++ ints that are never negative; they are
-- numbers here.
pub mod Points
pub mod Totals
pub mod Early
use Prim.Native.String.{String}
use bytev.Prelude.{
  Option, ℕ, zero, suc, ◌+◌, ◌-◌, ◌*◌, ◌/◌, Bool, true, false, not, List, [], ◌∷◌, map, length,
  ◌==◌, ◌||◌, if◌then◌else◌,
}

-- `scoreNode`; an iSeen of -1 is none.
pub record ScoreNode : Type 0 where
  pub validator : String
  pub score : ℕ
  pub round_score : ℕ
  pub round_seed : ℕ
  pub referrals : List ℕ
  pub seen : Option ℕ

abbrev pub Nodes : Type 0
Nodes = List ScoreNode

-- `vsnNodes[k].iRoundScore += points`. An index out of range changes nothing.
unfoldable pub add_points : ℕ → ℕ → Nodes → Nodes
add_points k points [] = []
add_points zero points (sn ∷ nodes) = record sn { round_score = sn.round_score + points } ∷ nodes
add_points (suc k) points (sn ∷ nodes) = sn ∷ add_points k points nodes

-- iTotal and iBase
unfoldable pub total : ℕ → ℕ
total entries = (entries + 1) * entries / 2

unfoldable pub base : ℕ → ℕ → ℕ
unfolding total
base seed entries = seed * entries / total entries

-- The loop over the entries of a node, from entry `i` on.
unfoldable pub distribute : ℕ → ℕ → ℕ → List ℕ → Nodes → Nodes
distribute b entries i [] nodes = nodes
distribute b entries i (k ∷ refs) nodes =
    distribute b entries (i + 1) refs (add_points k (b * (entries - i) / entries) nodes)

-- The first loop, over the nodes that are left. It changes no seed and no referrals.
unfoldable pub distribute_all : Nodes → Nodes → Nodes
distribute_all [] nodes = nodes
distribute_all (sn ∷ left) nodes =
    let entries = length sn.referrals in
    let nodes' = distribute (base sn.round_seed entries) entries 0 sn.referrals nodes in
    distribute_all left (if sn.round_seed == 0 || entries == 0 then nodes else nodes')

-- The last loop: the new score and seed of a node.
abbrev pub settle : ScoreNode → ScoreNode
settle sn = record sn {
  score = sn.score + sn.round_score;
  round_seed = sn.round_score;
  round_score = 0;
}

unfoldable pub any_points : Nodes → Bool
any_points [] = false
any_points (sn ∷ nodes) = not (sn.round_score == 0) || any_points nodes

-- The result is bDist.
unfoldable pub score_round : Nodes → Nodes × Bool
score_round nodes = let given = distribute_all nodes nodes in (map settle given, any_points given)

abbrev pub score_rounds : ℕ
score_rounds = 10

-- `for (int i = SCORE_ROUNDS; bDist && i--;) bDist = scoreRound(vsnNodes);`
unfoldable pub rounds : ℕ → Bool → Nodes → Nodes
rounds zero dist nodes = nodes
rounds (suc i) false nodes = nodes
rounds (suc i) true nodes = let (nodes', dist) = score_round nodes in rounds i dist nodes'

unfoldable pub distribute_points : Nodes → Nodes
distribute_points nodes = rounds score_rounds true nodes
