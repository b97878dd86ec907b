-- ===== src/Unl/Rounds/Totals.antt =====
-- Sums over all nodes in the rounds of src/UniqueNodeList/UniqueNodeList.cpp.
use bytev.Prelude.{
  ℕ, zero, suc, ◌+◌, ◌-◌, ◌*◌, ◌/◌, ◌≤◌, ◌≡◌, refl, ap, ◌∙◌, Bool, true, false, List, [], ◌∷◌, map,
  length, arith,
}
use bytev.Unl.Rounds.{
  ScoreNode, Nodes, add_points, base, distribute, distribute_all, settle, score_round, rounds,
  distribute_points,
}
use bytev.Unl.Rounds.Points.{points, points-le-seed}

abbrev pub sum_by : (ScoreNode → ℕ) → Nodes → ℕ
sum_by f [] = 0
sum_by f (sn ∷ nodes) = f sn + sum_by f nodes

abbrev pub scores : Nodes → ℕ
scores = sum_by (λ sn. sn.score)

abbrev pub seeds : Nodes → ℕ
seeds = sum_by (λ sn. sn.round_seed)

abbrev pub pending : Nodes → ℕ
pending = sum_by (λ sn. sn.round_score)

pending-add_points : (k x : ℕ) (nodes : Nodes) → pending (add_points k x nodes) ≤ pending nodes + x
unfolding add_points
pending-add_points k x [] = omega arith
pending-add_points zero x (sn ∷ nodes) = omega arith
pending-add_points (suc k) x (sn ∷ nodes) = omega (arith, pending-add_points k x nodes)

scores-add_points : (k x : ℕ) (nodes : Nodes) → scores (add_points k x nodes) ≡ scores nodes
unfolding add_points
scores-add_points k x [] = refl
scores-add_points zero x (sn ∷ nodes) = refl
scores-add_points (suc k) x (sn ∷ nodes) = omega (arith, scores-add_points k x nodes)

pending-distribute :
    (b n i : ℕ) (refs : List ℕ) (nodes : Nodes)
    → i + length refs ≡ n
    → pending (distribute b n i refs nodes) ≤ pending nodes + points b n (length refs)
unfolding distribute points
pending-distribute b n i [] nodes e = omega arith
pending-distribute b n i (k ∷ refs) nodes e =
    let x = b * (n - i) / n in
    omega (
      arith,
      pending-distribute b n (i + 1) refs (add_points k x nodes) (omega arith),
      pending-add_points k x nodes,
      same,
    )
  where
    same : b * (n - i) / n ≡ b * suc (length refs) / n
    same = ap (λ m. b * m / n) (omega arith)

scores-distribute :
    (b n i : ℕ) (refs : List ℕ) (nodes : Nodes)
    → scores (distribute b n i refs nodes) ≡ scores nodes
unfolding distribute
scores-distribute b n i [] nodes = refl
scores-distribute b n i (k ∷ refs) nodes =
    scores-distribute b n (i + 1) refs (add_points k (b * (n - i) / n) nodes)
    ∙ scores-add_points k (b * (n - i) / n) nodes

pending-distribute_all :
    (left nodes : Nodes) → pending (distribute_all left nodes) ≤ pending nodes + seeds left
unfolding distribute_all
pending-distribute_all [] nodes = omega arith
pending-distribute_all (sn ∷ left) nodes =
    let n = length sn.referrals in
    let given = distribute (base sn.round_seed n) n 0 sn.referrals nodes in
    ground (
      arith,
      pending-distribute_all left nodes,
      pending-distribute_all left given,
      pending-distribute (base sn.round_seed n) n 0 sn.referrals nodes,
      points-le-seed sn.round_seed n,
    )

scores-distribute_all : (left nodes : Nodes) → scores (distribute_all left nodes) ≡ scores nodes
unfolding distribute_all
scores-distribute_all [] nodes = refl
scores-distribute_all (sn ∷ left) nodes =
    let n = length sn.referrals in
    let given = distribute (base sn.round_seed n) n 0 sn.referrals nodes in
    ground (
      arith,
      scores-distribute_all left nodes,
      scores-distribute_all left given,
      scores-distribute (base sn.round_seed n) n 0 sn.referrals nodes,
    )

pub settled :
    (nodes : Nodes)
    → (scores (map settle nodes) ≡ scores nodes + pending nodes)
      × (seeds (map settle nodes) ≡ pending nodes)
      × (pending (map settle nodes) ≡ 0)
settled [] = omega arith
settled (sn ∷ nodes) = omega (arith, settled nodes)

-- One round, begun with no points pending: the seeds of the next round are together at most the
-- seeds of this one, so points are lost to rounding but never made up; the scores grow together by
-- exactly the seeds of the next round; and no points are pending.
pub score_round-totals :
    (nodes : Nodes)
    → pending nodes ≡ 0
    → let nodes' = (score_round nodes).0 in
      (seeds nodes' ≤ seeds nodes)
      × (scores nodes' ≡ scores nodes + seeds nodes')
      × (pending nodes' ≡ 0)
unfolding score_round
score_round-totals nodes h = omega (
  arith,
  settled (distribute_all nodes nodes),
  pending-distribute_all nodes nodes,
  scores-distribute_all nodes nodes,
)

mul_mono : (i a b : ℕ) → a ≤ b → i * a ≤ i * b
mul_mono i a b h = grind arith

rounds-totals :
    (i : ℕ) (dist : Bool) (nodes : Nodes)
    → pending nodes ≡ 0
    → let nodes' = rounds i dist nodes in
      (scores nodes' ≤ scores nodes + i * seeds nodes)
      × (seeds nodes' ≤ seeds nodes)
      × (pending nodes' ≡ 0)
unfolding rounds
rounds-totals zero dist nodes h = omega arith
rounds-totals (suc i) false nodes h = omega arith
rounds-totals (suc i) true nodes h =
    let (nodes', dist) = score_round nodes in
    let (fewer, grown, clear) = score_round-totals nodes h in
    let (s, t, u) = rounds-totals i dist nodes' clear in
    (
      omega (arith, s, grown, fewer, mul_mono i (seeds nodes') (seeds nodes) fewer),
      omega (arith, t, fewer),
      u,
    )

-- Over the ten rounds of a scoring, begun with no points pending, the scores grow together by at
-- most ten times the seeds, and no points are pending at the end.
pub distribute_points-totals :
    (nodes : Nodes)
    → pending nodes ≡ 0
    → let nodes' = distribute_points nodes in
      (scores nodes' ≤ scores nodes + 10 * seeds nodes) × (pending nodes' ≡ 0)
unfolding distribute_points
distribute_points-totals nodes h = let (s, t, u) = rounds-totals 10 true nodes h in (s, u)
