-- ===== src/Unl/Rounds/Early.antt =====
-- The early exit from the rounds of src/UniqueNodeList/UniqueNodeList.cpp.
use bytev.Prelude.{
  ℕ, zero, suc, ◌≡◌, refl, sym, ap, ap₂, ◌∙◌, Bool, true, false, [], ◌∷◌, map, arith, ◌==◌, ◌||◌,
  if_of_true, ◌↔◌,
}
use bytev.Unl.Rounds.{Nodes, distribute_all, settle, score_round, rounds, any_points}
use bytev.Unl.Rounds.Totals.{seeds, pending, score_round-totals, settled}

-- Rounds without the early exit.
pub all_rounds : ℕ → Nodes → Nodes
all_rounds zero nodes = nodes
all_rounds (suc i) nodes = all_rounds i (score_round nodes).0

any_points_iff : (nodes : Nodes) → (any_points nodes ≡ false) ↔ (pending nodes ≡ 0)
unfolding any_points
any_points_iff [] = (λ e. refl, λ e. refl)
any_points_iff (sn ∷ nodes) = ground (arith, any_points_iff nodes)

-- bDist is false exactly when no node has a seed for the next round.
pub score_round-stops_iff :
    (nodes : Nodes) → let (nodes', dist) = score_round nodes in (dist ≡ false) ↔ (seeds nodes' ≡ 0)
unfolding score_round
score_round-stops_iff nodes =
    let given = distribute_all nodes nodes in ground (arith, any_points_iff given, settled given)

distribute_all-idle : (left nodes : Nodes) → seeds left ≡ 0 → distribute_all left nodes ≡ nodes
unfolding distribute_all
distribute_all-idle [] nodes h = refl
distribute_all-idle (sn ∷ left) nodes h =
    ap (distribute_all left) (if_of_true nodes _ (unseeded sn.round_seed _ (omega arith)))
    ∙ distribute_all-idle left nodes (omega arith)
  where
    unseeded : (seed : ℕ) (b : Bool) → seed ≡ 0 → (seed == 0 || b) ≡ true
    unseeded seed b e = ground arith

settle-idle : (nodes : Nodes) → seeds nodes ≡ 0 → pending nodes ≡ 0 → map settle nodes ≡ nodes
settle-idle [] h k = refl
settle-idle (sn ∷ nodes) h k = ap₂ ◌∷◌ same (settle-idle nodes (omega arith) (omega arith))
  where
    same : settle sn ≡ sn
    same = ground arith

score_round-idle :
    (nodes : Nodes) → seeds nodes ≡ 0 → pending nodes ≡ 0 → (score_round nodes).0 ≡ nodes
unfolding score_round
score_round-idle nodes h k =
    ap (map settle) (distribute_all-idle nodes nodes h) ∙ settle-idle nodes h k

all_rounds-idle :
    (i : ℕ) (nodes : Nodes) → seeds nodes ≡ 0 → pending nodes ≡ 0 → all_rounds i nodes ≡ nodes
unfolding all_rounds
all_rounds-idle zero nodes h k = refl
all_rounds-idle (suc i) nodes h k =
    ap (all_rounds i) (score_round-idle nodes h k) ∙ all_rounds-idle i nodes h k

rounds-after :
    (i : ℕ) (dist : Bool) (nodes : Nodes)
    → pending nodes ≡ 0
    → (dist ≡ false → seeds nodes ≡ 0)
    → rounds i dist nodes ≡ all_rounds i nodes
unfolding rounds all_rounds
rounds-after zero dist nodes h k = refl
rounds-after (suc i) false nodes h k =
    sym (unfold all_rounds in all_rounds-idle (suc i) nodes (k refl) h)
rounds-after (suc i) true nodes h k =
    let (nodes', dist) = score_round nodes in
    rounds-after i dist nodes' (score_round-totals nodes h).2 (score_round-stops_iff nodes).0

-- Stopping at the first round that distributes nothing changes no result: begun with no points
-- pending, the loop leaves every node as the full number of rounds would.
pub rounds-all_rounds :
    (i : ℕ) (nodes : Nodes) → pending nodes ≡ 0 → rounds i true nodes ≡ all_rounds i nodes
rounds-all_rounds i nodes h = rounds-after i true nodes h (λ e. cc)
