-- ===== src/Checks/Scoring.antt =====
-- The scoring rounds of src/UniqueNodeList/UniqueNodeList.cpp on three nodes.
use bytev.Prelude.{
  ◌⊎◌, false, length, ◌%◌, ◌==◌, ◌||◌, ℕ, Bool, some, inl, inr, arith, none, ◌+◌, ◌≤◌, ◌≡◌, refl,
  true, [], ◌∷◌, map,
}
use bytev.Unl.Rounds.{
  Nodes, add_points, total, base, distribute, distribute_all, any_points, score_round, rounds,
}
use bytev.Unl.Rounds.Totals.{scores, seeds, pending, score_round-totals}
use bytev.Unl.Rounds.Early.{all_rounds, rounds-all_rounds}
use bytev.Unl.Sources.{validator}
use bytev.Unl.Index.{
  Index, seed_domain_rows, seed_domain_row, seed_node_rows, push_node, push_referral,
  write_referral, resolve, refer, refer_rows, refer_nodes,
}
use bytev.Unl.Index.Named.{IsIndexed}
use bytev.Unl.Compute.{ScoreTables, gather, score_compute, score_ips}
use bytev.Unl.Compute.Keys.{keys}
use bytev.Unl.Compute.Total.{seeded, score_compute-ends}
use bytev.Unl.Index.Moves.{Moved}
use bytev.Unl.Compute.Ips.{ip_total, given, ip_total-score_ips}
use bytev.Prelude.Maps.{find, insert, erase}
use Prim.Native.String.{String}

-- The first is seeded and refers to the other two, the second refers back.
abbrev three : Nodes
three =
    record {
      validator = "a";
      score = 0;
      round_score = 0;
      round_seed = 30;
      referrals = 1 ∷ 2 ∷ [];
      seen = none;
    }
    ∷ record {
      validator = "b";
      score = 0;
      round_score = 0;
      round_seed = 0;
      referrals = 0 ∷ [];
      seen = none;
    }
    ∷ record {
      validator = "c";
      score = 0;
      round_score = 0;
      round_seed = 0;
      referrals = [];
      seen = none;
    }
    ∷ []

-- 20 points for the first entry and 10 for the second.
three_after_one : map (λ sn. sn.score) (score_round three).0 ≡ 0 ∷ 20 ∷ 10 ∷ []
unfolding score_round distribute_all distribute base total add_points any_points
three_after_one = refl

score_round-totals_example :
    let nodes' = (score_round three).0 in
    (seeds nodes' ≤ 30) × (scores nodes' ≡ 0 + seeds nodes') × (pending nodes' ≡ 0)
score_round-totals_example = score_round-totals three refl

rounds-all_rounds_example : rounds 10 true three ≡ all_rounds 10 three
rounds-all_rounds_example = rounds-all_rounds 10 three refl

-- One seeded node, which refers to "b".
abbrev tables : ScoreTables ℕ
tables = record {
  seed_domains = λ db. ("a.org", some "a", validator) ∷ [];
  seed_nodes = λ db. [];
  referrals_of = λ db key. "b" ∷ [];
  begin = λ db. db;
  commit = λ db. db;
  clear_scores = λ db. db;
  seen_rows = λ db keys. [];
  put_scores = λ db rows. db + 1;
  clear_ip_scores = λ db. db;
  ip_counts = λ db. ("a", 1) ∷ [];
  ip_rows = λ db key. ("10.0.0.1", none) ∷ [];
  put_ip_scores = λ db rows. db + 1;
}

-- Every text names a node.
abbrev any_key : String → Bool
any_key text = true

-- A library that makes room for four nodes at once, and one that doubles the room.
abbrev by_four : ℕ → Bool
by_four n = n % 4 == 0

abbrev doubling : ℕ → Bool
doubling n = n == 0 || n == 1 || n == 2 || n == 4

score_compute-ends_example :
    (ix : Index) × (gather tables any_key by_four 3 0 ≡ some ix)
    × (((ix.undefined ≡ true)
          × Moved by_four (length (seeded tables any_key by_four 0).nodes) (length ix.nodes))
        ⊎ ((ix.undefined ≡ false)
            × IsIndexed ix
            × ((db : ℕ) × (score_compute tables any_key by_four 3 0 ≡ some (db, keys ix.nodes)))))
unfolding seed_domain_rows seed_domain_row seed_node_rows push_node find insert erase
score_compute-ends_example =
    score_compute-ends tables any_key by_four ("a" ∷ "b" ∷ []) 3 0
      (λ key. (λ h. inr (inl refl), tt)) (omega arith)

defined_by_four :
    elim (gather tables any_key by_four 3 0) [ none ↦ true | some ix ↦ ix.undefined ] ≡ false
unfolding gather refer_nodes refer_rows refer resolve write_referral push_referral seed_domain_rows
    seed_domain_row seed_node_rows push_node find insert erase
defined_by_four = refl

abbrev index : Index
index = record {
  public_idx = ("b", 1) ∷ [];
  domain_idx = [];
  nodes = three;
  dangling = false;
  undefined = false;
}

ip_total-score_ips_example :
    ip_total (score_ips (λ key. ("10.0.0.1", none) ∷ []) index (("b", 1) ∷ []) [])
    ≤ 0 + given index (("b", 1) ∷ [])
ip_total-score_ips_example =
    ip_total-score_ips (λ key. ("10.0.0.1", none) ∷ []) index (("b", 1) ∷ []) [] (refl, tt)
