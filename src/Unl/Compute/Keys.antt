-- ===== src/Unl/Compute/Keys.antt =====
-- The keys of the nodes through the scoring of src/UniqueNodeList/UniqueNodeList.cpp.
use Prim.Native.String.{String}
use bytev.Prelude.{
  ℕ, zero, suc, ◌+◌, ◌-◌, ◌*◌, ◌/◌, ◌≡◌, refl, ap, ◌∙◌, Bool, true, false, Option, List, [], ◌∷◌,
  map, length, ◌==◌, ◌||◌, Option-cases, Bool-cases, inl, inr,
}
use bytev.Prelude.Maps.{string_eq, find, insert}
use bytev.Unl.Index.{Index}
use bytev.Unl.Rounds.{
  ScoreNode, Nodes, add_points, base, distribute, distribute_all, settle, score_round, rounds,
  distribute_points,
}
use bytev.Unl.Compute.{ScoreTables, set_seen, load_seen, store_scores}

abbrev pub keys : Nodes → List String
keys [] = []
keys (sn ∷ nodes) = sn.validator ∷ keys nodes

map-keys : (nodes : Nodes) → map (λ (sn : ScoreNode). sn.validator) nodes ≡ keys nodes
map-keys [] = refl
map-keys (sn ∷ nodes) = ap (◌∷◌ sn.validator) (map-keys nodes)

keys-add_points : (k x : ℕ) (nodes : Nodes) → keys (add_points k x nodes) ≡ keys nodes
unfolding add_points
keys-add_points k x [] = refl
keys-add_points zero x (sn ∷ nodes) = refl
keys-add_points (suc k) x (sn ∷ nodes) = ap (◌∷◌ sn.validator) (keys-add_points k x nodes)

keys-distribute :
    (b n i : ℕ) (refs : List ℕ) (nodes : Nodes) → keys (distribute b n i refs nodes) ≡ keys nodes
unfolding distribute
keys-distribute b n i [] nodes = refl
keys-distribute b n i (k ∷ refs) nodes =
    keys-distribute b n (i + 1) refs (add_points k (b * (n - i) / n) nodes)
    ∙ keys-add_points k (b * (n - i) / n) nodes

keys-distribute_all : (left nodes : Nodes) → keys (distribute_all left nodes) ≡ keys nodes
unfolding distribute_all
keys-distribute_all [] nodes = refl
keys-distribute_all (sn ∷ left) nodes =
    let n = length sn.referrals in
    let given = distribute (base sn.round_seed n) n 0 sn.referrals nodes in
    elim (Bool-cases (sn.round_seed == 0 || n == 0)) [
      | inl e ↦ rw e (keys-distribute_all left nodes)
      | inr e ↦ rw e (
          keys-distribute_all left given
          ∙ keys-distribute (base sn.round_seed n) n 0 sn.referrals nodes)
    ]

keys-settle : (nodes : Nodes) → keys (map settle nodes) ≡ keys nodes
keys-settle [] = refl
keys-settle (sn ∷ nodes) = ap (◌∷◌ sn.validator) (keys-settle nodes)

keys-rounds : (i : ℕ) (dist : Bool) (nodes : Nodes) → keys (rounds i dist nodes) ≡ keys nodes
unfolding rounds score_round
keys-rounds zero dist nodes = refl
keys-rounds (suc i) false nodes = refl
keys-rounds (suc i) true nodes =
    let (nodes', dist) = score_round nodes in
    keys-rounds i dist nodes'
    ∙ keys-settle (distribute_all nodes nodes)
    ∙ keys-distribute_all nodes nodes

pub keys-distribute_points : (nodes : Nodes) → keys (distribute_points nodes) ≡ keys nodes
unfolding distribute_points
keys-distribute_points nodes = keys-rounds 10 true nodes

keys-set_seen :
    (i : ℕ) (seen : Option ℕ) (nodes : Nodes) → keys (set_seen i seen nodes) ≡ keys nodes
unfolding set_seen
keys-set_seen i seen [] = refl
keys-set_seen zero seen (sn ∷ nodes) = refl
keys-set_seen (suc i) seen (sn ∷ nodes) = ap (◌∷◌ sn.validator) (keys-set_seen i seen nodes)

keys-load_seen :
    (rows : List (String × Option ℕ)) (ix : Index) → keys (load_seen rows ix).nodes ≡ keys ix.nodes
unfolding load_seen
keys-load_seen [] ix = refl
keys-load_seen ((key, seen) ∷ rows) ix = elim (Option-cases (find key ix.public_idx)) [
  | inl e ↦
      let ix' : Index = record ix {
        public_idx = insert key 0 ix.public_idx;
        nodes = set_seen 0 seen ix.nodes;
      } in
      rw (e, load_seen) (keys-load_seen rows ix' ∙ keys-set_seen 0 seen ix.nodes)
  | inr (i, e) ↦
      rw (e, load_seen)
        (keys-load_seen rows (record ix { nodes = set_seen i seen ix.nodes })
          ∙ keys-set_seen i seen ix.nodes)
]

module _ {Db : Type 0} (t : ScoreTables Db) where
  pub keys-store_scores :
      (ix : Index) (db : Db)
      → map (λ sn. sn.validator) (store_scores t ix db).0.nodes ≡ keys ix.nodes
  unfolding store_scores
  keys-store_scores ix db =
      map-keys (store_scores t ix db).0.nodes ∙ elim (Bool-cases (length ix.nodes == 0)) [
        | inl e ↦ rw (e, store_scores) refl
        | inr e ↦
            rw (e, store_scores)
              (keys-load_seen
                (t.seen_rows (t.clear_scores (t.begin db)) (map (λ sn. sn.validator) ix.nodes)) ix)
      ]
