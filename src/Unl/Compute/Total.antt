-- ===== src/Unl/Compute/Total.antt =====
-- scoreCompute of src/UniqueNodeList/UniqueNodeList.cpp as a whole.
use Prim.Native.String.{String}
use bytev.Prelude.{
  ℕ, ◌<◌, ◌≡◌, ap, ◌∙◌, ◌⊎◌, inl, inr, Bool, true, false, some, List, length, All, arith,
  Bool-cases,
}
use bytev.Prelude.Maps.{string_eq}
use bytev.Unl.Index.{Index, empty, seed_domain_rows, seed_node_rows}
use bytev.Unl.Index.Named.{
  IsIndexed, empty-IsIndexed, seed_domain_rows-IsIndexed, seed_node_rows-IsIndexed,
}
use bytev.Unl.Index.Linked.{refer_nodes-IsIndexed}
use bytev.Unl.Index.Moves.{Moved, IsMarked, refer_nodes-IsMarked, seed_rows-unmarked}
use bytev.Unl.Index.Growth.{Known, potential, refer_nodes-ends}
use bytev.Unl.Rounds.{distribute_points}
use bytev.Unl.Compute.Keys.{keys, keys-store_scores, keys-distribute_points}
use bytev.Unl.Compute.{ScoreTables, gather, score_compute, store_scores, store_ip_scores}

module _ {Db : Type 0} (t : ScoreTables Db) (is_node_public : String → Bool)
    (moves : ℕ → Bool) where
  -- The nodes that the two tables of seeds give.
  abbrev pub seeded : Db → Index
  seeded db = seed_node_rows (t.seed_nodes db) (seed_domain_rows (t.seed_domains db) empty)

  seeded-IsIndexed : (db : Db) → IsIndexed (seeded db)
  seeded-IsIndexed db =
      seed_node_rows-IsIndexed (t.seed_nodes db) (seed_domain_rows (t.seed_domains db) empty)
        (seed_domain_rows-IsIndexed (t.seed_domains db) empty empty-IsIndexed)

  -- The seeding sets no mark.
  unmarked : (db : Db) → ((seeded db).dangling ≡ false) × ((seeded db).undefined ≡ false)
  unmarked db = seed_rows-unmarked (t.seed_domains db) (t.seed_nodes db)

  seeded-IsMarked : (db : Db) → IsMarked moves (length (seeded db).nodes) (seeded db)
  seeded-IsMarked db = record {
    longer = omega arith;
    dangles = λ e. absurd (ground (arith, (unmarked db).0));
    leaves = λ e. absurd (ground (arith, (unmarked db).1));
  }

  -- If every node that the referrals name is in a finite list of names, then with fuel for the
  -- seeded nodes and for the names that are no seeded node, scoreCompute either writes a referral to
  -- freed memory, where push_back has moved a list of at least the seeded nodes, and nothing is said
  -- of what it does then; or it ends, the nodes that it scores are indexed (each key names one node,
  -- and every referral leads to another node), and their keys are the new trusted list.
  pub score_compute-ends :
      (names : List String) (n : ℕ) (db : Db)
      → ((key : String) → All (Known is_node_public names) (t.referrals_of db key))
      → potential names (seeded db) < n
      → (ix : Index) × (gather t is_node_public moves n db ≡ some ix)
        × (((ix.undefined ≡ true) × Moved moves (length (seeded db).nodes) (length ix.nodes))
            ⊎ ((ix.undefined ≡ false)
                × IsIndexed ix
                × ((db' : Db) × (score_compute t is_node_public moves n db
                      ≡ some (db', keys ix.nodes)))))
  unfolding gather score_compute
  score_compute-ends names n db known fuel =
      let (ix, runs, small) =
        refer_nodes-ends is_node_public moves names (t.referrals_of db) n 0 (seeded db) known
          (omega arith) (omega (arith, fuel)) in
      let (ix', db') = store_scores t (record ix { nodes = distribute_points ix.nodes }) db in
      let same : keys ix'.nodes ≡ keys ix.nodes =
        keys-store_scores t (record ix { nodes = distribute_points ix.nodes }) db
        ∙ keys-distribute_points ix.nodes in
      let marked =
        refer_nodes-IsMarked moves (length (seeded db).nodes) is_node_public (t.referrals_of db) n 0
          (seeded db) (seeded-IsMarked db) runs in
      (
        ix,
        runs,
        elim (Bool-cases ix.undefined) [
          | inl u ↦ inl (u, marked.leaves u)
          | inr u ↦ inr (
            u,
            refer_nodes-IsIndexed is_node_public moves (t.referrals_of db) n 0 (seeded db)
                (seeded-IsIndexed db) runs,
            (
              store_ip_scores t ix' db',
              rw (runs, score_compute) (ap (λ k. some (store_ip_scores t ix' db', k)) same),
            ),
          )
        ],
      )
