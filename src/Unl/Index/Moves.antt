-- ===== src/Unl/Index/Moves.antt =====
-- Where scoreCompute of src/UniqueNodeList/UniqueNodeList.cpp writes a referral through a reference
-- to a node that push_back has moved.
use Prim.Native.String.{String}
use bytev.Prelude.{
  ℕ, zero, suc, ◌+◌, ◌<◌, ◌≤◌, ◌≡◌, refl, Bool, true, false, Option, none, some, List, [], ◌∷◌,
  length, ltb, ◌==◌, ◌&&◌, ◌||◌, arith, inl, inr, subst, Option-cases, Bool-cases,
}
use bytev.Prelude.Maps.{string_eq}
use bytev.Unl.Sources.{Source, referral, source_score}
use bytev.Unl.Index.{
  Index, empty, seed_domain_row, seed_node_row, seed_domain_rows, seed_node_rows, push_node,
  push_referral, write_referral, resolve, refer, refer_rows, validator_at, refer_nodes,
}
use bytev.Unl.Index.Edits.{length-push_node, length-push_referral}

-- A push_back moves a list of at least `low` nodes and fewer than `high`.
abbrev pub Moved : (ℕ → Bool) → ℕ → ℕ → Type 0
Moved moves low high = (n : ℕ) × (low ≤ n) × (n < high) × (moves n ≡ true)

-- A mark is only set when a list of at least `low` nodes was moved.
pub record IsMarked (moves : ℕ → Bool) (low : ℕ) (ix : Index) : Type 0 where
  pub longer : low ≤ length ix.nodes
  pub dangles : ix.dangling ≡ true → Moved moves low (length ix.nodes)
  pub leaves : ix.undefined ≡ true → Moved moves low (length ix.nodes)

module _ (moves : ℕ → Bool) (low : ℕ) where
  Moved-weaken : (n n' : ℕ) → n ≤ n' → Moved moves low n → Moved moves low n'
  Moved-weaken n n' h (k, from, to, e) = (k, from, omega (arith, to), e)

  fresh-IsMarked :
      (ix : Index) → IsMarked moves low ix → IsMarked moves low (record ix { dangling = false })
  fresh-IsMarked ix v = record { longer = v.longer; dangles = λ e. absurd (cc); leaves = v.leaves }

  write_referral-IsMarked :
      (i k : ℕ) (ix : Index) → IsMarked moves low ix → IsMarked moves low (write_referral i k ix)
  unfolding write_referral
  write_referral-IsMarked i k ix v = elim (Bool-cases ix.dangling) [
    | inl e ↦
        let marked : IsMarked moves low (record ix { dangling = true; undefined = true }) = record {
          longer = v.longer;
          dangles = λ e'. v.dangles e;
          leaves = λ e'. v.dangles e;
        } in
        rw (e, write_referral) marked
    | inr e ↦
        let n = length (push_referral i k ix.nodes) in
        let same : length ix.nodes ≤ n = omega (arith, length-push_referral i k ix.nodes) in
        let written : IsMarked moves low
            (record ix { nodes = push_referral i k ix.nodes; dangling = false }) =
          record {
            longer = omega (arith, same, v.longer);
            dangles = λ e'. absurd (cc);
            leaves = λ e'. Moved-weaken (length ix.nodes) n same (v.leaves e');
          } in
        rw (e, write_referral) written
  ]

  module _ (is_node_public : String → Bool) where
    resolve-longer :
        (text : String) (ix : Index)
        → let ix' = (resolve is_node_public text ix).0 in
          (length ix.nodes ≤ length ix'.nodes) × (ix'.undefined ≡ ix.undefined)
    unfolding resolve push_node
    resolve-longer text ix = ground (arith, length-push_node text (source_score referral) ix)

    resolved-IsMarked :
        (text : String) (ix : Index)
        → IsMarked moves low ix
        → let ix' = (resolve is_node_public text ix).0 in
          let added = ltb (length ix.nodes) (length ix'.nodes) in
          IsMarked moves low
            (record ix' { dangling = ix.dangling || (added && moves (length ix.nodes)) })
    resolved-IsMarked text ix v =
        let ix' = (resolve is_node_public text ix).0 in
        let (more, same) = resolve-longer text ix in
        let n = length ix.nodes in
        let n' = length ix'.nodes in
        record {
          longer = omega (arith, more, v.longer);
          dangles = λ e. elim (Bool-cases ix.dangling) [
            | inl d ↦ Moved-weaken n n' more (v.dangles d)
            | inr d ↦ (n, v.longer, ground arith, ground arith)
          ];
          leaves = λ e. Moved-weaken n n' more (v.leaves (cc));
        }

    refer-IsMarked :
        (i : ℕ) (text : String) (ix : Index)
        → IsMarked moves low ix
        → IsMarked moves low (refer is_node_public moves i text ix)
    unfolding refer
    refer-IsMarked i text ix v =
        let (ix', target) = resolve is_node_public text ix in
        let added = ltb (length ix.nodes) (length ix'.nodes) in
        let d = ix.dangling || (added && moves (length ix.nodes)) in
        let w = resolved-IsMarked text ix v in
        elim (Option-cases target) [
          | inl e ↦ rw (e, refer) w
          | inr (k, e) ↦
              rw (e, refer)
                (elim (Bool-cases (i == k)) [
                  | inl e' ↦ rw e' w
                  | inr e' ↦ rw e' (write_referral-IsMarked i k (record ix' { dangling = d }) w)
                ])
        ]

    refer_rows-IsMarked :
        (i : ℕ) (texts : List String) (ix : Index)
        → IsMarked moves low ix
        → IsMarked moves low (refer_rows is_node_public moves i texts ix)
    unfolding refer_rows
    refer_rows-IsMarked i [] ix v = v
    refer_rows-IsMarked i (text ∷ texts) ix v =
        refer_rows-IsMarked i texts (refer is_node_public moves i text ix)
          (refer-IsMarked i text ix v)

    pub refer_nodes-IsMarked :
        (referrals_of : String → List String) (n i : ℕ) (ix : Index) {out : Index}
        → IsMarked moves low ix
        → refer_nodes is_node_public moves referrals_of n i ix ≡ some out
        → IsMarked moves low out
    unfolding refer_nodes
    refer_nodes-IsMarked referrals_of zero i ix v h = absurd (ground arith)
    refer_nodes-IsMarked referrals_of (suc n) i ix {out} v h =
        elim (Option-cases (validator_at i ix.nodes)) [
          | inl e ↦ subst (IsMarked moves low) (ground arith) v
          | inr (key, e) ↦
              let fresh = record ix { dangling = false } in
              refer_nodes-IsMarked referrals_of n (i + 1)
                (refer_rows is_node_public moves i (referrals_of key) fresh)
                (refer_rows-IsMarked i (referrals_of key) fresh (fresh-IsMarked ix v))
                (ground arith)
        ]

Unmarked : Index → Type 0
Unmarked ix = (ix.dangling ≡ false) × (ix.undefined ≡ false)

seed_domain_row-Unmarked :
    (row : String × Option String × Source) (ix : Index)
    → Unmarked ix
    → Unmarked (seed_domain_row row ix)
unfolding Unmarked seed_domain_row push_node
seed_domain_row-Unmarked (domain, none, source) ix v = v
seed_domain_row-Unmarked (domain, some key, source) ix v = ground (arith, v)

seed_node_row-Unmarked :
    (row : String × Source) (ix : Index) → Unmarked ix → Unmarked (seed_node_row row ix)
unfolding Unmarked seed_node_row push_node
seed_node_row-Unmarked (key, source) ix v = ground (arith, v)

seed_domain_rows-Unmarked :
    (rows : List (String × Option String × Source)) (ix : Index)
    → Unmarked ix
    → Unmarked (seed_domain_rows rows ix)
unfolding seed_domain_rows
seed_domain_rows-Unmarked [] ix v = v
seed_domain_rows-Unmarked (row ∷ rows) ix v =
    seed_domain_rows-Unmarked rows (seed_domain_row row ix) (seed_domain_row-Unmarked row ix v)

seed_node_rows-Unmarked :
    (rows : List (String × Source)) (ix : Index) → Unmarked ix → Unmarked (seed_node_rows rows ix)
unfolding seed_node_rows
seed_node_rows-Unmarked [] ix v = v
seed_node_rows-Unmarked (row ∷ rows) ix v =
    seed_node_rows-Unmarked rows (seed_node_row row ix) (seed_node_row-Unmarked row ix v)

-- The seeding sets no mark.
pub seed_rows-unmarked :
    (domains : List (String × Option String × Source)) (rows : List (String × Source))
    → let ix = seed_node_rows rows (seed_domain_rows domains empty) in
      (ix.dangling ≡ false) × (ix.undefined ≡ false)
unfolding Unmarked
seed_rows-unmarked domains rows =
    seed_node_rows-Unmarked rows (seed_domain_rows domains empty)
      (seed_domain_rows-Unmarked domains empty (refl, refl))
