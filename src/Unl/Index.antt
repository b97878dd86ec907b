-- ===== src/Unl/Index.antt =====
-- The nodes that scoreCompute of src/UniqueNodeList/UniqueNodeList.cpp gathers before it scores
-- them: from the tables SeedDomains and SeedNodes, and by the referrals of those that it has.
pub mod Named
pub mod Edits
pub mod Growth
pub mod Linked
pub mod Moves
use Prim.Native.String.{String}
use bytev.Prelude.{
  ℕ, zero, suc, ◌+◌, Bool, true, false, Option, none, some, List, [], ◌∷◌, ◌++◌, length, ltb, ◌==◌,
  ◌&&◌, ◌||◌, if◌then◌else◌,
}
use bytev.Prelude.Maps.{string_eq, find, insert}
use bytev.Unl.Rounds.{ScoreNode, Nodes}
use bytev.Unl.Sources.{Source, referral, source_score}

-- umPulicIdx, umDomainIdx and vsnNodes. The loop over the referrals of a node holds them by the
-- reference viReferrals: `dangling` says that a push_back on vsnNodes has moved the nodes since the
-- reference was taken, and `undefined` that the loop has written through it afterwards. That write
-- goes to freed memory, and what the program does from there on is not defined.
pub record Index : Type 0 where
  pub public_idx : List (String × ℕ)
  pub domain_idx : List (String × ℕ)
  pub nodes : Nodes
  pub dangling : Bool
  pub undefined : Bool

abbrev pub empty : Index
empty = record { public_idx = []; domain_idx = []; nodes = []; dangling = false; undefined = false }

abbrev pub new_node : String → ℕ → ScoreNode
new_node key score = record {
  validator = key;
  score = score;
  round_score = 0;
  round_seed = score;
  referrals = [];
  seen = none;
}

-- A node at the end of the list, known by its key.
unfoldable pub push_node : String → ℕ → Index → Index
push_node key score ix = record ix {
  public_idx = insert key (length ix.nodes) ix.public_idx;
  nodes = ix.nodes ++ (new_node key score ∷ []);
}

-- The update of a node that is there already.
abbrev pub raise : ℕ → ScoreNode → ScoreNode
raise score sn = if ltb sn.score score then record sn { score = score; round_seed = score } else sn

unfoldable pub raise_at : ℕ → ℕ → Nodes → Nodes
raise_at i score [] = []
raise_at zero score (sn ∷ nodes) = raise score sn ∷ nodes
raise_at (suc i) score (sn ∷ nodes) = sn ∷ raise_at i score nodes

-- A row of SeedDomains: Domain, PublicKey and Source.
unfoldable pub seed_domain_row : String × Option String × Source → Index → Index
seed_domain_row (domain, none, source) ix = ix
seed_domain_row (domain, some key, source) ix = elim (find key ix.public_idx) [
  | none ↦
      let ix' = push_node key (source_score source) ix in
      record ix' { domain_idx = insert domain (length ix.nodes) ix.domain_idx }
  | some i ↦ record ix { nodes = raise_at i (source_score source) ix.nodes }
]

-- A row of SeedNodes: PublicKey and Source.
unfoldable pub seed_node_row : String × Source → Index → Index
seed_node_row (key, source) ix = elim (find key ix.public_idx) [
  | none ↦ push_node key (source_score source) ix
  | some i ↦ record ix { nodes = raise_at i (source_score source) ix.nodes }
]

unfoldable pub seed_domain_rows : List (String × Option String × Source) → Index → Index
seed_domain_rows [] ix = ix
seed_domain_rows (row ∷ rows) ix = seed_domain_rows rows (seed_domain_row row ix)

unfoldable pub seed_node_rows : List (String × Source) → Index → Index
seed_node_rows [] ix = ix
seed_node_rows (row ∷ rows) ix = seed_node_rows rows (seed_node_row row ix)

-- The key of the node at `i`; none from `vsnNodes.size()` on.
abbrev pub validator_at : ℕ → Nodes → Option String
validator_at i [] = none
validator_at zero (sn ∷ nodes) = some sn.validator
validator_at (suc i) (sn ∷ nodes) = validator_at i nodes

-- A referral at the end of those of the node at `i`.
unfoldable pub push_referral : ℕ → ℕ → Nodes → Nodes
push_referral i k [] = []
push_referral zero k (sn ∷ nodes) = record sn { referrals = sn.referrals ++ (k ∷ []) } ∷ nodes
push_referral (suc i) k (sn ∷ nodes) = sn ∷ push_referral i k nodes

-- `is_node_public` is NewcoinAddress::setNodePublic on a text.
module _ (is_node_public : String → Bool) where
  -- The number of the node that a text refers to, -1 as none; an unknown key is a new node.
  unfoldable pub resolve : String → Index → Index × Option ℕ
  resolve text ix =
      if is_node_public text
      then elim (find text ix.public_idx) [
        | none ↦ (push_node text (source_score referral) ix, some (length ix.nodes))
        | some i ↦ (ix, some i)
      ]
      else (ix, find text ix.domain_idx)

-- `viReferrals.push_back(k)`, where viReferrals was taken from the node at `i`: it is the node's own
-- list as long as the nodes were not moved. What a write to freed memory does is not modelled: it
-- is marked, and the nodes stay.
unfoldable pub write_referral : ℕ → ℕ → Index → Index
write_referral i k ix =
    if ix.dangling
    then record ix { undefined = true }
    else record ix { nodes = push_referral i k ix.nodes }

-- `moves n` says whether push_back on a vector of `n` elements moves them. vsnNodes starts empty and
-- grows by push_back only, so this depends on its size alone, in the way of the standard library.
module _ (is_node_public : String → Bool) (moves : ℕ → Bool) where
  -- A row of ValidatorReferrals for the node at `i`.
  unfoldable pub refer : ℕ → String → Index → Index
  refer i text ix =
      let (ix', target) = resolve is_node_public text ix in
      let added = ltb (length ix.nodes) (length ix'.nodes) in
      let ix'' = record ix' { dangling = ix.dangling || (added && moves (length ix.nodes)) } in
      elim target [ none ↦ ix'' | some k ↦ if i == k then ix'' else write_referral i k ix'' ]

  unfoldable pub refer_rows : ℕ → List String → Index → Index
  refer_rows i [] ix = ix
  refer_rows i (text ∷ texts) ix = refer_rows i texts (refer i text ix)

  -- `for (int iNode = i; iNode != vsnNodes.size(); iNode++)`, on fuel; none means that it ran out.
  -- viReferrals is taken anew for each node.
  -- `referrals_of` is the Referral column of the rows of ValidatorReferrals for a validator.
  unfoldable pub refer_nodes : (String → List String) → ℕ → ℕ → Index → Option Index
  refer_nodes referrals_of zero i ix = none
  refer_nodes referrals_of (suc n) i ix = elim (validator_at i ix.nodes) [
    | none ↦ some ix
    | some key ↦
        refer_nodes referrals_of n (i + 1)
          (refer_rows i (referrals_of key) (record ix { dangling = false }))
  ]
