-- ===== src/Unl/Index/Named.antt =====
-- The index maps and the nodes of scoreCompute in src/UniqueNodeList/UniqueNodeList.cpp agree.
use Prim.Native.String.{String}
use text.Mathlib.TextEquality.{eq_iff}
use bytev.Prelude.{
  ℕ, ◌<◌, ◌≤◌, ◌≡◌, ◌≢◌, ◌↔◌, refl, sym, Option, none, some, List, [], ◌∷◌, ◌++◌, length, All,
  arith, length-append, Option-cases, inl, inr, subst,
}
use bytev.Prelude.Maps.{string_eq, find, insert, find-insert}
use bytev.Unl.Sources.{Source, source_score}
use bytev.Unl.Index.{
  Index, empty, new_node, push_node, raise_at, seed_domain_row, seed_node_row, seed_domain_rows,
  seed_node_rows, validator_at,
}
use bytev.Unl.Index.Edits.{
  referrals_at, validator_at-lt, validator_at-append, referrals_at-append, raise_at-fields,
  length-raise_at, length-push_node,
}

-- A number of a node, and of another node than `i`.
abbrev pub IsTarget : ℕ → ℕ → ℕ → Type 0
IsTarget n i k = (k < n) × (i ≢ k)

-- A key is in the map exactly at the number of the node that it names, so no two nodes have the
-- same key; domains and referrals lead to nodes, and no node refers to itself.
pub record IsIndexed (ix : Index) : Type 0 where
  pub named :
      (key : String) (i : ℕ)
      → (find key ix.public_idx ≡ some i) ↔ (validator_at i ix.nodes ≡ some key)
  pub domains : (domain : String) (i : ℕ) → find domain ix.domain_idx ≡ some i → i < length ix.nodes
  pub linked : (i : ℕ) → All (IsTarget (length ix.nodes) i) (referrals_at i ix.nodes)

All-weaken : (n n' i : ℕ) (l : List ℕ) → n ≤ n' → All (IsTarget n i) l → All (IsTarget n' i) l
All-weaken n n' i [] h v = tt
All-weaken n n' i (k ∷ l) h v = ((omega (arith, v.0.0), v.0.1), All-weaken n n' i l h v.1)

pub push_node-IsIndexed :
    (key : String) (score : ℕ) (ix : Index)
    → find key ix.public_idx ≡ none
    → IsIndexed ix
    → IsIndexed (push_node key score ix)
unfolding push_node
push_node-IsIndexed key score ix absent v = record {
  named = λ k i. ground (
    arith,
    eq_iff key k,
    find-insert key k (length ix.nodes) ix.public_idx,
    validator_at-append i ix.nodes (new_node key score),
    v.named k i,
    v.named key i,
    validator_at-lt i ix.nodes {key = k},
  );
  domains =
      λ d i h. omega (arith, v.domains d i h, length-append ix.nodes (new_node key score ∷ []));
  linked = λ i.
      subst (All (IsTarget (length (ix.nodes ++ (new_node key score ∷ []))) i))
        (sym (referrals_at-append i ix.nodes key score))
        (All-weaken (length ix.nodes) (length (ix.nodes ++ (new_node key score ∷ []))) i
          (referrals_at i ix.nodes)
          (omega (arith, length-append ix.nodes (new_node key score ∷ []))) (v.linked i));
}

raise_at-IsIndexed :
    (i score : ℕ) (ix : Index)
    → IsIndexed ix
    → IsIndexed (record ix { nodes = raise_at i score ix.nodes })
raise_at-IsIndexed i score ix v = record {
  named = λ key j. rw ((raise_at-fields j i score ix.nodes).0) (v.named key j);
  domains = λ d j h. omega (arith, v.domains d j h, length-raise_at i score ix.nodes);
  linked = λ j.
      rw ((raise_at-fields j i score ix.nodes).1, length-raise_at i score ix.nodes) (v.linked j);
}

-- A domain that leads to the node at the end.
domain-IsIndexed :
    (domain : String) (i : ℕ) (ix : Index)
    → i < length ix.nodes
    → IsIndexed ix
    → IsIndexed (record ix { domain_idx = insert domain i ix.domain_idx })
domain-IsIndexed domain i ix h v = record {
  named = v.named;
  domains = λ d j e. ground (arith, find-insert domain d i ix.domain_idx, v.domains d j);
  linked = v.linked;
}

seed_domain_row-IsIndexed :
    (row : String × Option String × Source) (ix : Index)
    → IsIndexed ix
    → IsIndexed (seed_domain_row row ix)
unfolding seed_domain_row
seed_domain_row-IsIndexed (domain, none, source) ix v = v
seed_domain_row-IsIndexed (domain, some key, source) ix v =
    elim (Option-cases (find key ix.public_idx)) [
      | inl e ↦
          let ix' = push_node key (source_score source) ix in
          let same : ix'.domain_idx ≡ ix.domain_idx = unfold push_node in refl in
          rw (e, seed_domain_row)
            (subst (λ m. IsIndexed (record ix' { domain_idx = insert domain (length ix.nodes) m }))
              same
              (domain-IsIndexed domain (length ix.nodes) ix'
                (omega (arith, length-push_node key (source_score source) ix))
                (push_node-IsIndexed key (source_score source) ix e v)))
      | inr (i, e) ↦ rw (e, seed_domain_row) (raise_at-IsIndexed i (source_score source) ix v)
    ]

seed_node_row-IsIndexed :
    (row : String × Source) (ix : Index) → IsIndexed ix → IsIndexed (seed_node_row row ix)
unfolding seed_node_row
seed_node_row-IsIndexed (key, source) ix v = elim (Option-cases (find key ix.public_idx)) [
  | inl e ↦ rw (e, seed_node_row) (push_node-IsIndexed key (source_score source) ix e v)
  | inr (i, e) ↦ rw (e, seed_node_row) (raise_at-IsIndexed i (source_score source) ix v)
]

pub seed_domain_rows-IsIndexed :
    (rows : List (String × Option String × Source)) (ix : Index)
    → IsIndexed ix
    → IsIndexed (seed_domain_rows rows ix)
unfolding seed_domain_rows
seed_domain_rows-IsIndexed [] ix v = v
seed_domain_rows-IsIndexed (row ∷ rows) ix v =
    seed_domain_rows-IsIndexed rows (seed_domain_row row ix) (seed_domain_row-IsIndexed row ix v)

pub seed_node_rows-IsIndexed :
    (rows : List (String × Source)) (ix : Index) → IsIndexed ix → IsIndexed (seed_node_rows rows ix)
unfolding seed_node_rows
seed_node_rows-IsIndexed [] ix v = v
seed_node_rows-IsIndexed (row ∷ rows) ix v =
    seed_node_rows-IsIndexed rows (seed_node_row row ix) (seed_node_row-IsIndexed row ix v)

pub empty-IsIndexed : IsIndexed empty
unfolding find
empty-IsIndexed = record {
  named = λ key i. (λ e. cc, λ e. cc);
  domains = λ d i e. absurd (cc);
  linked = λ i. tt;
}
