-- ===== src/Unl/Index/Linked.antt =====
-- The referrals that scoreCompute of src/UniqueNodeList/UniqueNodeList.cpp adds keep the index maps
-- and the nodes in agreement.
use Prim.Native.String.{String}
use bytev.Prelude.{
  ℕ, zero, suc, ◌+◌, ◌<◌, ◌≡◌, ◌∙◌, Bool, true, false, some, List, [], ◌∷◌, length, ltb, ◌==◌, ◌&&◌,
  ◌||◌, arith, Option-cases, inl, inr, subst, Bool-cases,
}
use bytev.Prelude.Maps.{string_eq, find}
use bytev.Unl.Sources.{referral, source_score}
use bytev.Unl.Index.{
  Index, push_referral, write_referral, resolve, refer, refer_rows, validator_at, refer_nodes,
}
use bytev.Unl.Index.Edits.{
  validator_at-lt, length-push_referral, validator_at-push_referral, referrals_at-push_referral,
  length-push_node,
}
use bytev.Unl.Index.Named.{IsIndexed, IsTarget, push_node-IsIndexed}

push_referral-IsIndexed :
    (i k : ℕ) (ix : Index)
    → IsTarget (length ix.nodes) i k
    → IsIndexed ix
    → IsIndexed (record ix { nodes = push_referral i k ix.nodes })
push_referral-IsIndexed i k ix t v = record {
  named = λ key j. rw (validator_at-push_referral j i k ix.nodes) (v.named key j);
  domains = λ d j h. omega (arith, v.domains d j h, length-push_referral i k ix.nodes);
  linked = λ j. rw (length-push_referral i k ix.nodes) (
      referrals_at-push_referral (IsTarget (length ix.nodes) j) j i k ix.nodes
        (λ e. (t.0, λ e'. t.1 (e ∙ e'))) (v.linked j));
}

-- The two marks are no part of the index.
marked-IsIndexed :
    (d u : Bool) (ix : Index) → IsIndexed ix → IsIndexed (record ix { dangling = d; undefined = u })
marked-IsIndexed d u ix v = record { named = v.named; domains = v.domains; linked = v.linked }

write_referral-IsIndexed :
    (i k : ℕ) (ix : Index)
    → IsTarget (length ix.nodes) i k
    → IsIndexed ix
    → IsIndexed (write_referral i k ix)
unfolding write_referral
write_referral-IsIndexed i k ix t v = elim (Bool-cases ix.dangling) [
  | inl e ↦ rw (e, write_referral) (marked-IsIndexed true true ix v)
  | inr e ↦
      rw (e, write_referral)
        (push_referral-IsIndexed i k (record ix { dangling = false }) t
          (marked-IsIndexed false ix.undefined ix v))
]

module _ (is_node_public : String → Bool) where
  resolve-IsIndexed :
      (text : String) (ix : Index)
      → IsIndexed ix
      → let (ix', target) = resolve is_node_public text ix in
        IsIndexed ix' × ((k : ℕ) → target ≡ some k → k < length ix'.nodes)
  unfolding resolve
  resolve-IsIndexed text ix v = elim (Bool-cases (is_node_public text)) [
    | inl e ↦ elim (Option-cases (find text ix.public_idx)) [
      | inl e' ↦
          rw (e, e', resolve)
            (
              push_node-IsIndexed text (source_score referral) ix e' v,
              λ k h. ground (arith, length-push_node text (source_score referral) ix),
            )
      | inr (i, e') ↦
          rw (e, e', resolve)
            (v, λ k h. ground (arith, v.named text i, validator_at-lt i ix.nodes {key = text}))
    ]
    | inr e ↦ rw (e, resolve) (v, λ k h. v.domains text k h)
  ]

module _ (is_node_public : String → Bool) (moves : ℕ → Bool) where
  refer-IsIndexed :
      (i : ℕ) (text : String) (ix : Index)
      → IsIndexed ix
      → IsIndexed (refer is_node_public moves i text ix)
  unfolding refer
  refer-IsIndexed i text ix v =
      let (ix', target) = resolve is_node_public text ix in
      let (v', inside) = resolve-IsIndexed is_node_public text ix v in
      let added = ltb (length ix.nodes) (length ix'.nodes) in
      let d = ix.dangling || (added && moves (length ix.nodes)) in
      let w = marked-IsIndexed d ix'.undefined ix' v' in
      elim (Option-cases target) [
        | inl e ↦ rw (e, refer) w
        | inr (k, e) ↦
            rw (e, refer)
              (elim (Bool-cases (i == k)) [
                | inl e' ↦ rw e' w
                | inr e' ↦ rw e' (
                    write_referral-IsIndexed i k (record ix' { dangling = d })
                      (inside k e, ground arith) w)
              ])
      ]

  refer_rows-IsIndexed :
      (i : ℕ) (texts : List String) (ix : Index)
      → IsIndexed ix
      → IsIndexed (refer_rows is_node_public moves i texts ix)
  unfolding refer_rows
  refer_rows-IsIndexed i [] ix v = v
  refer_rows-IsIndexed i (text ∷ texts) ix v =
      refer_rows-IsIndexed i texts (refer is_node_public moves i text ix)
        (refer-IsIndexed i text ix v)

  pub refer_nodes-IsIndexed :
      (referrals_of : String → List String) (n i : ℕ) (ix : Index) {out : Index}
      → IsIndexed ix
      → refer_nodes is_node_public moves referrals_of n i ix ≡ some out
      → IsIndexed out
  unfolding refer_nodes
  refer_nodes-IsIndexed referrals_of zero i ix v h = absurd (ground arith)
  refer_nodes-IsIndexed referrals_of (suc n) i ix {out} v h =
      elim (Option-cases (validator_at i ix.nodes)) [
        | inl e ↦ subst IsIndexed (ground arith) v
        | inr (key, e) ↦
            refer_nodes-IsIndexed referrals_of n (i + 1)
              (refer_rows is_node_public moves i (referrals_of key)
                (record ix { dangling = false }))
              (refer_rows-IsIndexed i (referrals_of key) (record ix { dangling = false })
                (marked-IsIndexed false ix.undefined ix v))
              (ground arith)
      ]
