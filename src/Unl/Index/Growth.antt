-- ===== src/Unl/Index/Growth.antt =====
-- The loop of scoreCompute in src/UniqueNodeList/UniqueNodeList.cpp over a list of nodes that it
-- makes longer itself.
use Prim.Native.String.{String}
use text.Mathlib.TextEquality.{eq_iff}
use bytev.Prelude.{
  ℕ, zero, suc, ◌+◌, ◌<◌, ◌≤◌, ◌≡◌, ◌⊎◌, inl, inr, refl, ap, Bool, true, false, Option, none, some,
  List, [], ◌∷◌, length, ltb, ◌==◌, ◌&&◌, ◌||◌, All, arith, Option-cases, Bool-cases,
}
use bytev.Prelude.Maps.{string_eq, find, insert, find-insert}
use bytev.Unl.Sources.{referral, source_score}
use bytev.Unl.Index.{
  Index, push_node, resolve, refer, refer_rows, validator_at, refer_nodes, write_referral,
}
use bytev.Unl.Index.Edits.{length-push_node, length-push_referral, validator_at-lt}

abbrev pub Listed : String → List String → Type 0
Listed key [] = ⊥
Listed key (name ∷ names) = (name ≡ key) ⊎ Listed key names

abbrev absent : Option ℕ → ℕ
absent none = 1
absent (some i) = 0

-- How many of the names are no key of the map.
abbrev pub missing : List String → List (String × ℕ) → ℕ
missing [] m = 0
missing (name ∷ names) m = absent (find name m) + missing names m

missing-insert-le :
    (names : List String) (key : String) (i : ℕ) (m : List (String × ℕ))
    → missing names (insert key i m) ≤ missing names m
missing-insert-le [] key i m = omega arith
missing-insert-le (name ∷ names) key i m =
    ground (arith, missing-insert-le names key i m, find-insert key name i m)

missing-insert-lt :
    (names : List String) (key : String) (i : ℕ) (m : List (String × ℕ))
    → find key m ≡ none
    → Listed key names
    → missing names (insert key i m) < missing names m
missing-insert-lt [] key i m h l = absurd l
missing-insert-lt (name ∷ names) key i m h (inl e) =
    ground (arith, missing-insert-le names key i m, find-insert key name i m, eq_iff key name)
missing-insert-lt (name ∷ names) key i m h (inr l) =
    ground (arith, missing-insert-lt names key i m h l, find-insert key name i m)

-- The nodes that there are and that there may still be.
abbrev pub potential : List String → Index → ℕ
potential names ix = length ix.nodes + missing names ix.public_idx

-- The list of nodes grows, and the potential does not.
abbrev Grows : List String → Index → Index → Type 0
Grows names ix ix' =
    (length ix.nodes ≤ length ix'.nodes) × (potential names ix' ≤ potential names ix)

module _ (is_node_public : String → Bool) (names : List String) where
  -- A text that names a node is one of the names.
  abbrev pub Known : String → Type 0
  Known text = is_node_public text ≡ true → Listed text names

  resolve-Grows :
      (text : String) (ix : Index) → Known text → Grows names ix (resolve is_node_public text ix).0
  unfolding resolve push_node
  resolve-Grows text ix h = ground (
    arith,
    length-push_node text (source_score referral) ix,
    missing-insert-lt names text (length ix.nodes) ix.public_idx,
  )

write_referral_lem :
    (i k : ℕ) (ix : Index)
    → let ix' = write_referral i k ix in
      (length ix'.nodes ≡ length ix.nodes) × (ix'.public_idx ≡ ix.public_idx)
unfolding write_referral
write_referral_lem i k ix = ground (arith, length-push_referral i k ix.nodes)

module _ (is_node_public : String → Bool) (moves : ℕ → Bool) (names : List String) where
  refer-Grows :
      (i : ℕ) (text : String) (ix : Index)
      → Known is_node_public names text
      → Grows names ix (refer is_node_public moves i text ix)
  unfolding refer
  refer-Grows i text ix h =
      let (ix', target) = resolve is_node_public text ix in
      let added = ltb (length ix.nodes) (length ix'.nodes) in
      let d = ix.dangling || (added && moves (length ix.nodes)) in
      let ix'' : Index = record ix' { dangling = d } in
      let grown = resolve-Grows is_node_public names text ix h in
      elim (Option-cases target) [
        | inl e ↦ rw (e, refer) grown
        | inr (k, e) ↦
            rw (e, refer)
              (elim (Bool-cases (i == k)) [
                | inl e' ↦ rw e' grown
                | inr e' ↦ rw e' (
                    ground (
                      arith,
                      grown,
                      write_referral_lem i k ix'',
                      ap (missing names) (write_referral_lem i k ix'').1,
                    ))
              ])
      ]

  refer_rows-Grows :
      (i : ℕ) (texts : List String) (ix : Index)
      → All (Known is_node_public names) texts
      → Grows names ix (refer_rows is_node_public moves i texts ix)
  unfolding refer_rows
  refer_rows-Grows i [] ix h = omega arith
  refer_rows-Grows i (text ∷ texts) ix h = omega (
    arith,
    refer-Grows i text ix h.0,
    refer_rows-Grows i texts (refer is_node_public moves i text ix) h.1,
  )

  -- The loop ends, with fuel for the nodes that there are and for the names that are no node yet:
  -- it visits every node, those that it adds included.
  pub refer_nodes-ends :
      (referrals_of : String → List String) (n i : ℕ) (ix : Index)
      → ((key : String) → All (Known is_node_public names) (referrals_of key))
      → i ≤ length ix.nodes
      → potential names ix < n + i
      → (out : Index) × (refer_nodes is_node_public moves referrals_of n i ix ≡ some out)
        × (length out.nodes ≤ potential names ix)
  unfolding refer_nodes
  refer_nodes-ends referrals_of zero i ix known h fuel = absurd (omega arith)
  refer_nodes-ends referrals_of (suc n) i ix known h fuel =
      elim (Option-cases (validator_at i ix.nodes)) [
        | inl e ↦ (ix, rw (e, refer_nodes) refl, omega arith)
        | inr (key, e) ↦
            let grown =
              refer_rows-Grows i (referrals_of key) (record ix { dangling = false }) (known key) in
            let (out, runs, bounded) =
              refer_nodes-ends referrals_of n (i + 1)
                (refer_rows is_node_public moves i (referrals_of key)
                  (record ix { dangling = false }))
                known (omega (arith, grown, validator_at-lt i ix.nodes {key = key} e))
                (omega (arith, grown)) in
            (out, rw (e, refer_nodes) runs, omega (arith, bounded, grown))
      ]
