-- ===== src/Unl/Index/Edits.antt =====
-- The lists of nodes that scoreCompute in src/UniqueNodeList/UniqueNodeList.cpp makes longer
-- and changes in place.
use Prim.Native.String.{String}
use bytev.Prelude.{
  ℕ, zero, suc, ◌+◌, ◌<◌, ◌≡◌, refl, ap, some, List, [], ◌∷◌, ◌++◌, length, ◌==◌, if◌then◌else◌,
  All, All-append, arith, length-append,
}
use bytev.Prelude.Maps.{string_eq}
use bytev.Unl.Rounds.{ScoreNode, Nodes}
use bytev.Unl.Index.{Index, new_node, push_node, raise_at, push_referral, validator_at}

abbrev pub referrals_at : ℕ → Nodes → List ℕ
referrals_at i [] = []
referrals_at zero (sn ∷ nodes) = sn.referrals
referrals_at (suc i) (sn ∷ nodes) = referrals_at i nodes

pub validator_at-lt :
    (i : ℕ) (nodes : Nodes) {key : String} → validator_at i nodes ≡ some key → i < length nodes
validator_at-lt i [] h = absurd (ground arith)
validator_at-lt zero (sn ∷ nodes) h = omega arith
validator_at-lt (suc i) (sn ∷ nodes) h = omega (arith, validator_at-lt i nodes h)

pub validator_at-append :
    (i : ℕ) (nodes : Nodes) (sn : ScoreNode)
    → validator_at i (nodes ++ (sn ∷ []))
      ≡ (if i == length nodes then some sn.validator else validator_at i nodes)
validator_at-append zero [] sn = refl
validator_at-append (suc i) [] sn = ground arith
validator_at-append zero (x ∷ nodes) sn = ground arith
validator_at-append (suc i) (x ∷ nodes) sn = ground (arith, validator_at-append i nodes sn)

pub referrals_at-append :
    (i : ℕ) (nodes : Nodes) (key : String) (score : ℕ)
    → referrals_at i (nodes ++ (new_node key score ∷ [])) ≡ referrals_at i nodes
referrals_at-append zero [] key score = refl
referrals_at-append (suc i) [] key score = refl
referrals_at-append zero (x ∷ nodes) key score = refl
referrals_at-append (suc i) (x ∷ nodes) key score = referrals_at-append i nodes key score

pub raise_at-fields :
    (j i score : ℕ) (nodes : Nodes)
    → (validator_at j (raise_at i score nodes) ≡ validator_at j nodes)
      × (referrals_at j (raise_at i score nodes) ≡ referrals_at j nodes)
unfolding raise_at
raise_at-fields j i score [] = (refl, refl)
raise_at-fields zero zero score (sn ∷ nodes) = ground arith
raise_at-fields (suc j) zero score (sn ∷ nodes) = (refl, refl)
raise_at-fields zero (suc i) score (sn ∷ nodes) = (refl, refl)
raise_at-fields (suc j) (suc i) score (sn ∷ nodes) = raise_at-fields j i score nodes

pub length-raise_at : (i score : ℕ) (nodes : Nodes) → length (raise_at i score nodes) ≡ length nodes
unfolding raise_at
length-raise_at i score [] = refl
length-raise_at zero score (sn ∷ nodes) = refl
length-raise_at (suc i) score (sn ∷ nodes) = ap suc (length-raise_at i score nodes)

pub length-push_referral :
    (i k : ℕ) (nodes : Nodes) → length (push_referral i k nodes) ≡ length nodes
unfolding push_referral
length-push_referral i k [] = refl
length-push_referral zero k (sn ∷ nodes) = refl
length-push_referral (suc i) k (sn ∷ nodes) = ap suc (length-push_referral i k nodes)

pub validator_at-push_referral :
    (j i k : ℕ) (nodes : Nodes) → validator_at j (push_referral i k nodes) ≡ validator_at j nodes
unfolding push_referral
validator_at-push_referral j i k [] = refl
validator_at-push_referral zero zero k (sn ∷ nodes) = refl
validator_at-push_referral (suc j) zero k (sn ∷ nodes) = refl
validator_at-push_referral zero (suc i) k (sn ∷ nodes) = refl
validator_at-push_referral (suc j) (suc i) k (sn ∷ nodes) = validator_at-push_referral j i k nodes

pub referrals_at-push_referral :
    (P : ℕ → Type 0) (j i k : ℕ) (nodes : Nodes)
    → (i ≡ j → P k)
    → All P (referrals_at j nodes)
    → All P (referrals_at j (push_referral i k nodes))
unfolding push_referral
referrals_at-push_referral P j i k [] t h = h
referrals_at-push_referral P zero zero k (sn ∷ nodes) t h =
    All-append P sn.referrals (k ∷ []) h (t refl, tt)
referrals_at-push_referral P (suc j) zero k (sn ∷ nodes) t h = h
referrals_at-push_referral P zero (suc i) k (sn ∷ nodes) t h = h
referrals_at-push_referral P (suc j) (suc i) k (sn ∷ nodes) t h =
    referrals_at-push_referral P j i k nodes (λ e. t (ap suc e)) h

pub length-push_node :
    (key : String) (score : ℕ) (ix : Index)
    → length (push_node key score ix).nodes ≡ length ix.nodes + 1
unfolding push_node
length-push_node key score ix = omega (arith, length-append ix.nodes (new_node key score ∷ []))
