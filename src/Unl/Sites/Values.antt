-- ===== src/Unl/Sites/Values.antt =====
-- The rows that processIps of src/UniqueNodeList/UniqueNodeList.cpp writes to the vector that it
-- has resized to MIN(size, REFERRAL_IPS_MAX) places.
use Prim.Native.String.{String}
use bytev.Prelude.{
  ℕ, suc, ◌≤◌, ◌≡◌, ◌-◌, refl, inl, inr, min, false, List, [], ◌∷◌, length, ◌==◌, arith, Bool-cases,
  Option-cases,
}
use bytev.Prelude.Int.{ℤ}
use bytev.Unl.State.{Tables, Reader}
use bytev.Unl.Sites.{ip_values, referral_max}

-- The entries of the rows are the numbers from `i` on, in order.
abbrev pub IsNumbered : ℕ → List (ℕ × String × ℤ) → Type 0
IsNumbered i [] = Unit
IsNumbered i (row ∷ rows) = (row.0 ≡ i) × IsNumbered (suc i) rows

below : (i : ℕ) → i ≤ referral_max → (i == referral_max) ≡ false → suc i ≤ referral_max
below i h e = ground arith

module _ {Db : Type 0} (t : Tables Db) (rd : Reader) (now : ℕ) where
  ip_values-IsNumbered_from :
      (i : ℕ) (texts : List String)
      → i ≤ referral_max
      → IsNumbered i (ip_values t rd now i texts)
        × (length (ip_values t rd now i texts) ≤ min (length texts) (referral_max - i))
  unfolding ip_values
  ip_values-IsNumbered_from i [] h = (tt, omega arith)
  ip_values-IsNumbered_from i (text ∷ texts) h = elim (Bool-cases (i == referral_max)) [
    | inl e ↦ rw (e, ip_values) (tt, omega arith)
    | inr e ↦ elim (Option-cases (rd.ip_port text)) [
      | inl e' ↦
          let (numbered, bound) = ip_values-IsNumbered_from i texts h in
          rw (e, ip_values, e') (numbered, omega (arith, bound))
      | inr (address, e') ↦
          let room = below i h e in
          let (numbered, bound) = ip_values-IsNumbered_from (suc i) texts room in
          rw (e, ip_values, e') ((refl, numbered), omega (arith, bound, room))
    ]
  ]

  -- The rows that processIps writes are numbered from zero, and there are at most as many as the
  -- entries of the file and as the fifty places of the vector, so no write is out of bounds.
  pub ip_values-IsNumbered :
      (texts : List String)
      → IsNumbered 0 (ip_values t rd now 0 texts)
        × (length (ip_values t rd now 0 texts) ≤ min (length texts) referral_max)
  ip_values-IsNumbered texts = ip_values-IsNumbered_from 0 texts (omega arith)
