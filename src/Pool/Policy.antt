-- ===== src/Pool/Policy.antt =====
-- The policy of src/ConnectionPool/ConnectionPool.cpp: addresses are dialled while the pool is not above
-- its low-water mark.
pub mod Ends
use Prim.Native.String.{String}
use text.Mathlib.Text.{◌==◌ as str_eq}
use bytev.Prelude.{
  ℕ, zero, suc, Bool, Option, none, some, List, map, length, ltb, if◌then◌else◌, Result, ok, throws,
  runtime,
}
use bytev.Peer.State.{IpPort, Wait, aborted, failed, expired}
use bytev.Pool.{Table, Setting, Pool, policy_cancel, policy_in, calling}
use bytev.Pool.Peers.{peer_connect}

module _ {Node Db : Type 0} (s : Setting Node Db) where
  -- The open connections as the text of the query has them.
  abbrev pub texts : List (IpPort × ℕ) → List String
  texts m = map (λ entry. s.text entry.0) m

  unfoldable pub peer_available : Pool Node Db → Option IpPort
  peer_available p = elim (s.table.unscheduled p.db (texts p.ip_map)) [
    | none ↦ none
    | some t ↦ if str_eq t "" then none else some (s.split t)
  ]

  -- The recursion of policyLowWater on fuel; `none` means that it ran out.
  unfoldable pub policy_low_water : ℕ → Pool Node Db → Option (Pool Node Db)
  policy_low_water zero p = none
  policy_low_water (suc n) p =
      elim (if ltb s.low_water (length p.connected_map) then none else peer_available p) [
        | none ↦ some p
        | some address ↦ policy_low_water n (peer_connect address p).0
      ]

  unfoldable pub policy_enforce : ℕ → Pool Node Db → Option (Pool Node Db)
  policy_enforce n p = elim (policy_low_water n (calling policy_cancel p)) [
    | none ↦ none
    | some q ↦ some (calling (policy_in 5) q)
  ]

  unfoldable pub policy_handler : ℕ → Wait → Pool Node Db → Option (Result (Pool Node Db))
  policy_handler n aborted p = some (ok p)
  policy_handler n failed p = some (throws runtime)
  policy_handler n expired p = elim (policy_enforce n p) [ none ↦ none | some q ↦ some (ok q) ]
