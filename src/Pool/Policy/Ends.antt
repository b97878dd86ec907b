-- ===== src/Pool/Policy/Ends.antt =====
-- The recursion of policyLowWater in src/ConnectionPool/ConnectionPool.cpp.
use Prim.Native.String.{String}
use bytev.Prelude.{
  ℕ, zero, suc, ◌<◌, ◌≤◌, ◌≡◌, ◌≢◌, refl, sym, ap, ◌∙◌, none, some, List, [], ◌∷◌, length, ltb,
  if◌then◌else◌, All, arith, Option-cases, subst, inl, inr,
}
use bytev.Prelude.Maps.{find, insert, erase-absent}
use bytev.Peer.State.{IpPort}
use bytev.Pool.{ip_port_eq, same_address_iff, Setting, Pool}
use bytev.Pool.Peers.{peer_connect}
use bytev.Pool.Policy.{texts, peer_available, policy_low_water}

-- What the query of peerAvailable is documented to give: `free` counts the rows that are not
-- scheduled and not in the list, and a row that it gives is one of them. Rows hold texts that the
-- program wrote.
pub record IsQuery {Node Db : Type 0} (s : Setting Node Db) (free : Db → List String → ℕ)
    : Type 0 where
  pub counted :
      (db : Db) (l : List String) (t : String)
      → s.table.unscheduled db l ≡ some t
      → free db (t ∷ l) < free db l
  pub fresh :
      (db : Db) (l : List String) (t : String)
      → s.table.unscheduled db l ≡ some t
      → All (λ x. x ≢ t) l
  pub written :
      (db : Db) (l : List String) (t : String)
      → s.table.unscheduled db l ≡ some t
      → s.text (s.split t) ≡ t

module _ {Node Db : Type 0} (s : Setting Node Db) where
  find-texts :
      (a : IpPort) (m : List (IpPort × ℕ)) → All (λ x. x ≢ s.text a) (texts s m) → find a m ≡ none
  unfolding find
  find-texts a [] h = refl
  find-texts a ((b, v) ∷ m) h =
      ground (arith, same_address_iff b a, find-texts a m h.1, λ (e : b ≡ a). h.0 (ap s.text e))

  -- Connecting to an address whose text is not in the list puts it at the front of the list.
  peer_connect-new :
      (a : IpPort) (p : Pool Node Db)
      → find a p.ip_map ≡ none
      → let q = (peer_connect a p).0 in
        (texts s q.ip_map ≡ s.text a ∷ texts s p.ip_map)
        × (q.connected_map ≡ p.connected_map)
        × (q.db ≡ p.db)
  unfolding peer_connect insert
  peer_connect-new (ip, port) p h =
      rw (h, peer_connect) (rw (erase-absent (ip, port) p.ip_map h) (refl, refl, refl))

  -- A peer that is available stands for a row that is not connected.
  available_row :
      (p : Pool Node Db) (a : IpPort)
      → peer_available s p ≡ some a
      → (t : String) × (s.table.unscheduled p.db (texts s p.ip_map) ≡ some t) × (a ≡ s.split t)
  unfolding peer_available
  available_row p a h = elim (Option-cases (s.table.unscheduled p.db (texts s p.ip_map))) [
    | inl e ↦ absurd (ground arith)
    | inr (t, e) ↦ (t, e, ground arith)
  ]

  -- One more row is connected after a step of the loop.
  dial :
      (free : Db → List String → ℕ) (laws : IsQuery s free) (p : Pool Node Db) (a : IpPort)
      → peer_available s p ≡ some a
      → let q = (peer_connect a p).0 in
        (free q.db (texts s q.ip_map) < free p.db (texts s p.ip_map))
        × (q.connected_map ≡ p.connected_map)
  dial free laws p a h =
      let (t, row, e) = available_row p a h in
      let l = texts s p.ip_map in
      let w : s.text a ≡ t = ap s.text e ∙ laws.written p.db l t row in
      let absent : find a p.ip_map ≡ none =
        find-texts a p.ip_map (subst (λ x. All (λ y. y ≢ x) l) (sym w) (laws.fresh p.db l t row)) in
      let (front, same, db) = peer_connect-new a p absent in
      let less : free p.db (s.text a ∷ l) < free p.db l = rw w (laws.counted p.db l t row) in
      (rw (front, db) less, same)

  -- policyLowWater ends, with fuel for one round more than there are rows to connect to: the
  -- connected peers are as before, and if they are at most the low-water mark then no address is
  -- left to connect to. So it dials every available address, not as many as are missing.
  pub policy_low_water-ends :
      (free : Db → List String → ℕ) (n : ℕ) (p : Pool Node Db)
      → IsQuery s free
      → free p.db (texts s p.ip_map) < n
      → (q : Pool Node Db) × (policy_low_water s n p ≡ some q)
        × (q.connected_map ≡ p.connected_map)
        × (length p.connected_map ≤ s.low_water → peer_available s q ≡ none)
  unfolding policy_low_water
  policy_low_water-ends free zero p laws h = absurd (omega arith)
  policy_low_water-ends free (suc n) p laws h =
      elim (Option-cases
        (if ltb s.low_water (length p.connected_map) then none else peer_available s p)) [
          | inl e ↦ (p, rw (e, policy_low_water) refl, refl, λ low. ground arith)
          | inr (a, e) ↦
              let (less, same) = dial free laws p a (ground arith) in
              let (q, runs, kept, none_left) =
                policy_low_water-ends free n (peer_connect a p).0 laws (omega (arith, less)) in
              (
                q,
                rw (e, policy_low_water) runs,
                kept ∙ same,
                λ low. none_left (omega (arith, low, ap length same)),
              )
        ]
