-- ===== src/Pool/Peers.antt =====
-- The maps of peers in src/ConnectionPool/ConnectionPool.cpp: by address (mIpMap) and by node key
-- (mConnectedMap).
pub mod Admission
use Prim.Native.String.{String}
use text.Mathlib.Text.{◌==◌ as str_eq}
use bytev.Prelude.{
  ℕ, ◌+◌, Bool, true, false, Option, none, some, List, [], ◌∷◌, ◌==◌, ◌&&◌, not, if◌then◌else◌,
}
use bytev.Prelude.Int.{ℤ}
use bytev.Prelude.Maps.{Eq, find, erase, insert}
use bytev.Serializer.Buffer.{Bytes}
use bytev.Peer.State.{IpPort}
use bytev.Pool.{
  ip_port_eq, same_peer, connect_peer, set_address, send, View, Setting, Pool, calling,
}

module _ {Node Db : Type 0} where
  -- The result is the new peer, or none for an address that is known. What the call of the peer's
  -- connect does is the peer's; here it is recorded.
  unfoldable pub peer_connect : IpPort → Pool Node Db → Pool Node Db × Option ℕ
  peer_connect (ip, port) p = elim (find (ip, port) p.ip_map) [
    | some peer ↦ (p, none)
    | none ↦
        let q = calling (connect_peer p.created ip port) p in
        (
          record q { created = p.created + 1; ip_map = insert (ip, port) p.created p.ip_map },
          some p.created,
        )
  ]

module _ {Node Db : Type 0} ⦃e : Eq Node⦄ where
  -- The branch for a key that is in the map, with the peer `old`.
  unfoldable pub rediscover : (ℕ → View Node) → ℕ → IpPort → Pool Node Db → Pool Node Db
  rediscover view old (ip, port) p =
      if str_eq ip ""
      then p
      else if str_eq (view old).ip ""
      then (let q = calling (set_address old ip port) p in
          record q { ip_map = insert (ip, port) old p.ip_map })
      else p

  unfoldable pub peer_connected :
      Setting Node Db → (ℕ → View Node) → ℕ → Node → IpPort → Pool Node Db → Pool Node Db × Bool
  peer_connected s view peer node address p =
      if e.beq node s.self then (p, false) else elim (find node p.connected_map) [
        | none ↦ (record p { connected_map = insert node peer p.connected_map }, true)
        | some old ↦ (rediscover view old address p, false)
      ]

  unfoldable pub peer_disconnected : Setting Node Db → ℕ → Node → Pool Node Db → Pool Node Db
  peer_disconnected s peer node p =
      if s.valid node
      then elim (find node p.connected_map) [
        | none ↦ p
        | some old ↦
            if old == peer then record p { connected_map = erase node p.connected_map } else p
      ]
      else p

module _ {Node Db : Type 0} (view : ℕ → View Node) (from : Option ℕ) (msg : Bytes) where
  -- The loop of relayMessage; `from` is null or the peer that the message came from.
  unfoldable pub relay : List (Node × ℕ) → Pool Node Db → Pool Node Db
  relay [] p = p
  relay ((node, peer) ∷ m) p =
      relay m (
        if not (same_peer peer from) && (view peer).connected then calling (send peer msg) p else p)

  unfoldable pub relay_message : Pool Node Db → Pool Node Db
  relay_message p = relay p.connected_map p

unfoldable pub get_peer_vector : {Node : Type 0} → List (Node × ℕ) → List ℕ
get_peer_vector [] = []
get_peer_vector ((node, peer) ∷ m) = peer ∷ get_peer_vector m
