-- ===== src/Pool/Peers/Admission.antt =====
-- Which connections the pool of src/ConnectionPool/ConnectionPool.cpp keeps.

use bytev.Prelude.{ℕ, ◌≡◌, ◌↔◌, ◌≢◌, ap, true, none, some, if◌then◌else◌, arith, ◌&&◌}
use bytev.Prelude.Maps.{Eq, find, find-insert, find-erase, beq_refl}
use bytev.Peer.State.{IpPort}
use bytev.Pool.{View, Setting, Pool, same_peer}
use bytev.Pool.Peers.{peer_connected, rediscover, peer_disconnected}

module _ {Node Db : Type 0} ⦃e : Eq Node⦄ (s : Setting Node Db) where
  -- peerConnected admits a peer exactly when its node key is not the node's own and no other peer
  -- has it; the key then stands for that peer. Whatever the outcome, every other key stands for
  -- the peer that it stood for, and a key that was taken keeps its peer.
  pub peer_connected-connected_map :
      (view : ℕ → View Node) (peer : ℕ) (node other : Node) (address : IpPort) (p : Pool Node Db)
      → let (p', new) = peer_connected s view peer node address p in
        ((new ≡ true) ↔ ((node ≢ s.self) × (find node p.connected_map ≡ none)))
        × (find other p'.connected_map
            ≡ (if new && e.beq node other then some peer else find other p.connected_map))
  unfolding peer_connected rediscover
  peer_connected-connected_map view peer node other address p =
      ground (arith, e.beq_iff node s.self, find-insert node other peer p.connected_map)

  -- peerDisconnected removes a valid key that stands for the peer, and nothing else: a redundant
  -- connection that ends leaves the one that was kept.
  pub peer_disconnected-connected_map :
      (peer : ℕ) (node other : Node) (p : Pool Node Db)
      → find other (peer_disconnected s peer node p).connected_map ≡ (
          if s.valid node && (e.beq node other && same_peer peer (find node p.connected_map))
          then none
          else find other p.connected_map)
  unfolding peer_disconnected
  peer_disconnected-connected_map peer node other p =
      ground (arith, find-erase node other p.connected_map)

  -- A peer that comes, with a valid node key, and goes again, while the key did not stand for it,
  -- leaves every key standing for the peer that it stood for, whether the peer was admitted or not.
  pub peer_disconnected-peer_connected :
      (view : ℕ → View Node) (peer : ℕ) (node other : Node) (address : IpPort) (p : Pool Node Db)
      → s.valid node ≡ true
      → find node p.connected_map ≢ some peer
      → let p' = (peer_connected s view peer node address p).0 in
        find other (peer_disconnected s peer node p').connected_map ≡ find other p.connected_map
  peer_disconnected-peer_connected view peer node other address p v absent =
      let p' = (peer_connected s view peer node address p).0 in
      ground (
        arith,
        peer_disconnected-connected_map peer node other p',
        (peer_connected-connected_map view peer node other address p).1,
        (peer_connected-connected_map view peer node node address p).1,
        (peer_connected-connected_map view peer node node address p).0,
        beq_refl node,
        e.beq_iff node other,
        λ (e' : node ≡ other). ap (λ k. find k p.connected_map) e',
      )
