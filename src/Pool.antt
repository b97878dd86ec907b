-- ===== src/Pool.antt =====
-- src/ConnectionPool/ConnectionPool.cpp: the state of the pool and what it uses of the rest of the
-- program. A shared_ptr to a peer is the peer's number; peers are numbered as they are created.
pub mod Peers
pub mod Policy
pub mod Scan
use Prim.Native.String.{String}
use text.Mathlib.Text.{◌==◌ as str_eq}
use text.Mathlib.TextEquality.{eq_iff}
use bytev.Prelude.{
  ℕ, zero, suc, ◌+◌, Bool, true, false, ◌≡◌, ◌↔◌, Option, none, some, List, [], ◌∷◌, ◌++◌, map,
  ◌==◌, ◌&&◌, if◌then◌else◌, arith,
}
use bytev.Prelude.Int.{ℤ, int_eq, int_eq_iff}
use bytev.Prelude.Maps.{Eq}
use bytev.Serializer.Buffer.{Bytes}
use bytev.Peer.State.{IpPort}

abbrev pub same_address : IpPort → IpPort → Bool
same_address (ip, port) (ip', port') = str_eq ip ip' && int_eq port port'

pub same_address_iff : (a b : IpPort) → (same_address a b ≡ true) ↔ (a ≡ b)
same_address_iff (ip, port) (ip', port') = ground (arith, eq_iff ip ip', int_eq_iff port port')

instance abbrev pub ip_port_eq : Eq IpPort
ip_port_eq = record { beq = same_address; beq_iff = same_address_iff }

abbrev pub same_peer : ℕ → Option ℕ → Bool
same_peer peer none = false
same_peer peer (some other) = peer == other

-- The statements on the table PeerIps, by the texts that the source gives to SQLite. A `none` is a
-- statement that fails or has no row. Times are seconds of the program's clock.
pub record Table (Db : Type 0) : Type 0 where
  -- SELECT COUNT(*) ... WHERE IpPort=
  pub count : Db → String → Option ℕ
  -- INSERT INTO PeerIps (IpPort,Score,Source)
  pub insert_row : Db → String → ℕ → Db
  -- REPLACE INTO PeerIps ..., with a score and ScanNext 0
  pub replace_row : Db → String → ℕ → Db
  -- SELECT IpPort ... WHERE ScanNext IS NULL AND IpPort NOT IN (...) LIMIT 1
  pub unscheduled : Db → List String → Option String
  -- SELECT ScanNext ... WHERE IpPort=, null or a time
  pub scan_next : Db → String → Option (Option ℕ)
  -- UPDATE ... SET ScanNext=,ScanInterval= WHERE IpPort=
  pub schedule : Db → String → ℕ → ℕ → Db
  -- UPDATE ... SET ScanNext=NULL,ScanInterval=0 WHERE IpPort=
  pub unschedule : Db → String → Db
  -- SELECT * ... WHERE ScanNext NOT NULL ORDER BY ScanNext LIMIT 1: IpPort, ScanNext, ScanInterval
  pub earliest : Db → Option (String × ℕ × ℕ)

-- What the pool calls: on its peers and its timers.
pub data Call : Type 0 where
  connect_peer : ℕ → String → ℤ → Call
  set_address : ℕ → String → ℤ → Call
  send : ℕ → Bytes → Call
  scan_cancel policy_cancel : Call
  scan_at : ℕ → Call
  policy_in : ℕ → Call

-- What a peer answers the pool's questions with.
pub record View (Node : Type 0) : Type 0 where
  pub ip : String
  pub port : ℤ
  pub node_public : Node
  pub connected : Bool

-- `text` is boost::format("%s %d"), `split` is splitIpPort, `valid` is NewcoinAddress::isValid,
-- `self` the wallet's node key, and the numbers are those of Config.
pub record Setting (Node Db : Type 0) : Type 0 where
  pub table : Table Db
  pub text : IpPort → String
  pub split : String → IpPort
  pub valid : Node → Bool
  pub self : Node
  pub low_water : ℕ
  pub scan_interval_min : ℕ

-- `created` is the number of peers created; `calls` has the calls made, the last one at the end.
pub record Pool (Node Db : Type 0) : Type 0 where
  pub ip_map : List (IpPort × ℕ)
  pub connected_map : List (Node × ℕ)
  pub scanning : Option ℕ
  pub scan_ip_port : IpPort
  pub db : Db
  pub created : ℕ
  pub calls : List Call

module _ {Node Db : Type 0} where
  abbrev pub calling : Call → Pool Node Db → Pool Node Db
  calling c p = record p { calls = p.calls ++ (c ∷ []) }
