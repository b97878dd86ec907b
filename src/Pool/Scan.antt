-- ===== src/Pool/Scan.antt =====
-- The scans of src/ConnectionPool/ConnectionPool.cpp: addresses of the table PeerIps are tried one
-- at a time. A call of scanRefresh is taken to run within one second of the clock, `now`; `none`
-- means that the fuel of its recursion ran out. Times and intervals are taken to fit an int.
pub mod Ends
use Prim.Native.String.{String}
use bytev.Prelude.{
  ℕ, zero, suc, ◌+◌, ◌*◌, max, Bool, true, false, Option, none, some, ltb, ◌==◌, ◌||◌,
  if◌then◌else◌, Result, ok, throws, runtime,
}
use bytev.Prelude.Maps.{Eq, find, erase}
use bytev.Peer.State.{IpPort, Wait, aborted, failed, expired}
use bytev.Unl.Sources.{manual, source_score}
use bytev.Pool.{ip_port_eq, same_peer, Table, scan_cancel, scan_at, View, Setting, Pool, calling}
use bytev.Pool.Peers.{peer_connect}
use bytev.Pool.Policy.{policy_enforce}

module _ {Node Db : Type 0} (s : Setting Node Db) (now : ℕ) where
  open s.table use {count, insert_row, replace_row, scan_next, schedule, unschedule, earliest}

  -- The branch that scans the address of the row `t`: the peer, or none if it is connected.
  unfoldable pub scan_now : String → ℕ → Pool Node Db → Pool Node Db × Option ℕ
  scan_now t interval p =
      let wait = max interval s.scan_interval_min in
      let q = calling scan_cancel (record p { scan_ip_port = s.split t }) in
      peer_connect (s.split t) (record q { db = schedule p.db t (now + wait) (wait * 2) })

  unfoldable pub scan_refresh : ℕ → Pool Node Db → Option (Pool Node Db)
  scan_refresh zero p = none
  scan_refresh (suc n) p = elim p.scanning [
    | some peer ↦ some p
    | none ↦ elim (earliest p.db) [
      | none ↦ some (calling scan_cancel p)
      | some (t, next, interval) ↦
          elim (if ltb now next then none else some (scan_now t interval p)) [
            | none ↦ some (calling (scan_at next) p)
            | some (q, some peer) ↦ some (record q { scanning = some peer })
            | some (q, none) ↦ scan_refresh n (record q { scanning = none })
          ]
    ]
  ]

  unfoldable pub scan_handler : ℕ → Wait → Pool Node Db → Option (Result (Pool Node Db))
  scan_handler n aborted p = some (ok p)
  scan_handler n failed p = some (throws runtime)
  scan_handler n expired p = elim (scan_refresh n p) [ none ↦ none | some q ↦ some (ok q) ]

  -- The result says whether the address is new.
  unfoldable pub save_peer : ℕ → IpPort → ℕ → Pool Node Db → Option (Pool Node Db × Bool)
  save_peer n address code p = elim (count p.db (s.text address)) [
    | none ↦ some (p, false)
    | some rows ↦
        if rows == 0
        then elim (scan_refresh n (record p { db = insert_row p.db (s.text address) code })) [
          | none ↦ none
          | some q ↦ some (q, true)
        ]
        else some (p, false)
  ]

  unfoldable pub connect_to : ℕ → IpPort → Pool Node Db → Option (Pool Node Db)
  connect_to n address p =
      scan_refresh n (record p { db = replace_row p.db (s.text address) (source_score manual) })

  unfoldable pub peer_scan_set : IpPort → Pool Node Db → Pool Node Db × Bool
  peer_scan_set address p = elim (scan_next p.db (s.text address)) [
    | none ↦ (p, false)
    | some (some next) ↦ (p, false)
    | some none ↦
        let wait = s.scan_interval_min in
        (record p { db = schedule p.db (s.text address) (now + wait) wait }, true)
  ]

  -- peerClosed up to its last test: the pool, and whether scanRefresh is called.
  unfoldable pub close_peer : ℕ → IpPort → Pool Node Db → Pool Node Db × Bool
  close_peer peer address p =
      let scan = same_peer peer p.scanning in
      let q = if scan then record p { scanning = none } else p in
      if same_peer peer (find address q.ip_map)
      then (let (r, dirty) = peer_scan_set address (record q { ip_map = erase address q.ip_map }) in
          (r, dirty || scan))
      else (q, scan)

  unfoldable pub peer_closed : ℕ → ℕ → IpPort → Pool Node Db → Option (Pool Node Db)
  peer_closed n peer address p =
      let (q, refresh) = close_peer peer address p in if refresh then scan_refresh n q else some q

  unfoldable pub peer_verified :
      ⦃e : Eq Node⦄ → ℕ → (ℕ → View Node) → ℕ → Pool Node Db → Option (Pool Node Db)
  peer_verified ⦃e⦄ n view peer p =
      let v = view peer in
      let db =
        if e.beq v.node_public s.self then p.db else unschedule p.db (s.text (v.ip, v.port)) in
      if same_peer peer p.scanning
      then scan_refresh n (record p { db = db; scanning = none })
      else some p

  -- `n` and `m` are the fuel of the policy and of the scan.
  unfoldable pub start : ℕ → ℕ → Pool Node Db → Option (Pool Node Db)
  start n m p = elim (policy_enforce s n p) [ none ↦ none | some q ↦ scan_refresh m q ]
