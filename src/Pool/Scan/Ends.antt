-- ===== src/Pool/Scan/Ends.antt =====
-- The recursion of scanRefresh in src/ConnectionPool/ConnectionPool.cpp, and peerClosed before it.
use Prim.Native.String.{String}
use bytev.Prelude.{
  ℕ, zero, suc, ◌+◌, ◌*◌, max, ◌<◌, ◌≤◌, ◌≡◌, inl, inr, true, Option, none, some, ltb, ◌&&◌,
  if◌then◌else◌, arith, Option-cases, Bool-cases, ◌∙◌,
}
use bytev.Prelude.Maps.{find, find-erase}
use bytev.Peer.State.{IpPort}
use bytev.Pool.{
  ip_port_eq, same_address, same_peer, Table, Setting, Pool, calling, scan_cancel, scan_at,
}
use bytev.Pool.Peers.{peer_connect}
use bytev.Pool.Scan.{scan_now, scan_refresh, peer_scan_set, close_peer}

-- What the table is documented to do with the row that is scanned: `due` counts the rows with a
-- time of at most `now`, the earliest row is one of them if its time is, and it is no more when it
-- is scheduled for later.
abbrev pub IsSchedule : {Db : Type 0} → Table Db → (Db → ℕ → ℕ) → Type 0
IsSchedule {Db} table due =
    (db : Db) (t : String) (next interval now later interval' : ℕ)
    → table.earliest db ≡ some (t, next, interval)
    → next ≤ now
    → now < later
    → due (table.schedule db t later interval') now < due db now

-- No row is due.
abbrev pub IsLater : ℕ → Option (String × ℕ × ℕ) → Type 0
IsLater now none = Unit {0}
IsLater now (some (t, next, interval)) = now < next

module _ {Node Db : Type 0} (s : Setting Node Db) (now : ℕ) where
  scan_now-db :
      (t : String) (interval : ℕ) (p : Pool Node Db)
      → let wait = max interval s.scan_interval_min in
        (scan_now s now t interval p).0.db ≡ s.table.schedule p.db t (now + wait) (wait * 2)
  unfolding scan_now peer_connect
  scan_now-db t interval p = elim (Option-cases (find (s.split t) p.ip_map)) [
    | inl e ↦ ground arith
    | inr (peer, e) ↦ ground arith
  ]

  module _ (n : ℕ) (p : Pool Node Db) where
    refresh_busy : (peer : ℕ) → p.scanning ≡ some peer → scan_refresh s now (suc n) p ≡ some p
    unfolding scan_refresh
    refresh_busy peer e = ground arith

    module _ (idle : p.scanning ≡ none) where
      refresh_nothing :
          s.table.earliest p.db ≡ none → scan_refresh s now (suc n) p ≡ some (calling scan_cancel p)
      unfolding scan_refresh
      refresh_nothing e = ground arith

      module _ {t : String} {next interval : ℕ}
          (row : s.table.earliest p.db ≡ some (t, next, interval)) where
        refresh_later : now < next → scan_refresh s now (suc n) p ≡ some (calling (scan_at next) p)
        unfolding scan_refresh
        refresh_later late = ground arith

        module _ (due : next ≤ now) where
          refresh_dialled :
              (peer : ℕ)
              → (scan_now s now t interval p).1 ≡ some peer
              → scan_refresh s now (suc n) p
                ≡ some (record (scan_now s now t interval p).0 { scanning = some peer })
          unfolding scan_refresh
          refresh_dialled peer e = ground arith

          refresh_again :
              (scan_now s now t interval p).1 ≡ none
              → scan_refresh s now (suc n) p
                ≡ scan_refresh s now n (record (scan_now s now t interval p).0 { scanning = none })
          unfolding scan_refresh
          refresh_again e = ground arith

  -- scanRefresh ends, if the least interval is not 0, with fuel for one round more than there are
  -- rows that are due: afterwards a peer is being scanned, or no row is due. The table is taken to
  -- give the earliest row and to hold the new time of a row that is scheduled.
  pub scan_refresh-ends :
      (due : Db → ℕ → ℕ) (n : ℕ) (p : Pool Node Db)
      → IsSchedule s.table due
      → 0 < s.scan_interval_min
      → due p.db now < n
      → (q : Pool Node Db) × (scan_refresh s now n p ≡ some q)
        × (q.scanning ≡ none → IsLater now (s.table.earliest q.db))
  scan_refresh-ends due zero p laws wait h = absurd (omega arith)
  scan_refresh-ends due (suc n) p laws wait h = elim (Option-cases p.scanning) [
    | inr (peer, e) ↦ (p, refresh_busy n p peer e, λ e'. ground arith)
    | inl idle ↦ elim (Option-cases (s.table.earliest p.db)) [
      | inl e ↦ (calling scan_cancel p, refresh_nothing n p idle e, λ e'. rw e tt)
      | inr ((t, next, interval), e) ↦ elim (Bool-cases (ltb now next)) [
        | inl late ↦ (
          calling (scan_at next) p,
          refresh_later n p idle e (ground arith),
          λ e'. rw e (ground arith),
        )
        | inr not_late ↦
            let on_time : next ≤ now = ground arith in
            let r = scan_now s now t interval p in
            elim (Option-cases r.1) [
              | inr (peer, e') ↦ (
                record r.0 { scanning = some peer },
                refresh_dialled n p idle e on_time peer e',
                λ none_left. ground arith,
              )
              | inl e' ↦
                  let longer = max interval s.scan_interval_min in
                  let less =
                    laws p.db t next interval now (now + longer) (longer * 2) e on_time
                      (omega (arith, wait)) in
                  let less' : due r.0.db now < due p.db now = rw (scan_now-db t interval p) less in
                  let (q, runs, left) =
                    scan_refresh-ends due n (record r.0 { scanning = none }) laws wait
                      (omega (arith, less')) in
                  (q, refresh_again n p idle e on_time e' ∙ runs, left)
            ]
      ]
    ]
  ]

  -- peerClosed up to its call of scanRefresh: the address of the peer is forgotten if it stands for
  -- the peer, and no other is; the scan is over if it was the peer's, and else goes on.
  pub close_peer-ip_map :
      (peer : ℕ) (address other : IpPort) (p : Pool Node Db)
      → let (q, refresh) = close_peer s now peer address p in
        (find other q.ip_map ≡ (
          if same_address address other && same_peer peer (find address p.ip_map)
          then none
          else find other p.ip_map))
        × (q.scanning ≡ (if same_peer peer p.scanning then none else p.scanning))
        × (same_peer peer p.scanning ≡ true → refresh ≡ true)
  unfolding close_peer peer_scan_set
  close_peer-ip_map peer address other p = ground (arith, find-erase address other p.ip_map)
