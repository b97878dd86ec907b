-- ===== src/Checks/Pools.antt =====
-- src/ConnectionPool/ConnectionPool.cpp over a table of at most one row.
use Prim.Native.String.{String}
use text.Mathlib.Text.{◌==◌ as str_eq}
use text.Mathlib.TextEquality.{eq_iff}
use bytev.Prelude.{
  ℕ, ◌<◌, ◌≤◌, ◌≡◌, ◌↔◌, ◌≢◌, refl, Bool, true, false, Option, none, some, List, [], ◌∷◌, leb,
  if◌then◌else◌, ◌&&◌, ◌||◌, ◌==◌, ==_iff, All, arith,
}
use bytev.Prelude.Int.{pos}
use bytev.Prelude.Maps.{Eq, find}
use bytev.Pool.{ip_port_eq, Table, View, Setting, Pool}
use bytev.Pool.Peers.{peer_connected, peer_disconnected}
use bytev.Pool.Peers.Admission.{peer_connected-connected_map, peer_disconnected-peer_connected}
use bytev.Pool.Policy.{peer_available, policy_low_water}
use bytev.Pool.Policy.Ends.{IsQuery, policy_low_water-ends}
use bytev.Pool.Scan.{scan_refresh}
use bytev.Pool.Scan.Ends.{IsSchedule, IsLater, scan_refresh-ends}

-- IpPort, ScanNext and ScanInterval
abbrev Row : Type 0
Row = Option (String × Option ℕ × ℕ)

abbrev listed : String → List String → Bool
listed t [] = false
listed t (x ∷ l) = str_eq x t || listed t l

abbrev update : Row → String → Option ℕ → ℕ → Row
update none t next interval = none
update (some (u, n, i)) t next interval =
    if str_eq u t then some (u, next, interval) else some (u, n, i)

abbrev unscheduled_row : Row → List String → Option String
unscheduled_row (some (t, none, interval)) l = if listed t l then none else some t
unscheduled_row other l = none

abbrev earliest_row : Row → Option (String × ℕ × ℕ)
earliest_row (some (t, some next, interval)) = some (t, next, interval)
earliest_row other = none

abbrev table : Table Row
table = record {
  count = λ db t. some 1;
  insert_row = λ db t code. db;
  replace_row = λ db t score. update db t (some 0) 0;
  unscheduled = unscheduled_row;
  scan_next = λ db t. none;
  schedule = λ db t next interval. update db t (some next) interval;
  unschedule = λ db t. update db t none 0;
  earliest = earliest_row;
}

instance abbrev nat_eq : Eq ℕ
nat_eq = record { beq = ◌==◌; beq_iff = ==_iff }

abbrev setting : Setting ℕ Row
setting = record {
  table = table;
  text = λ address. address.0;
  split = λ t. (t, pos 1);
  valid = λ node. true;
  self = 7;
  low_water = 4;
  scan_interval_min = 60;
}

abbrev view : ℕ → View ℕ
view peer = record { ip = ""; port = pos 0; node_public = peer; connected = true }

-- Peer 0 has the node key 8, and peer 1 is known by its address.
abbrev pool : Pool ℕ Row
pool = record {
  ip_map = (("b", pos 1), 1) ∷ [];
  connected_map = (8, 0) ∷ [];
  scanning = none;
  scan_ip_port = ("", pos 0);
  db = some ("a", none, 0);
  created = 2;
  calls = [];
}

abbrev free : Row → List String → ℕ
free (some (t, none, interval)) l = if listed t l then 0 else 1
free other l = 0

abbrev due : Row → ℕ → ℕ
due (some (t, some next, interval)) now = if leb next now then 1 else 0
due other now = 0

unlisted : (t : String) (l : List String) → listed t l ≡ false → All (λ x. x ≢ t) l
unlisted t [] h = tt
unlisted t (x ∷ l) h = (λ e. absurd (ground (arith, eq_iff x t)), unlisted t l (ground arith))

counted_row :
    (db : Row) (l : List String) (t : String)
    → unscheduled_row db l ≡ some t
    → free db (t ∷ l) < free db l
counted_row none l t h = absurd (ground arith)
counted_row (some (u, none, interval)) l t h = ground (arith, eq_iff t u)
counted_row (some (u, some next, interval)) l t h = absurd (ground arith)

fresh_row :
    (db : Row) (l : List String) (t : String) → unscheduled_row db l ≡ some t → All (λ x. x ≢ t) l
fresh_row none l t h = absurd (ground arith)
fresh_row (some (u, none, interval)) l t h = unlisted t l (ground arith)
fresh_row (some (u, some next, interval)) l t h = absurd (ground arith)

table-IsQuery : IsQuery setting free
table-IsQuery = record { counted = counted_row; fresh = fresh_row; written = λ db l t h. refl }

table-IsSchedule : IsSchedule table due
table-IsSchedule none t next interval now later interval' h on_time after = absurd (ground arith)
table-IsSchedule (some (u, none, i)) t next interval now later interval' h on_time after =
    absurd (ground arith)
table-IsSchedule (some (u, some n, i)) t next interval now later interval' h on_time after =
    ground (arith, eq_iff u t)

policy_low_water-ends_example :
    (q : Pool ℕ Row) × (policy_low_water setting 2 pool ≡ some q)
    × (q.connected_map ≡ (8, 0) ∷ [])
    × (1 ≤ 4 → peer_available setting q ≡ none)
policy_low_water-ends_example =
    policy_low_water-ends setting free 2 pool table-IsQuery (omega arith)

abbrev scheduled : Pool ℕ Row
scheduled = record pool { db = some ("b", some 100, 60) }

scan_refresh-ends_example :
    (q : Pool ℕ Row) × (scan_refresh setting 200 2 scheduled ≡ some q)
    × (q.scanning ≡ none → IsLater 200 (earliest_row q.db))
scan_refresh-ends_example =
    scan_refresh-ends setting 200 due 2 scheduled table-IsSchedule (omega arith) (omega arith)

abbrev newcomer : ℕ
newcomer = 9

peer_connected-connected_map_example :
    let (p', new) = peer_connected setting view 1 newcomer ("b", pos 1) pool in
    ((new ≡ true) ↔ ((newcomer ≢ 7) × (find newcomer pool.connected_map ≡ none)))
    × (find 8 p'.connected_map
        ≡ (if new && nat_eq.beq newcomer 8 then some 1 else find 8 pool.connected_map))
peer_connected-connected_map_example =
    peer_connected-connected_map setting view 1 newcomer 8 ("b", pos 1) pool

unknown : find newcomer pool.connected_map ≢ some 1
unfolding find
unknown e = cc

peer_disconnected-peer_connected_example :
    let p' = (peer_connected setting view 1 newcomer ("b", pos 1) pool).0 in
    find 8 (peer_disconnected setting 1 newcomer p').connected_map ≡ find 8 pool.connected_map
peer_disconnected-peer_connected_example =
    peer_disconnected-peer_connected setting view 1 newcomer 8 ("b", pos 1) pool refl unknown
