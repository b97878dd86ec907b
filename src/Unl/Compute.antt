-- ===== src/Unl/Compute.antt =====
-- scoreCompute of src/UniqueNodeList/UniqueNodeList.cpp: the nodes are gathered and scored, and the
-- scores written back for the nodes and for the addresses that they refer to.
pub mod Ips
pub mod Keys
pub mod Total
pub mod Undefined
use Prim.Native.String.{String}
use bytev.Prelude.{
  ℕ, zero, suc, ◌+◌, ◌-◌, ◌*◌, ◌/◌, Bool, Option, none, some, List, [], ◌∷◌, ◌++◌, map, length,
  ◌==◌, if◌then◌else◌,
}
use bytev.Prelude.Int.{ℤ, negsuc}
use bytev.Prelude.Maps.{string_eq, find, insert}
use bytev.Peer.State.{IpPort}
use bytev.Pool.{ip_port_eq}
use bytev.Unl.Index.{Index, empty, seed_domain_rows, seed_node_rows, refer_nodes, validator_at}
use bytev.Unl.Rounds.{Nodes, ScoreNode, base, distribute_points}
use bytev.Unl.Sources.{Source}

-- The statements of scoreCompute, by the texts that the source gives to SQLite. A `none` is NULL.
pub record ScoreTables (Db : Type 0) : Type 0 where
  -- SELECT Domain,PublicKey,Source FROM SeedDomains
  pub seed_domains : Db → List (String × Option String × Source)
  -- SELECT PublicKey,Source FROM SeedNodes
  pub seed_nodes : Db → List (String × Source)
  -- SELECT Referral FROM ValidatorReferrals WHERE Validator= ORDER BY Entry
  pub referrals_of : Db → String → List String
  pub begin : Db → Db
  pub commit : Db → Db
  -- UPDATE TrustedNodes SET Score = 0 WHERE Score != 0
  pub clear_scores : Db → Db
  -- SELECT PublicKey,Seen FROM TrustedNodes WHERE PublicKey IN (...)
  pub seen_rows : Db → List String → List (String × Option ℕ)
  -- REPLACE INTO TrustedNodes (PublicKey,Score,Seen)
  pub put_scores : Db → List (String × ℕ × Option ℕ) → Db
  -- UPDATE PeerIps SET Score = 0 WHERE Score != 0
  pub clear_ip_scores : Db → Db
  -- SELECT Validator,COUNT(*) AS Count FROM IpReferrals GROUP BY Validator
  pub ip_counts : Db → List (String × ℕ)
  -- SELECT IP,Port FROM IpReferrals WHERE Validator= ORDER BY Entry
  pub ip_rows : Db → String → List (String × Option ℤ)
  -- REPLACE INTO PeerIps (IpPort,Score,Source), with the source of a validator
  pub put_ip_scores : Db → List (IpPort × ℕ) → Db

unfoldable pub set_seen : ℕ → Option ℕ → Nodes → Nodes
set_seen i seen [] = []
set_seen zero seen (sn ∷ nodes) = record sn { seen = seen } ∷ nodes
set_seen (suc i) seen (sn ∷ nodes) = sn ∷ set_seen i seen nodes

-- `vsnNodes[umPulicIdx[key]].iSeen = ...`; a key that is not in the map is entered with 0.
unfoldable pub load_seen : List (String × Option ℕ) → Index → Index
load_seen [] ix = ix
load_seen ((key, seen) ∷ rows) ix = load_seen rows (elim (find key ix.public_idx) [
  | none ↦ record ix { public_idx = insert key 0 ix.public_idx; nodes = set_seen 0 seen ix.nodes }
  | some i ↦ record ix { nodes = set_seen i seen ix.nodes }
])

-- umScore
abbrev pub IpScores : Type 0
IpScores = List (IpPort × ℕ)

unfoldable pub add_ip : IpPort → ℕ → IpScores → IpScores
add_ip ip points m = elim (find ip m) [
  | none ↦ insert ip points m
  | some old ↦ insert ip (old + points) m
]

abbrev pub port_or_none : Option ℤ → ℤ
port_or_none none = negsuc 0
port_or_none (some port) = port

-- The rows of a validator from entry `i` on. The rows are as many as the count, `entries`.
unfoldable pub score_ip_rows : ℕ → ℕ → ℕ → List (String × Option ℤ) → IpScores → IpScores
score_ip_rows b entries i [] m = m
score_ip_rows b entries i ((ip, port) ∷ rows) m =
    score_ip_rows b entries (i + 1) rows
      (add_ip (ip, port_or_none port) (b * (entries - i) / entries) m)

abbrev pub score_at : ℕ → Nodes → ℕ
score_at i [] = 0
score_at zero (sn ∷ nodes) = sn.score
score_at (suc i) (sn ∷ nodes) = score_at i nodes

-- The loop over umValidators.
unfoldable pub score_ips :
    (String → List (String × Option ℤ)) → Index → List (String × ℕ) → IpScores → IpScores
score_ips rows_of ix [] m = m
score_ips rows_of ix ((validator, entries) ∷ counts) m =
    score_ips rows_of ix counts (elim (find validator ix.public_idx) [
      | none ↦ m
      | some i ↦ score_ip_rows (base (score_at i ix.nodes) entries) entries 0 (rows_of validator) m
    ])

module _ {Db : Type 0} (t : ScoreTables Db) where
  open t use {
    seed_domains, seed_nodes, referrals_of, begin, commit, clear_scores, seen_rows, put_scores,
    clear_ip_scores, ip_counts, ip_rows, put_ip_scores,
  }

  -- Up to the distribution of points, on the fuel of the loop over the nodes.
  unfoldable pub gather : (String → Bool) → (ℕ → Bool) → ℕ → Db → Option Index
  gather is_node_public moves n db =
      refer_nodes is_node_public moves (referrals_of db) n 0
        (seed_node_rows (seed_nodes db) (seed_domain_rows (seed_domains db) empty))

  -- The nodes' scores, and the keys that become mUNL.
  unfoldable pub store_scores : Index → Db → Index × Db
  store_scores ix db =
      if length ix.nodes == 0
      then (ix, clear_scores (begin db))
      else (let db' = clear_scores (begin db) in
          let ix' = load_seen (seen_rows db' (map (λ sn. sn.validator) ix.nodes)) ix in
          (ix', put_scores db' (map (λ sn. (sn.validator, sn.score, sn.seen)) ix'.nodes)))

  unfoldable pub store_ip_scores : Index → Db → Db
  store_ip_scores ix db =
      let db' = clear_ip_scores db in
      let counts = if length ix.nodes == 0 then [] else ip_counts db' in
      let m = score_ips (ip_rows db') ix counts [] in
      commit (if length m == 0 then db' else put_ip_scores db' m)

  -- The new database and mUNL; none means that the fuel ran out. Where gather marks the index as
  -- undefined, nothing is known of the program, and the result is that of the nodes as they stay.
  unfoldable pub score_compute : (String → Bool) → (ℕ → Bool) → ℕ → Db → Option (Db × List String)
  score_compute is_node_public moves n db = elim (gather is_node_public moves n db) [
    | none ↦ none
    | some ix ↦
        let (ix', db') = store_scores (record ix { nodes = distribute_points ix.nodes }) db in
        some (store_ip_scores ix' db', map (λ sn. sn.validator) ix'.nodes)
  ]
