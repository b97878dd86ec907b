-- ===== src/Unl/Seeds.antt =====
-- The seeds that are added and removed in src/UniqueNodeList/UniqueNodeList.cpp: nodeAddDomain,
-- nodeAddPublic, setSeedNodes, nodeRemovePublic, nodeRemoveDomain and nodeReset. A NewcoinAddress
-- that is a valid node key is its text.
use Prim.Native.String.{String}
use bytev.Prelude.{ℕ, Bool, true, false, none, some, [], leb, replicate, ◌||◌, if◌then◌else◌}
use bytev.Serializer.Buffer.{Bytes}
use bytev.Unl.Sources.{Source, manual, source_score}
use bytev.Unl.State.{SeedDomain, SeedNode, Tables, Reader, NodeList, Run}
use bytev.Unl.Scoring.{fetch_dirty}
use bytev.Unl.Fetch.{set_seed_domains}

-- The value of a uint256 that nothing set.
abbrev pub no_digest : Bytes
no_digest = replicate 32 0

abbrev pub is_manual : Source → Bool
is_manual manual = true
is_manual source = false

-- The source may replace one that gives at most as many points.
abbrev pub may_promote : Source → Source → Bool
may_promote why source = leb (source_score source) (source_score why)

abbrev pub new_domain : ℕ → String → Source → String → SeedDomain
new_domain now domain why comment = record {
  domain = domain;
  public_key = none;
  source = why;
  next = some now;
  scan = none;
  fetch = none;
  sha256 = no_digest;
  comment = comment;
}

abbrev pub new_seed_node : ℕ → String → Source → String → SeedNode
new_seed_node now key why comment = record {
  public_key = key;
  source = why;
  next = some now;
  scan = none;
  fetch = none;
  sha256 = no_digest;
  comment = comment;
}

-- A known row, promoted and scanned at once as the source asks.
abbrev pub changed_domain : ℕ → Source → String → SeedDomain → SeedDomain
changed_domain now why comment row =
    let promoted =
      if may_promote why row.source then record row { source = why; comment = comment } else row in
    if is_manual why then record promoted { next = some now } else promoted

abbrev pub changed_node : ℕ → Source → String → SeedNode → SeedNode
changed_node now why comment row =
    let promoted =
      if may_promote why row.source then record row { source = why; comment = comment } else row in
    if is_manual why then record promoted { next = some now } else promoted

module _ {Db : Type 0} (t : Tables Db) (rd : Reader) (now : ℕ) where
  unfoldable pub node_add_domain : String → Source → String → NodeList Db → Run Db
  node_add_domain text why comment p =
      let domain = rd.lower text in
      elim (t.seed_domain p.db domain) [
        | none ↦ set_seed_domains t now (new_domain now domain why comment) true p
        | some row ↦
            if may_promote why row.source || is_manual why
            then set_seed_domains t now (changed_domain now why comment row) true p
            else (p, [])
      ]

  unfoldable pub set_seed_nodes : SeedNode → NodeList Db → Run Db
  set_seed_nodes row p = fetch_dirty t now (record p { db = t.put_seed_node p.db row })

  unfoldable pub node_add_public : String → Source → String → NodeList Db → Run Db
  node_add_public key why comment p = elim (t.seed_node p.db key) [
    | none ↦ set_seed_nodes (new_seed_node now key why comment) p
    | some row ↦
        if may_promote why row.source || is_manual why
        then set_seed_nodes (changed_node now why comment row) p
        else (p, [])
  ]

  unfoldable pub node_remove_public : String → NodeList Db → Run Db
  node_remove_public key p = fetch_dirty t now (record p { db = t.delete_seed_node p.db key })

  unfoldable pub node_remove_domain : String → NodeList Db → Run Db
  node_remove_domain text p =
      fetch_dirty t now (record p { db = t.delete_seed_domain p.db (rd.lower text) })

  unfoldable pub node_reset : NodeList Db → Run Db
  node_reset p = fetch_dirty t now (record p { db = t.delete_seeds p.db })
