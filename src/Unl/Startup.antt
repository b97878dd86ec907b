-- ===== src/Unl/Startup.antt =====
-- The start of src/UniqueNodeList/UniqueNodeList.cpp: start, miscLoad, trustedLoad, nodeLoad,
-- nodeNetwork and nodeBootstrap; and nodeInUNL.
pub mod Balance
use Prim.Native.String.{String}
use text.Mathlib.Text.{◌==◌ as str_eq}
use bytev.Prelude.{
  ℕ, Bool, true, false, Option, none, some, List, [], ◌∷◌, ◌==◌, not, ◌&&◌, ◌||◌, if◌then◌else◌,
}
use bytev.Prelude.Int.{ℤ}
use bytev.Unl.Sources as Kinds
use bytev.Unl.State.{Tables, Reader, https_get, validators_site, NodeList, Run, ◌>>>◌}
use bytev.Unl.Scoring.{score_next, fetch_dirty}
use bytev.Unl.Fetch.{fetch_next}
use bytev.Unl.Sites.{process_validators, node_process}

-- What nodeBootstrap reads of theConfig: UNL_DEFAULT, VALIDATORS, VALIDATORS_SITE and IPS.
-- `read_file` is none for a file on which nodeLoad gives up.
pub record Config : Type 0 where
  pub unl_default : String
  pub validators : List String
  pub validators_site : String
  pub ips : List String
  pub read_file : String → Option String

abbrev pub contains : String → List String → Bool
contains key [] = false
contains key (name ∷ names) = str_eq name key || contains key names

-- The key is the text that humanNodePublic gives.
unfoldable pub node_in_unl : {Db : Type 0} → String → NodeList Db → Bool
node_in_unl key p = contains key p.unl

module _ {Db : Type 0} (t : Tables Db) where
  unfoldable pub trusted_load : NodeList Db → NodeList Db
  trusted_load p = record p { unl = t.trusted_keys p.db }

  -- A failing statement changes nothing.
  unfoldable pub misc_load : NodeList Db → NodeList Db
  misc_load p = elim (t.misc p.db) [
    | none ↦ p
    | some (fetched, scored) ↦
        trusted_load (record p { fetch_updated = fetched; score_updated = scored })
  ]

  unfoldable pub start : ℕ → NodeList Db → Run Db
  start now p = fetch_next t now (misc_load p) >>> score_next now false

-- A step of nodeBootstrap after another, with its `bLoaded`.
infixl 5 ◌>=>◌
abbrev pub ◌>=>◌ :
    {Db : Type 0} → Run Db × Bool → (Bool → NodeList Db → Run Db × Bool) → Run Db × Bool
x >=> f = let (r, loaded) = f x.1 x.0.0 in (x.0 >>> (λ p. r), loaded)

module _ {Db : Type 0} (t : Tables Db) (rd : Reader) (now : ℕ) (c : Config) where
  unfoldable pub node_load : String → NodeList Db → Run Db × Bool
  node_load path p = if str_eq path "" then ((p, []), false) else elim (c.read_file path) [
    | none ↦ ((p, []), false)
    | some text ↦ (node_process t rd now text path p, true)
  ]

  unfoldable pub node_network : NodeList Db → Run Db
  node_network p = (p, https_get validators_site ∷ [])

  abbrev pub was_loaded : Db → Bool
  was_loaded db = not (t.seeded_domains db == 0) || not (t.seeded_nodes db == 0)

  abbrev pub load_default : Bool → NodeList Db → Run Db × Bool
  load_default loaded p =
      if str_eq c.unl_default "" then ((p, []), loaded) else node_load c.unl_default p

  abbrev pub load_current : Bool → NodeList Db → Run Db × Bool
  load_current loaded p =
      if not loaded && str_eq c.unl_default ""
      then node_load "validators.txt" p
      else ((p, []), loaded)

  abbrev pub load_configured : List String → Bool → NodeList Db → Run Db × Bool
  load_configured [] loaded p = ((p, []), loaded)
  load_configured (entry ∷ entries) loaded p =
      let (r, n) =
        process_validators t rd now "newcoind.cfg" none Kinds.config (some (entry ∷ entries)) p in
      (r, if n == 0 then loaded else true)

  abbrev pub load_network : Bool → NodeList Db → Run Db × Bool
  load_network loaded p = if loaded then ((p, []), loaded) else (node_network p, loaded)

  -- The addresses that can be read.
  abbrev pub peer_ips : List String → List (String × ℤ)
  peer_ips [] = []
  peer_ips (text ∷ texts) = elim (rd.ip_port text) [
    | none ↦ peer_ips texts
    | some address ↦ address ∷ peer_ips texts
  ]

  abbrev pub put_ips : List (String × ℤ) → Db → Db
  put_ips [] db = db
  put_ips (row ∷ rows) db = t.put_peer_ips db (row ∷ rows)

  abbrev pub load_ips : List String → Bool → NodeList Db → Run Db × Bool
  load_ips [] loaded p = ((p, []), loaded)
  load_ips (text ∷ texts) loaded p =
      (fetch_dirty t now (record p { db = put_ips (peer_ips (text ∷ texts)) p.db }), loaded)

  unfoldable pub node_bootstrap : NodeList Db → Run Db
  node_bootstrap p =
      (((p, []), was_loaded p.db)
        >=> load_default
        >=> load_current
        >=> load_configured c.validators
        >=> load_network
        >=> load_ips c.ips).0
