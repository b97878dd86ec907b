-- ===== src/Unl/State.antt =====
-- src/UniqueNodeList/UniqueNodeList.cpp: the state of the list between two handlers, the tables
-- that it keeps, and the operations that it starts. A handler is taken to run within one second of
-- the clock, `now`. A time is a number of seconds, and not_a_date_time is none.
use Prim.Native.String.{String}
use bytev.Prelude.{
  ℕ, Bool, true, false, Option, none, some, List, [], ◌∷◌, ◌++◌, ltb, if◌then◌else◌,
}
use bytev.Prelude.Int.{ℤ}
use bytev.Serializer.Buffer.{Bytes}
use bytev.Sections.{Sections}
use bytev.Address.{cleared, set_node_public, to_string, set_seed_generic}
use bytev.Unl.Sources.{Source}

-- A valid public key is its text, as humanNodePublic gives it.
pub record SeedDomain : Type 0 where
  pub domain : String
  pub public_key : Option String
  pub source : Source
  pub next : Option ℕ
  pub scan : Option ℕ
  pub fetch : Option ℕ
  pub sha256 : Bytes
  pub comment : String

-- `seedNode`. The key is valid: setSeedNodes asserts it, and only nodeAddPublic calls it.
pub record SeedNode : Type 0 where
  pub public_key : String
  pub source : Source
  pub next : Option ℕ
  pub scan : Option ℕ
  pub fetch : Option ℕ
  pub sha256 : Bytes
  pub comment : String

-- The statements on the tables, by the texts that the source gives to SQLite. A `none` is a
-- statement that fails or has no row.
pub record Tables (Db : Type 0) : Type 0 where
  -- SELECT Domain,Next FROM SeedDomains ... ORDER BY Next LIMIT 1
  pub next_domain : Db → Option (String × ℕ)
  -- SELECT * FROM SeedDomains WHERE Domain=, and REPLACE INTO SeedDomains
  pub seed_domain : Db → String → Option SeedDomain
  pub put_seed_domain : Db → SeedDomain → Db
  -- SELECT * FROM SeedNodes WHERE PublicKey=, and REPLACE INTO SeedNodes
  pub seed_node : Db → String → Option SeedNode
  pub put_seed_node : Db → SeedNode → Db
  -- DELETE FROM SeedNodes WHERE PublicKey=, the key without quotes
  pub delete_seed_node : Db → String → Db
  -- DELETE FROM SeedDomains WHERE Domain=
  pub delete_seed_domain : Db → String → Db
  -- DELETE FROM SeedDomains, and DELETE FROM SeedNodes
  pub delete_seeds : Db → Db
  -- SELECT * FROM Misc WHERE Magic=1, both times none when there is no row
  pub misc : Db → Option (Option ℕ × Option ℕ)
  -- REPLACE INTO Misc (Magic,FetchUpdated,ScoreUpdated)
  pub save_misc : Db → Option ℕ → Option ℕ → Db
  -- DELETE FROM and INSERT INTO IpReferrals: the validator, and Entry, IP and Port
  pub delete_ips : Db → String → Db
  pub insert_ips : Db → String → List (ℕ × String × ℤ) → Db
  -- DELETE FROM and INSERT INTO ValidatorReferrals: the validator, and Entry and Referral
  pub delete_referrals : Db → String → Db
  pub insert_referrals : Db → String → List (ℕ × String) → Db
  -- SELECT PublicKey FROM TrustedNodes WHERE Score != 0
  pub trusted_keys : Db → List String
  -- SELECT COUNT(*) AS Count FROM SeedDomains, and FROM SeedNodes, of two kinds of source
  pub seeded_domains : Db → ℕ
  pub seeded_nodes : Db → ℕ
  -- REPLACE INTO PeerIps (IpPort,Source)
  pub put_peer_ips : Db → List (String × ℤ) → Db

-- What reads the texts: `decode` and `encode` are those of base 58, `referral` the regular
-- expression of processValidators, `ip_port` parseIpPort, `url` httpsParseUrl, `lines` and `trim`
-- boost's split and trim in ParseSection, `lower` its trim and to_lower, `digest` getSHA512Half.
pub record Reader : Type 0 where
  pub decode : String → Bytes
  pub encode : Bytes → String
  pub seed_of_words : String → Option Bytes
  pub seed_of_phrase : String → Bytes
  pub referral : String → Option (String × String)
  pub ip_port : String → Option (String × ℤ)
  pub url : String → Option (String × String)
  pub lines : String → List String
  pub trim : String → String
  pub lower : String → String
  pub digest : String → Bytes

-- setNodePublic, giving the key's text as humanNodePublic does.
abbrev pub node_key : Reader → String → Option String
node_key rd text =
    let (a, good) = set_node_public rd.decode rd.encode text in
    if good then some (to_string rd.decode rd.encode a) else none

-- setSeedGeneric on a new address.
abbrev pub is_seed : Reader → String → Bool
is_seed rd text =
    (set_seed_generic rd.decode rd.encode rd.seed_of_words rd.seed_of_phrase cleared text).1

-- A file that httpsGet is asked for, with what is bound to the handler of the response: of
-- responseFetch, responseValidators, responseIps and validatorsResponse.
pub data Request : Type 0 where
  site_file : String → Request
  validators_file : String → String → String → String → Sections → Request
  ips_file : String → String → String → Request
  validators_site : Request

pub data Effect : Type 0 where
  https_get : Request → Effect
  fetch_timer score_timer : ℕ → Effect
  scan_refresh : Effect
  abort : Effect

-- `fetch_next_at` is mtpFetchNext and `score_next_at` is mtpScoreNext.
pub record NodeList (Db : Type 0) : Type 0 where
  pub fetch_active : ℕ
  pub fetch_updated : Option ℕ
  pub score_updated : Option ℕ
  pub score_start : Option ℕ
  pub score_next_at : Option ℕ
  pub fetch_next_at : Option ℕ
  pub unl : List String
  pub db : Db

abbrev pub Run : Type 0 → Type 0
Run Db = NodeList Db × List Effect

abbrev pub aborts : List Effect → Bool
aborts [] = false
aborts (abort ∷ es) = true
aborts (e ∷ es) = aborts es

module _ {Db : Type 0} where
  -- One part of a method after another. Nothing comes after an abort, the end of the program.
  infixl 5 ◌>>>◌
  abbrev pub ◌>>>◌ : Run Db → (NodeList Db → Run Db) → Run Db
  r >>> f = let (p, es) = r in let (p', es') = f p in if aborts es then (p, es) else (p', es ++ es')

-- `a > b` of times; not_a_date_time compares with nothing.
abbrev pub later : Option ℕ → Option ℕ → Bool
later (some a) (some b) = ltb b a
later a b = false
