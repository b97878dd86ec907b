-- ===== src/Unl/Sites.antt =====
-- What src/UniqueNodeList/UniqueNodeList.cpp does with the files of the sites: processIps,
-- processValidators, responseIps, getIpsUrl, responseValidators, getValidatorsUrl, processFile,
-- responseFetch, nodeProcess and validatorsResponse. A response is none when the request failed.
pub mod Balance
pub mod Refused
pub mod Values
use Prim.Native.String.{String}
use text.Mathlib.Text.{◌==◌ as str_eq}
use bytev.Prelude.{
  ℕ, suc, Bool, true, false, Option, none, some, List, [], ◌∷◌, ◌++◌, ◌==◌, ◌&&◌, if◌then◌else◌,
}
use bytev.Prelude.Int.{ℤ}
use bytev.Serializer.Buffer.{Bytes}
use bytev.Sections.{Sections, parse_section, section_entries, section_single}
use bytev.Unl.Sources.{Source, validator, referral}
use bytev.Unl.State.{
  SeedDomain, Tables, Reader, node_key, is_seed, Request, site_file, validators_file, ips_file,
  validators_site, Effect, https_get, abort, NodeList, Run, ◌>>>◌,
}
use bytev.Unl.Scoring.{fetch_dirty}
use bytev.Unl.Fetch.{fetch_finish, set_seed_domains}
use bytev.Unl.Seeds.{node_add_domain, node_add_public}

-- REFERRAL_VALIDATORS_MAX, and REFERRAL_IPS_MAX
abbrev pub referral_max : ℕ
referral_max = 50

-- `==` of two digests
abbrev pub same_digest : Bytes → Bytes → Bool
same_digest [] [] = true
same_digest (x ∷ xs) (y ∷ ys) = (x == y) && same_digest xs ys
same_digest xs ys = false

abbrev pub or_text : Option String → String → String
or_text none source = source
or_text (some key) source = key

module _ {Db : Type 0} (t : Tables Db) (rd : Reader) (now : ℕ) where
  -- The rows of the addresses that can be read, from the entry `i` on.
  unfoldable pub ip_values : ℕ → List String → List (ℕ × String × ℤ)
  ip_values i [] = []
  ip_values i (text ∷ texts) = elim (i == referral_max) [
    | true ↦ []
    | false ↦ elim (rd.ip_port text) [
      | none ↦ ip_values i texts
      | some address ↦ (i, address.0, address.1) ∷ ip_values (suc i) texts
    ]
  ]

  abbrev pub insert_ip_values : String → List (ℕ × String × ℤ) → Db → Db
  insert_ip_values key [] db = db
  insert_ip_values key (row ∷ rows) db = t.insert_ips db key (row ∷ rows)

  unfoldable pub process_ips : String → Option (List String) → NodeList Db → Run Db
  process_ips key none p = fetch_dirty t now (record p { db = t.delete_ips p.db key })
  process_ips key (some texts) p =
      fetch_dirty t now
        (record p { db = insert_ip_values key (ip_values 0 texts) (t.delete_ips p.db key) })

  -- One entry of the validators, and how it is named in ValidatorReferrals.
  unfoldable pub add_referred : Source → String → String → NodeList Db → Run Db × String
  add_referred why refered comment p = elim (node_key rd refered) [
    | some key ↦ (node_add_public t rd now key why comment p, key)
    | none ↦ (node_add_domain t rd now refered why comment p, refered)
  ]

  -- The loop of processValidators: the rows to insert, and `iValues` at its end.
  unfoldable pub add_validators :
      Source → ℕ → List String → NodeList Db → Run Db × List (ℕ × String) × ℕ
  add_validators why i [] p = ((p, []), [], i)
  add_validators why i (text ∷ texts) p = elim (i == referral_max) [
    | true ↦ ((p, []), [], i)
    | false ↦ elim (rd.referral text) [
      | none ↦ add_validators why i texts p
      | some (refered, comment) ↦ elim (is_seed rd refered) [
        | true ↦ add_validators why i texts p
        | false ↦
            let (r, name) = add_referred why refered comment p in
            let (r', values, n) = add_validators why (suc i) texts r.0 in
            (r >>> (λ q. r'), (i, name) ∷ values, n)
      ]
    ]
  ]

  -- An invalid key, that is none, inserts no rows.
  abbrev pub insert_referral_values : Option String → List (ℕ × String) → Db → Db
  insert_referral_values none rows db = db
  insert_referral_values (some key) [] db = db
  insert_referral_values (some key) (row ∷ rows) db = t.insert_referrals db key (row ∷ rows)

  -- The end of processValidators.
  abbrev pub store_referrals : Option String → List (ℕ × String) → NodeList Db → Run Db
  store_referrals key rows p =
      fetch_dirty t now (record p { db = insert_referral_values key rows p.db })

  unfoldable pub process_validators :
      String → Option String → Source → Option (List String) → NodeList Db → Run Db × ℕ
  process_validators source key why none p =
      (fetch_dirty t now (record p { db = t.delete_referrals p.db (or_text key source) }), 0)
  process_validators source key why (some texts) p =
      let (r, values, n) =
        add_validators why 0 texts
          (record p { db = t.delete_referrals p.db (or_text key source) }) in
      (r >>> store_referrals key values, n)

  -- ParseSection, with trimming.
  abbrev pub sections_of : String → Sections
  sections_of text = parse_section rd.trim rd.lines text true

  -- The job goes on with the addresses, at another site or not at all.
  unfoldable pub get_ips_url : String → Sections → NodeList Db → Run Db
  get_ips_url key site p = elim (section_single site "ips_url") [
    | none ↦ fetch_finish t now p
    | some text ↦ if str_eq text "" then fetch_finish t now p else elim (rd.url text) [
      | none ↦ fetch_finish t now p
      | some (host, path) ↦ (p, https_get (ips_file key host path) ∷ [])
    ]
  ]

  unfoldable pub response_ips : String → Option String → NodeList Db → Run Db
  response_ips key none p = fetch_finish t now p
  response_ips key (some text) p =
      process_ips key (section_entries (sections_of text) "ips") p >>> fetch_finish t now

  unfoldable pub get_validators_url : String → Sections → NodeList Db → Run Db
  get_validators_url key site p = elim (section_single site "validators_url") [
    | none ↦ get_ips_url key site p
    | some text ↦ if str_eq text "" then get_ips_url key site p else elim (rd.url text) [
      | none ↦ get_ips_url key site p
      | some (host, path) ↦ (p, https_get (validators_file key text host path site) ∷ [])
    ]
  ]

  -- `source` is the url, that the key makes superfluous.
  unfoldable pub response_validators :
      String → String → Sections → Option String → NodeList Db → Run Db
  response_validators key source site none p = get_ips_url key site p
  response_validators key source site (some text) p =
      (process_validators source (some key) validator
        (section_entries (sections_of text) "validators") p).0
      >>> get_ips_url key site

  -- Currencies are only logged.
  unfoldable pub process_file : String → Sections → NodeList Db → Run Db
  process_file key site p =
      (process_validators "newcoin.txt" (some key) referral (section_entries site "validators") p).0
      >>> process_ips key (section_entries site "ips")
      >>> get_validators_url key site

  -- A file that is the same as before is not processed again.
  abbrev pub process_changed : Bool → String → Sections → NodeList Db → Run Db
  process_changed same key site p = if same then fetch_finish t now p else process_file key site p

  -- The key that the file of the domain gives, when the file is good.
  unfoldable pub site_key : String → Sections → Option String
  site_key domain site = elim (section_single site "domain") [
    | none ↦ none
    | some name ↦
        if str_eq name domain
        then elim (section_single site "validation_public_key") [
          | none ↦ none
          | some text ↦ node_key rd text
        ]
        else none
  ]

  -- The row as the file changes it.
  abbrev pub fetched : String → String → String → SeedDomain → SeedDomain
  fetched domain key text row = record row {
    domain = domain;
    public_key = some key;
    fetch = some now;
    sha256 = rd.digest text;
  }

  unfoldable pub response_fetch : String → Option String → NodeList Db → Run Db
  response_fetch domain none p = fetch_finish t now p
  response_fetch domain (some text) p = elim (site_key domain (sections_of text)) [
    | none ↦ fetch_finish t now p
    | some key ↦ elim (t.seed_domain p.db domain) [
      | none ↦ (p, abort ∷ [])
      | some row ↦
          set_seed_domains t now (fetched domain key text row) true p
          >>> process_changed (same_digest row.sha256 (rd.digest text)) key (sections_of text)
    ]
  ]

  unfoldable pub node_process : String → String → NodeList Db → Run Db
  node_process text source p = elim (section_entries (sections_of text) "validators") [
    | none ↦ (p, [])
    | some texts ↦ (process_validators source none validator (some texts) p).0
  ]

  unfoldable pub validators_response : String → Option String → NodeList Db → Run Db
  validators_response source none p = (p, [])
  validators_response source (some text) p = node_process text source p
