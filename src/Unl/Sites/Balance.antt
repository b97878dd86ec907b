-- ===== src/Unl/Sites/Balance.antt =====
-- The handlers of the responses in src/UniqueNodeList/UniqueNodeList.cpp keep the count of the
-- fetches: each ends one job, or passes it on to the next request of the same site.
use Prim.Native.String.{String}
use bytev.Prelude.{
  ℕ, suc, ◌≤◌, refl, inl, inr, Bool, true, false, Option, none, some, List, [], ◌∷◌, ◌==◌, ◌||◌,
  arith, Bool-cases, Option-cases,
}
use bytev.Sections.{Sections, section_entries}
use bytev.Unl.Sources.{Source, validator, referral}
use bytev.Unl.State.{Tables, Reader, node_key, is_seed, NodeList, ◌>>>◌}
use bytev.Unl.Scoring.{score_next, misc_save, fetch_dirty}
use bytev.Unl.Fetch.{node_fetch_jobs, fetch_finish, set_seed_domains}
use bytev.Unl.Fetch.Balance.{
  IsBalanced, then-IsBalanced, fetch_finish-IsBalanced, set_seed_domains-IsBalanced,
}
use bytev.Unl.Seeds.{node_add_domain, node_add_public, set_seed_nodes, is_manual, may_promote}
use bytev.Unl.Sites.{
  process_ips, add_referred, add_validators, process_validators, get_ips_url, response_ips,
  get_validators_url, response_validators, process_file, site_key, response_fetch, node_process,
  validators_response, referral_max, or_text, fetched, same_digest, process_changed, sections_of,
  store_referrals, insert_referral_values,
}

module _ {Db : Type 0} (t : Tables Db) (now : ℕ) where
  pub fetch_dirty-IsBalanced :
      (p : NodeList Db) → p.fetch_active ≤ node_fetch_jobs → IsBalanced 0 p (fetch_dirty t now p)
  unfolding fetch_dirty score_next misc_save
  fetch_dirty-IsBalanced p h = inr (ground arith)

module _ {Db : Type 0} (t : Tables Db) (rd : Reader) (now : ℕ) where
  pub node_add_domain-IsBalanced :
      (text : String) (why : Source) (comment : String) (p : NodeList Db)
      → p.fetch_active ≤ node_fetch_jobs
      → IsBalanced 0 p (node_add_domain t rd now text why comment p)
  unfolding node_add_domain
  node_add_domain-IsBalanced text why comment p h =
      elim (Option-cases (t.seed_domain p.db (rd.lower text))) [
        | inl e ↦ rw (e, node_add_domain) (set_seed_domains-IsBalanced t now _ true p h)
        | inr (row, e) ↦ elim (Bool-cases (may_promote why row.source || is_manual why)) [
          | inl e' ↦ rw (e, node_add_domain, e') (set_seed_domains-IsBalanced t now _ true p h)
          | inr e' ↦ rw (e, node_add_domain, e') (inr (omega (arith, h)))
        ]
      ]

  pub node_add_public-IsBalanced :
      (key : String) (why : Source) (comment : String) (p : NodeList Db)
      → p.fetch_active ≤ node_fetch_jobs
      → IsBalanced 0 p (node_add_public t rd now key why comment p)
  unfolding node_add_public set_seed_nodes
  node_add_public-IsBalanced key why comment p h = elim (Option-cases (t.seed_node p.db key)) [
    | inl e ↦ rw (e, node_add_public) (fetch_dirty-IsBalanced t now _ h)
    | inr (row, e) ↦ elim (Bool-cases (may_promote why row.source || is_manual why)) [
      | inl e' ↦ rw (e, node_add_public, e') (fetch_dirty-IsBalanced t now _ h)
      | inr e' ↦ rw (e, node_add_public, e') (inr (omega (arith, h)))
    ]
  ]

  pub process_ips-IsBalanced :
      (key : String) (entries : Option (List String)) (p : NodeList Db)
      → p.fetch_active ≤ node_fetch_jobs
      → IsBalanced 0 p (process_ips t rd now key entries p)
  unfolding process_ips
  process_ips-IsBalanced key none p h = fetch_dirty-IsBalanced t now _ h
  process_ips-IsBalanced key (some texts) p h = fetch_dirty-IsBalanced t now _ h

  add_referred-IsBalanced :
      (why : Source) (refered comment : String) (p : NodeList Db)
      → p.fetch_active ≤ node_fetch_jobs
      → IsBalanced 0 p (add_referred t rd now why refered comment p).0
  unfolding add_referred
  add_referred-IsBalanced why refered comment p h = elim (Option-cases (node_key rd refered)) [
    | inl e ↦ rw (e, add_referred) (node_add_domain-IsBalanced refered why comment p h)
    | inr (key, e) ↦ rw (e, add_referred) (node_add_public-IsBalanced key why comment p h)
  ]

  add_validators-IsBalanced :
      (why : Source) (i : ℕ) (texts : List String) (p : NodeList Db)
      → p.fetch_active ≤ node_fetch_jobs
      → IsBalanced 0 p (add_validators t rd now why i texts p).0
  unfolding add_validators
  add_validators-IsBalanced why i [] p h = inr (omega arith)
  add_validators-IsBalanced why i (text ∷ texts) p h = elim (Bool-cases (i == referral_max)) [
    | inl e ↦ rw (e, add_validators) (inr (omega (arith, h)))
    | inr e ↦ elim (Option-cases (rd.referral text)) [
      | inl e' ↦ rw (e, add_validators, e') (add_validators-IsBalanced why i texts p h)
      | inr ((refered, comment), e') ↦ elim (Bool-cases (is_seed rd refered)) [
        | inl e'' ↦ rw (e, add_validators, e', e'') (add_validators-IsBalanced why i texts p h)
        | inr e'' ↦
            let r = (add_referred t rd now why refered comment p).0 in
            rw (e, add_validators, e', e'')
              (then-IsBalanced 0 p r (λ q. (add_validators t rd now why (suc i) texts r.0).0)
                (omega arith) (add_referred-IsBalanced why refered comment p h)
                (λ _ bound. add_validators-IsBalanced why (suc i) texts r.0 bound))
      ]
    ]
  ]

  pub process_validators-IsBalanced :
      (source : String) (key : Option String) (why : Source) (entries : Option (List String))
      (p : NodeList Db)
      → p.fetch_active ≤ node_fetch_jobs
      → IsBalanced 0 p (process_validators t rd now source key why entries p).0
  unfolding process_validators
  process_validators-IsBalanced source key why none p h = fetch_dirty-IsBalanced t now _ h
  process_validators-IsBalanced source key why (some texts) p h =
      let q = record p { db = t.delete_referrals p.db (or_text key source) } in
      let (r, values, n) = add_validators t rd now why 0 texts q in
      then-IsBalanced 0 p r (store_referrals t rd now key values) (omega arith)
        (add_validators-IsBalanced why 0 texts q h)
        (λ _ bound.
          fetch_dirty-IsBalanced t now
            (record r.0 { db = insert_referral_values t rd now key values r.0.db }) bound)

  get_ips_url-IsBalanced :
      (key : String) (site : Sections) (p : NodeList Db)
      → 1 ≤ p.fetch_active
      → p.fetch_active ≤ node_fetch_jobs
      → IsBalanced 1 p (get_ips_url t rd now key site p)
  unfolding get_ips_url
  get_ips_url-IsBalanced key site p h h' = ground (arith, fetch_finish-IsBalanced t now p h h')

  get_validators_url-IsBalanced :
      (key : String) (site : Sections) (p : NodeList Db)
      → 1 ≤ p.fetch_active
      → p.fetch_active ≤ node_fetch_jobs
      → IsBalanced 1 p (get_validators_url t rd now key site p)
  unfolding get_validators_url
  get_validators_url-IsBalanced key site p h h' =
      ground (arith, get_ips_url-IsBalanced key site p h h')

  pub response_ips-IsBalanced :
      (key : String) (response : Option String) (p : NodeList Db)
      → 1 ≤ p.fetch_active
      → p.fetch_active ≤ node_fetch_jobs
      → IsBalanced 1 p (response_ips t rd now key response p)
  unfolding response_ips
  response_ips-IsBalanced key none p h h' = fetch_finish-IsBalanced t now p h h'
  response_ips-IsBalanced key (some text) p h h' =
      let r = process_ips t rd now key (section_entries (sections_of t rd now text) "ips") p in
      then-IsBalanced 1 p r (fetch_finish t now) h
        (process_ips-IsBalanced key (section_entries (sections_of t rd now text) "ips") p h')
        (fetch_finish-IsBalanced t now r.0)

  pub response_validators-IsBalanced :
      (key source : String) (site : Sections) (response : Option String) (p : NodeList Db)
      → 1 ≤ p.fetch_active
      → p.fetch_active ≤ node_fetch_jobs
      → IsBalanced 1 p (response_validators t rd now key source site response p)
  unfolding response_validators
  response_validators-IsBalanced key source site none p h h' =
      get_ips_url-IsBalanced key site p h h'
  response_validators-IsBalanced key source site (some text) p h h' =
      let entries = section_entries (sections_of t rd now text) "validators" in
      let r = (process_validators t rd now source (some key) validator entries p).0 in
      then-IsBalanced 1 p r (get_ips_url t rd now key site) h
        (process_validators-IsBalanced source (some key) validator entries p h')
        (get_ips_url-IsBalanced key site r.0)

  process_file-IsBalanced :
      (key : String) (site : Sections) (p : NodeList Db)
      → 1 ≤ p.fetch_active
      → p.fetch_active ≤ node_fetch_jobs
      → IsBalanced 1 p (process_file t rd now key site p)
  unfolding process_file
  process_file-IsBalanced key site p h h' =
      let validators = section_entries site "validators" in
      let ips = section_entries site "ips" in
      let r = (process_validators t rd now "newcoin.txt" (some key) referral validators p).0 in
      let r' = r >>> process_ips t rd now key ips in
      then-IsBalanced 1 p r' (get_validators_url t rd now key site) h
        (then-IsBalanced 0 p r (process_ips t rd now key ips) (omega arith)
          (process_validators-IsBalanced "newcoin.txt" (some key) referral validators p h')
          (λ _ bound. process_ips-IsBalanced key ips r.0 bound))
        (get_validators_url-IsBalanced key site r'.0)

  process_changed-IsBalanced :
      (same : Bool) (key : String) (site : Sections) (p : NodeList Db)
      → 1 ≤ p.fetch_active
      → p.fetch_active ≤ node_fetch_jobs
      → IsBalanced 1 p (process_changed t rd now same key site p)
  process_changed-IsBalanced true key site p h h' = fetch_finish-IsBalanced t now p h h'
  process_changed-IsBalanced false key site p h h' = process_file-IsBalanced key site p h h'

  pub response_fetch-IsBalanced :
      (domain : String) (response : Option String) (p : NodeList Db)
      → 1 ≤ p.fetch_active
      → p.fetch_active ≤ node_fetch_jobs
      → IsBalanced 1 p (response_fetch t rd now domain response p)
  unfolding response_fetch
  response_fetch-IsBalanced domain none p h h' = fetch_finish-IsBalanced t now p h h'
  response_fetch-IsBalanced domain (some text) p h h' =
      let site = sections_of t rd now text in
      elim (Option-cases (site_key t rd now domain site)) [
        | inl e ↦ rw (response_fetch, e) (fetch_finish-IsBalanced t now p h h')
        | inr (key, e) ↦ elim (Option-cases (t.seed_domain p.db domain)) [
          | inl e' ↦ rw (response_fetch, e, e') (inl refl)
          | inr (row, e') ↦
              rw (response_fetch, e, e')
                (then-IsBalanced 1 p
                  (set_seed_domains t now (fetched t rd now domain key text row) true p)
                  (process_changed t rd now (same_digest row.sha256 (rd.digest text)) key site) h
                  (set_seed_domains-IsBalanced t now (fetched t rd now domain key text row) true p
                    h')
                  (process_changed-IsBalanced (same_digest row.sha256 (rd.digest text)) key site
                    (set_seed_domains t now (fetched t rd now domain key text row) true p).0))
        ]
      ]

  pub node_process-IsBalanced :
      (text source : String) (p : NodeList Db)
      → p.fetch_active ≤ node_fetch_jobs
      → IsBalanced 0 p (node_process t rd now text source p)
  unfolding node_process
  node_process-IsBalanced text source p h =
      elim (Option-cases (section_entries (sections_of t rd now text) "validators")) [
        | inl e ↦ rw (node_process, e) (inr (omega arith))
        | inr (texts, e) ↦
            rw (node_process, e)
              (process_validators-IsBalanced source none validator (some texts) p h)
      ]

  pub validators_response-IsBalanced :
      (source : String) (response : Option String) (p : NodeList Db)
      → p.fetch_active ≤ node_fetch_jobs
      → IsBalanced 0 p (validators_response t rd now source response p)
  unfolding validators_response
  validators_response-IsBalanced source none p h = inr (omega arith)
  validators_response-IsBalanced source (some text) p h = node_process-IsBalanced text source p h
