-- ===== src/Unl/Fetch/Balance.antt =====
-- The count of the fetches under way, mFetchActive in src/UniqueNodeList/UniqueNodeList.cpp, and
-- the requests that are started.
use bytev.Prelude.{
  inl, inr, ◌-◌, ℕ, ◌+◌, ◌-◌, ◌≤◌, ◌≡◌, refl, Bool, true, false, List, [], ◌∷◌, ◌++◌, arith,
  Bool-cases, ◌&&◌, ◌⊎◌,
}
use bytev.Unl.State.{
  SeedDomain, Tables, NodeList, Effect, https_get, fetch_timer, score_timer, scan_refresh, abort,
  aborts as is_aborted, Request, site_file, validators_file, ips_file, validators_site, Run, ◌>>>◌,
}
use bytev.Unl.Fetch.Calls.{
  Fetches, full, no_row, no_name, waits, aborts, starts, fetch_next-Fetches,
}
use bytev.Unl.Fetch.{
  node_fetch_jobs, count_fetch, fetching, fetch_next, fetch_finish, fetch_timer_handler,
  set_seed_domains, none_or_later,
}

-- A file of a site is fetched by one of the jobs, and the list of validators of the bootstrap is
-- not.
abbrev pub job : Request → ℕ
job (site_file domain) = 1
job (validators_file domain key host path site) = 1
job (ips_file domain host path) = 1
job validators_site = 0

abbrev pub jobs_of : Effect → ℕ
jobs_of (https_get request) = job request
jobs_of (fetch_timer at) = 0
jobs_of (score_timer at) = 0
jobs_of scan_refresh = 0
jobs_of abort = 0

abbrev pub started : List Effect → ℕ
started [] = 0
started (e ∷ es) = jobs_of e + started es

pub started-append : (es es' : List Effect) → started (es ++ es') ≡ started es + started es'
started-append [] es' = omega arith
started-append (e ∷ es) es' = omega (arith, started-append es es')

aborts-append :
    (es es' : List Effect) → is_aborted es ≡ false → is_aborted (es ++ es') ≡ is_aborted es'
aborts-append [] es' h = refl
aborts-append (https_get request ∷ es) es' h = aborts-append es es' h
aborts-append (fetch_timer at ∷ es) es' h = aborts-append es es' h
aborts-append (score_timer at ∷ es) es' h = aborts-append es es' h
aborts-append (scan_refresh ∷ es) es' h = aborts-append es es' h
aborts-append (abort ∷ es) es' h = ground (arith, h)

not_aborted : {A : Type 0} {b : Bool} → b ≡ false → (b ≡ true) ⊎ A → A
not_aborted h (inl e) = ground (arith, h, e)
not_aborted h (inr a) = a

module _ {Db : Type 0} where
  -- A run in which `k` jobs end, unless it is the last of the program.
  abbrev pub IsBalanced : ℕ → NodeList Db → Run Db → Type 0
  IsBalanced k p r =
      (is_aborted r.1 ≡ true)
      ⊎ ((r.0.fetch_active + k ≡ p.fetch_active + started r.1)
          × (r.0.fetch_active ≤ node_fetch_jobs))

  -- What comes before keeps the jobs, so that `k` of them can end in what follows.
  pub then-IsBalanced :
      (k : ℕ) (p : NodeList Db) (r : Run Db) (f : NodeList Db → Run Db)
      → k ≤ p.fetch_active
      → IsBalanced 0 p r
      → (k ≤ r.0.fetch_active → r.0.fetch_active ≤ node_fetch_jobs → IsBalanced k r.0 (f r.0))
      → IsBalanced k p (r >>> f)
  then-IsBalanced k p r f h balanced after = elim (Bool-cases (is_aborted r.1)) [
    | inl e ↦ rw e (inl e)
    | inr e ↦
        let (kept, bound) = not_aborted e balanced in
        elim (after (omega arith) bound) [
          | inl e' ↦ rw e (inl (rw (aborts-append r.1 (f r.0).1 e) e'))
          | inr h' ↦ rw e (inr (omega (arith, h', kept, started-append r.1 (f r.0).1)))
        ]
  ]

module _ {Db : Type 0} (t : Tables Db) (now : ℕ) where
  Fetches-IsBalanced : (p : NodeList Db) (r : Run Db) → Fetches t now p r → IsBalanced 0 p r
  Fetches-IsBalanced _ _ (full p h) = inr (omega (arith, h))
  Fetches-IsBalanced _ _ (no_row p h h') = inr (omega (arith, h))
  Fetches-IsBalanced _ _ (no_name p domain next h h' h'') = inr (omega (arith, h))
  Fetches-IsBalanced _ _ (waits p domain next h h' h'' h3) = inr (omega (arith, h))
  Fetches-IsBalanced _ _ (aborts p domain next h h' h'' h3) = inl refl
  Fetches-IsBalanced _ _ (starts p domain next row r' h h' h'' h3 h4 f) =
      let q = record (count_fetch p) { db = t.put_seed_domain p.db (fetching now row) } in
      elim (Fetches-IsBalanced q r' f) [
        | inl e ↦ inl e
        | inr balanced ↦ inr (omega (arith, h, balanced))
      ]

  pub fetch_next-IsBalanced :
      (p : NodeList Db) → p.fetch_active ≤ node_fetch_jobs → IsBalanced 0 p (fetch_next t now p)
  fetch_next-IsBalanced p h =
      Fetches-IsBalanced p (fetch_next t now p) (fetch_next-Fetches t now p h)

  pub fetch_finish-IsBalanced :
      (p : NodeList Db)
      → 1 ≤ p.fetch_active
      → p.fetch_active ≤ node_fetch_jobs
      → IsBalanced 1 p (fetch_finish t now p)
  unfolding fetch_finish
  fetch_finish-IsBalanced p h h' =
      elim (fetch_next-IsBalanced (record p { fetch_active = p.fetch_active - 1 }) (omega arith)) [
        | inl e ↦ inl e
        | inr balanced ↦ inr (omega (arith, h, balanced))
      ]

  pub fetch_timer_handler-IsBalanced :
      (error : Bool) (p : NodeList Db)
      → p.fetch_active ≤ node_fetch_jobs
      → IsBalanced 0 p (fetch_timer_handler t now error p)
  unfolding fetch_timer_handler
  fetch_timer_handler-IsBalanced true p h = inr (omega arith)
  fetch_timer_handler-IsBalanced false p h = fetch_next-IsBalanced p h

  pub set_seed_domains-IsBalanced :
      (row : SeedDomain) (look_for_next : Bool) (p : NodeList Db)
      → p.fetch_active ≤ node_fetch_jobs
      → IsBalanced 0 p (set_seed_domains t now row look_for_next p)
  unfolding set_seed_domains
  set_seed_domains-IsBalanced row look_for_next p h =
      elim (Bool-cases (look_for_next && none_or_later p.fetch_next_at row.next)) [
        | inl e ↦
            rw (e, set_seed_domains)
              (fetch_next-IsBalanced (record p { db = t.put_seed_domain p.db row }) h)
        | inr e ↦ rw (e, set_seed_domains) (inr (omega arith))
      ]
