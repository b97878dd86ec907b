-- ===== src/Unl/Runs/Jobs.antt =====
-- The count of the fetches, mFetchActive, over the runs of
-- src/UniqueNodeList/UniqueNodeList.cpp.
use Prim.Native.String.{String}
use bytev.Prelude.{
  ℕ, ◌+◌, ◌≤◌, ◌≡◌, inl, inr, refl, subst, sym, Bool, true, false, Option, some, List, [], ◌∷◌,
  ◌++◌, arith, Option-cases,
}
use mathlib.Core.Option.{some-injective, some-ne-none}
use bytev.Unl.Compute.{ScoreTables, score_compute}
use bytev.Unl.State.{
  Tables, Reader, Request, site_file, validators_file, ips_file, validators_site, Effect, https_get,
  fetch_timer, score_timer, scan_refresh, abort, NodeList, Run,
}
use bytev.Unl.State.{aborts as is_aborted}
use bytev.Unl.Scoring.{score_next, misc_save, score_finish, score_timer_handler}
use bytev.Unl.Fetch.{node_fetch_jobs}
use bytev.Unl.Fetch.Balance.{job, started, IsBalanced, fetch_timer_handler-IsBalanced}
use bytev.Unl.Seeds.{node_remove_public, node_remove_domain, node_reset}
use bytev.Unl.Sites.Balance.{
  fetch_dirty-IsBalanced, node_add_domain-IsBalanced, node_add_public-IsBalanced,
  response_fetch-IsBalanced, response_validators-IsBalanced, response_ips-IsBalanced,
  validators_response-IsBalanced,
}
use bytev.Unl.Startup.{Config}
use bytev.Unl.Startup.Balance.{start-IsBalanced, node_bootstrap-IsBalanced}
use bytev.Unl.Runs.{
  World, requests, Event, fetch_timer_ends, adds_domain, adds_public, removes_domain,
  removes_public, resets, scores_now, starts_up, bootstraps, serve, handle, Reachable, starts,
  responds, handles, scores_at,
}

-- How many of the requests are made by a job.
abbrev pub jobs : List Request → ℕ
jobs [] = 0
jobs (request ∷ waiting) = job request + jobs waiting

jobs-append : (waiting more : List Request) → jobs (waiting ++ more) ≡ jobs waiting + jobs more
jobs-append [] more = omega arith
jobs-append (request ∷ waiting) more = omega (arith, jobs-append waiting more)

jobs-requests : (es : List Effect) → jobs (requests es) ≡ started es
jobs-requests [] = refl
jobs-requests (https_get request ∷ es) = omega (arith, jobs-requests es)
jobs-requests (fetch_timer at ∷ es) = omega (arith, jobs-requests es)
jobs-requests (score_timer at ∷ es) = omega (arith, jobs-requests es)
jobs-requests (scan_refresh ∷ es) = omega (arith, jobs-requests es)
jobs-requests (abort ∷ es) = omega (arith, jobs-requests es)

-- The count is that of the jobs whose request waits, and at most ten jobs are active.
abbrev pub IsCounted : {Db : Type 0} → World Db → Type 0
IsCounted w = (w.list.fetch_active ≡ jobs w.waiting) × (w.list.fetch_active ≤ node_fetch_jobs)

module _ {Db : Type 0} (t : Tables Db) (rd : Reader) (config : Config) where
  serve-IsBalanced :
      (now : ℕ) (request : Request) (response : Option String) (p : NodeList Db)
      → job request ≤ p.fetch_active
      → p.fetch_active ≤ node_fetch_jobs
      → IsBalanced (job request) p (serve t rd config now request response p)
  serve-IsBalanced now (site_file domain) response p h h' =
      response_fetch-IsBalanced t rd now domain response p h h'
  serve-IsBalanced now (validators_file key source host path site) response p h h' =
      response_validators-IsBalanced t rd now key source site response p h h'
  serve-IsBalanced now (ips_file key host path) response p h h' =
      response_ips-IsBalanced t rd now key response p h h'
  serve-IsBalanced now validators_site response p h h' =
      validators_response-IsBalanced t rd now config.validators_site response p h'

  handle-IsBalanced :
      (now : ℕ) (event : Event) (p : NodeList Db)
      → p.fetch_active ≤ node_fetch_jobs
      → IsBalanced 0 p (handle t rd config now event p)
  unfolding node_remove_public node_remove_domain node_reset score_next
  handle-IsBalanced now (fetch_timer_ends error) p h =
      fetch_timer_handler-IsBalanced t now error p h
  handle-IsBalanced now (adds_domain domain why comment) p h =
      node_add_domain-IsBalanced t rd now domain why comment p h
  handle-IsBalanced now (adds_public key why comment) p h =
      node_add_public-IsBalanced t rd now key why comment p h
  handle-IsBalanced now (removes_domain domain) p h =
      fetch_dirty-IsBalanced t now (record p { db = t.delete_seed_domain p.db (rd.lower domain) }) h
  handle-IsBalanced now (removes_public key) p h =
      fetch_dirty-IsBalanced t now (record p { db = t.delete_seed_node p.db key }) h
  handle-IsBalanced now resets p h =
      fetch_dirty-IsBalanced t now (record p { db = t.delete_seeds p.db }) h
  handle-IsBalanced now scores_now p h = inr (ground arith)
  handle-IsBalanced now starts_up p h = start-IsBalanced t now p h
  handle-IsBalanced now bootstraps p h = node_bootstrap-IsBalanced t rd now config p h

  -- A run that has no part in the fetches.
  abbrev StartsNone : NodeList Db → Run Db → Type 0
  StartsNone p r = (r.0.fetch_active ≡ p.fetch_active) × (started r.1 ≡ 0)

  score_finish-StartsNone :
      (now : ℕ) (db : Db) (unl : List String) (p : NodeList Db)
      → StartsNone p (score_finish t now db unl p)
  unfolding score_finish score_next misc_save
  score_finish-StartsNone now db unl p = ground arith

  score_timer_handler-StartsNone :
      (scores : ScoreTables Db) (is_node_public : String → Bool) (moves : ℕ → Bool) (now n : ℕ)
      (error : Bool) (p : NodeList Db) (r : Run Db)
      → score_timer_handler t now scores is_node_public moves n error p ≡ some r
      → StartsNone p r
  unfolding score_timer_handler
  score_timer_handler-StartsNone scores is_node_public moves now n true p r e =
      subst (StartsNone p) (some-injective (p, []) r e) (refl, refl)
  score_timer_handler-StartsNone scores is_node_public moves now n false p r e =
      elim (Option-cases (score_compute scores is_node_public moves n p.db)) [
        | inl e' ↦ absurd (some-ne-none r (sym (rw e' at e)))
        | inr ((db, unl), e') ↦
            subst (StartsNone p) (some-injective (score_finish t now db unl p) r (rw e' at e))
              (score_finish-StartsNone now db unl p)
      ]

  run-IsCounted :
      (k : ℕ) (p : NodeList Db) (waiting : List Request) (r : Run Db)
      → p.fetch_active ≡ k + jobs waiting
      → IsBalanced k p r
      → is_aborted r.1 ≡ false
      → IsCounted (record { list = r.0; waiting = waiting ++ requests r.1 })
  run-IsCounted k p waiting r h (inl e) e' = absurd (ground (arith, e, e'))
  run-IsCounted k p waiting r h (inr balanced) e' =
      omega (arith, h, balanced, jobs-append waiting (requests r.1), jobs-requests r.1)

  -- In every world that the handlers lead to from a list without fetches, with the responses, the
  -- timers and the commands in any order, the count of the active fetches is that of the requests
  -- of a job that wait for a response, and it is at most ten: no handler forgets to end its job and
  -- none ends it twice. The runs that an abort ends are left out.
  pub Reachable-IsCounted :
      (scores : ScoreTables Db) (is_node_public : String → Bool) (moves : ℕ → Bool) (w : World Db)
      → Reachable t rd config scores is_node_public moves w
      → IsCounted w
  Reachable-IsCounted scores is_node_public moves _ (starts p e) = omega (arith, e)
  Reachable-IsCounted scores is_node_public moves _
        (responds p now before after request response h e) =
      let counted = Reachable-IsCounted scores is_node_public moves _ h in
      let all = jobs-append before (request ∷ after) in
      let others = jobs-append before after in
      run-IsCounted (job request) p (before ++ after) (serve t rd config now request response p)
        (omega (arith, counted, all, others))
        (serve-IsBalanced now request response p (omega (arith, counted, all)) counted.1) e
  Reachable-IsCounted scores is_node_public moves _ (handles p waiting now event h e) =
      let counted = Reachable-IsCounted scores is_node_public moves _ h in
      run-IsCounted 0 p waiting (handle t rd config now event p) (omega (arith, counted))
        (handle-IsBalanced now event p counted.1) e
  Reachable-IsCounted scores is_node_public moves _ (scores_at p waiting now n error r h e) =
      let counted = Reachable-IsCounted scores is_node_public moves _ h in
      let alone = score_timer_handler-StartsNone scores is_node_public moves now n error p r e in
      omega (arith, counted, alone, jobs-append waiting (requests r.1), jobs-requests r.1)
