-- ===== src/Unl/Runs.antt =====
-- The runs of src/UniqueNodeList/UniqueNodeList.cpp: the list and the requests that wait for a
-- response, and the handlers that run one at a time, in any order and at any time.
pub mod Jobs
use Prim.Native.String.{String}
use bytev.Prelude.{ℕ, ◌+◌, ◌≡◌, Bool, true, false, Option, some, List, [], ◌∷◌, ◌++◌}
use bytev.Unl.Compute.{ScoreTables}
use bytev.Unl.Sources.{Source}
use bytev.Unl.State.{
  Tables, Reader, Request, site_file, validators_file, ips_file, validators_site, Effect, https_get,
  fetch_timer, score_timer, scan_refresh, abort, aborts, NodeList, Run,
}
use bytev.Unl.Scoring.{score_next, score_timer_handler}
use bytev.Unl.Fetch.{fetch_timer_handler}
use bytev.Unl.Seeds.{
  node_add_domain, node_add_public, node_remove_public, node_remove_domain, node_reset,
}
use bytev.Unl.Startup.{Config, start, node_bootstrap}
use bytev.Unl.Sites.{response_fetch, response_validators, response_ips, validators_response}

pub record World (Db : Type 0) : Type 0 where
  pub list : NodeList Db
  pub waiting : List Request

abbrev pub requests : List Effect → List Request
requests [] = []
requests (https_get request ∷ es) = request ∷ requests es
requests (fetch_timer at ∷ es) = requests es
requests (score_timer at ∷ es) = requests es
requests (scan_refresh ∷ es) = requests es
requests (abort ∷ es) = requests es

-- What else starts a handler: the timer of the fetches, the commands, nodeScore, start and
-- nodeBootstrap.
pub data Event : Type 0 where
  fetch_timer_ends : Bool → Event
  adds_domain adds_public : String → Source → String → Event
  removes_domain removes_public : String → Event
  resets scores_now starts_up bootstraps : Event

module _ {Db : Type 0} (t : Tables Db) (rd : Reader) (config : Config) where
  -- The handler that httpsGet is given for the request.
  abbrev pub serve : ℕ → Request → Option String → NodeList Db → Run Db
  serve now (site_file domain) response = response_fetch t rd now domain response
  serve now (validators_file key source host path site) response =
      response_validators t rd now key source site response
  serve now (ips_file key host path) response = response_ips t rd now key response
  serve now validators_site response = validators_response t rd now config.validators_site response

  abbrev pub handle : ℕ → Event → NodeList Db → Run Db
  handle now (fetch_timer_ends error) = fetch_timer_handler t now error
  handle now (adds_domain domain why comment) = node_add_domain t rd now domain why comment
  handle now (adds_public key why comment) = node_add_public t rd now key why comment
  handle now (removes_domain domain) = node_remove_domain t rd now domain
  handle now (removes_public key) = node_remove_public t rd now key
  handle now resets = node_reset t rd now
  handle now scores_now = score_next now true
  handle now starts_up = start t now
  handle now bootstraps = node_bootstrap t rd now config

  -- The worlds that the handlers lead to, from a list without fetches. The runs that abort are not
  -- followed.
  pub data Reachable (scores : ScoreTables Db) (is_node_public : String → Bool) (moves : ℕ → Bool)
      : World Db → Type 0 where
    starts :
        (p : NodeList Db)
        → p.fetch_active ≡ 0
        → Reachable scores is_node_public moves (record { list = p; waiting = [] })
    responds :
        (p : NodeList Db) (now : ℕ) (before after : List Request) (request : Request)
        (response : Option String)
        → Reachable scores is_node_public moves
            (record { list = p; waiting = before ++ request ∷ after })
        → aborts (serve now request response p).1 ≡ false
        → Reachable scores is_node_public moves (record {
          list = (serve now request response p).0;
          waiting = (before ++ after) ++ requests (serve now request response p).1;
        })
    handles :
        (p : NodeList Db) (waiting : List Request) (now : ℕ) (event : Event)
        → Reachable scores is_node_public moves (record { list = p; waiting = waiting })
        → aborts (handle now event p).1 ≡ false
        → Reachable scores is_node_public moves (record {
          list = (handle now event p).0;
          waiting = waiting ++ requests (handle now event p).1;
        })
    scores_at :
        (p : NodeList Db) (waiting : List Request) (now n : ℕ) (error : Bool) (r : Run Db)
        → Reachable scores is_node_public moves (record { list = p; waiting = waiting })
        → score_timer_handler t now scores is_node_public moves n error p ≡ some r
        → Reachable scores is_node_public moves
            (record { list = r.0; waiting = waiting ++ requests r.1 })
