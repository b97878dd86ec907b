-- ===== src/Checks/Sites.antt =====
-- src/UniqueNodeList/UniqueNodeList.cpp on a table of at most one domain.
use Prim.Native.String.{String}
use text.Mathlib.Text.{◌==◌ as str_eq}
use bytev.Prelude.{
  ◌==◌, ◌%◌, ℕ, ◌≡◌, refl, true, false, Option, none, some, [], ◌∷◌, if◌then◌else◌, arith,
}
use bytev.Prelude.Int.{ℤ, pos}
use bytev.Serializer.Buffer.{Bytes}
use bytev.Address.{
  set_account_id, set_account_public, set_account_private, set_node_public, set_node_private,
  set_string,
}
use bytev.Unl.Sources.{validator}
use bytev.Unl.Compute.{ScoreTables}
use bytev.Unl.State.{SeedDomain, Tables, Reader, site_file, NodeList}
use bytev.Unl.Fetch.{fetch_next, fetch_loop, fetch_timer_handler, fetch_finish}
use bytev.Unl.Fetch.Settled.{IsSettled, fetch_next-IsSettled}
use bytev.Unl.Sites.{add_validators, response_fetch}
use bytev.Unl.Sites.Refused.{add_validators-refused}
use bytev.Unl.Startup.{Config}
use bytev.Unl.Runs.{fetch_timer_ends, serve, handle, requests, starts, responds, handles}
use bytev.Unl.Runs.Jobs.{IsCounted, Reachable-IsCounted}

abbrev Db : Type 0
Db = Option SeedDomain

abbrev first_domain : Db → Option (String × ℕ)
first_domain none = none
first_domain (some row) = elim row.next [ none ↦ none | some next ↦ some (row.domain, next) ]

abbrev domain_of : Db → String → Option SeedDomain
domain_of none name = none
domain_of (some row) name = if str_eq row.domain name then some row else none

abbrev tables : Tables Db
tables = record {
  next_domain = first_domain;
  seed_domain = domain_of;
  put_seed_domain = λ db row. some row;
  seed_node = λ db key. none;
  put_seed_node = λ db row. db;
  delete_seed_node = λ db key. db;
  delete_seed_domain = λ db name. none;
  delete_seeds = λ db. none;
  misc = λ db. none;
  save_misc = λ db fetched scored. db;
  delete_ips = λ db key. db;
  insert_ips = λ db key rows. db;
  delete_referrals = λ db key. db;
  insert_referrals = λ db key rows. db;
  trusted_keys = λ db. [];
  seeded_domains = λ db. 0;
  seeded_nodes = λ db. 0;
  put_peer_ips = λ db rows. db;
}

abbrev score_tables : ScoreTables Db
score_tables = record {
  seed_domains = λ db. [];
  seed_nodes = λ db. [];
  referrals_of = λ db key. [];
  begin = λ db. db;
  commit = λ db. db;
  clear_scores = λ db. db;
  seen_rows = λ db keys. [];
  put_scores = λ db rows. db;
  clear_ip_scores = λ db. db;
  ip_counts = λ db. [];
  ip_rows = λ db key. [];
  put_ip_scores = λ db rows. db;
}

-- Reads "bad" as no address and every other text as one.
abbrev address_of : String → Option (String × ℤ)
address_of text = if str_eq text "bad" then none else some (text, pos 51235)

-- Reads "key" as a node's public key and no other text as an address.
abbrev decode_of : String → Bytes
decode_of text = if str_eq text "key" then 28 ∷ 7 ∷ [] else []

abbrev reader : Reader
reader = record {
  decode = decode_of;
  encode = λ bytes. "";
  seed_of_words = λ text. none;
  seed_of_phrase = λ text. [];
  referral = λ text. some (text, "");
  ip_port = address_of;
  url = λ text. none;
  lines = λ text. [];
  trim = λ text. text;
  lower = λ text. text;
  digest = λ text. [];
}

abbrev config : Config
config = record {
  unl_default = "";
  validators = [];
  validators_site = "sites";
  ips = [];
  read_file = λ path. none;
}

-- The domain has been due since the time 5.
abbrev due : SeedDomain
due = record {
  domain = "a.org";
  public_key = none;
  source = validator;
  next = some 5;
  scan = none;
  fetch = none;
  sha256 = [];
  comment = "";
}

abbrev idle : NodeList Db
idle = record {
  fetch_active = 0;
  fetch_updated = none;
  score_updated = none;
  score_start = none;
  score_next_at = none;
  fetch_next_at = none;
  unl = [];
  db = some due;
}

-- One fetch is started, and the timer is set for the next week.
fetches_one : (fetch_next tables 10 idle).0.fetch_next_at ≡ some 604810
unfolding fetch_next fetch_loop
fetches_one = refl

fetch_next-IsSettled_example : IsSettled tables 10 (fetch_next tables 10 idle)
fetch_next-IsSettled_example = fetch_next-IsSettled tables 10 idle (omega arith)

-- The names of two domains, which processValidators is to look up.
add_validators-refused_example :
    add_validators tables reader 10 validator 0 ("a.org" ∷ "b.org" ∷ []) idle ≡ ((idle, []), [], 0)
unfolding set_account_id set_account_public set_account_private set_node_public set_node_private
    set_string
add_validators-refused_example =
    add_validators-refused tables reader 10 validator 0 ("a.org" ∷ "b.org" ∷ []) idle
      (refl, (refl, tt))

-- The list after the timer of the fetches has ended, at the time 10.
abbrev after_timer : NodeList Db
after_timer = (handle tables reader config 10 (fetch_timer_ends false) idle).0

-- The fetch that the timer started fails at the time 12.
Reachable-IsCounted_example : IsCounted (record {
  list = (serve tables reader config 12 (site_file "a.org") none after_timer).0;
  waiting = requests (serve tables reader config 12 (site_file "a.org") none after_timer).1;
})
unfolding fetch_timer_handler fetch_next fetch_loop response_fetch fetch_finish
Reachable-IsCounted_example =
    Reachable-IsCounted tables reader config score_tables (λ key. true) (λ n. n % 4 == 0) _
      (responds after_timer 12 [] [] (site_file "a.org") none
        (handles idle [] 10 (fetch_timer_ends false) (starts idle refl) refl) refl)
