-- ===== src/Unl/Fetch.antt =====
-- The fetches of site files in src/UniqueNodeList/UniqueNodeList.cpp: fetchNext, fetchProcess,
-- fetchFinish, fetchTimerHandler and setSeedDomains. fetchNext calls itself once for each fetch
-- that it starts, and there are at most as many as the jobs that are not active.
pub mod Balance
pub mod Calls
pub mod Settled
use Prim.Native.String.{String}
use text.Mathlib.Text.{◌==◌ as str_eq}
use bytev.Prelude.{
  ℕ, zero, suc, ◌+◌, ◌-◌, ◌*◌, Bool, true, false, Option, none, some, List, [], ◌∷◌, ◌==◌, ltb,
  ◌||◌, ◌&&◌, if◌then◌else◌,
}
use bytev.Unl.State.{
  SeedDomain, Tables, NodeList, Effect, https_get, fetch_timer, abort, site_file, Run, ◌>>>◌, later,
}

abbrev pub node_fetch_jobs : ℕ
node_fetch_jobs = 10

abbrev pub week_seconds : ℕ
week_seconds = 7 * 24 * 3600

-- mtpFetchNext.is_not_a_date_time() || mtpFetchNext > tpNext
abbrev pub none_or_later : Option ℕ → Option ℕ → Bool
none_or_later none next = true
none_or_later (some t) next = later (some t) next

-- `mFetchActive++` and mtpFetchNext reset.
abbrev pub count_fetch : {Db : Type 0} → NodeList Db → NodeList Db
count_fetch p = record p { fetch_active = suc p.fetch_active; fetch_next_at = none }

-- The row as it is stored when its file is asked for.
abbrev pub fetching : ℕ → SeedDomain → SeedDomain
fetching now row = record row { scan = some now; next = some (now + week_seconds) }

module _ {Db : Type 0} (t : Tables Db) (now : ℕ) where
  unfoldable pub fetch_loop : ℕ → NodeList Db → Run Db
  fetch_loop zero p = (p, [])
  fetch_loop (suc n) p =
      if p.fetch_active == node_fetch_jobs then (p, []) else elim (t.next_domain p.db) [
        | none ↦ (p, [])
        | some (domain, next) ↦
            if str_eq domain ""
            then (p, [])
            else if ltb now next
            then (record p { fetch_next_at = some next }, fetch_timer next ∷ [])
            else elim (t.seed_domain p.db domain) [
              | none ↦ (count_fetch p, abort ∷ [])
              | some row ↦
                  (
                    record (count_fetch p) { db = t.put_seed_domain p.db (fetching now row) },
                    https_get (site_file domain) ∷ [],
                  )
                  >>> fetch_loop n
            ]
      ]

  unfoldable pub fetch_next : NodeList Db → Run Db
  fetch_next p = fetch_loop (suc (node_fetch_jobs - p.fetch_active)) p

  -- `mFetchActive--`; no job ends while the count is 0, from which the source would go to -1.
  unfoldable pub fetch_finish : NodeList Db → Run Db
  fetch_finish p = fetch_next (record p { fetch_active = p.fetch_active - 1 })

  unfoldable pub fetch_timer_handler : Bool → NodeList Db → Run Db
  fetch_timer_handler error p = if error then (p, []) else fetch_next p

  unfoldable pub set_seed_domains : SeedDomain → Bool → NodeList Db → Run Db
  set_seed_domains row look_for_next p =
      let q = record p { db = t.put_seed_domain p.db row } in
      if look_for_next && none_or_later p.fetch_next_at row.next then fetch_next q else (q, [])
