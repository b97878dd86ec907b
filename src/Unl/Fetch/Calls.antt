-- ===== src/Unl/Fetch/Calls.antt =====
-- fetchNext in src/UniqueNodeList/UniqueNodeList.cpp as a relation, of which each way to end is a
-- rule, and its call of itself a premise.
use Prim.Native.String.{String}
use text.Mathlib.Text.{◌==◌ as str_eq}
use bytev.Prelude.{
  ℕ, zero, suc, ◌-◌, ◌<◌, ◌≤◌, ◌≡◌, inl, inr, true, false, none, some, [], ◌∷◌, arith, Bool-cases,
  Option-cases, ltb, ◌==◌,
}
use bytev.Unl.State.{SeedDomain, Tables, NodeList, https_get, fetch_timer, abort, site_file, Run}
use bytev.Unl.Fetch.{node_fetch_jobs, count_fetch, fetching, fetch_loop, fetch_next}

module _ {Db : Type 0} (t : Tables Db) (now : ℕ) where
  pub data Fetches : NodeList Db → Run Db → Type 0 where
    full : (p : NodeList Db) → p.fetch_active ≡ node_fetch_jobs → Fetches p (p, [])
    no_row :
        (p : NodeList Db)
        → p.fetch_active < node_fetch_jobs
        → t.next_domain p.db ≡ none
        → Fetches p (p, [])
    no_name :
        (p : NodeList Db) (domain : String) (next : ℕ)
        → p.fetch_active < node_fetch_jobs
        → t.next_domain p.db ≡ some (domain, next)
        → str_eq domain "" ≡ true
        → Fetches p (p, [])
    waits :
        (p : NodeList Db) (domain : String) (next : ℕ)
        → p.fetch_active < node_fetch_jobs
        → t.next_domain p.db ≡ some (domain, next)
        → str_eq domain "" ≡ false
        → now < next
        → Fetches p (record p { fetch_next_at = some next }, fetch_timer next ∷ [])
    aborts :
        (p : NodeList Db) (domain : String) (next : ℕ)
        → p.fetch_active < node_fetch_jobs
        → t.next_domain p.db ≡ some (domain, next)
        → next ≤ now
        → t.seed_domain p.db domain ≡ none
        → Fetches p (count_fetch p, abort ∷ [])
    starts :
        (p : NodeList Db) (domain : String) (next : ℕ) (row : SeedDomain) (r : Run Db)
        → p.fetch_active < node_fetch_jobs
        → t.next_domain p.db ≡ some (domain, next)
        → str_eq domain "" ≡ false
        → next ≤ now
        → t.seed_domain p.db domain ≡ some row
        → Fetches (record (count_fetch p) { db = t.put_seed_domain p.db (fetching now row) }) r
        → Fetches p (r.0, https_get (site_file domain) ∷ r.1)

not_full : (n : ℕ) → n ≤ node_fetch_jobs → (n == node_fetch_jobs) ≡ false → n < node_fetch_jobs
not_full n h e = ground arith

module _ {Db : Type 0} (t : Tables Db) (now : ℕ) where
  fetch_loop-Fetches :
      (n : ℕ) (p : NodeList Db)
      → p.fetch_active ≤ node_fetch_jobs
      → node_fetch_jobs - p.fetch_active < n
      → Fetches t now p (fetch_loop t now n p)
  unfolding fetch_loop
  fetch_loop-Fetches zero p h fuel = absurd (omega arith)
  fetch_loop-Fetches (suc n) p h fuel = elim (Bool-cases (p.fetch_active == node_fetch_jobs)) [
    | inl e ↦ rw (e, fetch_loop) (full p (ground arith))
    | inr e ↦
        let room = not_full p.fetch_active h e in
        elim (Option-cases (t.next_domain p.db)) [
          | inl row ↦ rw (e, fetch_loop, row) (no_row p room row)
          | inr ((domain, next), row) ↦ elim (Bool-cases (str_eq domain "")) [
            | inl name ↦ rw (e, fetch_loop, row, name) (no_name p domain next room row name)
            | inr name ↦ elim (Bool-cases (ltb now next)) [
              | inl due ↦
                  rw (e, fetch_loop, row, name, due)
                    (waits p domain next room row name (ground arith))
              | inr due ↦ elim (Option-cases (t.seed_domain p.db domain)) [
                | inl found ↦
                    rw (e, fetch_loop, row, name, due, found)
                      (aborts p domain next room row (ground arith) found)
                | inr (seed, found) ↦
                    let q = record (count_fetch p) {
                      db = t.put_seed_domain p.db (fetching now seed);
                    } in
                    rw (e, fetch_loop, row, name, due, found)
                      (starts p domain next seed (fetch_loop t now n q) room row name (ground arith)
                        found (fetch_loop-Fetches n q (omega arith) (omega arith)))
              ]
            ]
          ]
        ]
  ]

  -- fetchNext, run on fuel for the jobs that are not active, behaves as the rules say while at most
  -- ten are: it ends, and its last call is full, finds no domain, waits for the next domain's time
  -- or is aborted.
  pub fetch_next-Fetches :
      (p : NodeList Db) → p.fetch_active ≤ node_fetch_jobs → Fetches t now p (fetch_next t now p)
  unfolding fetch_next
  fetch_next-Fetches p h =
      fetch_loop-Fetches (suc (node_fetch_jobs - p.fetch_active)) p h (omega arith)
