-- ===== src/Unl/Fetch/Settled.antt =====
-- What fetchNext in src/UniqueNodeList/UniqueNodeList.cpp leaves to wait for.
use Prim.Native.String.{String}
use text.Mathlib.Text.{◌==◌ as str_eq}
use bytev.Prelude.{
  ℕ, ◌<◌, ◌≤◌, ◌≡◌, ◌⊎◌, inl, inr, refl, sym, subst, true, Option, none, some, List, [], ◌∷◌,
}
use bytev.Unl.State.{Tables, NodeList, Effect, https_get, site_file, fetch_timer, abort, Run}
use bytev.Unl.Fetch.{node_fetch_jobs, count_fetch, fetching, fetch_next}
use bytev.Unl.Fetch.Calls.{
  Fetches, full, no_row, no_name, waits, aborts, starts, fetch_next-Fetches,
}

-- The effect is one of those of the run.
abbrev pub Does : Effect → List Effect → Type 0
Does e [] = ⊥
Does e (e' ∷ es) = (e' ≡ e) ⊎ Does e es

-- fetchNext finds no domain: the table has none, or the row that comes first has no name, whatever
-- rows come behind it.
abbrev pub IsDone : Option (String × ℕ) → Type 0
IsDone none = Unit
IsDone (some (domain, next)) = str_eq domain "" ≡ true

module _ {Db : Type 0} (t : Tables Db) (now : ℕ) where
  -- The timer is set for the first domain, whose time is later than now.
  abbrev pub IsWaiting : NodeList Db → List Effect → Option (String × ℕ) → Type 0
  IsWaiting p es none = ⊥
  IsWaiting p es (some (domain, next)) =
      (now < next) × (p.fetch_next_at ≡ some next) × Does (fetch_timer next) es

  -- What fetchNext leaves.
  abbrev pub IsSettled : Run Db → Type 0
  IsSettled (p, es) =
      (p.fetch_active ≡ node_fetch_jobs)
      ⊎ (IsDone (t.next_domain p.db) ⊎ (IsWaiting p es (t.next_domain p.db) ⊎ Does abort es))

  IsWaiting-cons :
      (e : Effect) (p : NodeList Db) (es : List Effect) (row : Option (String × ℕ))
      → IsWaiting p es row
      → IsWaiting p (e ∷ es) row
  IsWaiting-cons e p es none w = w
  IsWaiting-cons e p es (some (domain, next)) (due, at, does) = (due, at, inr does)

  IsSettled-cons : (e : Effect) (r : Run Db) → IsSettled r → IsSettled (r.0, e ∷ r.1)
  IsSettled-cons e r (inl h) = inl h
  IsSettled-cons e r (inr (inl h)) = inr (inl h)
  IsSettled-cons e r (inr (inr (inl h))) =
      inr (inr (inl (IsWaiting-cons e r.0 r.1 (t.next_domain r.0.db) h)))
  IsSettled-cons e r (inr (inr (inr h))) = inr (inr (inr (inr h)))

  Fetches-IsSettled : (p : NodeList Db) (r : Run Db) → Fetches t now p r → IsSettled r
  Fetches-IsSettled _ _ (full p h) = inl h
  Fetches-IsSettled _ _ (no_row p h e) = inr (inl (subst IsDone (sym e) tt))
  Fetches-IsSettled _ _ (no_name p domain next h e e') = inr (inl (subst IsDone (sym e) e'))
  Fetches-IsSettled _ _ (waits p domain next h e e' due) =
      let q = record p { fetch_next_at = some next } in
      inr (inr (inl (subst (IsWaiting q (fetch_timer next ∷ [])) (sym e) (due, refl, inl refl))))
  Fetches-IsSettled _ _ (aborts p domain next h e due e') = inr (inr (inr (inl refl)))
  Fetches-IsSettled _ _ (starts p domain next row r h e e' due e'' f) =
      IsSettled-cons (https_get (site_file domain)) r (
        Fetches-IsSettled
          (record (count_fetch p) { db = t.put_seed_domain p.db (fetching now row) }) r f)

  -- When fetchNext is done, ten fetches are active, or the table has no domain, or its first row has
  -- no name, or the timer is set for the time of the first domain, which is later than now, or the
  -- program is aborted.
  pub fetch_next-IsSettled :
      (p : NodeList Db) → p.fetch_active ≤ node_fetch_jobs → IsSettled (fetch_next t now p)
  fetch_next-IsSettled p h = Fetches-IsSettled p (fetch_next t now p) (fetch_next-Fetches t now p h)
