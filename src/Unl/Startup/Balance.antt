-- ===== src/Unl/Startup/Balance.antt =====
-- The start of src/UniqueNodeList/UniqueNodeList.cpp keeps the count of the fetches.
use Prim.Native.String.{String}
use text.Mathlib.Text.{◌==◌ as str_eq}
use bytev.Prelude.{
  ℕ, ◌≤◌, ◌≡◌, inl, inr, subst, ◌+◌, ◌⊎◌, Bool, true, false, none, some, List, [], ◌∷◌, not, ◌&&◌,
  arith, Bool-cases, Option-cases,
}
use bytev.Unl.Sources as Kinds
use bytev.Unl.State.{Tables, Reader, aborts, NodeList, Run}
use bytev.Unl.Scoring.{score_next}
use bytev.Unl.Fetch.{node_fetch_jobs, fetch_next}
use bytev.Unl.Fetch.Balance.{IsBalanced, started, then-IsBalanced, fetch_next-IsBalanced}
use bytev.Unl.Sites.Balance.{
  fetch_dirty-IsBalanced, process_validators-IsBalanced, node_process-IsBalanced,
}
use bytev.Unl.Startup.{
  was_loaded, Config, trusted_load, misc_load, start, ◌>=>◌, node_load, node_network, load_default,
  load_current, load_configured, load_network, load_ips, peer_ips, put_ips, node_bootstrap,
}

module _ {Db : Type 0} (t : Tables Db) (now : ℕ) where
  fetch_active-misc_load : (p : NodeList Db) → (misc_load t p).fetch_active ≡ p.fetch_active
  unfolding misc_load trusted_load
  fetch_active-misc_load p = ground arith

  score_next-IsBalanced :
      (force : Bool) (p : NodeList Db)
      → p.fetch_active ≤ node_fetch_jobs
      → IsBalanced 0 p (score_next now force p)
  unfolding score_next
  score_next-IsBalanced force p h = inr (ground arith)

  pub start-IsBalanced :
      (p : NodeList Db) → p.fetch_active ≤ node_fetch_jobs → IsBalanced 0 p (start t now p)
  unfolding start
  start-IsBalanced p h =
      let r = fetch_next t now (misc_load t p) in
      then-IsBalanced 0 p r (score_next now false) (omega arith)
        (subst
          (λ k.
            (aborts r.1 ≡ true)
            ⊎ ((r.0.fetch_active + 0 ≡ k + started r.1) × (r.0.fetch_active ≤ node_fetch_jobs)))
          (fetch_active-misc_load p)
          (fetch_next-IsBalanced t now (misc_load t p) (omega (arith, fetch_active-misc_load p))))
        (λ _ bound. score_next-IsBalanced false r.0 bound)

idle-IsBalanced :
    {Db : Type 0} (p : NodeList Db) → p.fetch_active ≤ node_fetch_jobs → IsBalanced 0 p (p, [])
idle-IsBalanced p h = inr (omega (arith, h))

-- A step that keeps the jobs, whatever was loaded before.
abbrev Keeps : {Db : Type 0} → (Bool → NodeList Db → Run Db × Bool) → Type 0
Keeps {Db} f =
    (loaded : Bool) (p : NodeList Db)
    → p.fetch_active ≤ node_fetch_jobs
    → IsBalanced 0 p (f loaded p).0

step-IsBalanced :
    {Db : Type 0} (p : NodeList Db) (x : Run Db × Bool) (f : Bool → NodeList Db → Run Db × Bool)
    → IsBalanced 0 p x.0
    → Keeps f
    → IsBalanced 0 p (x >=> f).0
step-IsBalanced p x f h keeps =
    then-IsBalanced 0 p x.0 (λ q. (f x.1 x.0.0).0) (omega arith) h
      (λ _ bound. keeps x.1 x.0.0 bound)

module _ {Db : Type 0} (t : Tables Db) (rd : Reader) (now : ℕ) (c : Config) where
  node_load-IsBalanced :
      (path : String) (p : NodeList Db)
      → p.fetch_active ≤ node_fetch_jobs
      → IsBalanced 0 p (node_load t rd now c path p).0
  unfolding node_load
  node_load-IsBalanced path p h = elim (Bool-cases (str_eq path "")) [
    | inl e ↦ rw (e, node_load) (idle-IsBalanced p h)
    | inr e ↦ elim (Option-cases (c.read_file path)) [
      | inl e' ↦ rw (e, node_load, e') (idle-IsBalanced p h)
      | inr (text, e') ↦ rw (e, node_load, e') (node_process-IsBalanced t rd now text path p h)
    ]
  ]

  load_default-Keeps : Keeps (load_default t rd now c)
  load_default-Keeps loaded p h = elim (Bool-cases (str_eq c.unl_default "")) [
    | inl e ↦ rw e (idle-IsBalanced p h)
    | inr e ↦ rw e (node_load-IsBalanced c.unl_default p h)
  ]

  load_current-Keeps : Keeps (load_current t rd now c)
  load_current-Keeps loaded p h = elim (Bool-cases (not loaded && str_eq c.unl_default "")) [
    | inl e ↦ rw e (node_load-IsBalanced "validators.txt" p h)
    | inr e ↦ rw e (idle-IsBalanced p h)
  ]

  load_configured-Keeps : (texts : List String) → Keeps (load_configured t rd now c texts)
  load_configured-Keeps [] loaded p h = idle-IsBalanced p h
  load_configured-Keeps (text ∷ texts) loaded p h =
      process_validators-IsBalanced t rd now "newcoind.cfg" none Kinds.config (some (text ∷ texts))
        p h

  load_network-Keeps : Keeps (load_network t rd now c)
  unfolding node_network
  load_network-Keeps true p h = idle-IsBalanced p h
  load_network-Keeps false p h = idle-IsBalanced p h

  load_ips-Keeps : (texts : List String) → Keeps (load_ips t rd now c texts)
  load_ips-Keeps [] loaded p h = idle-IsBalanced p h
  load_ips-Keeps (text ∷ texts) loaded p h =
      fetch_dirty-IsBalanced t now
        (record p { db = put_ips t rd now c (peer_ips t rd now c (text ∷ texts)) p.db }) h

  pub node_bootstrap-IsBalanced :
      (p : NodeList Db)
      → p.fetch_active ≤ node_fetch_jobs
      → IsBalanced 0 p (node_bootstrap t rd now c p)
  unfolding node_bootstrap
  node_bootstrap-IsBalanced p h =
      let x : Run Db × Bool = ((p, []), was_loaded t rd now c p.db) in
      let x1 = x >=> load_default t rd now c in
      let x2 = x1 >=> load_current t rd now c in
      let x3 = x2 >=> load_configured t rd now c c.validators in
      let x4 = x3 >=> load_network t rd now c in
      step-IsBalanced p x4 (load_ips t rd now c c.ips)
        (step-IsBalanced p x3 (load_network t rd now c)
          (step-IsBalanced p x2 (load_configured t rd now c c.validators)
            (step-IsBalanced p x1 (load_current t rd now c)
              (step-IsBalanced p x (load_default t rd now c) (idle-IsBalanced p h)
                load_default-Keeps)
              load_current-Keeps)
            (load_configured-Keeps c.validators))
          load_network-Keeps)
        (load_ips-Keeps c.ips)
