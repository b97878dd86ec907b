-- ===== src/Https/Ends.antt =====
-- Every run of shared/HttpsClient.cpp ends, and calls the completion once.
use Prim.Native.String.{String}
use bytev.Prelude.{
  ℕ, ◌+◌, ◌-◌, ◌*◌, ◌<◌, ◌≤◌, ◌≡◌, refl, sym, ap₂, ◌∙◌, subst, inl, inr, Option, none, some, List,
  [], ◌∷◌, ◌++◌, length, ◌==◌, arith, Bool-cases,
}
use bytev.Https.{
  Stage, resolving, connecting, shaking, writing, reading, Call, Client, Answers, https_get,
  handle_resolve, handle_connect, handle_request, handle_write, handle_data, handle_deadline,
}
use bytev.Https.Outcomes.{
  rank, budget, Sound, Outcome, weaker, https_next-Outcome, handle_resolve-Outcome,
  handle_connect-Outcome, handle_request-Outcome, handle_write-Outcome, handle_data-Outcome,
}
use bytev.Https.Steps.{pending, completions, World, perform, start, Step, Run}

completions-append : (xs ys : List Call) → completions (xs ++ ys) ≡ completions xs + completions ys
completions-append [] ys = omega arith
completions-append (Call.complete ec text ∷ xs) ys = omega (arith, completions-append xs ys)
completions-append (Call.wait ∷ xs) ys = completions-append xs ys
completions-append (Call.cancel_wait ∷ xs) ys = completions-append xs ys
completions-append (Call.cancel_resolver ∷ xs) ys = completions-append xs ys
completions-append (Call.shutdown_socket ∷ xs) ys = completions-append xs ys
completions-append (Call.abort ∷ xs) ys = completions-append xs ys
completions-append (Call.invalid ∷ xs) ys = completions-append xs ys
completions-append (Call.resolve_site site ∷ xs) ys = completions-append xs ys
completions-append (Call.connect ∷ xs) ys = completions-append xs ys
completions-append (Call.handshake ∷ xs) ys = completions-append xs ys
completions-append (Call.read ∷ xs) ys = completions-append xs ys
completions-append (Call.write text ∷ xs) ys = completions-append xs ys

-- The world is sound, with at most so many operations to come.
abbrev pub IsSound : ℕ → World → Type 0
IsSound n w = Sound w.op w.client.sites (completions w.log) × (budget w.op w.client.sites ≤ n)

pending_site :
    (s : Stage) (sites : List String) (n : ℕ)
    → Sound (some s) sites n
    → (site : String) × ((rest : List String) × ((sites ≡ site ∷ rest) × (n ≡ 0)))
pending_site s [] n h = elim h [ ]
pending_site s (site ∷ rest) n h = (site, (rest, (refl, h)))

perform-IsSound :
    (w : World) (n : ℕ) (r : Client × List Call)
    → completions w.log ≡ 0
    → Outcome n r
    → IsSound n (perform none w r)
perform-IsSound w n r z h = (
  subst (Sound (pending none r.1) r.0.sites) (omega (arith, completions-append w.log r.1)) h.0,
  h.1,
)

rank_pos : (s : Stage) → 0 < rank s
rank_pos Stage.resolving = omega arith
rank_pos Stage.connecting = omega arith
rank_pos Stage.shaking = omega arith
rank_pos Stage.writing = omega arith
rank_pos Stage.reading = omega arith

-- An operation that ends uses up one of those to come.
use_up :
    (w : World) (s : Stage) (r : Client × List Call)
    → w.op ≡ some s
    → Sound w.op w.client.sites (completions w.log)
    → ((site : String) (rest : List String)
        → w.client.sites ≡ site ∷ rest
        → Outcome (rank s - 1 + 5 * length rest) r)
    → IsSound (budget w.op w.client.sites - 1) (perform none w r)
use_up w s r p h k =
    let (site, (rest, (e, z))) =
      pending_site s w.client.sites (completions w.log)
        (subst (λ o. Sound o w.client.sites (completions w.log)) p h) in
    let total : budget w.op w.client.sites ≡ rank s + 5 * length rest =
      ap₂ budget p e ∙ omega arith in
    perform-IsSound w (budget w.op w.client.sites - 1) r z
      ((k site rest e).0, omega (arith, (k site rest e).1, total, rank_pos s))

module _ (answers : ℕ → Answers) (path : String) (match_status match_body : String → Option String)
    (aborted bad_address eof : ℕ) where
  -- The deadline changes mShutdown alone.
  timed-IsSound :
      (w : World) (ec n : ℕ)
      → IsSound n w
      → IsSound n (perform w.op w (handle_deadline answers aborted bad_address ec w.client))
  unfolding handle_deadline
  timed-IsSound w ec n h =
      let keep : (calls : List Call)
          → completions calls ≡ 0
          → completions (w.log ++ calls) ≡ completions w.log =
        λ calls z. omega (arith, completions-append w.log calls) in
      elim (Bool-cases (ec == aborted)) [
        | inl e ↦
            rw (handle_deadline, e)
              (subst (Sound w.op w.client.sites) (sym (keep [] refl)) h.0, h.1)
        | inr e ↦ elim (Bool-cases (ec == 0)) [
          | inl f ↦
              rw (handle_deadline, e, f)
                (
                  subst (Sound w.op w.client.sites)
                      (sym (keep (Call.cancel_resolver ∷ Call.shutdown_socket ∷ []) refl)) h.0,
                  h.1,
                )
          | inr f ↦
              rw (handle_deadline, e, f)
                (subst (Sound w.op w.client.sites) (sym (keep (Call.abort ∷ []) refl)) h.0, h.1)
        ]
      ]

  budget_pos :
      (op : Option Stage) (s : Stage) (sites : List String) → op ≡ some s → 0 < budget op sites
  budget_pos op s sites p = subst (λ o. 0 < budget o sites) (sym p) (omega (arith, rank_pos s))

  step-IsSound :
      {k : ℕ} {w v : World}
      → Step answers path match_status match_body aborted bad_address eof k w v
      → Sound w.op w.client.sites (completions w.log)
      → (k ≤ budget w.op w.client.sites) × IsSound (budget w.op w.client.sites - k) v
  step-IsSound (Step.resolved w ec p) h = (
    budget_pos w.op resolving w.client.sites p,
    use_up w resolving (handle_resolve answers ec w.client) p h
        (λ site rest e. handle_resolve-Outcome answers w.client site rest e ec),
  )
  step-IsSound (Step.joined w ec p) h = (
    budget_pos w.op connecting w.client.sites p,
    use_up w connecting (handle_connect answers ec w.client) p h
        (λ site rest e. handle_connect-Outcome answers w.client site rest e ec),
  )
  step-IsSound (Step.shaken w ec p) h = (
    budget_pos w.op shaking w.client.sites p,
    use_up w shaking (handle_request answers path ec w.client) p h
        (λ site rest e. handle_request-Outcome answers w.client site rest e ec path),
  )
  step-IsSound (Step.written w ec p) h = (
    budget_pos w.op writing w.client.sites p,
    use_up w writing (handle_write answers ec w.client) p h
        (λ site rest e. handle_write-Outcome answers w.client site rest e ec),
  )
  step-IsSound (Step.was_read w ec text p) h = (
    budget_pos w.op reading w.client.sites p,
    use_up w reading (handle_data answers match_status match_body bad_address eof ec text w.client)
        p h
        (λ site rest e.
          weaker (handle_data answers match_status match_body bad_address eof ec text w.client)
            (handle_data-Outcome answers w.client site rest e ec match_status match_body bad_address
              eof text)
            (omega arith)),
  )
  step-IsSound (Step.timed w ec) h =
      (omega arith, timed-IsSound w ec (budget w.op w.client.sites - 0) (h, omega arith))

  -- A run for some sites, at least one, ends at most five operations for each, whatever the codes and
  -- the deadlines. It leaves an operation pending for a site that is left, and the completion not
  -- called, or it leaves no operation and no site, and the completion was called once; and so many
  -- operations as the pending one still allows fit into what is left of the five for each site.
  pub run-IsSound :
      (sites : List String) (n : ℕ) (w : World)
      → 0 < length sites
      → Run answers path match_status match_body aborted bad_address eof (start answers sites) n w
      → (n ≤ 5 * length sites) × IsSound (5 * length sites - n) w
  unfolding start https_get
  run-IsSound sites n w h (Run.begin) =
      let (sound, left) = https_next-Outcome answers sites h in
      (omega arith, (sound, omega (arith, left)))
  run-IsSound sites n w h (Run.next {n = m} {k = k} {v = v} before step) =
      let (few, (sound, left)) = run-IsSound sites m v h before in
      let (enough, (sound', left')) = step-IsSound step sound in
      (omega (arith, few, left, enough), (sound', omega (arith, left, left')))
