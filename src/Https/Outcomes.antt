-- ===== src/Https/Outcomes.antt =====
-- What each handler of shared/HttpsClient.cpp leaves: a pending operation, or one call of the completion.
use Prim.Native.String.{String}
use text.Mathlib.Text.{◌==◌ as str_eq}
use bytev.Prelude.{
  ℕ, suc, ◌+◌, ◌-◌, ◌*◌, ◌<◌, ◌≤◌, ◌≡◌, refl, ◌∙◌, ◌||◌, inl, inr, Option, none, some, List, [],
  ◌∷◌, length, ◌==◌, arith, Bool-cases, Option-cases, if◌then◌else◌,
}
use bytev.Https.{
  Stage, connecting, shaking, writing, reading, Call, Client, Answers, leave, prepared, https_next,
  invoke_complete, request, front, told, go_on, handle_resolve, handle_connect, handle_request,
  handle_write, handle_data, parse_data,
}
use bytev.Https.Steps.{pending, completions}

-- The operations that a site needs at most from the pending one on.
abbrev pub rank : Stage → ℕ
rank Stage.resolving = 5
rank Stage.connecting = 4
rank Stage.shaking = 3
rank Stage.writing = 2
rank Stage.reading = 1

abbrev pub budget : Option Stage → List String → ℕ
budget none sites = 0
budget (some s) sites = rank s + 5 * (length sites - 1)

-- An operation is pending for a site, and the completion was not called, or none is, no site is left
-- and the completion was called once.
abbrev pub Sound : Option Stage → List String → ℕ → Type 0
Sound (some s) (site ∷ rest) n = n ≡ 0
Sound none [] n = n ≡ 1
Sound op sites n = ⊥

abbrev pub Outcome : ℕ → Client × List Call → Type 0
Outcome bound (c, calls) =
    Sound (pending none calls) c.sites (completions calls)
    × (budget (pending none calls) c.sites ≤ bound)

leave-Outcome :
    (cancel shutdown ec : ℕ) (body : String) (rest : List String) (later : Client × List Call)
    → (0 < length rest → Outcome (5 * length rest) later)
    → Outcome (5 * length rest) (leave cancel shutdown ec body rest later)
leave-Outcome cancel shutdown ec body [] later h = (refl, omega arith)
leave-Outcome cancel shutdown ec body (site ∷ rest) later h = h (omega arith)

pub weaker : {m n : ℕ} (r : Client × List Call) → Outcome m r → m ≤ n → Outcome n r
weaker r h k = (h.0, omega (arith, h.1))

pub told-sites : (ec : ℕ) (c : Client) → (told ec c).sites ≡ c.sites
told-sites ec c = elim (Bool-cases (c.shutdown == 0)) [ inl e ↦ rw e refl | inr e ↦ rw e refl ]

module _ (answers : ℕ → Answers) where
  pub https_next-Outcome :
      (sites : List String)
      → 0 < length sites
      → Outcome (5 * length sites) (https_next answers sites)
  unfolding https_next
  https_next-Outcome [] h = absurd (omega arith)
  https_next-Outcome (site ∷ rest) h =
      let a = answers (suc (length rest)) in
      elim (Bool-cases (prepared a == 0)) [
        | inl e ↦ rw e (refl, omega arith)
        | inr e ↦ rw e (
            weaker (leave a.cancel (prepared a) (prepared a) "" rest (https_next answers rest))
              (leave-Outcome a.cancel (prepared a) (prepared a) "" rest (https_next answers rest)
                (https_next-Outcome rest))
              (omega arith))
      ]

  pub invoke_complete-Outcome :
      (ec : ℕ) (body : String) (c : Client) (site : String) (rest : List String)
      → c.sites ≡ site ∷ rest
      → Outcome (5 * length rest) (invoke_complete answers ec body c)
  unfolding invoke_complete
  invoke_complete-Outcome ec body c site rest e =
      let cancel = (answers (suc (length rest))).cancel in
      rw (invoke_complete, e)
        (leave-Outcome cancel c.shutdown ec body rest (https_next answers rest)
          (https_next-Outcome rest))

  go_on-Outcome :
      (n : ℕ) (c : Client) (next : Client × List Call) (site : String) (rest : List String)
      → c.sites ≡ site ∷ rest
      → 5 * length rest ≤ n
      → Outcome n next
      → Outcome n (go_on answers c next)
  go_on-Outcome n c next site rest e l h = elim (Bool-cases (c.shutdown == 0)) [
    | inl z ↦ rw z h
    | inr z ↦ rw z (
        weaker (invoke_complete answers c.shutdown "" c)
          (invoke_complete-Outcome c.shutdown "" c site rest e) l)
  ]

  -- What a handler does next for a site, where the call starts an operation.
  on :
      (s : Stage) (n : ℕ) (c : Client) (call : Call) (site : String) (rest : List String)
      → c.sites ≡ site ∷ rest
      → pending none (call ∷ []) ≡ some s
      → completions (call ∷ []) ≡ 0
      → rank s + 5 * length rest ≤ n
      → Outcome n (c, call ∷ [])
  on s n c call site rest e p q l = rw (e, p, q) (refl, omega (arith, l))

  module _ (c : Client) (site : String) (rest : List String) (e : c.sites ≡ site ∷ rest)
      (ec : ℕ) where
    told_site : (told ec c).sites ≡ site ∷ rest
    told_site = told-sites ec c ∙ e

    pub handle_resolve-Outcome : Outcome (4 + 5 * length rest) (handle_resolve answers ec c)
    unfolding handle_resolve
    handle_resolve-Outcome =
        let d = told ec c in
        go_on-Outcome (4 + 5 * length rest) d (d, Call.connect ∷ []) site rest told_site
          (omega arith)
          (on connecting (4 + 5 * length rest) d Call.connect site rest told_site refl refl
            (omega arith))

    pub handle_connect-Outcome : Outcome (3 + 5 * length rest) (handle_connect answers ec c)
    unfolding handle_connect
    handle_connect-Outcome =
        let d = told ec c in
        let f =
          if d.shutdown == 0
          then record d { shutdown = (answers (length d.sites)).verify_callback }
          else d in
        let same : f.sites ≡ d.sites = elim (Bool-cases (d.shutdown == 0)) [
          | inl z ↦ rw z refl
          | inr z ↦ rw z refl
        ] in
        go_on-Outcome (3 + 5 * length rest) f (f, Call.handshake ∷ []) site rest (same ∙ told_site)
          (omega arith)
          (on shaking (3 + 5 * length rest) f Call.handshake site rest (same ∙ told_site) refl refl
            (omega arith))

    pub handle_request-Outcome :
        (path : String) → Outcome (2 + 5 * length rest) (handle_request answers path ec c)
    unfolding handle_request
    handle_request-Outcome path =
        let d = told ec c in
        let call = Call.write (request path (front d.sites)) in
        go_on-Outcome (2 + 5 * length rest) d (d, call ∷ []) site rest told_site (omega arith)
          (on writing (2 + 5 * length rest) d call site rest told_site refl refl (omega arith))

    pub handle_write-Outcome : Outcome (1 + 5 * length rest) (handle_write answers ec c)
    unfolding handle_write
    handle_write-Outcome =
        let d = told ec c in
        go_on-Outcome (1 + 5 * length rest) d (d, Call.read ∷ []) site rest told_site (omega arith)
          (on reading (1 + 5 * length rest) d Call.read site rest told_site refl refl (omega arith))

    module _ (match_status match_body : String → Option String) (bad_address eof : ℕ) where
      parse_data-Outcome :
          (text : String) (d : Client)
          → d.sites ≡ site ∷ rest
          → Outcome
              (5 * length rest)
              (parse_data answers match_status match_body bad_address eof text d)
      unfolding parse_data
      parse_data-Outcome text d f =
          let refused = invoke_complete-Outcome bad_address "" d site rest f in
          elim (Option-cases (match_status text)) [
            | inl z ↦ rw (parse_data, z) refused
            | inr (status, z) ↦ elim (Bool-cases (str_eq status "200")) [
              | inl t ↦ elim (Option-cases (match_body text)) [
                | inl u ↦ rw (parse_data, z, t, u) refused
                | inr (body, u) ↦
                    rw (parse_data, z, t, u) (invoke_complete-Outcome 0 body d site rest f)
              ]
              | inr t ↦ rw (parse_data, z, t) refused
            ]
          ]

      pub handle_data-Outcome :
          (text : String)
          → Outcome
              (5 * length rest)
              (handle_data answers match_status match_body bad_address eof ec text c)
      unfolding handle_data
      handle_data-Outcome text =
          let d = told ec c in
          elim (Bool-cases ((d.shutdown == 0) || (d.shutdown == eof))) [
            | inl z ↦ rw (handle_data, z) (parse_data-Outcome text d told_site)
            | inr z ↦
                rw (handle_data, z) (invoke_complete-Outcome d.shutdown "" d site rest told_site)
          ]
