-- ===== src/Https/Sites.antt =====
-- How shared/HttpsClient.cpp leaves a site: after its page was read, and after its deadline.
use Prim.Native.String.{String}
use text.Mathlib.Text.{◌==◌ as str_eq}
use bytev.Prelude.{
  ℕ, ◌≡◌, ◌≢◌, refl, ◌∙◌, false, ◌||◌, inl, inr, Option, List, ◌∷◌, ◌==◌, arith, Bool-cases,
  Option-cases,
}
use bytev.Https.{
  Call, Client, Answers, told, https_next, invoke_complete, parse_data, handle_resolve,
  handle_connect, handle_request, handle_write, handle_data, handle_deadline,
}
use bytev.Https.Outcomes.{told-sites}

module _ (answers : ℕ → Answers) where
  -- Another site is left: what the first one answered is dropped.
  abbrev pub next_site : String → List String → Client × List Call
  next_site site rest =
      let later = https_next answers (site ∷ rest) in (later.0, Call.cancel_wait ∷ later.1)

  invoke_complete-next_site :
      (ec : ℕ) (body : String) (c : Client) (first site : String) (rest : List String)
      → c.sites ≡ first ∷ site ∷ rest
      → invoke_complete answers ec body c ≡ next_site site rest
  unfolding invoke_complete
  invoke_complete-next_site ec body c first site rest e = rw (invoke_complete, e) refl

  module _ (match_status match_body : String → Option String) (bad_address eof : ℕ) where
    parse_data-next_site :
        (text : String) (c : Client) (first site : String) (rest : List String)
        → c.sites ≡ first ∷ site ∷ rest
        → parse_data answers match_status match_body bad_address eof text c ≡ next_site site rest
    unfolding parse_data
    parse_data-next_site text c first site rest e =
        let dropped = invoke_complete-next_site bad_address "" c first site rest e in
        elim (Option-cases (match_status text)) [
          | inl z ↦ rw (parse_data, z) dropped
          | inr (status, z) ↦ elim (Bool-cases (str_eq status "200")) [
            | inl t ↦ elim (Option-cases (match_body text)) [
              | inl u ↦ rw (parse_data, z, t, u) dropped
              | inr (body, u) ↦
                  rw (parse_data, z, t, u) (invoke_complete-next_site 0 body c first site rest e)
            ]
            | inr t ↦ rw (parse_data, z, t) dropped
          ]
        ]

    -- Whatever was read from a site that is not the last one, a page or an error, the client cancels
    -- the timer and goes on to the next site, and the completion is not told of it.
    pub handle_data-next_site :
        (ec : ℕ) (text : String) (c : Client) (first site : String) (rest : List String)
        → c.sites ≡ first ∷ site ∷ rest
        → handle_data answers match_status match_body bad_address eof ec text c
          ≡ next_site site rest
    unfolding handle_data
    handle_data-next_site ec text c first site rest e =
        let d = told ec c in
        let f = told-sites ec c ∙ e in
        elim (Bool-cases ((d.shutdown == 0) || (d.shutdown == eof))) [
          | inl z ↦ rw (handle_data, z) (parse_data-next_site text d first site rest f)
          | inr z ↦
              rw (handle_data, z) (invoke_complete-next_site d.shutdown "" d first site rest f)
        ]

    -- After the deadline the handler of the pending operation, whichever it is and whatever it is told,
    -- ends the site with the error of the deadline. That error is taken not to be the end of the stream
    -- nor success, and the code of a cancelled timer not to be success.
    pub handle_deadline-ends :
        (path : String) (aborted : ℕ) (c : Client) (ec : ℕ) (text : String)
        → aborted ≢ 0
        → bad_address ≢ 0
        → bad_address ≢ eof
        → let d = (handle_deadline answers aborted bad_address 0 c).0 in
          let ended = invoke_complete answers bad_address "" d in
          (handle_resolve answers ec d ≡ ended)
          × (handle_connect answers ec d ≡ ended)
          × (handle_request answers path ec d ≡ ended)
          × (handle_write answers ec d ≡ ended)
          × (handle_data answers match_status match_body bad_address eof ec text d ≡ ended)
    unfolding handle_deadline handle_resolve handle_connect handle_request handle_write handle_data
    handle_deadline-ends path aborted c ec text h k l =
        let e : (0 == aborted) ≡ false = ground arith in
        let z : (bad_address == 0) ≡ false = ground arith in
        let y : (bad_address == eof) ≡ false = ground arith in
        rw (handle_deadline, e)
          (
            rw z (rw z refl),
            rw z (rw z (rw z refl)),
            rw z (rw z refl),
            rw z (rw z refl),
            rw z (rw (z, y) refl),
          )
