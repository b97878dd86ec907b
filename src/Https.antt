-- ===== src/Https.antt =====
-- shared/HttpsClient.cpp: a client that asks a list of sites over TLS, as handlers that boost calls. An
-- error_code is a number that is 0 for success, and `answers` gives what the calls answer that boost
-- makes at once, while so many sites are left.
pub mod Outcomes
pub mod Sites
pub mod Steps
pub mod Ends
use Prim.Native.String.{String, ◌++◌}
use text.Mathlib.Text.{◌==◌ as str_eq}
use bytev.Prelude.{
  ℕ, zero, suc, Bool, true, false, Option, none, some, List, [], ◌∷◌, length, ◌==◌, ◌||◌,
  if◌then◌else◌,
}

-- The operations whose end boost tells by a handler.
pub data Stage : Type 0 where
  resolving connecting shaking writing reading : Stage

-- What a handler asks of boost, of the caller and of the system. `invalid` is a use of the front of an
-- empty deque.
pub data Call : Type 0 where
  wait cancel_wait cancel_resolver shutdown_socket abort invalid : Call
  resolve_site : String → Call
  connect handshake read : Call
  write : String → Call
  complete : ℕ → String → Call

-- mShutdown and mDeqSites
pub record Client : Type 0 where
  pub shutdown : ℕ
  pub sites : List String

-- set_default_verify_paths, expires_from_now, set_verify_callback and cancel
pub record Answers : Type 0 where
  pub verify_paths : ℕ
  pub expires : ℕ
  pub verify_callback : ℕ
  pub cancel : ℕ

-- The end of invokeComplete, when the first site is gone and `rest` is left; `later` is what httpsNext
-- does with it.
abbrev pub leave : ℕ → ℕ → ℕ → String → List String → Client × List Call → Client × List Call
leave cancel shutdown ec body [] later = (
  record { shutdown = shutdown; sites = [] },
  cancel_wait ∷ complete (if ec == 0 then cancel else ec) body ∷ [],
)
leave cancel shutdown ec body (site ∷ rest) later = (later.0, cancel_wait ∷ later.1)

-- mShutdown after the first two calls of httpsNext.
abbrev pub prepared : Answers → ℕ
prepared a = if a.verify_paths == 0 then a.expires else a.verify_paths

-- `if (!mShutdown) mShutdown = ecResult;`
abbrev pub told : ℕ → Client → Client
told ec c = if c.shutdown == 0 then record c { shutdown = ec } else c

abbrev pub front : List String → String
front [] = ""
front (site ∷ rest) = site

-- The text that handleRequest writes.
unfoldable pub request : String → String → String
request path site =
    "GET " ++ path ++ " HTTP/1.0\r\nHost: " ++ site
    ++ "\r\nAccept: */*\r\nConnection: close\r\n\r\n"

module _ (answers : ℕ → Answers) where
  unfoldable pub https_next : List String → Client × List Call
  https_next [] = (record { shutdown = 0; sites = [] }, invalid ∷ [])
  https_next (site ∷ rest) =
      let later = https_next rest in
      let a = answers (suc (length rest)) in
      let code = prepared a in
      if code == 0
      then (record { shutdown = code; sites = site ∷ rest }, wait ∷ resolve_site site ∷ [])
      else leave a.cancel code code "" rest later

  unfoldable pub invoke_complete : ℕ → String → Client → Client × List Call
  invoke_complete ec body c = elim c.sites [
    | [] ↦ (c, invalid ∷ [])
    | site ∷ rest ↦
        leave (answers (suc (length rest))).cancel c.shutdown ec body rest (https_next rest)
  ]

  unfoldable pub https_get : List String → Client × List Call
  https_get sites = https_next sites

  -- The site ends where mShutdown is set.
  abbrev pub go_on : Client → Client × List Call → Client × List Call
  go_on c next = if c.shutdown == 0 then next else invoke_complete c.shutdown "" c

  unfoldable pub handle_resolve : ℕ → Client → Client × List Call
  handle_resolve ec c = let d = told ec c in go_on d (d, connect ∷ [])

  unfoldable pub handle_connect : ℕ → Client → Client × List Call
  handle_connect ec c =
      let d = told ec c in
      let e =
        if d.shutdown == 0
        then record d { shutdown = (answers (length d.sites)).verify_callback }
        else d in
      go_on e (e, handshake ∷ [])

  unfoldable pub handle_request : String → ℕ → Client → Client × List Call
  handle_request path ec c =
      let d = told ec c in go_on d (d, write (request path (front d.sites)) ∷ [])

  unfoldable pub handle_write : ℕ → Client → Client × List Call
  handle_write ec c = let d = told ec c in go_on d (d, read ∷ [])

  -- `match_status` and `match_body` are the two regular expressions, with the group that they find.
  module _ (match_status match_body : String → Option String) (bad_address eof : ℕ) where
    unfoldable pub parse_data : String → Client → Client × List Call
    parse_data text c = elim (match_status text) [
      | none ↦ invoke_complete bad_address "" c
      | some status ↦
          if str_eq status "200"
          then elim (match_body text) [
            | none ↦ invoke_complete bad_address "" c
            | some body ↦ invoke_complete 0 body c
          ]
          else invoke_complete bad_address "" c
    ]

    unfoldable pub handle_data : ℕ → String → Client → Client × List Call
    handle_data ec text c =
        let d = told ec c in
        if (d.shutdown == 0) || (d.shutdown == eof)
        then parse_data text d
        else invoke_complete d.shutdown "" d

  -- The timer of the deadline; `aborted` is the code of a timer that was cancelled.
  unfoldable pub handle_deadline : ℕ → ℕ → ℕ → Client → Client × List Call
  handle_deadline aborted bad_address ec c =
      if ec == aborted
      then (c, [])
      else if ec == 0
      then (record c { shutdown = bad_address }, cancel_resolver ∷ shutdown_socket ∷ [])
      else (c, abort ∷ [])
