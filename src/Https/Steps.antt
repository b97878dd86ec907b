-- ===== src/Https/Steps.antt =====
-- The runs of shared/HttpsClient.cpp: boost tells the end of the one operation that was started last,
-- with any code, and the deadline at any time. After an abort a run goes on here, and only here.
use Prim.Native.String.{String}
use bytev.Prelude.{ℕ, suc, ◌+◌, ◌≡◌, Option, none, some, List, [], ◌∷◌, ◌++◌}
use bytev.Https.{
  Stage, resolving, connecting, shaking, writing, reading, Call, Client, Answers, https_get,
  handle_resolve, handle_connect, handle_request, handle_write, handle_data, handle_deadline,
}

-- The operation that the calls leave, over the one before.
abbrev pub pending : Option Stage → List Call → Option Stage
pending op [] = op
pending op (Call.resolve_site site ∷ calls) = pending (some resolving) calls
pending op (Call.connect ∷ calls) = pending (some connecting) calls
pending op (Call.handshake ∷ calls) = pending (some shaking) calls
pending op (Call.write text ∷ calls) = pending (some writing) calls
pending op (Call.read ∷ calls) = pending (some reading) calls
pending op (call ∷ calls) = pending op calls

-- How often the completion is called.
abbrev pub completions : List Call → ℕ
completions [] = 0
completions (Call.complete ec text ∷ calls) = suc (completions calls)
completions (call ∷ calls) = completions calls

pub record World : Type 0 where
  pub client : Client
  pub op : Option Stage
  pub log : List Call

abbrev pub perform : Option Stage → World → Client × List Call → World
perform op w r = record { client = r.0; op = pending op r.1; log = w.log ++ r.1 }

unfoldable pub start : (ℕ → Answers) → List String → World
start answers sites =
    let r = https_get answers sites in record { client = r.0; op = pending none r.1; log = r.1 }

module _ (answers : ℕ → Answers) (path : String) (match_status match_body : String → Option String)
    (aborted bad_address eof : ℕ) where
  -- A step, with 1 where it is the end of an operation.
  pub data Step : ℕ → World → World → Type 0 where
    resolved :
        (w : World) (ec : ℕ)
        → w.op ≡ some resolving
        → Step 1 w (perform none w (handle_resolve answers ec w.client))
    joined :
        (w : World) (ec : ℕ)
        → w.op ≡ some connecting
        → Step 1 w (perform none w (handle_connect answers ec w.client))
    shaken :
        (w : World) (ec : ℕ)
        → w.op ≡ some shaking
        → Step 1 w (perform none w (handle_request answers path ec w.client))
    written :
        (w : World) (ec : ℕ)
        → w.op ≡ some writing
        → Step 1 w (perform none w (handle_write answers ec w.client))
    was_read :
        (w : World) (ec : ℕ) (text : String)
        → w.op ≡ some reading
        → Step 1 w (
            perform none w
              (handle_data answers match_status match_body bad_address eof ec text w.client))
    timed :
        (w : World) (ec : ℕ)
        → Step 0 w (perform w.op w (handle_deadline answers aborted bad_address ec w.client))

  -- A run that has ended so many operations.
  pub data Run (first : World) : ℕ → World → Type 0 where
    begin : Run first 0 first
    next : {n k : ℕ} {v w : World} → Run first n v → Step k v w → Run first (n + k) w
