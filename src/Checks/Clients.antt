-- ===== src/Checks/Clients.antt =====
-- shared/HttpsClient.cpp on a list of two sites.
use Prim.Native.String.{String}
use bytev.Prelude.{ℕ, ◌*◌, ◌-◌, ◌≤◌, ◌≡◌, refl, Option, none, some, [], ◌∷◌, arith}
use bytev.Https.{
  Client, Answers, Call, https_get, https_next, invoke_complete, handle_resolve, handle_connect,
  handle_request, handle_write, handle_data, handle_deadline, parse_data,
}
use bytev.Https.Ends.{IsSound, run-IsSound}
use bytev.Https.Sites.{next_site, handle_data-next_site, handle_deadline-ends}
use bytev.Https.Steps.{World, Step, Run, start, perform}

abbrev fine : ℕ → Answers
fine n = record { verify_paths = 0; expires = 0; verify_callback = 0; cancel = 0 }

abbrev status : String → Option String
status text = some "200"

abbrev body : String → Option String
body text = some text

abbrev begun : World
begun = start fine ("a.org" ∷ "b.org" ∷ [])

abbrev failed : World
failed = perform none begun (handle_resolve fine 1 begun.client)

failed_run : Run fine "/" status body 995 14 2 begun 1 failed
unfolding start https_get https_next
failed_run = Run.next Run.begin (Step.resolved begun 1 refl)

run-IsSound_example : (1 ≤ 5 * 2) × IsSound (5 * 2 - 1) failed
run-IsSound_example =
    run-IsSound fine "/" status body 995 14 2 ("a.org" ∷ "b.org" ∷ []) 1 failed (omega arith)
      failed_run

abbrev reading_first : Client
reading_first = record { shutdown = 0; sites = "a.org" ∷ "b.org" ∷ [] }

handle_data-next_site_example :
    handle_data fine status body 14 2 2 "page" reading_first ≡ next_site fine "b.org" []
handle_data-next_site_example =
    handle_data-next_site fine status body 14 2 2 "page" reading_first "a.org" "b.org" [] refl

handle_deadline-ends_example :
    let d = (handle_deadline fine 995 14 0 reading_first).0 in
    let ended = invoke_complete fine 14 "" d in
    (handle_resolve fine 0 d ≡ ended)
    × (handle_connect fine 0 d ≡ ended)
    × (handle_request fine "/" 0 d ≡ ended)
    × (handle_write fine 0 d ≡ ended)
    × (handle_data fine status body 14 2 0 "page" d ≡ ended)
handle_deadline-ends_example =
    handle_deadline-ends fine status body 14 2 "/" 995 reading_first 0 "page" (omega arith)
      (omega arith) (omega arith)

-- The page of the last site reaches the completion.
last_page :
    (handle_data fine status body 14 2 2 "page" (record { shutdown = 0; sites = "b.org" ∷ [] })).1
    ≡ Call.cancel_wait ∷ Call.complete 0 "page" ∷ []
unfolding handle_data parse_data invoke_complete
last_page = refl
