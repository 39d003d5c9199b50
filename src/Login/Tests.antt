-- ===== src/Login/Tests.antt =====
-- A visit, its callback and a replay of it.
use potat_api.Base.{◌≡◌, refl, String, true, false, Option, none, some, List, [], ◌∷◌, map}
use potat_api.Http.{new_writer}
use potat_api.Tokens.Helix.{Validation, Answer}
use potat_api.Login.{
  Login, Twitch, no_login, Event, request, go_on, timeout, granted, wake, put_reply, set_reply_deny,
  load_state, step, twitch_login_handler,
}
use potat_api.Login.Desk.{
  Desk, Refines, sent_away, denied, let_in, verdict_of, desk_step, desk_run, run, run-Refines,
}
use potat_api.Login.Safety.{
  Ends, times_given, times_passed, times_passed-used, twitch_login_handler-Refused,
}

abbrev config : Twitch
config = record { client_id = "id"; client_secret = "secret"; oauth_uri = "https://api.potat.app/" }

abbrev encode : List (String × String) → String
encode ps = "query"

abbrev validate : String → Option (Answer Validation)
validate token = some (record { status = 200; body = none })

abbrev callback : Event
callback = request "code" "n1" ""

abbrev rest : Event
rest = go_on "n1" (granted "token") validate "1ms"

-- A visit, two callbacks that overlap, and a third that comes after the first has gone on.
abbrev story : List Event
story = request "" "" "n1" ∷ callback ∷ callback ∷ rest ∷ callback ∷ rest ∷ timeout "n1" ∷ []

abbrev shut : Desk
shut = record { open_tickets = λ n. false; shown = [] }

no_login-Refines : Refines no_login shut
no_login-Refines = (record { same = λ n. refl; timed = λ n h. absurd (cc h) }, refl)

-- Both callbacks that overlap are let in: a replay.
story_verdicts : (desk_run story shut).0 ≡ sent_away ∷ let_in ∷ denied ∷ let_in ∷ []
unfolding desk_run desk_step
story_verdicts = refl

run-Refines_example :
    (map verdict_of (run config encode story no_login).0 ≡ (desk_run story shut).0)
    × Refines (run config encode story no_login).1 (desk_run story shut).1
run-Refines_example = run-Refines config encode story no_login shut no_login-Refines

abbrev opening : List Event
opening = request "" "" "n1" ∷ callback ∷ callback ∷ []

abbrev at_gate : Login
at_gate = (run config encode opening no_login).1

one_waits : (wake "n1" at_gate.waiting).0 ≡ true
unfolding run step load_state set_reply_deny put_reply wake
one_waits = refl

none_given : times_given "n1" (callback ∷ rest ∷ callback ∷ []) ≡ 0
unfolding times_given
none_given = refl

times_passed-used_example :
    times_passed config encode "n1"
      (callback ∷ rest ∷ callback ∷ [])
      (step config encode rest at_gate).1
    ≡ 0
times_passed-used_example =
    times_passed-used config encode "n1" (granted "token") validate "1ms" opening
      (callback ∷ rest ∷ callback ∷ []) no_login one_waits none_given

twitch_login_handler-Refused_example : Ends "code" "n1" "" (granted "token") no_login (
    twitch_login_handler config encode "code" "n1" ""
      (granted "token")
      validate
      "1ms"
      no_login
      new_writer)
twitch_login_handler-Refused_example =
    twitch_login_handler-Refused config encode "code" "n1" "" (granted "token") validate "1ms"
      no_login
