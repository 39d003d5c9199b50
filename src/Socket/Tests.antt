-- ===== src/Socket/Tests.antt =====
-- The socket service run on small histories, and its theorems at them.
use potat_api.Base.{
  String, lookup, ◌≡◌, refl, true, false, not, none, some, List, [], ◌∷◌, ◌&&◌, contains,
  if◌then◌else◌, arith,
}
use potat_api.Http.{Request}
use potat_api.Socket.Entry.{is_web_socket_request}
use potat_api.Socket.Hub.{is_full}
use potat_api.Socket.Hub.Deliver.{offered}
use potat_api.Socket.System.{
  System, Event, connect, broadcast, init, step, Enabled, Reach, start, later,
}
use potat_api.Socket.System.Safety.{IsConsistent, step-never_panics, broadcast-delivers}
use potat_api.Socket.Pump.{text, ping_frame, Tick, ping, message, write_pump}

abbrev run : List Event → System → System
unfolding step
run [] s = s
run (e ∷ es) s = elim (step e s) [ none ↦ s | some t ↦ run es t ]

abbrev one : System
one = run (connect ∷ []) init

abbrev two : System
two = run (connect ∷ []) one

one-Reach : Reach one
unfolding step
one-Reach = later start connect tt refl

two-Reach : Reach two
unfolding step
two-Reach = later one-Reach connect tt refl

abbrev hi : Event
hi = broadcast "hi" (0 ∷ 1 ∷ [])

hi-Enabled : Enabled hi two
unfolding step
hi-Enabled = ((refl, (refl, tt)), λ c. ground arith)

abbrev sent : System
sent = run (hi ∷ []) two

hi-step : step hi two ≡ some sent
unfolding step
hi-step = refl

both_have_it : ((sent.hub.store 0).send.queue ≡ "hi" ∷ []) × (sent.hub.gauge ≡ 2)
unfolding step
both_have_it = (refl, refl)

step-never_panics_example : (t : System) × (step hi two ≡ some t) × IsConsistent t
step-never_panics_example = step-never_panics two-Reach hi hi-Enabled

broadcast-delivers_example :
    (sent.hub.store 0
      ≡ (if contains 0 two.hub.clients then offered "hi" (two.hub.store 0) else two.hub.store 0))
    × (contains 0 sent.hub.clients
        ≡ (contains 0 two.hub.clients && not (is_full (two.hub.store 0))))
broadcast-delivers_example = broadcast-delivers two-Reach "hi" (0 ∷ 1 ∷ []) hi-Enabled hi-step 0

abbrev ticks : List Tick
ticks = message "a" true ∷ ping true ∷ message "b" true ∷ []

ticks_frames : (write_pump ticks).frames ≡ text "a" ∷ ping_frame ∷ text "b" ∷ []
unfolding write_pump
ticks_frames = refl

abbrev hello_request : String → Request
hello_request upgrade_header = record {
  method = "GET";
  uri = "/";
  host = "socket.potat.app";
  remote_addr = "10.0.0.1:999";
  headers = ("Upgrade", upgrade_header) ∷ ("Connection", "keep-alive, Upgrade") ∷ [];
}

upgrade_read :
    (is_web_socket_request (hello_request "WebSocKet") ≡ true)
    × (is_web_socket_request (hello_request "h2c") ≡ false)
unfolding is_web_socket_request lookup
upgrade_read = (refl, refl)
