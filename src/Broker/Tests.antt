-- ===== src/Broker/Tests.antt =====
-- A message for the one client of the socket service, and a subscription at the third attempt.
use potat_api.Broker.{publish_on}
use potat_api.Broker.Subscribe.{Attempt, Stream, keep_subscribed, Ends, keep_subscribed-Ends}
use potat_api.Base.{false, ◌≡◌, refl, true, none, some, [], ◌∷◌}
use potat_api.Broker.{Message, NatsClient, State, handle_message, set_proxy_socket_fn}
use potat_api.Broker.Relay.{send_in, Relayed, handle_message-Reach}
use potat_api.Socket.Hub.{on_register}
use potat_api.Socket.System.{
  System, broadcast, connect, init, step, serve_ws, Enabled, Reach, start, later,
}

abbrev one : System
one = serve_ws init

one-Reach : Reach one
unfolding step
one-Reach = later start connect tt refl

abbrev broker : NatsClient System
broker = record {
  client = some (record { accepts = λ topic content. true });
  proxy_socket_fn = none;
}

abbrev msg : Message
msg = record { subject = "potatbotat.proxy-socket"; payload = "hi" }

abbrev before : State System
before = record { sent = []; sockets = one }

ready : Enabled (broadcast "hi" (0 ∷ [])) one
unfolding serve_ws on_register
ready = ((refl, tt), λ c. refl)

handle_message-Reach_example :
    (st' : State System) × (handle_message
        (set_proxy_socket_fn (send_in (0 ∷ [])) broker)
        (some msg)
        before
      ≡ some st')
    × Reach st'.sockets
    × Relayed (0 ∷ []) msg before st'
handle_message-Reach_example = handle_message-Reach broker msg (0 ∷ []) before one-Reach ready

abbrev refused : Attempt
refused = record { subscribes = false; done = false }

abbrev accepted : Attempt
accepted = record { subscribes = true; done = false }

abbrev unsubscribed : Stream System
unsubscribed = record { subscriptions = 0; state = before }

third_attempt :
    ((keep_subscribed broker
        (refused ∷ refused ∷ accepted ∷ accepted ∷ [])
        unsubscribed).1.subscriptions
      ≡ 1)
    × ((keep_subscribed broker (refused ∷ accepted ∷ []) unsubscribed).1.state.sent
        ≡ record { subject = "github.com/Potat-Industries/potat-api.connected"; payload = "" } ∷ [])
unfolding keep_subscribed publish_on
third_attempt = (refl, refl)

keep_subscribed-Ends_example :
    Ends broker
      (refused ∷ accepted ∷ accepted ∷ [])
      unsubscribed
      (keep_subscribed broker (refused ∷ accepted ∷ accepted ∷ []) unsubscribed)
keep_subscribed-Ends_example =
    keep_subscribed-Ends broker (refused ∷ accepted ∷ accepted ∷ []) unsubscribed
