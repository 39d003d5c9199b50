-- ===== src/Broker.antt =====
-- The messages of the broker: handleMessage, its handlers and Publish of common/utils/broker.go. The
-- NATS connection is the record Connection; what the server got from the program, and what the
-- proxied sockets are, is a state. A panic of the function of SetProxySocketFn is none.
pub mod Relay
pub mod Subscribe
mod Tests
use potat_api.Base.{
  String, Bool, true, false, Option, none, some, List, [], ◌∷◌, ◌++◌, str_eq, if◌then◌else◌,
}

-- `nats.Conn`: whether it takes a message.
pub record Connection : Type 0 where
  pub accepts : String → String → Bool

-- `nats.Msg`
pub record Message : Type 0 where
  pub subject : String
  pub payload : String

-- `NatsClient`, where nil is none.
pub record NatsClient (S : Type 0) : Type 0 where
  pub client : Option Connection
  pub proxy_socket_fn : Option (String → S → Option S)

pub record State (S : Type 0) : Type 0 where
  pub sent : List Message
  pub sockets : S

abbrev pub message : String → String → Message
message topic content = record { subject = topic; payload = content }

module _ {S : Type 0} where
  unfoldable pub set_proxy_socket_fn : (String → S → Option S) → NatsClient S → NatsClient S
  set_proxy_socket_fn f n = record n { proxy_socket_fn = some f }

  -- Whether it succeeds, and the state.
  unfoldable pub publish_on : Option Connection → String → String → State S → Bool × State S
  publish_on none topic content st = (false, st)
  publish_on (some con) topic content st =
      if con.accepts topic content
      then (true, record st { sent = st.sent ++ message topic content ∷ [] })
      else (false, st)

  abbrev pub publish : NatsClient S → String → String → State S → Bool × State S
  publish n topic content st = publish_on n.client topic content st

  -- Errors of onPing and onPong are only logged.
  unfoldable pub on_ping : NatsClient S → State S → State S
  unfolding publish_on
  on_ping n st = (publish n "github.com/Potat-Industries/potat-api.pong" "" st).1

  unfoldable pub on_pong : NatsClient S → State S → State S
  unfolding publish_on
  on_pong n st = (publish n "github.com/Potat-Industries/potat-api.ping" "" st).1

  abbrev pub with_sockets : State S → Option S → Option (State S)
  with_sockets st none = none
  with_sockets st (some s) = some (record st { sockets = s })

  unfoldable pub proxy : Option (String → S → Option S) → String → State S → Option (State S)
  proxy none content st = some st
  proxy (some f) content st = with_sockets st (f content st.sockets)

  unfoldable pub handle_message : NatsClient S → Option Message → State S → Option (State S)
  unfolding on_ping on_pong proxy
  handle_message n none st = some st
  handle_message n (some msg) st =
      if str_eq msg.subject "potatbotat.ping"
      then some (on_ping n st)
      else if str_eq msg.subject "potatbotat.pong"
      then some (on_pong n st)
      else if str_eq msg.subject "potatbotat.proxy-socket"
      then proxy n.proxy_socket_fn msg.payload st
      else some st
