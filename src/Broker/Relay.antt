-- ===== src/Broker/Relay.antt =====
-- The broker in front of the socket service: which messages reach the clients.
use potat_api.Base.{
  ℕ, ◌≡◌, ◌≢◌, ◌⊎◌, inl, inr, refl, String, true, false, Option, some, List, str_eq, eq_iff,
  Bool-cases, Option-cases, arith,
}
use potat_api.Broker.{
  Message, NatsClient, State, on_ping, on_pong, publish_on, proxy, handle_message,
  set_proxy_socket_fn,
}
use potat_api.Socket.System.{System, broadcast, Enabled, Reach, later, step}
use potat_api.Socket.System.Safety.{step-never_panics}

-- hub.Send as StartServing hands it over; `order` is the order in which the map is walked.
abbrev pub send_in : List ℕ → String → System → Option System
send_in order m s = step (broadcast m order) s

abbrev pub relayed : String
relayed = "potatbotat.proxy-socket"

on_ping-sockets :
    {S : Type 0} (n : NatsClient S) (st : State S) → (on_ping n st).sockets ≡ st.sockets
unfolding on_ping publish_on
on_ping-sockets n st = elim (Option-cases n.client) [
  | inl gone ↦ rw gone refl
  | inr (con, there) ↦ rw there (ground arith)
]

on_pong-sockets :
    {S : Type 0} (n : NatsClient S) (st : State S) → (on_pong n st).sockets ≡ st.sockets
unfolding on_pong publish_on
on_pong-sockets n st = elim (Option-cases n.client) [
  | inl gone ↦ rw gone refl
  | inr (con, there) ↦ rw there (ground arith)
]

another : (s t u : String) → str_eq s t ≡ true → str_eq t u ≡ false → s ≢ u
another s t u h k e = ground (arith, eq_iff s t, eq_iff t u)

-- The sockets after a message: the broadcast of its data, or what they were.
abbrev pub Relayed : List ℕ → Message → State System → State System → Type 0
Relayed order msg st st' =
    ((msg.subject ≡ relayed)
      × (step (broadcast msg.payload order) st.sockets ≡ some st'.sockets)
      × (st'.sent ≡ st.sent))
    ⊎ ((msg.subject ≢ relayed) × (st'.sockets ≡ st.sockets))

-- With the socket service behind it in a reachable state, every message of the broker is handled
-- without a panic and leaves the sockets in a reachable state. A message is broadcast to them, and
-- nothing is published, if its subject is potatbotat.proxy-socket; with any other subject the
-- sockets stay as they are.
pub handle_message-Reach :
    (n : NatsClient System) (msg : Message) (order : List ℕ) (st : State System)
    → Reach st.sockets
    → Enabled (broadcast msg.payload order) st.sockets
    → (st' : State System) × (handle_message (set_proxy_socket_fn (send_in order) n) (some msg) st
        ≡ some st')
      × Reach st'.sockets
      × Relayed order msg st st'
unfolding handle_message set_proxy_socket_fn proxy
handle_message-Reach n msg order st reached ready =
    let n' = set_proxy_socket_fn (send_in order) n in
    let (t, done, fine) = step-never_panics reached (broadcast msg.payload order) ready in
    elim (Bool-cases (str_eq msg.subject "potatbotat.ping")) [
      | inl ping ↦ (
        on_ping n' st,
        rw ping refl,
        rw (on_ping-sockets n' st) reached,
        inr (another msg.subject "potatbotat.ping" relayed ping refl, on_ping-sockets n' st),
      )
      | inr not_ping ↦ elim (Bool-cases (str_eq msg.subject "potatbotat.pong")) [
        | inl pong ↦ (
          on_pong n' st,
          rw (not_ping, pong) refl,
          rw (on_pong-sockets n' st) reached,
          inr (another msg.subject "potatbotat.pong" relayed pong refl, on_pong-sockets n' st),
        )
        | inr not_pong ↦ elim (Bool-cases (str_eq msg.subject relayed)) [
          | inl relay ↦ (
            record st { sockets = t },
            rw (not_ping, not_pong, relay, done) refl,
            later reached (broadcast msg.payload order) ready done,
            inl ((eq_iff msg.subject relayed).0 relay, done, refl),
          )
          | inr none_of ↦ (
            st,
            rw (not_ping, not_pong, none_of) refl,
            reached,
            inr ((λ e. ground (arith, eq_iff msg.subject relayed)), refl),
          )
        ]
      ]
    ]
