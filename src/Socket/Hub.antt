-- ===== src/Socket/Hub.antt =====
-- socket/hub.go, with the client's fields of socket/client.go that the hub and closeHandler use.
-- A Go panic (send on or close of a closed channel) is `none`.
pub mod Deliver
use potat_api.Base.{
  ℕ, String, Bool, true, false, Option, none, some, List, [], ◌∷◌, ◌++◌, length, contains, insert,
  delete, ltb, ◌==◌, if◌then◌else◌,
}

-- A buffered Go channel of messages.
pub record Channel : Type 0 where
  pub queue : List String
  pub closed : Bool

-- `client`: its send buffer, and what closeOnce and closeSignal have become.
pub record Client : Type 0 where
  pub send : Channel
  pub once_done : Bool
  pub signal_closed : Bool
  pub conn_open : Bool

-- `hub`: the keys of its client map, the gauge it last set, and the clients by reference.
pub record Hub : Type 0 where
  pub clients : List ℕ
  pub gauge : ℕ
  pub store : ℕ → Client

abbrev pub send_capacity : ℕ
send_capacity = 1024

abbrev pub new_client : Client
new_client = record {
  send = record { queue = []; closed = false };
  once_done = false;
  signal_closed = false;
  conn_open = true;
}

abbrev pub put : (ℕ → Client) → ℕ → Client → ℕ → Client
put f c v d = if d == c then v else f d

infixl 5 ◌>>=◌
abbrev pub ◌>>=◌ {ℓ κ} : {A : Type ℓ} {B : Type κ} → Option A → (A → Option B) → Option B
none >>= f = none
some a >>= f = f a

-- `close(client.send)`
unfoldable pub close_channel : Channel → Option Channel
close_channel ch = if ch.closed then none else some (record ch { closed = true })

abbrev pub is_full : Client → Bool
is_full cl = if ltb (length cl.send.queue) send_capacity then false else true

-- `select { case client.send <- message: … default: … }`: whether the send went through.
unfoldable pub try_send : String → Client → Option (Client × Bool)
try_send m cl =
    if cl.send.closed
    then none
    else if is_full cl
    then some (cl, false)
    else some (record cl { send = record (cl.send) { queue = cl.send.queue ++ m ∷ [] } }, true)

-- Delete the client from the map, close its channel, set the gauge.
unfoldable pub drop : ℕ → Hub → Option Hub
unfolding close_channel
drop c h = do
  ch ← close_channel (h.store c).send
  some (record {
    clients = delete c h.clients;
    gauge = length (delete c h.clients);
    store = put h.store c (record (h.store c) { send = ch });
  })

-- `case client := <-h.register`
unfoldable pub on_register : ℕ → Hub → Hub
on_register c h = record h { clients = insert c h.clients; gauge = length (insert c h.clients) }

-- `case client := <-h.unregister`
unfoldable pub on_unregister : ℕ → Hub → Option Hub
unfolding drop
on_unregister c h = if contains c h.clients then drop c h else some h

-- One round of the loop over the clients.
unfoldable pub offer : String → ℕ → Hub → Option Hub
unfolding try_send drop
offer m c h = do
  (cl, sent) ← try_send m (h.store c)
  if sent then some (record h { store = put h.store c cl }) else drop c h

-- `case message := <-h.broadcast`; Go ranges over the map in the order `order`.
unfoldable pub on_broadcast : String → List ℕ → Hub → Option Hub
unfolding offer
on_broadcast m [] h = some h
on_broadcast m (c ∷ order) h = do h' ← offer m c h; on_broadcast m order h'
