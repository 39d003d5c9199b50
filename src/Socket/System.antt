-- ===== src/Socket/System.antt =====
-- The socket service as a whole: the hub's goroutine, the clients' two pumps and the callers of
-- Send, as events in any order (socket/hub.go, socket/client.go).
pub mod Safety
use potat_api.Base.{
  ℕ, ◌+◌, ◌<◌, ◌≡◌, String, Bool, true, false, Option, none, some, List, [], ◌∷◌, ◌++◌, length,
  contains, delete, insert, IsDistinct, ◌==◌, if◌then◌else◌,
}
use potat_api.Socket.Hub.{Client, Hub, put, new_client, on_register, on_unregister, on_broadcast}

-- `next` numbers the sockets; `pending` holds the closeHandler calls that wait at
-- `c.hub.unregister <- c`.
pub record System : Type 0 where
  pub hub : Hub
  pub next : ℕ
  pub pending : List ℕ

pub data Event : Type 0 where
  connect : Event
  close : ℕ → Event
  unregister : ℕ → Event
  broadcast : String → List ℕ → Event
  receive : ℕ → Event

abbrev pub init : System
init = record {
  hub = record { clients = []; gauge = 0; store = λ _. new_client };
  next = 0;
  pending = [];
}

-- serveWs: a fresh client, registered before its pumps start.
unfoldable pub serve_ws : System → System
serve_ws s = record s {
  hub = on_register s.next (record (s.hub) { store = put s.hub.store s.next new_client });
  next = s.next + 1;
}

-- closeHandler up to its send on `unregister`; the connection is closed after that send.
unfoldable pub close_handler : ℕ → System → System
close_handler c s = if (s.hub.store c).once_done then s else record s {
  hub = record (s.hub) {
    store = put s.hub.store c (record (s.hub.store c) { once_done = true; signal_closed = true });
  };
  pending = c ∷ s.pending;
}

-- The hub takes the client that waits, and closeHandler goes on to close the connection.
unfoldable pub finish_close : ℕ → System → Option System
finish_close c s = elim (on_unregister c s.hub) [
  | none ↦ none
  | some h ↦ some (record {
    hub = record h { store = put h.store c (record (h.store c) { conn_open = false }) };
    next = s.next;
    pending = delete c s.pending;
  })
]

-- Hub.Send, and the hub's receipt of the message: nothing is sent while no client is registered.
unfoldable pub send_all : String → List ℕ → System → Option System
send_all m order s =
    if length s.hub.clients == 0
    then some s
    else elim (on_broadcast m order s.hub) [ none ↦ none | some h ↦ some (record s { hub = h }) ]

abbrev rest_of : List String → List String
rest_of [] = []
rest_of (m ∷ ms) = ms

-- `message, ok := <-c.send` in the write pump.
unfoldable pub take_message : ℕ → System → System
take_message c s =
    let cl = s.hub.store c in
    record s {
      hub = record (s.hub) {
        store =
            put s.hub.store c
              (record cl { send = record (cl.send) { queue = rest_of cl.send.queue } });
      };
    }

unfoldable pub step : Event → System → Option System
unfolding serve_ws close_handler finish_close send_all take_message on_register on_unregister
    on_broadcast
step connect s = some (serve_ws s)
step (close c) s = some (close_handler c s)
step (unregister c) s = finish_close c s
step (broadcast m order) s = send_all m order s
step (receive c) s = some (take_message c s)

-- Which events can happen: only a socket's own pumps close it or read its buffer, the hub serves
-- a request that waits, and a loop over the map visits each of its keys once.
abbrev pub Enabled : Event → System → Type 0
Enabled connect s = Unit
Enabled (close c) s = c < s.next
Enabled (unregister c) s = contains c s.pending ≡ true
Enabled (broadcast m order) s =
    IsDistinct order × ((c : ℕ) → contains c order ≡ contains c s.hub.clients)
Enabled (receive c) s = c < s.next

pub data Reach : System → Type 0 where
  start : Reach init
  later : {s t : System} → Reach s → (e : Event) → Enabled e s → step e s ≡ some t → Reach t
