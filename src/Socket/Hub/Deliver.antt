-- ===== src/Socket/Hub/Deliver.antt =====
-- What one broadcast of socket/hub.go does to every client, whatever the order of the map's keys.
use potat_api.Base.{
  ℕ, ◌≡◌, refl, String, true, false, not, ◌&&◌, some, List, [], ◌∷◌, ◌++◌, length, contains, delete,
  IsDistinct, contains-delete, IsDistinct-delete, Bool-cases, inl, inr, ◌==◌, if◌then◌else◌, arith,
}
use potat_api.Socket.Hub.{
  Client, Hub, put, close_channel, is_full, try_send, drop, on_unregister, offer, on_broadcast,
}

abbrev pub push : String → Client → Client
push m cl = record cl { send = record (cl.send) { queue = cl.send.queue ++ m ∷ [] } }

abbrev pub shut : Client → Client
shut cl = record cl { send = record (cl.send) { closed = true } }

-- The contract for one registered client: the message at the end of its buffer, or the door.
abbrev pub offered : String → Client → Client
offered m cl = if is_full cl then shut cl else push m cl

-- The hub's map names each client once and the gauge counts them.
pub record IsCounted (h : Hub) : Type 0 where
  pub distinct : IsDistinct h.clients
  pub counted : h.gauge ≡ length h.clients

abbrev pub dropped : ℕ → Hub → Hub
dropped c h = record {
  clients = delete c h.clients;
  gauge = length (delete c h.clients);
  store = put h.store c (shut (h.store c));
}

pub drop_lem : (c : ℕ) (h : Hub) → (h.store c).send.closed ≡ false → drop c h ≡ some (dropped c h)
unfolding drop close_channel
drop_lem c h unclosed = ground arith

abbrev pub offered_hub : String → ℕ → Hub → Hub
offered_hub m c h =
    if is_full (h.store c)
    then dropped c h
    else record h { store = put h.store c (push m (h.store c)) }

pub offer_lem :
    (m : String) (c : ℕ) (h : Hub)
    → (h.store c).send.closed ≡ false
    → offer m c h ≡ some (offered_hub m c h)
unfolding offer try_send
offer_lem m c h unclosed = ground (arith, drop_lem c h)

offered_hub-IsCounted : (m : String) (c : ℕ) (h : Hub) → IsCounted h → IsCounted (offered_hub m c h)
offered_hub-IsCounted m c h k = ground (arith, IsDistinct-delete c h.clients)

offered_hub-store :
    (m : String) (c d : ℕ) (h : Hub)
    → (offered_hub m c h).store d ≡ (if d == c then offered m (h.store c) else h.store d)
offered_hub-store m c d h = ground arith

offered_hub-clients :
    (m : String) (c d : ℕ) (h : Hub)
    → contains d (offered_hub m c h).clients
      ≡ (contains d h.clients && not (d == c && is_full (h.store c)))
offered_hub-clients m c d h = ground (arith, contains-delete c d h.clients)

-- What a broadcast to the clients of `order` leaves behind.
pub record Delivered (m : String) (order : List ℕ) (h h' : Hub) : Type 0 where
  pub reached :
      (d : ℕ) → h'.store d ≡ (if contains d order then offered m (h.store d) else h.store d)
  pub kept :
      (d : ℕ)
      → contains d h'.clients
        ≡ (contains d h.clients && not (contains d order && is_full (h.store d)))
  pub counted : IsCounted h → IsCounted h'

pub on_broadcast-Delivered :
    (m : String) (order : List ℕ) (h : Hub)
    → IsDistinct order
    → ((d : ℕ) → contains d order ≡ true → (h.store d).send.closed ≡ false)
    → (h' : Hub) × (on_broadcast m order h ≡ some h') × Delivered m order h h'
unfolding on_broadcast
on_broadcast-Delivered m [] h _ _ =
    (h, refl, record { reached = λ d. refl; kept = λ d. ground arith; counted = λ k. k })
on_broadcast-Delivered m (c ∷ order) h (new, rest) unclosed =
    let h₁ = offered_hub m c h in
    let (h', done, later) =
      on_broadcast-Delivered m order h₁ rest
        (λ d inside. ground (arith, offered_hub-store m c d h, unclosed d)) in
    (
      h',
      rw (offer_lem m c h (unclosed c (ground arith))) done,
      record {
        reached = λ d. ground (arith, later.reached d, offered_hub-store m c d h);
        kept = λ d.
            ground (arith, later.kept d, offered_hub-clients m c d h, offered_hub-store m c d h);
        counted = λ k. later.counted (offered_hub-IsCounted m c h k);
      },
    )

-- An unregister drops a registered client whose buffer is open and ignores any other.
pub on_unregister_lem :
    (c : ℕ) (h : Hub)
    → (contains c h.clients ≡ true → (h.store c).send.closed ≡ false)
    → on_unregister c h ≡ some (if contains c h.clients then dropped c h else h)
unfolding on_unregister
on_unregister_lem c h unclosed = elim (Bool-cases (contains c h.clients)) [
  | inl known ↦ rw known (drop_lem c h (unclosed known))
  | inr unknown ↦ rw unknown
]
