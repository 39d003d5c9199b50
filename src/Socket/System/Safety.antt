-- ===== src/Socket/System/Safety.antt =====
-- The service never panics, and a socket's buffer is open exactly while the hub knows the socket.
use potat_api.Base.{
  ℕ, ◌<◌, ◌≡◌, refl, sym, ◌∙◌, String, true, false, not, some, List, [], ◌∷◌, length, contains,
  contains-insert, contains-delete, IsDistinct-insert, IsDistinct-delete, Bool-cases, some_inj,
  ==_iff, ◌&&◌, inl, inr, ◌==◌, if◌then◌else◌, arith,
}
use potat_api.Socket.Hub.{is_full, on_register}
use potat_api.Socket.Hub.Deliver.{IsCounted, on_broadcast-Delivered, offered, on_unregister_lem}
use potat_api.Socket.System.{
  System, Event, connect, close, unregister, broadcast, receive, init, serve_ws, close_handler,
  finish_close, send_all, take_message, step, Enabled, Reach, start, later,
}

-- The map lists each socket once, the gauge shows its size, it knows only sockets that exist, and
-- a socket's buffer is closed exactly when the map has lost it.
pub record IsConsistent (s : System) : Type 0 where
  pub counted : IsCounted s.hub
  pub known : (c : ℕ) → contains c s.hub.clients ≡ true → c < s.next
  pub open_iff : (c : ℕ) → c < s.next → (s.hub.store c).send.closed ≡ not (contains c s.hub.clients)
  pub waiting : (c : ℕ) → contains c s.pending ≡ true → c < s.next

init-IsConsistent : IsConsistent init
init-IsConsistent = record {
  counted = record { distinct = tt; counted = refl };
  known = λ c h. cc;
  open_iff = λ c h. absurd (omega arith);
  waiting = λ c h. cc;
}

module _ {s : System} (v : IsConsistent s) where
  serve_ws-IsConsistent : IsConsistent (serve_ws s)
  unfolding serve_ws on_register
  serve_ws-IsConsistent = record {
    counted = ground (arith, IsDistinct-insert s.next s.hub.clients, v.counted.distinct);
    known = λ c h. ground (arith, v.known c, contains-insert s.next c s.hub.clients);
    open_iff = λ c h. ground (arith, v.open_iff c, contains-insert s.next c s.hub.clients);
    waiting = λ c h. ground (arith, v.waiting c);
  }

  close_handler-IsConsistent : (c : ℕ) → c < s.next → IsConsistent (close_handler c s)
  unfolding close_handler
  close_handler-IsConsistent c lt = record {
    counted = ground (arith, v.counted.distinct, v.counted.counted);
    known = λ d h. ground (arith, v.known d);
    open_iff = λ d h. ground (arith, v.open_iff d);
    waiting = λ d h. ground (arith, v.waiting d);
  }

  take_message-IsConsistent : (c : ℕ) → IsConsistent (take_message c s)
  unfolding take_message
  take_message-IsConsistent c = record {
    counted = ground (arith, v.counted.distinct, v.counted.counted);
    known = λ d h. ground (arith, v.known d);
    open_iff = λ d h. ground (arith, v.open_iff d);
    waiting = λ d h. ground (arith, v.waiting d);
  }

  unclosed : (c : ℕ) → contains c s.hub.clients ≡ true → (s.hub.store c).send.closed ≡ false
  unclosed c h = ground (arith, v.known c, v.open_iff c)

  finish_close-IsConsistent :
      (c : ℕ)
      → contains c s.pending ≡ true
      → (t : System) × (finish_close c s ≡ some t) × IsConsistent t
  unfolding finish_close
  finish_close-IsConsistent c p =
      rw (on_unregister_lem c s.hub (unclosed c), finish_close)
        (
          _,
          refl,
          record {
            counted = ground (arith, v.counted, IsDistinct-delete c s.hub.clients);
            known = λ d h. ground (arith, v.known d, contains-delete c d s.hub.clients);
            open_iff = λ d h. ground (arith, v.open_iff d, contains-delete c d s.hub.clients);
            waiting = λ d h. ground (arith, v.waiting d, contains-delete c d s.pending);
          },
        )

  send_all-IsConsistent :
      (m : String) (order : List ℕ)
      → Enabled (broadcast m order) s
      → (t : System) × (send_all m order s ≡ some t) × IsConsistent t
  unfolding send_all
  send_all-IsConsistent m order (distinct, same) =
      let (h, done, d) =
        on_broadcast-Delivered m order s.hub distinct
          (λ c inside. unclosed c (sym (same c) ∙ inside)) in
      let after : IsConsistent (record s { hub = h }) = record {
        counted = d.counted v.counted;
        known = λ c i. ground (arith, v.known c, d.kept c);
        open_iff = λ c i. ground (arith, v.open_iff c, d.kept c, d.reached c, same c);
        waiting = v.waiting;
      } in
      elim (Bool-cases (length s.hub.clients == 0)) [
        | inl empty ↦ (s, rw empty, v)
        | inr some_left ↦ (_, rw (some_left, done), after)
      ]

  pub step-IsConsistent :
      (e : Event) → Enabled e s → (t : System) × (step e s ≡ some t) × IsConsistent t
  unfolding step
  step-IsConsistent connect ok = (_, refl, serve_ws-IsConsistent)
  step-IsConsistent (close c) ok = (_, refl, close_handler-IsConsistent c ok)
  step-IsConsistent (unregister c) ok = finish_close-IsConsistent c ok
  step-IsConsistent (broadcast m order) ok = send_all-IsConsistent m order ok
  step-IsConsistent (receive c) ok = (_, refl, take_message-IsConsistent c)

-- (the invariant, by induction on the events)
pub Reach-IsConsistent : {s : System} → Reach s → IsConsistent s
Reach-IsConsistent start = init-IsConsistent
Reach-IsConsistent (later {t} r e ok done) =
    let (t', done', v) = step-IsConsistent (Reach-IsConsistent r) e ok in
    let same : t' ≡ t = cc in rw (← same) v

-- In every reachable state each event that can happen is carried out: no channel is closed twice
-- and nothing is sent on a closed one. In the new state the map names each client once, the gauge
-- shows its size, and of the sockets made so far exactly those in the map have an open buffer.
pub step-never_panics :
    {s : System}
    → Reach s
    → (e : Event) → Enabled e s
    → (t : System) × (step e s ≡ some t) × IsConsistent t
step-never_panics r e ok = step-IsConsistent (Reach-IsConsistent r) e ok

contains_of_empty : (c : ℕ) (l : List ℕ) → length l ≡ 0 → contains c l ≡ false
contains_of_empty c [] h = refl
contains_of_empty c (d ∷ l) h = absurd (omega arith)

-- A broadcast in a reachable state, whatever the order in which the map is walked: each registered
-- client whose buffer has room gets the message at its end and stays, each whose buffer is full has
-- it closed and is forgotten, and no other socket is touched.
pub broadcast-delivers :
    {s t : System}
    → Reach s
    → (m : String) (order : List ℕ) → Enabled (broadcast m order) s
    → step (broadcast m order) s ≡ some t
    → (c : ℕ)
    → (t.hub.store c
        ≡ (if contains c s.hub.clients then offered m (s.hub.store c) else s.hub.store c))
      × (contains c t.hub.clients ≡ (contains c s.hub.clients && not (is_full (s.hub.store c))))
unfolding step
broadcast-delivers {s} {t} r m order (distinct, same) done c =
    let v = Reach-IsConsistent r in
    let (h, all_sent, d) =
      on_broadcast-Delivered m order s.hub distinct
        (λ k inside. unclosed v k (sym (same k) ∙ inside)) in
    elim (Bool-cases (length s.hub.clients == 0)) [
      | inl empty ↦
          let stays : s ≡ t = some_inj (rw (empty, send_all) at done) in
          let nobody = contains_of_empty c s.hub.clients ((==_iff _ _).0 empty) in
          rw (← stays, nobody) (refl, refl)
      | inr others ↦
          let sent : record s { hub = h } ≡ t =
            some_inj (rw (others, all_sent, send_all) at done) in
          rw (← sent) (ground (arith, d.reached c, same c), ground (arith, d.kept c, same c))
    ]
