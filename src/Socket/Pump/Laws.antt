-- ===== src/Socket/Pump/Laws.antt =====
-- What a client's two goroutines do over their whole life.
use potat_api.Base.{◌≡◌, refl, ap, String, true, false, List, [], ◌∷◌, ◌++◌}
use potat_api.Socket.Pump.{
  Frame, text, Tick, signalled, ping, ttl, message, send_closed, write_pump, Read, incoming,
  read_error, Reader, close_handler, read_pump, new_reader,
}

-- The hub's messages among the ticks and among the frames, in order.
abbrev pub messages : List Tick → List String
messages [] = []
messages (message m ok ∷ ticks) = m ∷ messages ticks
messages (_ ∷ ticks) = messages ticks

abbrev pub texts : List Frame → List String
texts [] = []
texts (text m ∷ frames) = m ∷ texts frames
texts (_ ∷ frames) = texts frames

-- Every write works.
abbrev pub AllWritten : List Tick → Type 0
AllWritten [] = Unit
AllWritten (message m ok ∷ ticks) = (ok ≡ true) × AllWritten ticks
AllWritten (_ ∷ ticks) = AllWritten ticks

-- No tick ends the loop.
abbrev pub KeepsOn : List Tick → Type 0
KeepsOn [] = Unit
KeepsOn (ping ok ∷ ticks) = KeepsOn ticks
KeepsOn (message m ok ∷ ticks) = KeepsOn ticks
KeepsOn (_ ∷ ticks) = ⊥

-- The text frames that the write pump sends are the first of the hub's messages, in their order.
pub write_pump-prefix :
    (ticks : List Tick)
    → (lost : List String) × (messages ticks ≡ texts (write_pump ticks).frames ++ lost)
unfolding write_pump
write_pump-prefix [] = ([], refl)
write_pump-prefix (signalled ∷ ticks) = (messages ticks, refl)
write_pump-prefix (ping true ∷ ticks) = write_pump-prefix ticks
write_pump-prefix (ping false ∷ ticks) = write_pump-prefix ticks
write_pump-prefix (ttl true ∷ ticks) = (messages ticks, refl)
write_pump-prefix (ttl false ∷ ticks) = (messages ticks, refl)
write_pump-prefix (message m true ∷ ticks) =
    let (lost, e) = write_pump-prefix ticks in (lost, ap (λ l. m ∷ l) e)
write_pump-prefix (message m false ∷ ticks) = (m ∷ messages ticks, refl)
write_pump-prefix (send_closed ∷ ticks) = (messages ticks, refl)

-- While no tick ends the loop and every write of a message works, each message is sent, in order,
-- the pump goes on, and it has not called closeHandler.
pub write_pump_complete :
    (ticks : List Tick)
    → KeepsOn ticks
    → AllWritten ticks
    → (texts (write_pump ticks).frames ≡ messages ticks)
      × ((write_pump ticks).returned ≡ false)
      × ((write_pump ticks).reasons ≡ [])
unfolding write_pump
write_pump_complete [] k w = (refl, refl, refl)
write_pump_complete (signalled ∷ ticks) k w = absurd k
write_pump_complete (ping true ∷ ticks) k w = write_pump_complete ticks k w
write_pump_complete (ping false ∷ ticks) k w = write_pump_complete ticks k w
write_pump_complete (ttl ok ∷ ticks) k w = absurd k
write_pump_complete (message m ok ∷ ticks) k (w, ws) =
    let (sent, on, quiet) = write_pump_complete ticks k ws in rw w (ap (λ l. m ∷ l) sent, on, quiet)
write_pump_complete (send_closed ∷ ticks) k w = absurd k

read_pump_closed :
    (reads : List Read) (r : Reader)
    → r.signal_closed ≡ true
    → read_pump reads r ≡ record r { returned = true }
unfolding read_pump
read_pump_closed [] r h = rw h
read_pump_closed (incoming ok ∷ more) r h = rw h
read_pump_closed (read_error ∷ more) r h = rw h

-- Whatever arrives first, the read pump makes one call of ReadMessage, closes the socket for one
-- reason, and returns: it never goes on to the second result.
pub read_pump-once :
    (first : Read) (more : List Read)
    → let r = read_pump (first ∷ more) new_reader in
      (r.returned ≡ true)
      × (r.reads ≡ 1)
      × (r.signal_closed ≡ true)
      × ((reason : String) × (r.reasons ≡ reason ∷ []))
unfolding read_pump
read_pump-once (incoming ok) more = (refl, refl, refl, (_, refl))
read_pump-once read_error more =
    rw
      (read_pump_closed more
        (close_handler "Socket already closed" (record new_reader { reads = 1 })) refl)
      (refl, refl, refl, (_, refl))
