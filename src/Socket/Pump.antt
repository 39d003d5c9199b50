-- ===== src/Socket/Pump.antt =====
-- The two goroutines of a client, socket/client.go: the write pump as a loop over what its select
-- receives, the read pump as a loop over the results of ReadMessage.
pub mod Laws
use potat_api.Base.{ℕ, suc, String, Bool, true, false, List, [], ◌∷◌, ◌++◌, str_eq, if◌then◌else◌}

-- eventCodes
pub data EventCode : Type 0 where
  hello received_data reconnect unknown_error invalid_origin : EventCode
  dispatch heartbeat malformed_data unauthorized : EventCode

-- What the peer receives: a text message, a ping, or a potatMessage.
pub data Frame : Type 0 where
  text : String → Frame
  ping_frame : Frame
  potat_message : EventCode → String → Frame

-- One receive of the write pump's select; the Boolean is whether the write that it causes works.
pub data Tick : Type 0 where
  signalled : Tick
  ping : Bool → Tick
  ttl : Bool → Tick
  message : String → Bool → Tick
  send_closed : Tick

-- The frames written, the reasons given to closeHandler, and whether the goroutine has returned.
pub record Pump : Type 0 where
  pub frames : List Frame
  pub reasons : List String
  pub returned : Bool

abbrev frame_if : Bool → Frame → List Frame
frame_if b f = if b then f ∷ [] else []

abbrev stopped : Pump
stopped = record { frames = []; reasons = []; returned = true }

abbrev emit : List Frame → Pump → Pump
emit fs p = record p { frames = fs ++ p.frames }

-- writePingPumperDumper9000
unfoldable pub write_pump : List Tick → Pump
write_pump [] = record { frames = []; reasons = []; returned = false }
write_pump (signalled ∷ ticks) = stopped
write_pump (ping ok ∷ ticks) = emit (frame_if ok ping_frame) (write_pump ticks)
write_pump (ttl ok ∷ ticks) = record {
  frames = frame_if ok (potat_message reconnect "Please reconnect right NEOW!");
  reasons = "TTL reached" ∷ [];
  returned = true;
}
write_pump (message m ok ∷ ticks) =
    let rest = emit (text m ∷ []) (write_pump ticks) in if ok then rest else stopped
write_pump (send_closed ∷ ticks) = stopped

-- A result of ReadMessage: a message, with whether the reply can be written, or an error.
pub data Read : Type 0 where
  incoming : Bool → Read
  read_error : Read

-- The read pump's view of its client, with the calls of ReadMessage counted.
pub record Reader : Type 0 where
  pub once_done : Bool
  pub signal_closed : Bool
  pub reads : ℕ
  pub frames : List Frame
  pub reasons : List String
  pub returned : Bool

-- closeHandler: only its first call has an effect, and it names a reason where none is given.
unfoldable pub close_handler : String → Reader → Reader
close_handler reason r = if r.once_done then r else record r {
  once_done = true;
  signal_closed = true;
  reasons = (if str_eq reason "" then "No reason provided" else reason) ∷ r.reasons;
}

abbrev pub finish : Reader → Reader
finish r = record r { returned = true }

-- An incoming message: the reply, closeHandler, return.
unfoldable pub reject_message : Bool → Reader → Reader
unfolding close_handler
reject_message ok r = finish (
    close_handler "Incoming messages not allowed" (record r {
      reads = suc r.reads;
      frames =
          r.frames
          ++ frame_if ok
              (potat_message received_data "Potat socket does not accept incoming messages 😡");
    }))

-- readPump. After an error its `break` leaves the select alone, and the loop looks at the signal.
unfoldable pub read_pump : List Read → Reader → Reader
unfolding reject_message close_handler
read_pump [] r = if r.signal_closed then finish r else r
read_pump (incoming ok ∷ more) r = if r.signal_closed then finish r else reject_message ok r
read_pump (read_error ∷ more) r =
    let again =
      read_pump more (close_handler "Socket already closed" (record r { reads = suc r.reads })) in
    if r.signal_closed then finish r else again

abbrev pub new_reader : Reader
new_reader = record {
  once_done = false;
  signal_closed = false;
  reads = 0;
  frames = [];
  reasons = [];
  returned = false;
}
