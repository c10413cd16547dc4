-- ===== src/Gateway/Serial.antt =====
-- internal/gateway/serial.go: how `readLoop` cuts the bytes of a serial port into frames. What the port,
-- the clock and the channel do in a round of the loop is an event; logging and waiting change nothing.
pub mod Framing
pub mod Bytes
pub mod Port
pub mod Tests
use thermal_recovery_flow.Base.{
  ℕ, ◌+◌, ◌*◌, Bool, true, false, ◌&&◌, not, List, [], ◌∷◌, ◌++◌, if◌then◌else◌, ltb, leb, length,
  u64, inc64,
}

abbrev pub max_frame_buffer_size : ℕ
max_frame_buffer_size = 4096

abbrev pub default_serial_buffer : ℕ
default_serial_buffer = 4096

abbrev pub serial_error_threshold : ℕ
serial_error_threshold = 100

-- The fields that the loop changes, its variable `frameBuffer`, and what was sent on the channel.
pub record SerialGateway : Type 0 where
  pub frame_buffer : List ℕ
  pub raw_data_chan : List (List ℕ)
  pub total_errors : ℕ
  pub frames_sent : ℕ
  pub bytes_sent : ℕ

-- A Boolean `room` says whether the channel takes a frame at that moment; if not, it is dropped.
pub data Event : Type 0 where
  -- The context is done, or the gateway no longer runs, when the round begins.
  context_done : (room : Bool) → Event
  -- The port is nil: the loop returns at once.
  port_gone : Event
  -- `SetReadTimeout` fails.
  timeout_refused : Event
  -- `Read` fails; whether the gateway still runs, and whether the context is done during a back-off.
  read_failed : (running stopped room : Bool) → Event
  -- `Read` returns these bytes; whether the line was idle for longer than the timeout before them.
  received : (bytes : List ℕ) (idle room_idle room_overflow room_full : Bool) → Event

pub dispatch_frame : SerialGateway → Bool → List ℕ → SerialGateway
dispatch_frame s room [] = s
dispatch_frame s room (b ∷ bytes) =
    if room
    then record s {
      raw_data_chan = s.raw_data_chan ++ (b ∷ bytes) ∷ [];
      frames_sent = inc64 s.frames_sent;
      bytes_sent = u64 (s.bytes_sent + length (b ∷ bytes));
    }
    else s

-- `dispatchFrame(frameBuffer)` and the emptying of the buffer.
pub flush : SerialGateway → Bool → SerialGateway
unfolding dispatch_frame
flush s room = record (dispatch_frame s room s.frame_buffer) { frame_buffer = [] }

flush_if : Bool → SerialGateway → Bool → SerialGateway
unfolding flush
flush_if b s room = if b then flush s room else s

-- The branch of a read without an error that brings bytes.
take_bytes : SerialGateway → List ℕ → Bool → Bool → Bool → Bool → SerialGateway
unfolding flush_if
take_bytes s bytes idle room_idle room_overflow room_full =
    let s₁ = flush_if (idle && ltb 0 (length s.frame_buffer)) s room_idle in
    let s₂ =
      flush_if (ltb max_frame_buffer_size (length s₁.frame_buffer + length bytes)) s₁
        room_overflow in
    let s₃ : SerialGateway = record s₂ { frame_buffer = s₂.frame_buffer ++ bytes } in
    flush_if (leb 256 (length s₃.frame_buffer)) s₃ room_full

-- One round of the loop, and whether the loop goes on.
pub read_round : SerialGateway → Event → SerialGateway × Bool
unfolding flush take_bytes flush_if
read_round s (context_done room) = (flush s room, false)
read_round s port_gone = (s, false)
read_round s timeout_refused = (record s { total_errors = inc64 s.total_errors }, true)
read_round s (read_failed running stopped room) =
    let failures = inc64 s.total_errors in
    let s' : SerialGateway = record s { total_errors = failures } in
    if not running
    then (flush s room, false)
    else if ltb serial_error_threshold failures && stopped
    then (flush s' room, false)
    else (s', true)
read_round s (received bytes idle room_idle room_overflow room_full) =
    let s' : SerialGateway = record s { total_errors = 0 } in
    if ltb 0 (length bytes)
    then (take_bytes s' bytes idle room_idle room_overflow room_full, true)
    else (flush_if (ltb 0 (length s.frame_buffer)) s' room_idle, true)

-- `readLoop`, until an event ends it.
pub read_loop : SerialGateway → List Event → SerialGateway
unfolding read_round
read_loop s [] = s
read_loop s (e ∷ rest) =
    let (s', goes_on) = read_round s e in
    let later = read_loop s' rest in if goes_on then later else s'

-- `GetStats`.
pub get_stats : SerialGateway → ℕ × ℕ × ℕ
get_stats s = (s.frames_sent, s.bytes_sent, s.total_errors)
