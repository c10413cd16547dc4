-- ===== src/Choke/Sender.antt =====
-- internal/choke/sender.go: the queue of override packets and the sending of one packet with retries.
-- `E` is the type of Go errors. What the network answers to attempt `i` is an argument; sleeping and
-- logging change nothing here. A counter is a uint64.
pub mod Retry
pub mod Wire
pub mod Queue
pub mod Loop
use Prim.Native.String.{String}
use thermal_recovery_flow.Base.{
  ℕ, zero, suc, ◌+◌, ◌≡◌, arith, Bool, true, false, not, Option, none, some, List, [], ◌∷◌, ◌++◌,
  if◌then◌else◌, ltb, length, inc64,
}
use thermal_recovery_flow.Base.Int.{ℤ, pos, negsuc}
use thermal_recovery_flow.Choke.Override.{OverridePacket}

abbrev pub max_override_queue_size : ℕ
max_override_queue_size = 256

-- What the calls of one attempt return: an error, or `none` for nil.
pub record Attempt (E : Type 0) : Type 0 where
  pub dial : Option E
  pub set_write_deadline : Option E
  pub write : Option E
  pub set_read_deadline : Option E
  pub read : Option E
  -- Whether the error of `Read` is a `net.Error` that says `Timeout()`.
  pub read_timed_out : Bool
  pub remote_addr : String

pub record SendResult (E F : Type 0) : Type 0 where
  pub packet : OverridePacket F
  pub success : Bool
  pub send_time : ℤ
  pub error : Option E
  pub retries : ℕ
  pub remote_addr : String

-- The variables of the loop: the fields of `result` that it sets, `lastErr`, and the calls of `conn.Write`.
pub record Progress (E : Type 0) : Type 0 where
  pub success : Bool
  pub last_err : Option E
  pub retries : ℕ
  pub remote_addr : String
  pub written : List (List ℕ)

-- `attempt <= RetryCount`, for a count that may be negative.
abbrev pub attempts : ℤ → ℕ
attempts (pos n) = n + 1
attempts (negsuc n) = 0

module _ {E : Type 0} where
  -- The function literal that uses the connection; the error that it leaves, if it fails.
  pub exchange : Attempt E → Option E
  exchange a = elim (a.set_write_deadline) [
    | some e ↦ some e
    | none ↦ elim (a.write) [
      | some e ↦ some e
      | none ↦ elim (a.set_read_deadline) [
        | some e ↦ some e
        | none ↦ elim (a.read) [ some e ↦ if a.read_timed_out then none else some e | none ↦ none ]
      ]
    ]
  ]

  -- What one attempt leaves in `lastErr`, from the dialling on.
  pub attempt_error : Attempt E → Option E
  unfolding exchange
  attempt_error a = elim (a.dial) [ some e ↦ some e | none ↦ exchange a ]

  -- What one attempt gives to `conn.Write`: the bytes of the packet, if it comes that far.
  pub write_call : List ℕ → Attempt E → List (List ℕ)
  write_call bytes a = elim (a.dial) [
    | some e ↦ []
    | none ↦ elim (a.set_write_deadline) [ some e ↦ [] | none ↦ bytes ∷ [] ]
  ]

  -- The loop from the attempt with number `i` on, with the attempts that are left.
  pub send_attempts : (ℕ → Attempt E) → List ℕ → ℕ → ℕ → Progress E → Progress E
  unfolding attempt_error write_call
  send_attempts network bytes zero i s = s
  send_attempts network bytes (suc left) i s =
      let tried : Progress E = record s { written = s.written ++ write_call bytes (network i) } in
      let failed = λ (e : E). record tried { last_err = some e; retries = i } in
      elim (attempt_error (network i)) [
        | some e ↦ send_attempts network bytes left (i + 1) (failed e)
        | none ↦ record tried { success = true; retries = i; remote_addr = (network i).remote_addr }
      ]

  abbrev pub no_progress : Progress E
  no_progress = record {
    success = false;
    last_err = none;
    retries = 0;
    remote_addr = "";
    written = [];
  }

pub record OverrideSender (E F : Type 0) : Type 0 where
  pub retry_count : ℤ
  pub running : Bool
  -- `close(s.overrideChan)` has been called.
  pub closed : Bool
  pub override_chan : List (OverridePacket F)
  pub result_chan : List (SendResult E F)
  pub sent_count : ℕ
  pub fail_count : ℕ
  -- Not in the source: what has been given to `conn.Write`, a list of bytes for each call.
  pub wire : List (List ℕ)

module _ {E F : Type 0} where
  -- `sendPacket`, with the time that it takes.
  pub send_packet :
      OverrideSender E F
      → (ℕ → Attempt E)
      → ℤ
      → OverridePacket F
      → OverrideSender E F × SendResult E F
  send_packet s network send_time packet =
      let p = send_attempts network packet.raw_bytes (attempts s.retry_count) 0 no_progress in
      (
        (if p.success
            then record s { sent_count = inc64 s.sent_count; wire = s.wire ++ p.written }
            else record s { fail_count = inc64 s.fail_count; wire = s.wire ++ p.written }),
        record {
          packet = packet;
          success = p.success;
          send_time = send_time;
          error = p.last_err;
          retries = p.retries;
          remote_addr = p.remote_addr;
        },
      )

  -- `EmergencySend`.
  pub emergency_send :
      OverrideSender E F
      → (ℕ → Attempt E)
      → ℤ
      → OverridePacket F
      → OverrideSender E F × SendResult E F
  unfolding send_packet
  emergency_send = send_packet

  -- `Start` and `Stop`, as far as they change the sender.
  pub start : OverrideSender E F → OverrideSender E F
  start s = if s.running then s else record s { running = true }

  pub stop : OverrideSender E F → OverrideSender E F
  stop s = if s.running then record s { running = false; closed = true } else s

  pub stop-running : (s : OverrideSender E F) → (stop s).running ≡ false
  unfolding stop
  stop-running s = ground arith

  -- `Send` in one piece; `none` is the panic of sending on a closed channel.
  pub send : OverrideSender E F → OverridePacket F → Option (OverrideSender E F × Bool)
  send s packet =
      if not s.running
      then some (s, false)
      else if s.closed
      then none
      else if ltb (length s.override_chan) max_override_queue_size
      then some (record s { override_chan = s.override_chan ++ packet ∷ [] }, true)
      else some (s, false)

  emit_result : OverrideSender E F → SendResult E F → OverrideSender E F
  emit_result s r =
      if ltb (length s.result_chan) max_override_queue_size
      then record s { result_chan = s.result_chan ++ r ∷ [] }
      else s

  sent_next :
      OverrideSender E F → (ℕ → Attempt E) → ℤ → List (OverridePacket F) → OverrideSender E F
  unfolding send_packet emit_result
  sent_next s network send_time [] = s
  sent_next s network send_time (p ∷ rest) =
      let (s', r) = send_packet (record s { override_chan = rest }) network send_time p in
      emit_result s' r

  -- One round of `sendLoop` that finds a packet, if there is one and the sender runs.
  pub send_loop_round : OverrideSender E F → (ℕ → Attempt E) → ℤ → OverrideSender E F
  unfolding sent_next
  send_loop_round s network send_time =
      if s.running then sent_next s network send_time s.override_chan else s

  -- `GetStats`.
  pub get_stats : OverrideSender E F → ℕ × ℕ
  get_stats s = (s.sent_count, s.fail_count)
