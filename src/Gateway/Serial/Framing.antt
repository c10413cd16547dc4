-- ===== src/Gateway/Serial/Framing.antt =====
-- The sizes and the counts of the frames that the serial gateway sends.
use thermal_recovery_flow.Base.{
  ℕ, ◌+◌, ◌≤◌, ◌≡◌, Bool, true, false, ◌&&◌, List, [], ◌∷◌, ◌++◌, arith, if◌then◌else◌, ltb, leb,
  length, length-append, All, All-append, u64, inc64, Bool-cases, inl, inr,
}
use thermal_recovery_flow.Gateway.Serial.{
  SerialGateway, Event, context_done, timeout_refused, read_failed, received, port_gone,
  max_frame_buffer_size, default_serial_buffer, dispatch_frame, flush, flush_if, take_bytes,
  read_round, read_loop,
}

-- A frame has 1 to 4096 bytes.
abbrev pub IsSized : List ℕ → Type 0
IsSized frame = (1 ≤ length frame) × (length frame ≤ max_frame_buffer_size)

abbrev pub total_length : List (List ℕ) → ℕ
total_length [] = 0
total_length (f ∷ frames) = length f + total_length frames

total_length-append :
    (xs ys : List (List ℕ)) → total_length (xs ++ ys) ≡ total_length xs + total_length ys
total_length-append [] ys = omega arith
total_length-append (x ∷ xs) ys = omega (arith, total_length-append xs ys)

-- What the buffer may hold, the size of every frame, and the two counters as uint64s.
pub record IsFramed (limit : ℕ) (s : SerialGateway) : Type 0 where
  pub buffer : length s.frame_buffer ≤ limit
  pub sized : All IsSized s.raw_data_chan
  pub frames : s.frames_sent ≡ u64 (length s.raw_data_chan)
  pub bytes : s.bytes_sent ≡ u64 (total_length s.raw_data_chan)

dispatch_frame-IsFramed :
    (s : SerialGateway) (room : Bool) (limit : ℕ) (frame : List ℕ)
    → IsFramed limit s
    → length frame ≤ max_frame_buffer_size
    → IsFramed limit (dispatch_frame s room frame)
unfolding dispatch_frame
dispatch_frame-IsFramed s room limit [] v fits = v
dispatch_frame-IsFramed s false limit (b ∷ bytes) v fits = v
dispatch_frame-IsFramed s true limit (b ∷ bytes) v fits =
    let frame = b ∷ bytes in
    record {
      buffer = v.buffer;
      sized = All-append IsSized s.raw_data_chan (frame ∷ []) v.sized ((omega arith, fits), tt);
      frames = omega (arith, v.frames, length-append s.raw_data_chan (frame ∷ []));
      bytes = omega (arith, v.bytes, total_length-append s.raw_data_chan (frame ∷ []));
    }

flush-IsFramed :
    (s : SerialGateway) (room : Bool) (limit : ℕ)
    → limit ≤ max_frame_buffer_size
    → IsFramed limit s
    → IsFramed 0 (flush s room)
unfolding flush
flush-IsFramed s room limit h v =
    let v' = dispatch_frame-IsFramed s room limit s.frame_buffer v (omega (arith, v.buffer)) in
    record { buffer = omega arith; sized = v'.sized; frames = v'.frames; bytes = v'.bytes }

IsFramed-le :
    (small large : ℕ) (s : SerialGateway) → small ≤ large → IsFramed small s → IsFramed large s
IsFramed-le small large s h v = record {
  buffer = omega (arith, v.buffer);
  sized = v.sized;
  frames = v.frames;
  bytes = v.bytes;
}

flush_if-IsFramed :
    (b : Bool) (s : SerialGateway) (room : Bool) → IsFramed 255 s → IsFramed 255 (flush_if b s room)
unfolding flush_if
flush_if-IsFramed true s room v =
    IsFramed-le 0 255 (flush s room) (omega arith) (flush-IsFramed s room 255 (omega arith) v)
flush_if-IsFramed false s room v = v

-- After the test for an overflow there is room for the bytes.
flush_if-room :
    (s : SerialGateway) (n : ℕ) (room : Bool)
    → n ≤ default_serial_buffer
    → length (flush_if (ltb max_frame_buffer_size (length s.frame_buffer + n)) s room).frame_buffer
        + n
      ≤ max_frame_buffer_size
unfolding flush_if flush
flush_if-room s n room h =
    elim (Bool-cases (ltb max_frame_buffer_size (length s.frame_buffer + n))) [
      | inl over ↦ rw over (omega arith)
      | inr fits ↦ rw fits (ground arith)
    ]

flush_if-full :
    (s : SerialGateway) (room : Bool)
    → IsFramed max_frame_buffer_size s
    → IsFramed 255 (flush_if (leb 256 (length s.frame_buffer)) s room)
unfolding flush_if
flush_if-full s room v = elim (Bool-cases (leb 256 (length s.frame_buffer))) [
  | inl full ↦ rw full (
      IsFramed-le 0 255 (flush s room) (omega arith)
        (flush-IsFramed s room max_frame_buffer_size (omega arith) v))
  | inr small ↦
      rw small
        (record { buffer = ground arith; sized = v.sized; frames = v.frames; bytes = v.bytes })
]

take_bytes-IsFramed :
    (s : SerialGateway) (bytes : List ℕ) (idle room_idle room_overflow room_full : Bool)
    → length bytes ≤ default_serial_buffer
    → IsFramed 255 s
    → IsFramed 255 (take_bytes s bytes idle room_idle room_overflow room_full)
unfolding take_bytes
take_bytes-IsFramed s bytes idle room_idle room_overflow room_full few v =
    let n = length bytes in
    let s₁ = flush_if (idle && ltb 0 (length s.frame_buffer)) s room_idle in
    let over = ltb max_frame_buffer_size (length s₁.frame_buffer + n) in
    let s₂ = flush_if over s₁ room_overflow in
    let v₂ = flush_if-IsFramed over s₁ room_overflow (flush_if-IsFramed _ s room_idle v) in
    let room = flush_if-room s₁ n room_overflow few in
    let s₃ : SerialGateway = record s₂ { frame_buffer = s₂.frame_buffer ++ bytes } in
    flush_if-full s₃ room_full (record {
      buffer = omega (arith, room, length-append s₂.frame_buffer bytes);
      sized = v₂.sized;
      frames = v₂.frames;
      bytes = v₂.bytes;
    })

-- What the port returns fits the buffer that it is read into.
abbrev pub Fits : Event → Type 0
Fits (received bytes idle room_idle room_overflow room_full) = length bytes ≤ default_serial_buffer
Fits port_gone = 0 ≤ 0
Fits timeout_refused = 0 ≤ 0
Fits (context_done room) = 0 ≤ 0
Fits (read_failed running stopped room) = 0 ≤ 0

same-IsFramed :
    (s : SerialGateway) (n : ℕ) → IsFramed 255 s → IsFramed 255 (record s { total_errors = n })
same-IsFramed s n v = record {
  buffer = v.buffer;
  sized = v.sized;
  frames = v.frames;
  bytes = v.bytes;
}

flush-small : (s : SerialGateway) (room : Bool) → IsFramed 255 s → IsFramed 255 (flush s room)
flush-small s room v =
    IsFramed-le 0 255 (flush s room) (omega arith) (flush-IsFramed s room 255 (omega arith) v)

either-IsFramed :
    (b : Bool) (x y : SerialGateway × Bool)
    → IsFramed 255 (x.0)
    → IsFramed 255 (y.0)
    → let z : SerialGateway × Bool = if b then x else y in IsFramed 255 (z.0)
either-IsFramed true x y hx hy = hx
either-IsFramed false x y hx hy = hy

read_round-IsFramed :
    (s : SerialGateway) (e : Event) → Fits e → IsFramed 255 s → IsFramed 255 (read_round s e).0
unfolding read_round
read_round-IsFramed s (context_done room) h v = flush-small s room v
read_round-IsFramed s port_gone h v = v
read_round-IsFramed s timeout_refused h v = same-IsFramed s _ v
read_round-IsFramed s (read_failed false stopped room) h v = flush-small s room v
read_round-IsFramed s (read_failed true stopped room) h v =
    let v' = same-IsFramed s (inc64 s.total_errors) v in
    either-IsFramed _ _ _ (flush-small _ room v') v'
read_round-IsFramed s (received bytes idle room_idle room_overflow room_full) h v =
    let v' = same-IsFramed s 0 v in
    either-IsFramed (ltb 0 (length bytes)) _ _
      (take_bytes-IsFramed _ bytes idle room_idle room_overflow room_full h v')
      (flush_if-IsFramed _ _ room_idle v')

-- From a state with less than 256 bytes in the buffer and right counts, whatever the port, the clock and
-- the channel do, with reads of at most 4096 bytes: every frame that is sent has 1 to 4096 bytes, less
-- than 256 stay in the buffer, and the counters are the number of frames sent and of their bytes, as
-- uint64s.
pub read_loop-IsFramed :
    (events : List Event) (s : SerialGateway)
    → All Fits events
    → IsFramed 255 s
    → IsFramed 255 (read_loop s events)
unfolding read_loop
read_loop-IsFramed [] s h v = v
read_loop-IsFramed (e ∷ rest) s (h, hs) v =
    let now = read_round-IsFramed s e h v in
    let later = read_loop-IsFramed rest (read_round s e).0 hs now in
    elim ((read_round s e).1)
      as (λ b. IsFramed 255 (if b then read_loop (read_round s e).0 rest else (read_round s e).0)) [
        | true ↦ later
        | false ↦ now
      ]
