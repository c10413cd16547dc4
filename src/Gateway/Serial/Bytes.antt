-- ===== src/Gateway/Serial/Bytes.antt =====
-- No byte is lost between the serial port and the channel while the channel has room.
use thermal_recovery_flow.Base.{
  ℕ, suc, ◌+◌, ◌≡◌, refl, sym, ap, ◌∙◌, Bool, true, false, ◌&&◌, List, [], ◌∷◌, ◌++◌, if◌then◌else◌,
  ltb, leb, length, take, All, arith, inc64,
}
use mathlib.Core.List.{append_assoc, append-nil}
use thermal_recovery_flow.Gateway.Serial.{
  SerialGateway, Event, context_done, port_gone, timeout_refused, read_failed, received,
  max_frame_buffer_size, serial_error_threshold, dispatch_frame, flush, flush_if, take_bytes,
  read_round, read_loop,
}

abbrev pub joined : List (List ℕ) → List ℕ
joined [] = []
joined (f ∷ frames) = f ++ joined frames

joined-append :
    (frames : List (List ℕ)) (f : List ℕ) → joined (frames ++ f ∷ []) ≡ joined frames ++ f
joined-append [] f = append-nil f
joined-append (g ∷ frames) f =
    ap (◌++◌ g) (joined-append frames f) ∙ sym (append_assoc g (joined frames) f)

-- All bytes that were sent, and behind them those that wait.
abbrev pub held : SerialGateway → List ℕ
held s = joined s.raw_data_chan ++ s.frame_buffer

-- The bytes that an event brings.
abbrev pub bytes_of : Event → List ℕ
bytes_of (received bytes idle room_idle room_overflow room_full) = bytes
bytes_of (context_done room) = []
bytes_of port_gone = []
bytes_of timeout_refused = []
bytes_of (read_failed running stopped room) = []

abbrev pub all_bytes : List Event → List ℕ
all_bytes [] = []
all_bytes (e ∷ events) = bytes_of e ++ all_bytes events

-- The channel takes every frame of the round.
abbrev pub HasRoom : Event → Type 0
HasRoom (received bytes idle room_idle room_overflow room_full) =
    (room_idle ≡ true) × (room_overflow ≡ true) × (room_full ≡ true)
HasRoom (context_done room) = room ≡ true
HasRoom (read_failed running stopped room) = room ≡ true
HasRoom port_gone = true ≡ true
HasRoom timeout_refused = true ≡ true

-- The rounds that the loop makes.
pub rounds : SerialGateway → List Event → ℕ
rounds s [] = 0
rounds s (e ∷ rest) =
    let (s', goes_on) = read_round s e in
    let later = rounds s' rest in if goes_on then suc later else 1

dispatch_frame-held :
    (s : SerialGateway) (frame : List ℕ)
    → joined (dispatch_frame s true frame).raw_data_chan ≡ joined s.raw_data_chan ++ frame
unfolding dispatch_frame
dispatch_frame-held s [] = sym (append-nil (joined s.raw_data_chan))
dispatch_frame-held s (b ∷ bytes) = joined-append s.raw_data_chan (b ∷ bytes)

flush-held : (s : SerialGateway) → held (flush s true) ≡ held s
unfolding flush
flush-held s = append-nil _ ∙ dispatch_frame-held s s.frame_buffer

flush_if-held : (b : Bool) (s : SerialGateway) → held (flush_if b s true) ≡ held s
unfolding flush_if
flush_if-held true s = flush-held s
flush_if-held false s = refl

take_bytes-held :
    (s : SerialGateway) (bytes : List ℕ) (idle : Bool)
    → held (take_bytes s bytes idle true true true) ≡ held s ++ bytes
unfolding take_bytes
take_bytes-held s bytes idle =
    let s₁ = flush_if (idle && ltb 0 (length s.frame_buffer)) s true in
    let over = ltb max_frame_buffer_size (length s₁.frame_buffer + length bytes) in
    let s₂ = flush_if over s₁ true in
    let s₃ : SerialGateway = record s₂ { frame_buffer = s₂.frame_buffer ++ bytes } in
    flush_if-held (leb 256 (length s₃.frame_buffer)) s₃
    ∙ sym (append_assoc (joined s₂.raw_data_chan) s₂.frame_buffer bytes)
    ∙ ap (λ (h : List ℕ). h ++ bytes)
        (flush_if-held over s₁ ∙ flush_if-held (idle && ltb 0 (length s.frame_buffer)) s)

either-held :
    (b : Bool) (x y : SerialGateway × Bool) (bytes : List ℕ)
    → held (x.0) ≡ bytes
    → held (y.0) ≡ bytes
    → let z : SerialGateway × Bool = if b then x else y in held (z.0) ≡ bytes
either-held true x y bytes hx hy = hx
either-held false x y bytes hx hy = hy

read_round-held :
    (s : SerialGateway) (e : Event) → HasRoom e → held (read_round s e).0 ≡ held s ++ bytes_of e
unfolding read_round
read_round-held s (context_done room) h = rw h (flush-held s ∙ sym (append-nil (held s)))
read_round-held s port_gone h = sym (append-nil (held s))
read_round-held s timeout_refused h = sym (append-nil (held s))
read_round-held s (read_failed false stopped room) h =
    rw h (flush-held s ∙ sym (append-nil (held s)))
read_round-held s (read_failed true stopped room) h =
    let same = sym (append-nil (held s)) in
    let s' : SerialGateway = record s { total_errors = inc64 s.total_errors } in
    either-held (ltb serial_error_threshold (inc64 s.total_errors) && stopped)
      (flush s' room, false) (s', true) (held s ++ [])
      (ap (λ (b : Bool). held (flush s' b)) h ∙ flush-held s' ∙ same) same
read_round-held s (received [] idle room_idle room_overflow room_full) (p, q, r) =
    rw p (flush_if-held _ (record s { total_errors = 0 }) ∙ sym (append-nil (held s)))
read_round-held s (received (b ∷ bytes) idle room_idle room_overflow room_full) (p, q, r) =
    let some_bytes : ltb 0 (length (b ∷ bytes)) ≡ true = ground arith in
    rw (some_bytes, p, q, r) (take_bytes-held (record s { total_errors = 0 }) (b ∷ bytes) idle)

-- While the channel takes every frame, the frames that were sent and the buffer together are, in order,
-- those of the beginning and the bytes that the rounds of the loop have read.
pub read_loop-held :
    (events : List Event) (s : SerialGateway)
    → All HasRoom events
    → held (read_loop s events) ≡ held s ++ all_bytes (take (rounds s events) events)
unfolding read_loop rounds
read_loop-held [] s h = sym (append-nil (held s))
read_loop-held (e ∷ rest) s (h, hs) =
    let (s', goes_on) = read_round s e in
    let n = rounds s' rest in
    let now = read_round-held s e h in
    elim goes_on
      as (λ b.
        held (if b then read_loop s' rest else s')
        ≡ held s ++ all_bytes (take (if b then suc n else 1) (e ∷ rest))) [
          | true ↦
              read_loop-held rest s' hs
              ∙ ap (λ (x : List ℕ). x ++ all_bytes (take n rest)) now
              ∙ append_assoc (held s) (bytes_of e) (all_bytes (take n rest))
          | false ↦ now ∙ ap (◌++◌ (held s)) (sym (append-nil (bytes_of e)))
        ]
