-- ===== src/Pipeline/Account.antt =====
-- Where the items of the pipeline are, and what the workers do with one of them.
pub mod Actions
use thermal_recovery_flow.Base.{
  ℕ, zero, suc, ◌+◌, ◌^◌, ◌≤◌, ◌<◌, ◌≡◌, refl, ap, Bool, true, false, ◌&&◌, not, Option, none, some,
  List, [], ◌∷◌, ◌++◌, arith, if◌then◌else◌, ltb, ◌==◌, length, length-append, get_elem?, All,
  All-append, IsBytes, Result, ok, err, Option-cases, Bool-cases, inl, inr,
}
use thermal_recovery_flow.Base.Float.{Float}
use thermal_recovery_flow.Protocol.{RawSensorData, ModbusRtuFrame, DecodeError}
use thermal_recovery_flow.Protocol.Decoder.{decode_modbus_rtu}
use thermal_recovery_flow.Protocol.Stream.Counts.{frame-ne-none}
use thermal_recovery_flow.Protocol.Extract.{extract_sensor_data}
use thermal_recovery_flow.Driftflux.{HydrodynamicsFrame, SolveError}
use thermal_recovery_flow.Driftflux.Solver.{solve}
use thermal_recovery_flow.Pipeline.{
  Pipeline, PipelineError, Action, input, decoder_takes, solver_takes, error_handled, decoder_ends,
  solver_ends, others_take_sample, others_take_frame, others_take_error, remove_at, send_error,
  forward_sample, forward_frame, extracted, decoded, decode_item, solved, solve_item, take_raw,
  take_sample, end_decoding, end_solving, drop_error, drop_sample, drop_frame, takes_input, act,
  act_all,
}

module _ {F : Type 0} where
  -- The items in the channels, with the workers, dropped, skipped, given up and taken by others.
  abbrev pub items : Pipeline F → ℕ
  items p =
      length p.raw_data_chan
      + length p.decoding
      + length p.decoded_chan
      + length p.solving
      + length p.hydro_frame_chan
      + length p.error_chan
      + p.decoded_dropped
      + p.frame_dropped
      + p.err_dropped
      + p.skipped
      + p.given_up
      + p.taken

  -- `n` items are accounted for, no channel holds more than its buffer, only bytes wait to be decoded, and
  -- no worker has panicked.
  pub record IsPipeline (p : Pipeline F) (n : ℕ) : Type 0 where
    pub total : items p ≡ n
    pub raw_fits : length p.raw_data_chan ≤ p.config.raw_buffer_size
    pub decoded_fits : length p.decoded_chan ≤ p.decoded_size
    pub frames_fit : length p.hydro_frame_chan ≤ p.frame_size
    pub errors_fit : length p.error_chan ≤ p.error_size
    pub raw_bytes : All IsBytes p.raw_data_chan
    pub decoding_bytes : All IsBytes p.decoding
    pub calm : p.panics ≡ 0

either-IsPipeline :
    {F : Type 0} (b : Bool) {p q : Pipeline F} {n : ℕ}
    → IsPipeline p n
    → IsPipeline q n
    → IsPipeline (if b then p else q) n
either-IsPipeline true v w = v
either-IsPipeline false v w = w

pub zero_right : (n : ℕ) → n + 0 ≡ n
zero_right n = omega arith

pub assoc : (a b c : ℕ) → a + b + c ≡ a + (b + c)
assoc a b c = omega arith

succ : (n : ℕ) → n + 1 ≡ suc n
succ n = omega arith

length-remove_at {ℓ} :
    {A : Type ℓ} (i : ℕ) (xs : List A) (x : A)
    → get_elem? xs i ≡ some x
    → length (remove_at i xs) + 1 ≡ length xs
length-remove_at i [] x h = ground arith
length-remove_at zero (y ∷ xs) x h = omega arith
length-remove_at (suc i) (y ∷ xs) x h = omega (arith, length-remove_at i xs x h)

remove_at-All {ℓ κ} :
    {A : Type ℓ} (P : A → Type κ) (i : ℕ) (xs : List A) (x : A)
    → get_elem? xs i ≡ some x
    → All P xs
    → P x × All P (remove_at i xs)
remove_at-All P i [] x h v = ground arith
remove_at-All P zero (y ∷ xs) x h (v, vs) = (rw (same h) at v, vs)
  where
    same : some y ≡ some x → y ≡ x
    same = ap (λ o. elim o [ none ↦ y | some z ↦ z ])
remove_at-All P (suc i) (y ∷ xs) x h (v, vs) =
    let (w, ws) = remove_at-All P i xs x h vs in (w, (v, ws))

module _ {F : Type 0} ⦃o : Float F⦄ (p : Pipeline F) (n : ℕ) (v : IsPipeline p n)
    (room : n + 1 < 2 ^ 64) where
  send_error-IsPipeline : (e : PipelineError) → IsPipeline (send_error p e) (n + 1)
  unfolding send_error
  send_error-IsPipeline e = ground (arith, length-append p.error_chan (e ∷ []))

  forward_sample-IsPipeline :
      (cancels : Bool) (sample : RawSensorData F)
      → IsPipeline (forward_sample p cancels sample) (n + 1)
  unfolding forward_sample
  forward_sample-IsPipeline cancels sample =
      ground (arith, length-append p.decoded_chan (sample ∷ []))

  forward_frame-IsPipeline :
      (cancels : Bool) (frame : HydrodynamicsFrame F)
      → IsPipeline (forward_frame p cancels frame) (n + 1)
  unfolding forward_frame
  forward_frame-IsPipeline cancels frame =
      ground (arith, length-append p.hydro_frame_chan (frame ∷ []))

  extracted-IsPipeline :
      (cancels : Bool) (r : Result DecodeError (RawSensorData F))
      → IsPipeline (extracted p cancels r) (n + 1)
  unfolding extracted
  extracted-IsPipeline cancels (err e) = send_error-IsPipeline _
  extracted-IsPipeline cancels (ok sample) = forward_sample-IsPipeline cancels sample

  solved-IsPipeline :
      (cancels : Bool) (r : Result SolveError (HydrodynamicsFrame F))
      → IsPipeline (solved p cancels r) (n + 1)
  unfolding solved
  solved-IsPipeline cancels (err e) = send_error-IsPipeline _
  solved-IsPipeline cancels (ok frame) = forward_frame-IsPipeline cancels frame

  skipped-IsPipeline : IsPipeline (record p { skipped = p.skipped + 1 }) (n + 1)
  skipped-IsPipeline = ground arith

module _ {F : Type 0} ⦃o : Float F⦄ where
  decoded-IsPipeline :
      (p : Pipeline F) (n now : ℕ) (cancels : Bool) (e : Option DecodeError)
      (frame : Option ModbusRtuFrame)
      → IsPipeline p n
      → n + 1 < 2 ^ 64
      → (e ≡ none → frame ≡ none → ⊥)
      → IsPipeline (decoded p now cancels e frame) (n + 1)
  unfolding decoded
  decoded-IsPipeline p n now cancels (some e) frame v room h = send_error-IsPipeline p n v room _
  decoded-IsPipeline p n now cancels none none v room h = absurd (h refl refl)
  decoded-IsPipeline p n now cancels none (some frame) v room h =
      either-IsPipeline (not frame.is_valid) (skipped-IsPipeline p n v room)
        (extracted-IsPipeline p n v room cancels (extract_sensor_data now (some frame)))

  decode_item-IsPipeline :
      (p : Pipeline F) (n now : ℕ) (cancels : Bool) (bytes : List ℕ)
      → IsPipeline p n
      → n + 1 < 2 ^ 64
      → IsBytes bytes
      → IsPipeline (decode_item p now cancels bytes) (n + 1)
  unfolding decode_item
  decode_item-IsPipeline p n now cancels bytes v room h =
      let r = decode_modbus_rtu p.decoder bytes in
      let p' = record p { decoder = r.decoder } in
      let v' : IsPipeline p' n = ground arith in
      either-IsPipeline (length bytes == 0) (skipped-IsPipeline p n v room) (
        decoded-IsPipeline p' n now cancels r.error r.frame v' room
          (frame-ne-none p.decoder bytes h))

  pub end_decoding-IsPipeline :
      (p : Pipeline F) (n i now : ℕ) (cancels : Bool) (found : Option (List ℕ))
      → get_elem? p.decoding i ≡ found
      → IsPipeline p n
      → n < 2 ^ 64
      → IsPipeline (end_decoding p i now cancels found) n
  unfolding end_decoding
  end_decoding-IsPipeline p n i now cancels none e v room = v
  end_decoding-IsPipeline p zero i now cancels (some bytes) e v room =
      absurd (ground (arith, length-remove_at i p.decoding bytes e, v.total))
  end_decoding-IsPipeline p (suc n) i now cancels (some bytes) e v room =
      let (h, hs) = remove_at-All IsBytes i p.decoding bytes e v.decoding_bytes in
      let v' : IsPipeline (record p { decoding = remove_at i p.decoding }) n =
        ground (arith, length-remove_at i p.decoding bytes e, v.total) in
      rw⁻¹ (succ n) (decode_item-IsPipeline _ n now cancels bytes v' (omega arith) h)

  pub end_solving-IsPipeline :
      (p : Pipeline F) (n i : ℕ) (cancels : Bool) (found : Option (RawSensorData F))
      → get_elem? p.solving i ≡ found
      → IsPipeline p n
      → n < 2 ^ 64
      → IsPipeline (end_solving p i cancels found) n
  unfolding end_solving solve_item
  end_solving-IsPipeline p n i cancels none e v room = v
  end_solving-IsPipeline p zero i cancels (some sample) e v room =
      absurd (ground (arith, length-remove_at i p.solving sample e, v.total))
  end_solving-IsPipeline p (suc n) i cancels (some sample) e v room =
      let v' : IsPipeline (record p { solving = remove_at i p.solving }) n =
        ground (arith, length-remove_at i p.solving sample e, v.total) in
      rw⁻¹ (succ n) (solved-IsPipeline _ n v' (omega arith) cancels (solve p.solver_config sample))
