-- ===== src/Pipeline/Account/Actions.antt =====
-- Where the items of the pipeline are after each action and after all.
use thermal_recovery_flow.Base.{
  ℕ, ◌+◌, ◌^◌, ◌≤◌, ◌<◌, ◌≡◌, refl, ap, List, [], ◌∷◌, arith, if◌then◌else◌, length, length-append,
  get_elem?, All, All-append, IsBytes,
}
use thermal_recovery_flow.Base.Float.{Float}
use thermal_recovery_flow.Protocol.{RawSensorData}
use thermal_recovery_flow.Driftflux.{DriftFluxConfig, HydrodynamicsFrame}
use thermal_recovery_flow.Pipeline.{
  Pipeline, PipelineError, Action, input, decoder_takes, solver_takes, error_handled, decoder_ends,
  solver_ends, others_take_sample, others_take_frame, others_take_error, take_raw, take_sample,
  drop_error, drop_sample, drop_frame, send_input, takes_input, act, act_all, PipelineConfig,
  new_pipeline, start,
}
use thermal_recovery_flow.Pipeline.Account.{
  IsPipeline, zero_right, assoc, end_decoding-IsPipeline, end_solving-IsPipeline,
}

abbrev pub HasBytes : Action → Type 0
HasBytes (input bytes) = IsBytes bytes
HasBytes _ = Unit

module _ {F : Type 0} ⦃o : Float F⦄ where
  take_raw-IsPipeline :
      (p : Pipeline F) (n : ℕ) (queue : List (List ℕ))
      → p.raw_data_chan ≡ queue
      → IsPipeline p n
      → IsPipeline (take_raw p queue) n
  unfolding take_raw
  take_raw-IsPipeline p n [] e v = v
  take_raw-IsPipeline p n (bytes ∷ rest) e v =
      let both : All IsBytes (bytes ∷ rest) = rw e at v.raw_bytes in
      record {
        total = ground (arith, length-append p.decoding (bytes ∷ []), v.total, ap length e);
        raw_fits = ground (arith, v.raw_fits, ap length e);
        decoded_fits = v.decoded_fits;
        frames_fit = v.frames_fit;
        errors_fit = v.errors_fit;
        raw_bytes = both.1;
        decoding_bytes = All-append IsBytes p.decoding _ v.decoding_bytes (both.0, tt);
        calm = v.calm;
      }

  take_sample-IsPipeline :
      (p : Pipeline F) (n : ℕ) (queue : List (RawSensorData F))
      → p.decoded_chan ≡ queue
      → IsPipeline p n
      → IsPipeline (take_sample p queue) n
  unfolding take_sample
  take_sample-IsPipeline p n [] e v = v
  take_sample-IsPipeline p n (sample ∷ rest) e v =
      ground (arith, length-append p.solving (sample ∷ []), v.total, v.decoded_fits, ap length e)

  drop_error-IsPipeline :
      (p : Pipeline F) (n : ℕ) (queue : List PipelineError)
      → p.error_chan ≡ queue
      → IsPipeline p n
      → IsPipeline (drop_error p queue) n
  unfolding drop_error
  drop_error-IsPipeline p n [] e v = v
  drop_error-IsPipeline p n (x ∷ rest) e v = ground (arith, v.total, v.errors_fit, ap length e)

  drop_sample-IsPipeline :
      (p : Pipeline F) (n : ℕ) (queue : List (RawSensorData F))
      → p.decoded_chan ≡ queue
      → IsPipeline p n
      → IsPipeline (drop_sample p queue) n
  unfolding drop_sample
  drop_sample-IsPipeline p n [] e v = v
  drop_sample-IsPipeline p n (x ∷ rest) e v = ground (arith, v.total, v.decoded_fits, ap length e)

  drop_frame-IsPipeline :
      (p : Pipeline F) (n : ℕ) (queue : List (HydrodynamicsFrame F))
      → p.hydro_frame_chan ≡ queue
      → IsPipeline p n
      → IsPipeline (drop_frame p queue) n
  unfolding drop_frame
  drop_frame-IsPipeline p n [] e v = v
  drop_frame-IsPipeline p n (x ∷ rest) e v = ground (arith, v.total, v.frames_fit, ap length e)

  -- What an action brings in.
  abbrev pub arrives : Pipeline F → Action → ℕ
  arrives p (input bytes) = if takes_input p then 1 else 0
  arrives p _ = 0

  at_rest : {p : Pipeline F} {n : ℕ} → IsPipeline p n → IsPipeline p (n + 0)
  at_rest {n} v = rw (zero_right n) v

  input-IsPipeline :
      (p : Pipeline F) (n : ℕ) (bytes : List ℕ)
      → IsPipeline p n
      → IsBytes bytes
      → IsPipeline (act p (input bytes)) (n + arrives p (input bytes))
  unfolding act send_input
  input-IsPipeline p n bytes v h =
      let all = All-append IsBytes p.raw_data_chan (bytes ∷ []) v.raw_bytes (h, tt) in
      ground (arith, length-append p.raw_data_chan (bytes ∷ []), v.total, all)

  pub act-IsPipeline :
      (p : Pipeline F) (n : ℕ) (a : Action)
      → IsPipeline p n
      → n < 2 ^ 64
      → HasBytes a
      → IsPipeline (act p a) (n + arrives p a)
  unfolding act
  act-IsPipeline p n (input bytes) v room h = input-IsPipeline p n bytes v h
  act-IsPipeline p n decoder_takes v room h =
      at_rest (take_raw-IsPipeline p n p.raw_data_chan refl v)
  act-IsPipeline p n solver_takes v room h =
      at_rest (take_sample-IsPipeline p n p.decoded_chan refl v)
  act-IsPipeline p n error_handled v room h =
      at_rest (drop_error-IsPipeline p n p.error_chan refl v)
  act-IsPipeline p n (decoder_ends i now cancels) v room h =
      at_rest (end_decoding-IsPipeline p n i now cancels (get_elem? p.decoding i) refl v room)
  act-IsPipeline p n (solver_ends i cancels) v room h =
      at_rest (end_solving-IsPipeline p n i cancels (get_elem? p.solving i) refl v room)
  act-IsPipeline p n others_take_sample v room h =
      at_rest (drop_sample-IsPipeline p n p.decoded_chan refl v)
  act-IsPipeline p n others_take_frame v room h =
      at_rest (drop_frame-IsPipeline p n p.hydro_frame_chan refl v)
  act-IsPipeline p n others_take_error v room h =
      at_rest (drop_error-IsPipeline p n p.error_chan refl v)

  abbrev pub arrivals : Pipeline F → List Action → ℕ
  arrivals p [] = 0
  arrivals p (a ∷ rest) = arrives p a + arrivals (act p a) rest

  pub arrives-le : (p : Pipeline F) (a : Action) → arrives p a ≤ 1
  arrives-le p a = ground arith

  -- Whatever the workers do and in whatever order, with bytes as input and fewer than 2 ^ 64 items
  -- and steps, every sequence of bytes that `Input()` has taken is accounted for: as many as have
  -- come in are in a channel as bytes, sample, frame or error, with a worker, or counted as
  -- dropped, skipped, given up or taken; no channel holds more than its buffer, and no worker
  -- panics.
  pub act_all-IsPipeline :
      (actions : List Action) (p : Pipeline F) (n : ℕ)
      → IsPipeline p n
      → All HasBytes actions
      → n + length actions < 2 ^ 64
      → IsPipeline (act_all p actions) (n + arrivals p actions)
  unfolding act_all
  act_all-IsPipeline [] p n v hs room = rw (zero_right n) v
  act_all-IsPipeline (a ∷ rest) p n v (h, hs) room =
      let v' = act-IsPipeline p n a v (omega arith) h in
      let few = arrives-le p a in
      let all = act_all-IsPipeline rest (act p a) (n + arrives p a) v' hs (omega (arith, few)) in
      rw⁻¹ (assoc n (arrives p a) (arrivals (act p a) rest)) all

  pub new_pipeline-IsPipeline :
      (cfg : PipelineConfig) (solver : DriftFluxConfig F) (samples frames errors : ℕ)
      → IsPipeline (new_pipeline cfg solver samples frames errors) 0
  unfolding new_pipeline
  new_pipeline-IsPipeline cfg solver samples frames errors = record {
    total = refl;
    raw_fits = omega arith;
    decoded_fits = omega arith;
    frames_fit = omega arith;
    errors_fit = omega arith;
    raw_bytes = tt;
    decoding_bytes = tt;
    calm = refl;
  }

  pub start-IsPipeline : (p : Pipeline F) (n : ℕ) → IsPipeline p n → IsPipeline (start p) n
  unfolding start
  start-IsPipeline p n v = ground (arith, v.total)
