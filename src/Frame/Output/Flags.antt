-- ===== src/Frame/Output/Flags.antt =====
-- internal/frame/output.go: which of the file, the listener and the loop are there together.
use Prim.Native.String.{String}
use thermal_recovery_flow.Base.{
  ℕ, ◌≡◌, refl, Bool, true, false, not, ◌&&◌, ◌||◌, Option, none, some, List, [], ◌∷◌, arith,
  Result, ok, err, if◌then◌else◌, Bool-cases, inl, inr,
}
use text.Mathlib.Text.{◌==◌ as str_eq}
use thermal_recovery_flow.Base.Float.{Float}
use thermal_recovery_flow.Driftflux.{HydrodynamicsFrame}
use thermal_recovery_flow.Frame.{Formats, OutputConfig}
use thermal_recovery_flow.Frame.Clients.{Registry}
use thermal_recovery_flow.Frame.Output.{
  FrameOutput, Opening, Moment, new_frame_output, safe_close_file, open_csv, open_file,
  start_tcp_server, after_open, start, stop, write_to_file, deliver, serialize_csv, serialize_frame,
  process_frame, process_loop,
}

-- A closed file has no writer, an output that does not run has neither a writer nor a listener, and one that
-- runs has not been stopped.
pub record IsSound (o : FrameOutput) : Type 0 where
  pub closed : (o.file_closed && o.file_writer) ≡ false
  pub idle : (not o.running && (o.file_writer || o.tcp_listener)) ≡ false
  pub fresh : (o.running && o.stopped) ≡ false

pub new_frame_output-IsSound : (cfg : OutputConfig) → IsSound (new_frame_output cfg)
unfolding new_frame_output
new_frame_output-IsSound cfg = record { closed = refl; idle = refl; fresh = refl }

pub registry-IsSound :
    (o : FrameOutput) (r : Registry) → IsSound o → IsSound (record o { registry = r })
registry-IsSound o r v = record { closed = v.closed; idle = v.idle; fresh = v.fresh }

-- What the opening of the file leaves when it returns no error.
record IsOpened (o o' : FrameOutput) : Type 0 where
  pub running : o'.running ≡ o.running
  pub stopped : o'.stopped ≡ o.stopped
  pub file : (o'.file_closed && o'.file_writer) ≡ false

module _ {E : Type 0} where
  open_csv-IsOpened :
      (o : FrameOutput) (a : Opening E)
      → o.file_closed ≡ false
      → (open_csv o a).1 ≡ none
      → IsOpened o (open_csv o a).0
  unfolding open_csv safe_close_file
  open_csv-IsOpened o a h e = ground arith

  open_file-IsOpened :
      (file_dir : String → String) (o : FrameOutput) (a : Opening E)
      → (o.file_closed && o.file_writer) ≡ false
      → (open_file file_dir o a).1 ≡ none
      → IsOpened o (open_file file_dir o a).0
  unfolding open_file
  open_file-IsOpened file_dir o a h e =
      ground
        (arith, open_csv-IsOpened (record o { file_writer = true; file_closed = false }) a refl)

  after_open-IsSound :
      (o : FrameOutput) (r : FrameOutput × Option E) (listen : Option E)
      → o.running ≡ true
      → o.stopped ≡ false
      → (r.1 ≡ none → IsOpened o (r.0))
      → (after_open r listen).1 ≡ none
      → IsSound (after_open r listen).0
  unfolding after_open start_tcp_server
  after_open-IsSound o (o', some x) listen running fresh v e = cc
  after_open-IsSound o (o', none) listen running fresh v e =
      let w = v refl in ground (arith, w.running, w.stopped, w.file)

  -- `Start` of an output that is enabled and does not run yet.
  open_and_serve-IsSound :
      (file_dir : String → String) (o : FrameOutput) (a : Opening E) (listen : Option E) (b : Bool)
      → o.running ≡ true
      → o.stopped ≡ false
      → (o.file_closed && o.file_writer) ≡ false
      → (if b then after_open (o, none) listen else after_open (open_file file_dir o a) listen).1
        ≡ none
      → IsSound
          (if b then after_open (o, none) listen else after_open (open_file file_dir o a) listen).0
  open_and_serve-IsSound file_dir o a listen true running fresh v e =
      after_open-IsSound o (o, none) listen running fresh
        (λ _. record { running = refl; stopped = refl; file = v }) e
  open_and_serve-IsSound file_dir o a listen false running fresh v e =
      after_open-IsSound o (open_file file_dir o a) listen running fresh
        (open_file-IsOpened file_dir o a v) e

  -- A `Start` that returns no error.
  pub start-IsSound :
      (file_dir : String → String) (o : FrameOutput) (a : Opening E) (listen : Option E)
      → IsSound o
      → (start file_dir o a listen).1 ≡ none
      → IsSound (start file_dir o a listen).0
  unfolding start
  start-IsSound file_dir o a listen v e = elim (Bool-cases (not o.config.enabled || o.running)) [
    | inl h ↦ rw h v
    | inr h ↦ rw h (
        open_and_serve-IsSound file_dir (record o { running = true; stopped = false }) a listen
          (str_eq o.config.output_file "") refl refl v.closed (rw h at e))
  ]

  -- No call of `openFile` fails.
  pub record IsOpenable (a : Opening E) : Type 0 where
    pub mkdir_all : a.mkdir_all ≡ none
    pub open_file : a.open_file ≡ none
    pub write_header : a.write_header ≡ none
    pub flush_header : a.flush_header ≡ none

  open_file-none :
      (file_dir : String → String) (o : FrameOutput) (a : Opening E)
      → IsOpenable a
      → (open_file file_dir o a).1 ≡ none
  unfolding open_file open_csv
  open_file-none file_dir o a v = ground arith

  after_open-none :
      (r : FrameOutput × Option E) (listen : Option E) → r.1 ≡ none → (after_open r listen).1 ≡ none
  unfolding after_open
  after_open-none (o, none) listen e = refl
  after_open-none (o, some x) listen e = cc

  pub start-none :
      (file_dir : String → String) (o : FrameOutput) (a : Opening E) (listen : Option E)
      → IsOpenable a
      → (start file_dir o a listen).1 ≡ none
  unfolding start
  start-none file_dir o a listen v =
      let o' = record o { running = true; stopped = false } in
      ground (
        arith,
        after_open-none (o', none) listen,
        after_open-none (open_file file_dir o' a) listen,
        open_file-none file_dir o' a,
      )

  write_to_file-IsSound :
      (o : FrameOutput) (m : Moment E) (bytes : List ℕ)
      → IsSound o
      → IsSound (write_to_file o m bytes)
  unfolding write_to_file safe_close_file
  write_to_file-IsSound o m bytes v = ground arith

  deliver-IsSound :
      (o : FrameOutput) (r : Result E (List ℕ)) (m : Moment E)
      → IsSound o
      → IsSound (deliver (o, r) m)
  unfolding deliver
  deliver-IsSound o (err e) m v = v
  deliver-IsSound o (ok bytes) m v = ground (arith, write_to_file-IsSound o m bytes)

  module _ {F : Type 0} (std : Formats E F) ⦃o : Float F⦄ where
    serialize_frame-IsSound :
        (s : FrameOutput) (m : Moment E) (h : HydrodynamicsFrame F)
        → IsSound s
        → IsSound (serialize_frame std s m h).0
    unfolding serialize_frame serialize_csv
    serialize_frame-IsSound s m h v = ground arith

    process_frame-IsSound :
        (s : FrameOutput) (i : Moment E × Option (HydrodynamicsFrame F))
        → IsSound s
        → IsSound (process_frame std s i)
    unfolding process_frame
    process_frame-IsSound s (m, none) v = v
    process_frame-IsSound s (m, some h) v =
        deliver-IsSound _ (serialize_frame std s m h).1 m (serialize_frame-IsSound s m h v)

    pub process_loop-IsSound :
        (inputs : List (Moment E × Option (HydrodynamicsFrame F))) (s : FrameOutput)
        → IsSound s
        → IsSound (process_loop std s inputs)
    unfolding process_loop
    process_loop-IsSound [] s v = v
    process_loop-IsSound (i ∷ rest) s v =
        process_loop-IsSound rest (process_frame std s i) (process_frame-IsSound s i v)

-- What `Stop` leaves of a sound output, running or not.
pub record IsShut (o : FrameOutput) : Type 0 where
  pub running : o.running ≡ false
  pub listener : o.tcp_listener ≡ false
  pub file : o.file_writer ≡ false

pub stop-IsShut : (o : FrameOutput) → IsSound o → IsShut (stop o)
unfolding stop safe_close_file
stop-IsShut o v = ground arith
