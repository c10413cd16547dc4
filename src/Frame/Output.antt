-- ===== src/Frame/Output.antt =====
-- internal/frame/output.go: the output file, the loop over the frames, and the end of both. What the file
-- system, the CSV writer, the sockets and the clock answer are arguments; logging changes nothing.
pub mod Delivery
pub mod Ending
pub mod Flags
pub mod Limits
use Prim.Native.String.{String}
use text.Mathlib.Text.{◌==◌ as str_eq}
use thermal_recovery_flow.Base.{
  ℕ, suc, ◌+◌, ◌≡◌, refl, ◌||◌, Bool, true, false, not, Option, none, some, List, [], ◌∷◌, ◌++◌,
  map, if◌then◌else◌, ltb, length, take, u64, inc64, Result, ok, err,
}
use thermal_recovery_flow.Base.Float.{Float}
use thermal_recovery_flow.Base.Int.{ℤ}
use thermal_recovery_flow.Driftflux.{HydrodynamicsFrame}
use thermal_recovery_flow.Frame.{
  OutputFormat, format_json, format_csv, format_binary, OutputConfig, with_defaults, Formats,
  csv_header, csv_record, serialize_binary, serialize_json,
}
use thermal_recovery_flow.Frame.Clients.{
  TcpClient, Registry, get_client_count, write_client, cleanup_client,
}

pub record FrameOutput : Type 0 where
  pub config : OutputConfig
  pub running : Bool
  pub stopped : Bool
  -- Whether `fileWriter` and `csvWriter` are not nil.
  pub file_writer : Bool
  pub csv_writer : Bool
  pub file_closed : Bool
  -- Whether `tcpListener` is not nil.
  pub tcp_listener : Bool
  -- What `fileWriter.Write` has taken, and the records that the CSV writer has taken.
  pub file_data : List ℕ
  pub csv_rows : List (List String)
  pub registry : Registry
  pub frames_written : ℕ
  pub bytes_written : ℕ

-- `NewFrameOutput`.
pub new_frame_output : OutputConfig → FrameOutput
unfolding with_defaults
new_frame_output cfg =
    let cfg' = with_defaults cfg in
    record {
      config = cfg';
      running = false;
      stopped = false;
      file_writer = false;
      csv_writer = false;
      file_closed = false;
      tcp_listener = false;
      file_data = [];
      csv_rows = [];
      registry = record {
        max_clients = cfg'.max_clients;
        tcp_clients = [];
        accepting = none;
        rejected = 0;
        broadcast_dropped = 0;
        client_accept_errors = 0;
      };
      frames_written = 0;
      bytes_written = 0;
    }

-- `safeCloseFile`.
pub safe_close_file : FrameOutput → FrameOutput
safe_close_file o =
    if o.file_closed
    then o
    else record o { file_closed = true; csv_writer = false; file_writer = false }

-- What the calls of `openFile` return: an error, or `none` for nil.
pub record Opening (E : Type 0) : Type 0 where
  pub mkdir_all : Option E
  pub open_file : Option E
  pub write_header : Option E
  pub flush_header : Option E

-- What `fileWriter.Write` returns: how many bytes it has taken, and an error.
pub record Written (E : Type 0) : Type 0 where
  pub count : ℕ
  pub error : Option E

-- What the world answers while one frame is handled.
pub record Moment (E : Type 0) : Type 0 where
  pub now : ℕ
  -- The error of `csvWriter.Write`.
  pub csv_write : Option E
  pub file_write : List ℕ → Written E
  -- Whether writing to the client at a place of the store fails.
  pub client_fails : ℕ → Bool

abbrev pub is_csv : OutputFormat → Bool
is_csv format_csv = true
is_csv format_json = false
is_csv format_binary = false

module _ {E : Type 0} where
  -- The part of `openFile` that writes the header.
  open_csv : FrameOutput → Opening E → FrameOutput × Option E
  unfolding safe_close_file
  open_csv o a =
      let o' : FrameOutput = record o { csv_writer = true } in
      elim (a.write_header) [
        | some e ↦ (safe_close_file o', some e)
        | none ↦
            let o'' : FrameOutput = record o' { csv_rows = o'.csv_rows ++ csv_header ∷ [] } in
            elim (a.flush_header) [ some e ↦ (safe_close_file o'', some e) | none ↦ (o'', none) ]
      ]

  -- `openFile`, with what `filepath.Dir` makes of the name.
  pub open_file : (String → String) → FrameOutput → Opening E → FrameOutput × Option E
  unfolding open_csv
  open_file file_dir o a =
      let dir = file_dir o.config.output_file in
      let opened : FrameOutput × Option E = elim (a.open_file) [
        | some e ↦ (o, some e)
        | none ↦
            let o' : FrameOutput = record o { file_writer = true; file_closed = false } in
            if is_csv o.config.format then open_csv o' a else (o', none)
      ] in
      if str_eq dir "" || str_eq dir "."
      then opened
      else elim (a.mkdir_all) [ some e ↦ (o, some e) | none ↦ opened ]

  -- `startTCPServer`, where the configuration asks for it; its error is only logged.
  start_tcp_server : FrameOutput → Option E → FrameOutput
  start_tcp_server o listen =
      if o.config.tcp_server
      then record o { tcp_listener = elim listen [ some e ↦ o.tcp_listener | none ↦ true ] }
      else o

  -- The rest of `Start` after `openFile`.
  after_open : FrameOutput × Option E → Option E → FrameOutput × Option E
  unfolding start_tcp_server
  after_open (o, some e) listen = (record o { running = false }, some e)
  after_open (o, none) listen = (start_tcp_server o listen, none)

  -- `Start`, up to the goroutines, with what the opening of the file and `net.Listen` answer.
  pub start : (String → String) → FrameOutput → Opening E → Option E → FrameOutput × Option E
  unfolding open_file after_open
  start file_dir o a listen =
      let o' : FrameOutput = record o { running = true; stopped = false } in
      if not o.config.enabled || o.running
      then (o, none)
      else if str_eq o.config.output_file ""
      then after_open (o', none) listen
      else after_open (open_file file_dir o' a) listen

  -- `writeToFile`.
  pub write_to_file : FrameOutput → Moment E → List ℕ → FrameOutput
  unfolding safe_close_file
  write_to_file o m bytes =
      if o.file_closed || not o.file_writer
      then o
      else (let w = m.file_write bytes in
          let o' : FrameOutput = record o { file_data = o.file_data ++ take w.count bytes } in
          elim (w.error) [
            | some e ↦ safe_close_file o'
            | none ↦ record o' {
              frames_written = inc64 o.frames_written;
              bytes_written = u64 (o.bytes_written + length bytes);
            }
          ])

  -- The loop of `broadcastToTCPClients` over the clients in the map, from a place of the store on; with
  -- the failed writes.
  pub broadcast_from : Moment E → List ℕ → ℕ → List TcpClient → List TcpClient × ℕ
  unfolding write_client cleanup_client
  broadcast_from m bytes i [] = ([], 0)
  broadcast_from m bytes i (c ∷ rest) =
      let (rest', dropped) = broadcast_from m bytes (suc i) rest in
      if not c.registered
      then (c ∷ rest', dropped)
      else (let (c', failed) = write_client bytes (m.client_fails i) m.now c in
          if failed then (cleanup_client c' ∷ rest', suc dropped) else (c' ∷ rest', dropped))

  pub broadcast_to_tcp_clients : Registry → Moment E → List ℕ → Registry
  unfolding broadcast_from
  broadcast_to_tcp_clients r m [] = r
  broadcast_to_tcp_clients r m (b ∷ bytes) =
      let (clients', dropped) = broadcast_from m (b ∷ bytes) 0 r.tcp_clients in
      record r { tcp_clients = clients'; broadcast_dropped = u64 (r.broadcast_dropped + dropped) }

  -- What follows the serialization of a frame.
  pub deliver : FrameOutput × Result E (List ℕ) → Moment E → FrameOutput
  unfolding write_to_file broadcast_to_tcp_clients
  deliver (o, err e) m = o
  deliver (o, ok bytes) m =
      let o' : FrameOutput = if ltb 0 (length bytes) then write_to_file o m bytes else o in
      record o' { registry = broadcast_to_tcp_clients o'.registry m bytes }

  module _ {F : Type 0} (std : Formats E F) where
    -- `serializeCSV`: the record goes to the CSV writer, and no bytes come back.
    serialize_csv : FrameOutput → Moment E → HydrodynamicsFrame F → FrameOutput × Result E (List ℕ)
    unfolding csv_record
    serialize_csv o m h = if not o.csv_writer then (o, ok []) else elim (m.csv_write) [
      | some e ↦ (o, err e)
      | none ↦ (record o { csv_rows = o.csv_rows ++ csv_record std h ∷ [] }, ok [])
    ]

    module _ ⦃o : Float F⦄ where
      pub serialize_frame :
          FrameOutput → Moment E → HydrodynamicsFrame F → FrameOutput × Result E (List ℕ)
      unfolding serialize_csv serialize_json serialize_binary
      serialize_frame o m h = elim (o.config.format) [
        | format_json ↦ (o, serialize_json std h)
        | format_csv ↦ serialize_csv o m h
        | format_binary ↦ (o, ok (serialize_binary std h))
      ]

      -- One round of `processLoop`, with `none` for a nil frame.
      pub process_frame : FrameOutput → Moment E × Option (HydrodynamicsFrame F) → FrameOutput
      unfolding serialize_frame deliver
      process_frame o (m, none) = o
      process_frame o (m, some h) = deliver (serialize_frame o m h) m

      -- `processLoop` on the frames that it receives while it runs.
      pub process_loop : FrameOutput → List (Moment E × Option (HydrodynamicsFrame F)) → FrameOutput
      unfolding process_frame
      process_loop o [] = o
      process_loop o (i ∷ rest) = process_loop (process_frame o i) rest

module _ {E F : Type 0} (std : Formats E F) ⦃o : Float F⦄ where
  pub process_loop-nil : (s : FrameOutput) → process_loop std s [] ≡ s
  unfolding process_loop
  process_loop-nil s = refl

  pub process_loop-cons :
      (s : FrameOutput) (i : Moment E × Option (HydrodynamicsFrame F))
      (rest : List (Moment E × Option (HydrodynamicsFrame F)))
      → process_loop std s (i ∷ rest) ≡ process_loop std (process_frame std s i) rest
  unfolding process_loop
  process_loop-cons s i rest = refl

-- `Stop`, without the waiting for the goroutines.
pub stop : FrameOutput → FrameOutput
unfolding safe_close_file cleanup_client
stop o =
    if not o.running
    then o
    else (let o' : FrameOutput = record o { running = false } in
        if o.stopped
        then o'
        else (let r : Registry = record (o.registry) {
          tcp_clients =
              map (λ c. if c.registered then cleanup_client c else c) o.registry.tcp_clients;
        } in
            safe_close_file (record o' { stopped = true; tcp_listener = false; registry = r })))

-- `GetStats`.
unfoldable pub get_stats : FrameOutput → ℕ × ℕ × ℕ
get_stats o = (o.frames_written, o.bytes_written, get_client_count o.registry)
