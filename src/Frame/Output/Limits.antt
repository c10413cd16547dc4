-- ===== src/Frame/Output/Limits.antt =====
-- internal/frame/output.go: the clients while frames are delivered and while the output is started.
use Prim.Native.String.{String}
use thermal_recovery_flow.Base.{
  ℕ, suc, ◌≤◌, ◌≡◌, refl, Bool, true, false, Option, none, some, List, [], ◌∷◌, arith, Result, ok,
  err, All, count_if, if◌then◌else◌, ltb, length,
}
use thermal_recovery_flow.Base.Int.{ℤ, pos}
use thermal_recovery_flow.Base.Float.{Float}
use thermal_recovery_flow.Driftflux.{HydrodynamicsFrame}
use thermal_recovery_flow.Frame.{Formats, OutputConfig, with_defaults, default_max_output_clients}
use thermal_recovery_flow.Frame.Clients.{
  TcpClient, Registry, mark_closed, delete_client, close_client, cleanup_client, write_client,
}
use thermal_recovery_flow.Frame.Clients.Interleaved.{IsTracked, IsRegistry, is_registered}
use thermal_recovery_flow.Frame.Output.{
  FrameOutput, Opening, Moment, new_frame_output, safe_close_file, open_csv, open_file,
  start_tcp_server, after_open, start, write_to_file, broadcast_from, broadcast_to_tcp_clients,
  deliver, serialize_csv, serialize_frame, process_frame, process_loop,
}

-- A registry with this limit, which it keeps.
abbrev pub HasRoom : ℤ → Registry → Type 0
HasRoom limit r = IsRegistry r × (r.max_clients ≡ limit)

-- A configuration that names no limit.
pub new_frame_output-HasRoom :
    (cfg : OutputConfig)
    → cfg.max_clients ≡ pos 0
    → HasRoom default_max_output_clients (new_frame_output cfg).registry
unfolding new_frame_output with_defaults
new_frame_output-HasRoom cfg e = (record { tracked = tt; fits = ground arith }, ground arith)

cleanup_client-IsTracked : (c : TcpClient) → IsTracked c → IsTracked (cleanup_client c)
unfolding cleanup_client mark_closed delete_client close_client
cleanup_client-IsTracked c v = ground arith

write_client-IsTracked :
    (bytes : List ℕ) (fails : Bool) (now : ℕ) (c : TcpClient)
    → IsTracked c
    → IsTracked (write_client bytes fails now c).0
unfolding write_client
write_client-IsTracked bytes fails now c v = ground arith

cleanup_client-registered :
    (c : TcpClient) → (cleanup_client c).registered ≡ true → c.registered ≡ true
unfolding cleanup_client mark_closed delete_client close_client
cleanup_client-registered c e = ground arith

write_client-registered :
    (bytes : List ℕ) (fails : Bool) (now : ℕ) (c : TcpClient)
    → (write_client bytes fails now c).0.registered ≡ c.registered
unfolding write_client
write_client-registered bytes fails now c = ground arith

module _ {E : Type 0} where
  broadcast_from-All :
      (m : Moment E) (bytes : List ℕ) (i : ℕ) (clients : List TcpClient)
      → All IsTracked clients
      → All IsTracked (broadcast_from m bytes i clients).0
        × (count_if is_registered (broadcast_from m bytes i clients).0
            ≤ count_if is_registered clients)
  unfolding broadcast_from
  broadcast_from-All m bytes i [] v = (tt, omega arith)
  broadcast_from-All m bytes i (c ∷ rest) (v, vs) =
      let written = (write_client bytes (m.client_fails i) m.now c).0 in
      ground (
        arith,
        broadcast_from-All m bytes (suc i) rest vs,
        write_client-IsTracked bytes (m.client_fails i) m.now c v,
        write_client-registered bytes (m.client_fails i) m.now c,
        cleanup_client-IsTracked written,
        cleanup_client-registered written,
      )

  broadcast_to_tcp_clients-HasRoom :
      {limit : ℤ} (r : Registry) (m : Moment E) (bytes : List ℕ)
      → HasRoom limit r
      → HasRoom limit (broadcast_to_tcp_clients r m bytes)
  unfolding broadcast_to_tcp_clients
  broadcast_to_tcp_clients-HasRoom r m [] v = v
  broadcast_to_tcp_clients-HasRoom r m (b ∷ bytes) (v, same) =
      let (tracked, few) = broadcast_from-All m (b ∷ bytes) 0 r.tcp_clients v.tracked in
      (record { tracked = tracked; fits = omega (arith, few, v.fits) }, same)

  write_to_file-registry :
      (o : FrameOutput) (m : Moment E) (bytes : List ℕ)
      → (write_to_file o m bytes).registry ≡ o.registry
  unfolding write_to_file safe_close_file
  write_to_file-registry o m bytes = ground arith

  deliver-HasRoom :
      {limit : ℤ} (o : FrameOutput) (r : Result E (List ℕ)) (m : Moment E)
      → HasRoom limit o.registry
      → HasRoom limit (deliver (o, r) m).registry
  unfolding deliver
  deliver-HasRoom o (err e) m v = v
  deliver-HasRoom o (ok bytes) m v =
      let o' = if ltb 0 (length bytes) then write_to_file o m bytes else o in
      let same : o'.registry ≡ o.registry = ground (arith, write_to_file-registry o m bytes) in
      broadcast_to_tcp_clients-HasRoom o'.registry m bytes (rw same v)

  module _ {F : Type 0} (std : Formats E F) ⦃o : Float F⦄ where
    serialize_frame-registry :
        (s : FrameOutput) (m : Moment E) (h : HydrodynamicsFrame F)
        → (serialize_frame std s m h).0.registry ≡ s.registry
    unfolding serialize_frame serialize_csv
    serialize_frame-registry s m h = ground arith

    process_frame-HasRoom :
        {limit : ℤ} (s : FrameOutput) (i : Moment E × Option (HydrodynamicsFrame F))
        → HasRoom limit s.registry
        → HasRoom limit (process_frame std s i).registry
    unfolding process_frame
    process_frame-HasRoom s (m, none) v = v
    process_frame-HasRoom s (m, some h) v =
        deliver-HasRoom (serialize_frame std s m h).0 (serialize_frame std s m h).1 m
          (rw (serialize_frame-registry s m h) v)

    pub process_loop-HasRoom :
        {limit : ℤ} (inputs : List (Moment E × Option (HydrodynamicsFrame F))) (s : FrameOutput)
        → HasRoom limit s.registry
        → HasRoom limit (process_loop std s inputs).registry
    unfolding process_loop
    process_loop-HasRoom [] s v = v
    process_loop-HasRoom (i ∷ rest) s v =
        process_loop-HasRoom rest (process_frame std s i) (process_frame-HasRoom s i v)

  after_open-registry :
      (r : FrameOutput × Option E) (listen : Option E)
      → (after_open r listen).0.registry ≡ r.0.registry
  unfolding after_open start_tcp_server
  after_open-registry (o, some e) listen = refl
  after_open-registry (o, none) listen = ground arith

  open_file-registry :
      (file_dir : String → String) (o : FrameOutput) (a : Opening E)
      → (open_file file_dir o a).0.registry ≡ o.registry
  unfolding open_file open_csv safe_close_file
  open_file-registry file_dir o a = ground arith

  pub start-registry :
      (file_dir : String → String) (o : FrameOutput) (a : Opening E) (listen : Option E)
      → (start file_dir o a listen).0.registry ≡ o.registry
  unfolding start
  start-registry file_dir o a listen =
      let o' = record o { running = true; stopped = false } in
      ground (
        arith,
        after_open-registry (o', none) listen,
        after_open-registry (open_file file_dir o' a) listen,
        open_file-registry file_dir o' a,
      )
