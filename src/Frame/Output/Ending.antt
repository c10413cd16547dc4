-- ===== src/Frame/Output/Ending.antt =====
-- What `Stop` leaves.
use thermal_recovery_flow.Base.{
  ◌≡◌, ◌⊎◌, true, false, List, [], ◌∷◌, map, arith, refl, if◌then◌else◌, All, count_if,
}
use thermal_recovery_flow.Frame.Clients.{
  untouched, done, TcpClient, get_client_count, mark_closed, delete_client, close_client,
  cleanup_client,
}
use thermal_recovery_flow.Frame.Clients.Interleaved.{IsTracked}
use thermal_recovery_flow.Frame.Output.{FrameOutput, safe_close_file, stop}

-- No cleanup of this client is on its way.
abbrev pub IsSettled : TcpClient → Type 0
IsSettled c = IsTracked c × ((c.stage ≡ untouched) ⊎ (c.stage ≡ done))

-- The client has left the map and its connection has been closed, once.
pub record IsGone (c : TcpClient) : Type 0 where
  pub registered : c.registered ≡ false
  pub closed : c.closed ≡ true
  pub close_calls : c.close_calls ≡ 1

abbrev stop_client : TcpClient → TcpClient
stop_client c = if c.registered then cleanup_client c else c

stop_client-IsGone : (c : TcpClient) → IsSettled c → IsGone (stop_client c)
unfolding cleanup_client mark_closed delete_client close_client
stop_client-IsGone c v = ground arith

stop_clients-IsGone : (cs : List TcpClient) → All IsSettled cs → All IsGone (map stop_client cs)
stop_clients-IsGone [] v = tt
stop_clients-IsGone (c ∷ cs) (v, vs) = (stop_client-IsGone c v, stop_clients-IsGone cs vs)

IsGone-count : (cs : List TcpClient) → All IsGone cs → count_if (λ c. c.registered) cs ≡ 0
IsGone-count [] v = refl
IsGone-count (c ∷ cs) (v, vs) = ground (arith, IsGone-count cs vs)

pub record IsStopped (o : FrameOutput) : Type 0 where
  pub running : o.running ≡ false
  pub listener : o.tcp_listener ≡ false
  pub file : o.file_closed ≡ true
  pub clients : All IsGone o.registry.tcp_clients
  pub count : get_client_count o.registry ≡ 0

-- The output when `Stop` comes to the file.
abbrev halted : FrameOutput → FrameOutput
halted o = record o {
  running = false;
  stopped = true;
  tcp_listener = false;
  registry = record (o.registry) { tcp_clients = map stop_client o.registry.tcp_clients };
}

stop-running :
    (o : FrameOutput) → o.running ≡ true → o.stopped ≡ false → stop o ≡ safe_close_file (halted o)
unfolding stop
stop-running o h k = ground arith

stop-idle : (o : FrameOutput) → o.running ≡ false → stop o ≡ o
unfolding stop
stop-idle o h = ground arith

safe_close_file-IsStopped :
    (o : FrameOutput)
    → o.running ≡ false
    → o.tcp_listener ≡ false
    → All IsGone o.registry.tcp_clients
    → IsStopped (safe_close_file o)
unfolding safe_close_file
safe_close_file-IsStopped o h k v =
    let none_left = IsGone-count o.registry.tcp_clients v in ground arith

-- `Stop` of a running output, while no cleanup is on its way, leaves no client in the map and every
-- connection closed exactly once, with the listener gone and the file closed; a second call changes nothing.
pub stop-IsStopped :
    (o : FrameOutput)
    → o.running ≡ true
    → o.stopped ≡ false
    → All IsSettled o.registry.tcp_clients
    → IsStopped (stop o) × (stop (stop o) ≡ stop o)
stop-IsStopped o h k v =
    let s : IsStopped (stop o) = rw (stop-running o h k) (
      safe_close_file-IsStopped (halted o) refl refl
        (stop_clients-IsGone o.registry.tcp_clients v)) in
    (s, stop-idle (stop o) s.running)
