-- ===== src/App/Run/Limits.antt =====
-- cmd/gateway/main.go: the limits that the printed numbers keep.
use Prim.Native.String.{String}
use thermal_recovery_flow.Base.{
  ℕ, ◌+◌, ◌^◌, ◌<◌, ◌≤◌, ◌≡◌, refl, ap, ◌∙◌, Option, none, some, arith, All, length,
}
use thermal_recovery_flow.Base.Int.{pos, ◌≤ℤ◌}
use thermal_recovery_flow.Base.Float.{Float}
use thermal_recovery_flow.Frame.{Formats, default_max_output_clients}
use thermal_recovery_flow.Frame.Clients.Interleaved.{act_all-IsRegistry, act_all-limit}
use thermal_recovery_flow.Frame.Output as Output
use thermal_recovery_flow.Frame.Output.{FrameOutput}
use thermal_recovery_flow.Frame.Output.Limits.{
  HasRoom, new_frame_output-HasRoom, process_loop-HasRoom, start-registry,
}
use thermal_recovery_flow.Gateway.Serial.{SerialGateway}
use thermal_recovery_flow.Gateway.Tcp.{TcpGateway}
use thermal_recovery_flow.Pipeline.Flags.{
  sizes as channel_sizes, start-sizes, new_pipeline-sizes, IsOpen, new_pipeline-IsOpen,
  start-IsOpen, settings-IsOpen,
}
use thermal_recovery_flow.Choke.Interceptor as Interceptor
use thermal_recovery_flow.Pipeline.{default_pipeline_config}
use thermal_recovery_flow.Pipeline as Pipe
use thermal_recovery_flow.Driftflux.Loop.Lifetime as Solver
use thermal_recovery_flow.App.Samples.{
  StepBytes, IsShared, steps, arriving, steps-settings, steps-IsShared,
}
use thermal_recovery_flow.App.Run.Work.{new_pipeline-IsShared, start-IsShared, start-IsFresh}
use thermal_recovery_flow.Config.{Config}
use thermal_recovery_flow.App.{GatewayApp, app_of, output_cfg}
use thermal_recovery_flow.App.Run.{
  Answers, Life, start_tcp, start_workers, after_tcp, start_gateways, after_output, start, live,
}
use thermal_recovery_flow.App.Run.Up.{IfThere}
use thermal_recovery_flow.App.Run.Shutdown.{lived}
use thermal_recovery_flow.App.Watch.{shown, hand_out-split}
use thermal_recovery_flow.App.Stats.{Statistics, print_stats}
use thermal_recovery_flow.App.Run.Connections.{
  connection_limit, IsLimited, start_tcp-IsLimited, act_all-IfThere, connections-le, clients-le,
  limit-nonneg, tcp_gateway_of-IsLimited,
}

module _ {F : Type 0} where
  -- The numbers that are printed, with this configuration and size of the channels: connections and clients stay
  -- within their limits and the backlogs within their channels, and backlogs and drops together are no more than
  -- what has come into the channels.
  pub record IsWithin (cfg : Config F) (size n : ℕ) (s : Statistics F) : Type 0 where
    pub connections : pos s.tcp_connections ≤ℤ connection_limit cfg.tcp.max_connections
    pub clients : pos s.tcp_clients ≤ℤ default_max_output_clients
    pub raw : s.backlog.0 ≤ default_pipeline_config.raw_buffer_size
    pub decoded : s.backlog.1 ≤ size
    pub frames : s.backlog.2 ≤ size
    pub total :
        s.backlog.0 + s.backlog.1 + s.backlog.2 + (s.dropped.0 + s.dropped.1 + s.dropped.2) ≤ n

zero_left : (n : ℕ) → 0 + n ≡ n
zero_left n = omega arith

module _ {E F : Type 0} ⦃o : Float F⦄ where
  -- No component has more than the configuration gives it room for, with channels of this size, when the
  -- pipeline has taken in `n` sequences of bytes, and `Input()` is open.
  record IsOrderly (cfg : Config F) (size : ℕ) (app : GatewayApp E F) (n : ℕ) : Type 0 where
    pub tcp : IfThere (IsLimited (connection_limit cfg.tcp.max_connections)) app.tcp_gateway
    pub shared : IsShared app.pipeline app.solver n
    pub open_input : IsOpen app.pipeline
    pub sizes : channel_sizes app.pipeline ≡ (default_pipeline_config.raw_buffer_size, size, size)
    pub clients : HasRoom default_max_output_clients app.frame_out.registry

  app_of-IsOrderly :
      (cfg : Config F) (seq size : ℕ) → IsOrderly cfg size (app_of {E = E} cfg seq size) 0
  unfolding app_of output_cfg
  app_of-IsOrderly cfg seq size = record {
    tcp = tcp_gateway_of-IsLimited cfg;
    shared = new_pipeline-IsShared _ _ _ _ _ _;
    open_input = new_pipeline-IsOpen _ _ _ _ _;
    sizes = new_pipeline-sizes _ _ _ _ _;
    clients = new_frame_output-HasRoom _ refl;
  }

  after_tcp-IsOrderly :
      {cfg : Config F} {size : ℕ} (app : GatewayApp E F) (r : Option TcpGateway × Option E)
      (opened : Option E) (n : ℕ)
      → IsOrderly cfg size app n
      → IfThere (IsLimited (connection_limit cfg.tcp.max_connections)) (r.0)
      → IsOrderly cfg size (after_tcp app r opened).0 n
  unfolding after_tcp
  after_tcp-IsOrderly app (tcp, some x) opened n v w = record {
    tcp = w;
    shared = v.shared;
    open_input = v.open_input;
    sizes = v.sizes;
    clients = v.clients;
  }
  after_tcp-IsOrderly app (tcp, none) opened n v w = record {
    tcp = w;
    shared = v.shared;
    open_input = v.open_input;
    sizes = v.sizes;
    clients = v.clients;
  }

  after_output-IsOrderly :
      {cfg : Config F} {size : ℕ} (app : GatewayApp E F) (r : FrameOutput × Option E)
      (w : Answers E) (n : ℕ)
      → IsOrderly cfg size app n
      → HasRoom default_max_output_clients r.0.registry
      → IsOrderly cfg size (after_output app r w).0 n
  unfolding after_output start_gateways start_workers
  after_output-IsOrderly app (out, some x) w n v c = record {
    tcp = v.tcp;
    shared = v.shared;
    open_input = v.open_input;
    sizes = v.sizes;
    clients = c;
  }
  after_output-IsOrderly {cfg} {size} app (out, none) w n v c =
      let app' = start_workers (record app { frame_out = out }) in
      let v' : IsOrderly cfg size app' n = record {
        tcp = v.tcp;
        shared = start-IsShared app.pipeline app.solver n v.shared;
        open_input = start-IsOpen app.pipeline v.open_input;
        sizes = start-sizes app.pipeline ∙ v.sizes;
        clients = c;
      } in
      after_tcp-IsOrderly app' (start_tcp app.cfg.tcp.enabled app.tcp_gateway w.tcp_listen)
        w.serial_open n v'
        (start_tcp-IsLimited _ app.cfg.tcp.enabled app.tcp_gateway w.tcp_listen v.tcp)

  -- `start`, with an error or without.
  start-IsOrderly :
      {cfg : Config F} {size : ℕ} (file_dir : String → String) (app : GatewayApp E F)
      (w : Answers E) (n : ℕ)
      → IsOrderly cfg size app n
      → IsOrderly cfg size (start file_dir app w).0 n
  unfolding start
  start-IsOrderly file_dir app w n v =
      after_output-IsOrderly app (Output.start file_dir app.frame_out w.opening w.output_listen) w n
        v (rw (start-registry file_dir app.frame_out w.opening w.output_listen) v.clients)

  print_stats-IsWithin :
      {cfg : Config F} {size : ℕ} (app : GatewayApp E F) (n : ℕ) (reading : SerialGateway)
      (panics : ℕ)
      → IsOrderly cfg size app n
      → IsWithin cfg size (n + Solver.sent app.solver) (print_stats app reading panics)
  unfolding print_stats Output.get_stats Pipe.get_stats Pipe.get_drop_stats Interceptor.get_stats
  print_stats-IsWithin {cfg} app n reading panics v =
      let (registry, limit) = v.clients in
      record {
        connections = connections-le _ app.tcp_gateway (limit-nonneg cfg.tcp.max_connections) v.tcp;
        clients = rw limit at (clients-le app.frame_out.registry registry);
        raw = rw (ap (λ t. t.0) v.sizes) at v.shared.pipeline.raw_fits;
        decoded = rw (ap (λ t. t.1) v.sizes) at v.shared.pipeline.decoded_fits;
        frames = rw (ap (λ t. t.2) v.sizes) at v.shared.pipeline.frames_fit;
        total = omega (arith, v.shared.pipeline.total);
      }

  module _ (std : Formats E F) where
    live-IsOrderly :
        {cfg : Config F} {size : ℕ} (app : GatewayApp E F) (l : Life E F) (n : ℕ)
        → IsOrderly cfg size app n
        → All StepBytes l.work
        → n + Solver.sent app.solver + length l.work < 2 ^ 64
        → app.solver.stats.total_frames + app.solver.stats.failed_frames + length l.work < 2 ^ 64
        → (app' : GatewayApp E F) × (live std app l ≡ some app')
          × IsOrderly cfg size app' (n + arriving (app.pipeline, app.solver) l.work)
    unfolding live
    live-IsOrderly app l n v hs room₁ room₂ =
        let (ci, e, f, k) = hand_out-split std l.frames app.frame_out (app.choke_interceptor.1) in
        let (same, same') = steps-settings l.work app.pipeline app.solver in
        (
          lived std app l ci,
          rw (e, live) refl,
          record {
            tcp = act_all-IfThere _ app.tcp_gateway l.tcp v.tcp;
            shared = steps-IsShared l.work app.pipeline app.solver n v.shared hs room₁ room₂;
            open_input =
                settings-IsOpen app.pipeline (steps (app.pipeline, app.solver) l.work).0 same
                  v.open_input;
            sizes = ap (λ t. (t.3, t.4, t.5)) same ∙ v.sizes;
            clients =
                let (v', e') =
                  process_loop-HasRoom std (shown std l.frames) app.frame_out v.clients in
                (act_all-IsRegistry l.clients _ v', act_all-limit l.clients _ ∙ e');
          },
        )

    -- Whatever `start` meets and the components meet after it, the pipeline's workers and the solver's loop in any
    -- order on the channels that they share, with bytes as input and fewer than 2 ^ 64 of their steps, the components
    -- live without a panic, neither of a worker nor at `Input()`; and in the statistics that `printStats` then prints
    -- there are no more TCP connections than the configured limit, or the default one where it is not positive, and
    -- no more output clients than the default limit, each backlog fits the channel that `init` has made, and the
    -- backlogs and the drops together are no more than the sequences of bytes that the pipeline has taken in and the
    -- frames and errors that the solver's loop has put into the channels.
    pub live-IsWithin :
        (file_dir : String → String) (cfg : Config F) (seq size : ℕ) (w : Answers E) (l : Life E F)
        (reading : SerialGateway) (panics : ℕ)
        → All StepBytes l.work
        → length l.work < 2 ^ 64
        → let started = (start file_dir (app_of cfg seq size) w).0 in
          (app : GatewayApp E F) × (live std started l ≡ some app)
          × (app.pipeline.panics ≡ 0)
          × (app.pipeline.input_panics ≡ 0)
          × IsWithin cfg size
              (arriving (started.pipeline, started.solver) l.work + Solver.sent app.solver)
              (print_stats app reading panics)
    live-IsWithin file_dir cfg seq size w l reading panics hs room =
        let started = (start file_dir (app_of cfg seq size) w).0 in
        let (sent, counted) = start-IsFresh file_dir cfg seq size w in
        let (app, lives, v) =
          live-IsOrderly started l 0
            (start-IsOrderly file_dir (app_of cfg seq size) w 0 (app_of-IsOrderly cfg seq size)) hs
            (omega (arith, room, sent)) (omega (arith, room, counted)) in
        let n = arriving (started.pipeline, started.solver) l.work in
        let v' : IsOrderly cfg size app n = rw (zero_left n) at v in
        (
          app,
          lives,
          v'.shared.pipeline.calm,
          v'.open_input.1,
          print_stats-IsWithin app n reading panics v',
        )
