-- ===== src/App/Stats.antt =====
-- cmd/gateway/main.go: `printStats` and `statsLoop`. What is printed is a record of the numbers; the count of the
-- recovered panics, which belongs to the process, and the reading half of the serial gateway are arguments.
use thermal_recovery_flow.Base.{ℕ, Option, none, some, List, [], ◌∷◌, if◌then◌else◌}
use thermal_recovery_flow.Base.Float.{Float}
use thermal_recovery_flow.Protocol.Stream as Stream
use thermal_recovery_flow.Driftflux.Loop.{SolverStats}
use thermal_recovery_flow.Choke.Interceptor as Interceptor
use thermal_recovery_flow.Frame.Output as Output
use thermal_recovery_flow.Gateway.Serial.{SerialGateway, get_stats as serial_stats}
use thermal_recovery_flow.Gateway.Serial.Port.{SerialPort}
use thermal_recovery_flow.Gateway.Tcp.{TcpGateway, get_connection_count}
use thermal_recovery_flow.Pipeline as Pipe
use thermal_recovery_flow.App.{GatewayApp}

-- The numbers in the order of the lines, of which each is one line.
pub record Statistics (F : Type 0) : Type 0 where
  pub tcp_connections : ℕ
  pub tcp_clients : ℕ
  -- Total, invalid, noise filtered.
  pub decoder : ℕ × ℕ × ℕ
  -- Frames, bytes, errors.
  pub serial : ℕ × ℕ × ℕ
  -- Raw, decoded, frames.
  pub backlog : ℕ × ℕ × ℕ
  -- Decoded, frames, errors.
  pub dropped : ℕ × ℕ × ℕ
  pub solver : SolverStats F
  -- Frames, bytes.
  pub output : ℕ × ℕ
  -- Frames, overrides, lockdowns, opening.
  pub choke : ℕ × ℕ × ℕ × F
  pub panics : ℕ

unfoldable pub connections_of : Option TcpGateway → ℕ
connections_of none = 0
connections_of (some g) = get_connection_count g

serial_of : Option SerialPort → SerialGateway → ℕ × ℕ × ℕ
serial_of none reading = (0, 0, 0)
serial_of (some s) reading = serial_stats reading

module _ {E F : Type 0} ⦃o : Float F⦄ where
  unfoldable pub print_stats : GatewayApp E F → SerialGateway → ℕ → Statistics F
  unfolding connections_of serial_of
  print_stats app reading panics =
      let (frames_written, bytes_written, tcp_clients) = Output.get_stats app.frame_out in
      let (frames, overrides, lockdowns) = Interceptor.get_stats (app.choke_interceptor.1) in
      record {
        tcp_connections = connections_of app.tcp_gateway;
        tcp_clients = tcp_clients;
        decoder = Stream.get_stats app.pipeline.decoder;
        serial = serial_of app.serial_gw reading;
        backlog = Pipe.get_stats app.pipeline;
        dropped = Pipe.get_drop_stats app.pipeline;
        solver = app.solver.stats;
        output = (frames_written, bytes_written);
        choke = (frames, overrides, lockdowns, app.choke_interceptor.1.current_opening);
        panics = panics;
      }

  -- `statsLoop`, with the components and the panics so far at each tick: it ends at the first tick after `stop` has
  -- begun.
  pub stats_loop : List (GatewayApp E F × SerialGateway × ℕ) → List (Statistics F)
  unfolding print_stats
  stats_loop [] = []
  stats_loop ((app, reading, panics) ∷ rest) =
      let rest' = stats_loop rest in
      if app.shutdown then [] else print_stats app reading panics ∷ rest'
