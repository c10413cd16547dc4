-- ===== src/App/Run/Connections.antt =====
-- cmd/gateway/main.go: the limit of the TCP gateway from the configuration on.
use thermal_recovery_flow.Base.{
  ◌≡◌, Bool, Bool-cases, inl, inr, ap, ◌∙◌, true, false, Option, none, some, List, if◌then◌else◌,
  arith,
}
use thermal_recovery_flow.Base.Int.{ℤ, pos, ◌≤ℤ◌, ltb_ℤ}
use mathlib.Core.Option.{map as map_option}
use thermal_recovery_flow.Frame.Clients.{Registry, get_client_count}
use thermal_recovery_flow.Frame.Clients.Interleaved.{IsRegistry}
use thermal_recovery_flow.Gateway.Tcp.{
  TcpGateway, get_connection_count, new_tcp_gateway, set_max_connections, set_idle_timeout,
  default_max_connections,
}
use thermal_recovery_flow.Gateway.Tcp as Gateway
use thermal_recovery_flow.Gateway.Tcp.Flags as Tcp
use thermal_recovery_flow.Gateway.Tcp.Connections.{
  IsGateway, act_all-IsGateway, set_limits-IsGateway, start-IsGateway,
}
use thermal_recovery_flow.Config.{Config}
use thermal_recovery_flow.App.{tcp_gateway_of, milliseconds}
use thermal_recovery_flow.App.Run.{start_tcp}
use thermal_recovery_flow.App.Run.Up.{IfThere}
use thermal_recovery_flow.App.Stats.{connections_of}

-- The limit that `init` gives the TCP gateway.
pub connection_limit : ℤ → ℤ
connection_limit n = if ltb_ℤ (pos 0) n then n else default_max_connections

abbrev pub IsLimited : ℤ → TcpGateway → Type 0
IsLimited limit g = IsGateway g × (g.max_connections ≡ limit)

pub start_tcp-IsLimited :
    {E : Type 0} (limit : ℤ) (enabled : Bool) (tcp : Option TcpGateway) (listen : Option E)
    → IfThere (IsLimited limit) tcp
    → IfThere (IsLimited limit) (start_tcp enabled tcp listen).0
unfolding start_tcp
start_tcp-IsLimited limit enabled none listen v = tt
start_tcp-IsLimited limit true (some g) listen (v, e) =
    (start-IsGateway g listen v, Tcp.start-limit g listen ∙ e)
start_tcp-IsLimited limit false (some g) listen v = v

pub act_all-IfThere :
    (limit : ℤ) (tcp : Option TcpGateway) (actions : List Gateway.Action)
    → IfThere (IsLimited limit) tcp
    → IfThere (IsLimited limit) (map_option (λ g. Gateway.act_all g actions) tcp)
act_all-IfThere limit none actions v = tt
act_all-IfThere limit (some g) actions (v, e) =
    (act_all-IsGateway actions g v, ap (λ t. t.2) (Tcp.act_all-settings g actions) ∙ e)

pub connections-le :
    (limit : ℤ) (tcp : Option TcpGateway)
    → pos 0 ≤ℤ limit
    → IfThere (IsLimited limit) tcp
    → pos (connections_of tcp) ≤ℤ limit
unfolding connections_of
connections-le limit none h v = h
connections-le limit (some g) h (v, e) = rw e at (connected g v)
  where
    connected : (g : TcpGateway) → IsGateway g → pos (get_connection_count g) ≤ℤ g.max_connections
    connected g v = omega (arith, v.fits)

pub clients-le : (r : Registry) → IsRegistry r → pos (get_client_count r) ≤ℤ r.max_clients
clients-le r v = omega (arith, v.fits)

pub limit-nonneg : (n : ℤ) → pos 0 ≤ℤ connection_limit n
unfolding connection_limit
limit-nonneg n = ground arith

module _ {F : Type 0} where
  pub tcp_gateway_of-IsLimited :
      (cfg : Config F)
      → IfThere (IsLimited (connection_limit cfg.tcp.max_connections)) (tcp_gateway_of cfg)
  unfolding tcp_gateway_of connection_limit
  tcp_gateway_of-IsLimited cfg =
      let n = cfg.tcp.max_connections in
      let d = cfg.tcp.idle_timeout_ms in
      let b = ltb_ℤ (pos 0) d in
      let v = set_limits-IsGateway (ltb_ℤ (pos 0) n) b n (milliseconds d) in
      let e = Tcp.set_limits-limit b n (milliseconds d) in
      elim (Bool-cases cfg.tcp.enabled) [ inl on ↦ rw on (v, e) | inr off ↦ rw off tt ]
