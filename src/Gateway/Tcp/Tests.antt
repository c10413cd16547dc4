-- ===== src/Gateway/Tcp/Tests.antt =====
-- The theorems at a gateway that a client leaves.
use Prim.Native.String.{String}
use mathlib.Core.List.{Permᴰ}
use thermal_recovery_flow.Base.{
  ℕ, ◌==◌, refl, true, false, none, some, List, [], ◌∷◌, ◌≡◌, arith, get_elem?,
}
use thermal_recovery_flow.Base.Int.{pos}
use thermal_recovery_flow.Gateway.Tcp.{
  TcpConnection, TcpGateway, hung_up, lookup, new_connection, Action, accept_checks, accept_adds,
  marks, hangs_up, deletes, writes, act_all, broadcast_to, broadcast, cleanup_all, stop,
}
use thermal_recovery_flow.Gateway.Tcp.Connections.{IsGateway, act_all-IsGateway}
use thermal_recovery_flow.Gateway.Tcp.Order.Loops.{broadcast-any_order}
use thermal_recovery_flow.Gateway.Tcp.Lost.{lost_connection}

abbrev a_connection : TcpConnection
a_connection = record {
  remote_addr = "10.0.0.7:4001";
  last_active = 0;
  closed = true;
  stage = hung_up;
  close_calls = 1;
  written = [];
}

abbrev a_gateway : TcpGateway
a_gateway = record {
  max_connections = pos 2;
  idle_timeout = pos 9;
  listening = true;
  running = true;
  objects = a_connection ∷ [];
  connections = ("10.0.0.7:4001", 0) ∷ [];
  accepting = none;
  raw_data_chan = [];
  accept_errors = 0;
}

a_gateway-IsGateway : IsGateway a_gateway
a_gateway-IsGateway = record {
  tracked = (record { closed = refl; close_calls = refl }, tt);
  fits = omega arith;
}

abbrev some_actions : List Action
some_actions =
    accept_checks "10.0.0.8:4001" 3
    ∷ deletes 0
    ∷ accept_adds
    ∷ marks 1
    ∷ writes 1 (1 ∷ []) true 4
    ∷ accept_checks "10.0.0.9:4001" 5
    ∷ hangs_up 1
    ∷ accept_adds
    ∷ []

act_all-IsGateway_example : IsGateway (act_all a_gateway some_actions)
act_all-IsGateway_example = act_all-IsGateway some_actions a_gateway a_gateway-IsGateway

lost_connection_example :
    let g' = act_all a_gateway (accept_checks "10.0.0.7:4001" 8 ∷ accept_adds ∷ deletes 0 ∷ []) in
    (lookup "10.0.0.7:4001" g'.connections ≡ none)
    × (get_elem? g'.objects 1 ≡ some (new_connection ("10.0.0.7:4001", 8)))
lost_connection_example = lost_connection a_gateway 0 a_connection 8 refl refl refl refl

-- Two clients; writing to the second one fails.
abbrev two_clients : TcpGateway
two_clients = record a_gateway {
  objects = new_connection ("10.0.0.7:4001", 3) ∷ new_connection ("10.0.0.8:4001", 4) ∷ [];
  connections = ("10.0.0.7:4001", 0) ∷ ("10.0.0.8:4001", 1) ∷ [];
}

broadcast-any_order_example :
    let order : List (String × ℕ) = ("10.0.0.8:4001", 1) ∷ ("10.0.0.7:4001", 0) ∷ [] in
    (broadcast_to two_clients (1 ∷ 2 ∷ []) (λ i. i == 1) 9 order
      ≡ broadcast two_clients (1 ∷ 2 ∷ []) (λ i. i == 1) 9)
    × (cleanup_all (record two_clients { listening = false; running = false }) order
        ≡ stop two_clients)
broadcast-any_order_example =
    broadcast-any_order two_clients (1 ∷ 2 ∷ []) (λ i. i == 1) 9
      (("10.0.0.8:4001", 1) ∷ ("10.0.0.7:4001", 0) ∷ []) (Permᴰ.swap refl refl) refl
