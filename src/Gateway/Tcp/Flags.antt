-- ===== src/Gateway/Tcp/Flags.antt =====
-- internal/gateway/tcp.go: the connections leave the flags of the gateway to `Start` and `Stop`.
use Prim.Native.String.{String}
use thermal_recovery_flow.Base.{
  ℕ, ◌≡◌, refl, ap, ◌∙◌, if◌then◌else◌, Bool, true, false, Option, none, some, List, [], ◌∷◌, arith,
}
use thermal_recovery_flow.Base.Int.{ℤ, pos, ltb_ℤ}
use thermal_recovery_flow.Gateway.Tcp.{
  TcpGateway, Action, accept_fails, accept_checks, accept_adds, marks, hangs_up, deletes, writes,
  accept_error, accept_check, accept_add, on_connection, delete_connection, cleanup_connection,
  cleanup_all, act, act_all, start, stop, new_tcp_gateway, default_max_connections,
  set_max_connections, set_idle_timeout,
}

-- Whether the listener is open, and `running`.
abbrev pub flags : TcpGateway → Bool × Bool
flags g = (g.listening, g.running)

-- What the connections never change: these, and the limit on their number.
abbrev pub settings : TcpGateway → Bool × Bool × ℤ
settings g = (g.listening, g.running, g.max_connections)

delete_connection-settings :
    (g : TcpGateway) (i : ℕ) → settings (delete_connection g i) ≡ settings g
unfolding delete_connection on_connection
delete_connection-settings g i = ground arith

cleanup_connection-settings :
    (g : TcpGateway) (i : ℕ) → settings (cleanup_connection g i) ≡ settings g
unfolding cleanup_connection on_connection
cleanup_connection-settings g i = delete_connection-settings _ i

cleanup_all-settings :
    (g : TcpGateway) (m : List (String × ℕ)) → settings (cleanup_all g m) ≡ settings g
unfolding cleanup_all
cleanup_all-settings g [] = refl
cleanup_all-settings g ((addr, i) ∷ rest) =
    cleanup_all-settings (cleanup_connection g i) rest ∙ cleanup_connection-settings g i

act-settings : (g : TcpGateway) (a : Action) → settings (act g a) ≡ settings g
unfolding act accept_error accept_check accept_add on_connection
act-settings g accept_fails = refl
act-settings g (accept_checks addr now) = ground arith
act-settings g accept_adds = ground arith
act-settings g (marks i) = refl
act-settings g (hangs_up i) = refl
act-settings g (deletes i) = delete_connection-settings g i
act-settings g (writes i bytes fails now) = refl

pub act_all-settings :
    (g : TcpGateway) (actions : List Action) → settings (act_all g actions) ≡ settings g
unfolding act_all
act_all-settings g [] = refl
act_all-settings g (a ∷ rest) = act_all-settings (act g a) rest ∙ act-settings g a

pub act_all-flags : (g : TcpGateway) (actions : List Action) → flags (act_all g actions) ≡ flags g
act_all-flags g actions = ap (λ t. (t.0, t.1)) (act_all-settings g actions)

-- `Stop` of a gateway that listens while it runs.
pub stop-flags : (g : TcpGateway) → g.listening ≡ g.running → flags (stop g) ≡ (false, false)
unfolding stop
stop-flags g e =
    ground
      (arith, cleanup_all-settings (record g { listening = false; running = false }) g.connections)

pub new_tcp_gateway-flags : flags new_tcp_gateway ≡ (false, false)
unfolding new_tcp_gateway
new_tcp_gateway-flags = refl

pub set_max_connections-flags : (g : TcpGateway) (n : ℤ) → flags (set_max_connections g n) ≡ flags g
unfolding set_max_connections
set_max_connections-flags g n = ground arith

pub set_idle_timeout-flags : (g : TcpGateway) (d : ℤ) → flags (set_idle_timeout g d) ≡ flags g
unfolding set_idle_timeout
set_idle_timeout-flags g d = ground arith

-- A `Start` that returns no error.
pub start-flags :
    {E : Type 0} (g : TcpGateway) (listen : Option E)
    → (start g listen).1 ≡ none
    → flags (start g listen).0 ≡ (true, true)
unfolding start
start-flags g none e = refl
start-flags g (some x) e = cc

pub start-error : {E : Type 0} (g : TcpGateway) (e : E) → start g (some e) ≡ (g, some e)
unfolding start
start-error g e = refl

pub start-none : {E : Type 0} (g : TcpGateway) → (start {E = E} g none).1 ≡ none
unfolding start
start-none g = refl

pub start-limit :
    {E : Type 0} (g : TcpGateway) (listen : Option E)
    → (start g listen).0.max_connections ≡ g.max_connections
unfolding start
start-limit g none = refl
start-limit g (some e) = refl

-- A new gateway takes a limit that is positive, and has the default one otherwise.
pub set_limits-limit :
    (b : Bool) (n d : ℤ)
    → let g = if ltb_ℤ (pos 0) n then set_max_connections new_tcp_gateway n else new_tcp_gateway in
      (if b then set_idle_timeout g d else g).max_connections
      ≡ (if ltb_ℤ (pos 0) n then n else default_max_connections)
unfolding new_tcp_gateway set_max_connections set_idle_timeout
set_limits-limit b n d = ground arith
