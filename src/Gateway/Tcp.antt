-- ===== src/Gateway/Tcp.antt =====
-- internal/gateway/tcp.go: the connections of the TCP gateway. A connection is an object that stays in the
-- store `objects` once it is made, and its place there stands for the pointer; `connections` is the map from
-- addresses to pointers. Logging changes nothing here.
pub mod Connections
pub mod Handling
pub mod Lost
pub mod Flags
pub mod Order
pub mod Tests
use Prim.Native.String.{String}
use text.Mathlib.Text.{◌==◌ as str_eq}
use thermal_recovery_flow.Base.{
  ℕ, ◌+◌, ◌-◌, ◌*◌, ◌^◌, Bool, true, false, ◌&&◌, not, Option, none, some, List, [], ◌∷◌, ◌++◌,
  if◌then◌else◌, ltb, length, get_elem?, at_place, inc64,
}
use thermal_recovery_flow.Base.Int.{ℤ, pos, leb_ℤ, ltb_ℤ}

abbrev pub default_max_connections : ℤ
default_max_connections = pos 1024

-- 120 seconds in nanoseconds.
abbrev pub default_idle_timeout : ℤ
default_idle_timeout = pos (120 * 10 ^ 9)

abbrev pub accept_backoff_threshold : ℕ
accept_backoff_threshold = 10

-- How far `cleanupConnection` is: not called, past the exchange of `closed`, past the closing of the
-- connection, past the deletion from the map.
pub data Stage : Type 0 where
  untouched marked hung_up done : Stage

pub record TcpConnection : Type 0 where
  pub remote_addr : String
  pub last_active : ℕ
  pub closed : Bool
  pub stage : Stage
  -- The calls of `conn.Close`.
  pub close_calls : ℕ
  -- What `conn.Write` has taken.
  pub written : List ℕ

-- `accepting` is a connection that `acceptConnections` has let in and not yet put in the map.
pub record TcpGateway : Type 0 where
  pub max_connections : ℤ
  pub idle_timeout : ℤ
  -- Whether the listener is open.
  pub listening : Bool
  pub running : Bool
  pub objects : List TcpConnection
  pub connections : List (String × ℕ)
  pub accepting : Option (String × ℕ)
  pub raw_data_chan : List (List ℕ)
  pub accept_errors : ℕ

-- `NewTCPGateway`.
pub new_tcp_gateway : TcpGateway
new_tcp_gateway = record {
  max_connections = default_max_connections;
  idle_timeout = default_idle_timeout;
  listening = false;
  running = false;
  objects = [];
  connections = [];
  accepting = none;
  raw_data_chan = [];
  accept_errors = 0;
}

-- `SetMaxConnections` and `SetIdleTimeout`.
pub set_max_connections : TcpGateway → ℤ → TcpGateway
set_max_connections g n = if ltb_ℤ (pos 0) n then record g { max_connections = n } else g

pub set_idle_timeout : TcpGateway → ℤ → TcpGateway
set_idle_timeout g d = if ltb_ℤ (pos 0) d then record g { idle_timeout = d } else g

-- A map from addresses to places of the store.
pub lookup : String → List (String × ℕ) → Option ℕ
lookup addr [] = none
lookup addr ((a, i) ∷ rest) = if str_eq a addr then some i else lookup addr rest

pub put : String → ℕ → List (String × ℕ) → List (String × ℕ)
put addr i [] = (addr, i) ∷ []
put addr i ((a, j) ∷ rest) = if str_eq a addr then (a, i) ∷ rest else (a, j) ∷ put addr i rest

pub delete : String → List (String × ℕ) → List (String × ℕ)
delete addr [] = []
delete addr ((a, i) ∷ rest) = if str_eq a addr then delete addr rest else (a, i) ∷ delete addr rest

-- `GetConnectionCount`.
abbrev pub get_connection_count : TcpGateway → ℕ
get_connection_count g = length g.connections

-- `acceptConnections` after a call of `Accept` that fails, and whether it then waits.
pub accept_error : TcpGateway → TcpGateway × Bool
accept_error g =
    let failures = inc64 g.accept_errors in
    (record g { accept_errors = failures }, ltb accept_backoff_threshold failures)

-- `acceptConnections` up to the test of the limit, for a connection that was accepted.
pub accept_check : TcpGateway → String → ℕ → TcpGateway
accept_check g addr now =
    let g' : TcpGateway = record g { accept_errors = 0 } in
    if leb_ℤ g.max_connections (pos (get_connection_count g))
    then g'
    else record g' { accepting = some (addr, now) }

abbrev pub new_connection : String × ℕ → TcpConnection
new_connection (addr, now) = record {
  remote_addr = addr;
  last_active = now;
  closed = false;
  stage = untouched;
  close_calls = 0;
  written = [];
}

-- The rest of its round: the connection enters the map, in place of one with the same address.
pub accept_add : TcpGateway → TcpGateway
unfolding put
accept_add g = elim (g.accepting) [
  | none ↦ g
  | some conn ↦ record g {
    objects = g.objects ++ new_connection conn ∷ [];
    connections = put (conn.0) (length g.objects) g.connections;
    accepting = none;
  }
]

pub on_connection : TcpGateway → ℕ → (TcpConnection → TcpConnection) → TcpGateway
on_connection g i f = record g { objects = at_place i f g.objects }

-- The three actions of `cleanupConnection`: the exchange of `closed`, which ends the call for all callers but
-- the first, the closing of the connection, and the deletion of its address under the lock.
pub mark_closed : TcpConnection → TcpConnection
mark_closed c = if c.closed then c else record c { closed = true; stage = marked }

pub hang_up : TcpConnection → TcpConnection
hang_up c = elim (c.stage) [
  | marked ↦ record c { close_calls = c.close_calls + 1; stage = hung_up }
  | _ ↦ c
]

pub finish : TcpConnection → TcpConnection
finish c = elim (c.stage) [ hung_up ↦ record c { stage = done } | _ ↦ c ]

is_hung_up : Stage → Bool
is_hung_up hung_up = true
is_hung_up untouched = false
is_hung_up marked = false
is_hung_up done = false

pub delete_connection : TcpGateway → ℕ → TcpGateway
unfolding on_connection finish delete is_hung_up
delete_connection g i = elim (get_elem? g.objects i) [
  | none ↦ g
  | some c ↦
      if is_hung_up c.stage
      then record (on_connection g i finish) { connections = delete c.remote_addr g.connections }
      else g
]

-- `cleanupConnection` in one piece.
pub cleanup_connection : TcpGateway → ℕ → TcpGateway
unfolding on_connection mark_closed hang_up delete_connection
cleanup_connection g i =
    delete_connection (on_connection (on_connection g i mark_closed) i hang_up) i

-- The body of the loop of `Broadcast`, with the error of `conn.Write` and the time: whether the connection is
-- counted, and whether it is to be cleaned up.
pub write_connection : List ℕ → Bool → ℕ → TcpConnection → TcpConnection × Bool × Bool
write_connection bytes fails now c =
    if c.closed
    then (c, false, false)
    else if fails
    then (c, false, true)
    else (record c { written = c.written ++ bytes; last_active = now }, true, false)

-- The connection at the place, its part in a broadcast, and the count of `Broadcast` so far.
pub broadcast_at : TcpGateway → List ℕ → (ℕ → Bool) → ℕ → ℕ → TcpGateway × ℕ
unfolding write_connection cleanup_connection on_connection
broadcast_at g bytes fails now i = elim (get_elem? g.objects i) [
  | none ↦ (g, 0)
  | some c ↦
      let (c', counted, broken) = write_connection bytes (fails i) now c in
      let g' = on_connection g i (λ _. c') in
      if broken then (cleanup_connection g' i, 0) else (g', if counted then 1 else 0)
]

pub broadcast_to : TcpGateway → List ℕ → (ℕ → Bool) → ℕ → List (String × ℕ) → TcpGateway × ℕ
unfolding broadcast_at
broadcast_to g bytes fails now [] = (g, 0)
broadcast_to g bytes fails now ((addr, i) ∷ rest) =
    let (g', n) = broadcast_at g bytes fails now i in
    let (g'', m) = broadcast_to g' bytes fails now rest in (g'', n + m)

-- `Broadcast`, with the connections whose write fails.
pub broadcast : TcpGateway → List ℕ → (ℕ → Bool) → ℕ → TcpGateway × ℕ
unfolding broadcast_to
broadcast g bytes fails now = broadcast_to g bytes fails now g.connections

pub cleanup_all : TcpGateway → List (String × ℕ) → TcpGateway
unfolding cleanup_connection
cleanup_all g [] = g
cleanup_all g ((addr, i) ∷ rest) = cleanup_all (cleanup_connection g i) rest

-- `Start`, without the goroutine, with the error of `net.Listen`.
pub start {ℓ} : {E : Type ℓ} → TcpGateway → Option E → TcpGateway × Option E
start g (some e) = (g, some e)
start g none = (record g { listening = true; running = true }, none)

-- `Stop`, without the waiting for the goroutines.
pub stop : TcpGateway → TcpGateway
unfolding cleanup_all
stop g =
    if g.running
    then cleanup_all (record g { listening = false; running = false }) g.connections
    else g

-- The actions that the goroutines interleave.
pub data Action : Type 0 where
  accept_fails : Action
  accept_checks : String → ℕ → Action
  accept_adds : Action
  marks hangs_up deletes : (connection : ℕ) → Action
  writes : (connection : ℕ) (bytes : List ℕ) (fails : Bool) (now : ℕ) → Action

-- The accepting goroutine looks at the next connection when it is done with the last one.
pub act : TcpGateway → Action → TcpGateway
unfolding accept_error accept_check accept_add on_connection mark_closed hang_up delete_connection
    write_connection
act g accept_fails = (accept_error g).0
act g (accept_checks addr now) = elim (g.accepting) [
  | none ↦ accept_check g addr now
  | some conn ↦ g
]
act g accept_adds = accept_add g
act g (marks i) = on_connection g i mark_closed
act g (hangs_up i) = on_connection g i hang_up
act g (deletes i) = delete_connection g i
act g (writes i bytes fails now) = on_connection g i (λ c. (write_connection bytes fails now c).0)

pub act_all : TcpGateway → List Action → TcpGateway
unfolding act
act_all g [] = g
act_all g (a ∷ rest) = act_all (act g a) rest
