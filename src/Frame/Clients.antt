-- ===== src/Frame/Clients.antt =====
-- internal/frame/output.go: the clients of the TCP server. A client is an object that stays in the store
-- `tcp_clients` once it is made; its place there stands for the pointer, and `registered` says whether
-- the map `o.tcpClients` has the pointer as a key. Reading from a client and logging change nothing here.
pub mod Interleaved
use Prim.Native.String.{String}
use thermal_recovery_flow.Base.{
  ℕ, ◌+◌, ◌-◌, Bool, true, false, ◌&&◌, not, Option, none, some, List, [], ◌∷◌, ◌++◌, map,
  if◌then◌else◌, ltb, length, count_if, at_place, inc64,
}
use thermal_recovery_flow.Base.Int.{ℤ, pos, leb_ℤ, ltb_ℤ}

-- How far `cleanupClient` is with a client: not called, past the exchange of `closed`, past the
-- deletion from the map, past the closing of the connection.
pub data Stage : Type 0 where
  untouched marked deleted done : Stage

pub record TcpClient : Type 0 where
  pub remote_addr : String
  pub last_active : ℕ
  pub registered : Bool
  pub closed : Bool
  pub stage : Stage
  -- The calls of `conn.Close`.
  pub close_calls : ℕ
  -- What `conn.Write` has taken.
  pub received : List ℕ

-- The part of FrameOutput that the goroutines of the server share. `accepting` is a connection that
-- `acceptTCPClients` has let in and not yet put in the map.
pub record Registry : Type 0 where
  pub max_clients : ℤ
  pub tcp_clients : List TcpClient
  pub accepting : Option (String × ℕ)
  -- The connections that were closed at once.
  pub rejected : ℕ
  pub broadcast_dropped : ℕ
  pub client_accept_errors : ℕ

-- `GetClientCount`.
abbrev pub get_client_count : Registry → ℕ
get_client_count r = count_if (λ c. c.registered) r.tcp_clients

-- `acceptTCPClients` after a call of `Accept` that fails, and whether it then waits.
pub accept_error : Registry → Registry × Bool
accept_error r =
    let failures = inc64 r.client_accept_errors in
    (record r { client_accept_errors = failures }, ltb 10 failures)

-- `acceptTCPClients` up to the test of the limit, for a connection that was accepted.
pub accept_check : Registry → String → ℕ → Registry
accept_check r addr now =
    let r' : Registry = record r { client_accept_errors = 0 } in
    if leb_ℤ r.max_clients (pos (get_client_count r))
    then record r' { rejected = r.rejected + 1 }
    else record r' { accepting = some (addr, now) }

abbrev new_client : String × ℕ → TcpClient
new_client (addr, now) = record {
  remote_addr = addr;
  last_active = now;
  registered = true;
  closed = false;
  stage = untouched;
  close_calls = 0;
  received = [];
}

-- The rest of its round: the client enters the map.
pub accept_add : Registry → Registry
accept_add r = elim (r.accepting) [
  | none ↦ r
  | some conn ↦ record r { tcp_clients = r.tcp_clients ++ new_client conn ∷ []; accepting = none }
]

-- The three actions of `cleanupClient`: the exchange of `closed`, which ends the call for all callers
-- but the first, the deletion under the lock, and the closing of the connection.
unfoldable pub mark_closed : TcpClient → TcpClient
mark_closed c = if c.closed then c else record c { closed = true; stage = marked }

unfoldable pub delete_client : TcpClient → TcpClient
delete_client c = elim (c.stage) [
  | marked ↦ record c { registered = false; stage = deleted }
  | _ ↦ c
]

unfoldable pub close_client : TcpClient → TcpClient
close_client c = elim (c.stage) [
  | deleted ↦ record c { close_calls = c.close_calls + 1; stage = done }
  | _ ↦ c
]

-- `cleanupClient` in one piece.
unfoldable pub cleanup_client : TcpClient → TcpClient
unfolding mark_closed delete_client close_client
cleanup_client c = if c.closed then c else close_client (delete_client (mark_closed c))

-- The body of the loop of `broadcastToTCPClients` up to the cleanup, with the error of `conn.Write`
-- and the time: the client afterwards, and whether it is to be cleaned up.
unfoldable pub write_client : List ℕ → Bool → ℕ → TcpClient → TcpClient × Bool
write_client bytes fails now c =
    if c.closed
    then (c, false)
    else if fails
    then (c, true)
    else (record c { received = c.received ++ bytes; last_active = now }, false)

-- What a round of `monitorTCPClient` meets.
pub data Monitored : Type 0 where
  context_done deadline_refused read_failed : Monitored
  timed_out received_bytes : (now : ℕ) → Monitored

-- A round of its loop, and whether the loop goes on.
pub monitor_round : ℤ → TcpClient → Monitored → TcpClient × Bool
monitor_round idle_timeout c context_done = (c, false)
monitor_round idle_timeout c deadline_refused = (c, false)
monitor_round idle_timeout c read_failed = (c, false)
monitor_round idle_timeout c (timed_out now) =
    (c, not (ltb_ℤ (pos 0) idle_timeout && ltb_ℤ idle_timeout (pos (now - c.last_active))))
monitor_round idle_timeout c (received_bytes now) = (record c { last_active = now }, true)

-- `monitorTCPClient`: its loop, and the cleanup at the end.
pub monitor_client : ℤ → TcpClient → List Monitored → TcpClient
unfolding monitor_round cleanup_client
monitor_client idle_timeout c [] = c
monitor_client idle_timeout c (e ∷ rest) =
    let (c', goes_on) = monitor_round idle_timeout c e in
    let later = monitor_client idle_timeout c' rest in if goes_on then later else cleanup_client c'

-- The actions that the goroutines interleave: the one that accepts, the monitors of the clients, the one
-- that broadcasts and the one that stops.
pub data Action : Type 0 where
  accept_fails : Action
  accept_checks : String → ℕ → Action
  accept_adds : Action
  marks deletes closes : (client : ℕ) → Action
  writes : (client : ℕ) (bytes : List ℕ) (fails : Bool) (now : ℕ) → Action
  drops_counted : Action

pub on_client : Registry → ℕ → (TcpClient → TcpClient) → Registry
on_client r i f = record r { tcp_clients = at_place i f r.tcp_clients }

-- The accepting goroutine looks at the next connection when it is done with the last one.
pub act : Registry → Action → Registry
unfolding accept_error accept_check accept_add mark_closed delete_client close_client write_client
    on_client
act r accept_fails = (accept_error r).0
act r (accept_checks addr now) = elim (r.accepting) [
  | none ↦ accept_check r addr now
  | some conn ↦ r
]
act r accept_adds = accept_add r
act r (marks i) = on_client r i mark_closed
act r (deletes i) = on_client r i delete_client
act r (closes i) = on_client r i close_client
act r (writes i bytes fails now) = on_client r i (λ c. (write_client bytes fails now c).0)
act r drops_counted = record r { broadcast_dropped = inc64 r.broadcast_dropped }

pub act_all : Registry → List Action → Registry
unfolding act
act_all r [] = r
act_all r (a ∷ rest) = act_all (act r a) rest
