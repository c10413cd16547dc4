-- ===== src/Gateway/Tcp/Connections.antt =====
-- The connections of the TCP gateway under every interleaving of its goroutines.
use Prim.Native.String.{String}
use thermal_recovery_flow.Base.{
  ℕ, ◌+◌, ◌≤◌, ◌≡◌, refl, Bool, true, false, Option, none, some, List, [], ◌∷◌, ◌++◌, arith,
  if◌then◌else◌, length, get_elem?, All, All-append, at_place-All,
}
use thermal_recovery_flow.Base.Int.{ℤ, pos, ◌≤ℤ◌}
use thermal_recovery_flow.Gateway.Tcp.{
  new_tcp_gateway, set_max_connections, set_idle_timeout, start, Stage, untouched, marked, hung_up,
  done, TcpConnection, TcpGateway, get_connection_count, put, delete, accept_error, accept_check,
  accept_add, new_connection, mark_closed, hang_up, finish, is_hung_up, delete_connection,
  write_connection, on_connection, Action, accept_fails, accept_checks, accept_adds, marks,
  hangs_up, deletes, writes, act, act_all,
}

abbrev is_open : Stage → Bool
is_open untouched = true
is_open marked = false
is_open hung_up = false
is_open done = false

abbrev times_closed : Stage → ℕ
times_closed untouched = 0
times_closed marked = 0
times_closed hung_up = 1
times_closed done = 1

-- A connection is closed once, by the first cleanup.
pub record IsTracked (c : TcpConnection) : Type 0 where
  pub closed : (if c.closed then false else true) ≡ is_open c.stage
  pub close_calls : c.close_calls ≡ times_closed c.stage

abbrev on_its_way {ℓ} : {A : Type ℓ} → Option A → ℕ
on_its_way none = 0
on_its_way (some _) = 1

pub record IsGateway (g : TcpGateway) : Type 0 where
  pub tracked : All IsTracked g.objects
  pub fits : pos (get_connection_count g + on_its_way g.accepting) ≤ℤ g.max_connections

length-put : (addr : String) (i : ℕ) (m : List (String × ℕ)) → length (put addr i m) ≤ length m + 1
unfolding put
length-put addr i [] = omega arith
length-put addr i ((a, j) ∷ rest) = ground (arith, length-put addr i rest)

length-delete : (addr : String) (m : List (String × ℕ)) → length (delete addr m) ≤ length m
unfolding delete
length-delete addr [] = omega arith
length-delete addr ((a, j) ∷ rest) = ground (arith, length-delete addr rest)

on_connection-IsGateway :
    (f : TcpConnection → TcpConnection)
    → ((c : TcpConnection) → IsTracked c → IsTracked (f c))
    → (g : TcpGateway) (i : ℕ) → IsGateway g
    → IsGateway (on_connection g i f)
unfolding on_connection
on_connection-IsGateway f keep g i v = record {
  tracked = at_place-All f IsTracked keep i g.objects v.tracked;
  fits = v.fits;
}

mark_closed-IsTracked : (c : TcpConnection) → IsTracked c → IsTracked (mark_closed c)
unfolding mark_closed
mark_closed-IsTracked c v = ground arith

hang_up-IsTracked : (c : TcpConnection) → IsTracked c → IsTracked (hang_up c)
unfolding hang_up
hang_up-IsTracked c v = ground arith

finish-IsTracked : (c : TcpConnection) → IsTracked c → IsTracked (finish c)
unfolding finish
finish-IsTracked c v = ground arith

write_connection-IsTracked :
    (bytes : List ℕ) (fails : Bool) (now : ℕ) (c : TcpConnection)
    → IsTracked c
    → IsTracked (write_connection bytes fails now c).0
unfolding write_connection
write_connection-IsTracked bytes fails now c v = ground arith

either-IsGateway :
    (b : Bool) {g h : TcpGateway} → IsGateway g → IsGateway h → IsGateway (if b then g else h)
either-IsGateway true v w = v
either-IsGateway false v w = w

deleted-IsGateway :
    (g : TcpGateway) (i : ℕ) (addr : String)
    → IsGateway g
    → IsGateway (record (on_connection g i finish) { connections = delete addr g.connections })
unfolding on_connection
deleted-IsGateway g i addr v = record {
  tracked = at_place-All finish IsTracked finish-IsTracked i g.objects v.tracked;
  fits = omega (arith, length-delete addr g.connections, v.fits);
}

delete_found-IsGateway :
    (g : TcpGateway) (i : ℕ) (found : Option TcpConnection)
    → IsGateway g
    → IsGateway (elim found [
      | none ↦ g
      | some c ↦
          if is_hung_up c.stage
          then record (on_connection g i finish) {
            connections = delete c.remote_addr g.connections;
          }
          else g
    ])
delete_found-IsGateway g i none v = v
delete_found-IsGateway g i (some c) v =
    either-IsGateway (is_hung_up c.stage) (deleted-IsGateway g i c.remote_addr v) v

delete_connection-IsGateway :
    (g : TcpGateway) (i : ℕ) → IsGateway g → IsGateway (delete_connection g i)
unfolding delete_connection
delete_connection-IsGateway g i v = delete_found-IsGateway g i (get_elem? g.objects i) v

accept_check-IsGateway :
    (g : TcpGateway) (addr : String) (now : ℕ) → IsGateway g → IsGateway (accept_check g addr now)
unfolding accept_check
accept_check-IsGateway g addr now v = ground arith

accept_add-IsGateway :
    (g : TcpGateway) (o : Option (String × ℕ))
    → g.accepting ≡ o
    → IsGateway g
    → IsGateway (elim o [
      | none ↦ g
      | some conn ↦ record g {
        objects = g.objects ++ new_connection conn ∷ [];
        connections = put (conn.0) (length g.objects) g.connections;
        accepting = none;
      }
    ])
accept_add-IsGateway g none free v = v
accept_add-IsGateway g (some conn) busy v = record {
  tracked = All-append IsTracked g.objects _ v.tracked (ground arith, tt);
  fits = ground (arith, length-put (conn.0) (length g.objects) g.connections, v.fits);
}

act-IsGateway : (g : TcpGateway) (a : Action) → IsGateway g → IsGateway (act g a)
unfolding act accept_error accept_add
act-IsGateway g accept_fails v = record { tracked = v.tracked; fits = v.fits }
act-IsGateway g (accept_checks addr now) v =
    elim (g.accepting)
      as (λ o. IsGateway (elim o [ none ↦ accept_check g addr now | some conn ↦ g ])) [
        | none ↦ accept_check-IsGateway g addr now v
        | some conn ↦ v
      ]
act-IsGateway g accept_adds v = accept_add-IsGateway g g.accepting refl v
act-IsGateway g (marks i) v = on_connection-IsGateway mark_closed mark_closed-IsTracked g i v
act-IsGateway g (hangs_up i) v = on_connection-IsGateway hang_up hang_up-IsTracked g i v
act-IsGateway g (deletes i) v = delete_connection-IsGateway g i v
act-IsGateway g (writes i bytes fails now) v =
    on_connection-IsGateway (λ c. (write_connection bytes fails now c).0)
      (write_connection-IsTracked bytes fails now) g i v

-- Whatever the goroutines of the gateway do and in whatever order, the map holds no more connections than
-- the limit, with the one that is on its way into it counted, and a connection is closed at most once.
pub act_all-IsGateway :
    (actions : List Action) (g : TcpGateway) → IsGateway g → IsGateway (act_all g actions)
unfolding act_all
act_all-IsGateway [] g v = v
act_all-IsGateway (a ∷ rest) g v = act_all-IsGateway rest (act g a) (act-IsGateway g a v)

pub new_tcp_gateway-IsGateway : IsGateway new_tcp_gateway
unfolding new_tcp_gateway
new_tcp_gateway-IsGateway = record { tracked = tt; fits = ground arith }

-- A gateway without a connection, with any limits.
pub set_limits-IsGateway :
    (b c : Bool) (n d : ℤ)
    → let g = if b then set_max_connections new_tcp_gateway n else new_tcp_gateway in
      IsGateway (if c then set_idle_timeout g d else g)
unfolding new_tcp_gateway set_max_connections set_idle_timeout
set_limits-IsGateway b c n d = ground arith

pub start-IsGateway :
    {E : Type 0} (g : TcpGateway) (listen : Option E) → IsGateway g → IsGateway (start g listen).0
unfolding start
start-IsGateway g (some e) v = v
start-IsGateway g none v = record { tracked = v.tracked; fits = v.fits }
