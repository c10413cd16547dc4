-- ===== src/Gateway/Tcp/Lost.antt =====
-- A client that connects again while its last connection is cleaned up.
use Prim.Native.String.{String}
use thermal_recovery_flow.Base.{
  ℕ, ◌≡◌, refl, false, none, some, List, [], ◌∷◌, ◌++◌, arith, length, get_elem?, get_elem?-append,
  get_elem?-at_place_append,
}
use thermal_recovery_flow.Base.Int.{pos, leb_ℤ}
use thermal_recovery_flow.Gateway.Tcp.{
  hung_up, TcpConnection, TcpGateway, get_connection_count, lookup, put, delete, accept_check,
  accept_add, new_connection, finish, delete_connection, on_connection, accept_checks, accept_adds,
  deletes, act, act_all,
}

lookup-delete : (addr : String) (m : List (String × ℕ)) → lookup addr (delete addr m) ≡ none
unfolding lookup delete
lookup-delete addr [] = refl
lookup-delete addr ((a, j) ∷ rest) = ground (arith, lookup-delete addr rest)

-- The accepting of one connection, in one piece.
let_in : (g : TcpGateway) (addr : String) (now : ℕ) → TcpGateway
let_in g addr now = record g {
  accept_errors = 0;
  objects = g.objects ++ new_connection (addr, now) ∷ [];
  connections = put addr (length g.objects) g.connections;
  accepting = none;
}

accepts-let_in :
    (g : TcpGateway) (addr : String) (now : ℕ)
    → g.accepting ≡ none
    → leb_ℤ g.max_connections (pos (get_connection_count g)) ≡ false
    → act (act g (accept_checks addr now)) accept_adds ≡ let_in g addr now
unfolding act accept_add accept_check let_in
accepts-let_in g addr now free room = ground arith

delete-let_in :
    (g : TcpGateway) (i : ℕ) (c : TcpConnection) (now : ℕ)
    → get_elem? g.objects i ≡ some c
    → c.stage ≡ hung_up
    → let g' = delete_connection (let_in g c.remote_addr now) i in
      (lookup c.remote_addr g'.connections ≡ none)
      × (get_elem? g'.objects (length g.objects) ≡ some (new_connection (c.remote_addr, now)))
unfolding delete_connection let_in on_connection
delete-let_in g i c now found closing =
    let new = new_connection (c.remote_addr, now) in
    ground (
      arith,
      get_elem?-append i g.objects (new ∷ []) c found,
      get_elem?-at_place_append finish i g.objects c new found,
      lookup-delete c.remote_addr (put c.remote_addr (length g.objects) g.connections),
    )

delete_act :
    (g : TcpGateway) (i : ℕ) (c : TcpConnection) (now : ℕ)
    → get_elem? g.objects i ≡ some c
    → c.stage ≡ hung_up
    → let g' = act (let_in g c.remote_addr now) (deletes i) in
      (lookup c.remote_addr g'.connections ≡ none)
      × (get_elem? g'.objects (length g.objects) ≡ some (new_connection (c.remote_addr, now)))
unfolding act
delete_act = delete-let_in

-- When a client connects again from an address whose last connection is closed and not yet deleted from the
-- map, and the limit leaves room, that deletion takes the new connection out of the map: it is open, and no
-- count, broadcast or `Stop` finds it.
pub lost_connection :
    (g : TcpGateway) (i : ℕ) (c : TcpConnection) (now : ℕ)
    → get_elem? g.objects i ≡ some c
    → c.stage ≡ hung_up
    → g.accepting ≡ none
    → leb_ℤ g.max_connections (pos (get_connection_count g)) ≡ false
    → let g' = act_all g (accept_checks c.remote_addr now ∷ accept_adds ∷ deletes i ∷ []) in
      (lookup c.remote_addr g'.connections ≡ none)
      × (get_elem? g'.objects (length g.objects) ≡ some (new_connection (c.remote_addr, now)))
unfolding act_all
lost_connection g i c now found closing free room =
    rw (accepts-let_in g c.remote_addr now free room) (delete_act g i c now found closing)
