-- ===== src/Gateway/Tcp/Order.antt =====
-- internal/gateway/tcp.go: the loops over the map of connections, whose order Go leaves open.
pub mod Written
pub mod Loops
use Prim.Native.String.{String}
use text.Mathlib.Text.{◌==◌ as str_eq}
use mathlib.Core.List.{Permᴰ}
use thermal_recovery_flow.Base.{
  ℕ, ◌+◌, ◌≡◌, ◌≢◌, refl, sym, ap, ◌∙◌, Bool, true, false, Option, none, some, List, [], ◌∷◌, ◌++◌,
  arith, if◌then◌else◌, get_elem?, at_place, get_elem?-at_place_ne, get_elem?-at_place_self,
  at_place_comm, at_place-at_place, at_place-none, at_place-some, Option-cases, Bool-cases, inl,
  inr,
}
use thermal_recovery_flow.Gateway.Tcp.{
  TcpGateway, TcpConnection, Stage, untouched, marked, hung_up, done, delete, on_connection,
  mark_closed, hang_up, finish, is_hung_up, delete_connection, cleanup_connection, cleanup_all,
  write_connection, broadcast_at, broadcast_to, broadcast,
}

delete_comm : (a b : String) (m : List (String × ℕ)) → delete a (delete b m) ≡ delete b (delete a m)
unfolding delete
delete_comm a b [] = refl
delete_comm a b ((c, i) ∷ rest) = ground (arith, delete_comm a b rest)

-- The map after the connection that stands there has had its turn: without its address, if it passes the test.
abbrev pub without :
    (TcpConnection → Bool) → Option TcpConnection → List (String × ℕ) → List (String × ℕ)
without gone none m = m
without gone (some c) m = if gone c then delete c.remote_addr m else m

without_comm :
    (p q : TcpConnection → Bool) (c d : Option TcpConnection) (m : List (String × ℕ))
    → without p c (without q d m) ≡ without q d (without p c m)
without_comm p q none d m = refl
without_comm p q (some c) none m = refl
without_comm p q (some c) (some d) m = ground (arith, delete_comm c.remote_addr d.remote_addr m)

-- One turn: the connection at a place changes, and its address may leave the map.
abbrev pub turn :
    ℕ → (TcpConnection → TcpConnection) → (TcpConnection → Bool) → TcpGateway → TcpGateway
turn i f gone g = record g {
  objects = at_place i f g.objects;
  connections = without gone (get_elem? g.objects i) g.connections;
}

-- Turns at two places may change their order.
turn_comm :
    (i j : ℕ) (f h : TcpConnection → TcpConnection) (p q : TcpConnection → Bool) (g : TcpGateway)
    → i ≢ j
    → turn i f p (turn j h q g) ≡ turn j h q (turn i f p g)
turn_comm i j f h p q g ne =
    rw
      (
        get_elem?-at_place_ne h j i g.objects (λ e. ne (sym e)),
        get_elem?-at_place_ne f i j g.objects ne,
        at_place_comm f h i j g.objects ne,
        without_comm p q (get_elem? g.objects i) (get_elem? g.objects j) g.connections,
      )
      refl

-- `cleanupConnection` as one turn.
abbrev pub hung : TcpConnection → TcpConnection
hung c = hang_up (mark_closed c)

pub cleaned : TcpConnection → TcpConnection
cleaned c = if is_hung_up ((hung c).stage) then finish (hung c) else hung c

pub leaves : TcpConnection → Bool
leaves c = is_hung_up ((hung c).stage)

same_addr : (c : TcpConnection) → (hung c).remote_addr ≡ c.remote_addr
unfolding hang_up mark_closed
same_addr c = ground arith

-- The connection after the first two actions of `cleanupConnection`.
hung_objects :
    (g : TcpGateway) (i : ℕ)
    → at_place i hang_up (at_place i mark_closed g.objects) ≡ at_place i hung g.objects
hung_objects g i = at_place-at_place hang_up mark_closed i g.objects

delete_connection-none :
    (g : TcpGateway) (i : ℕ) → get_elem? g.objects i ≡ none → delete_connection g i ≡ g
unfolding delete_connection
delete_connection-none g i e = rw (e, delete_connection) refl

delete_connection-some :
    (g : TcpGateway) (i : ℕ) (c : TcpConnection)
    → get_elem? g.objects i ≡ some c
    → delete_connection g i ≡ (
        if is_hung_up c.stage
        then record g {
          objects = at_place i finish g.objects;
          connections = delete c.remote_addr g.connections;
        }
        else g)
unfolding delete_connection on_connection
delete_connection-some g i c e = rw (e, delete_connection) refl

cleaned_there :
    (g : TcpGateway) (i : ℕ) (c : TcpConnection) (b : Bool)
    → get_elem? g.objects i ≡ some c
    → is_hung_up ((hung c).stage) ≡ b
    → let g' : TcpGateway = record g { objects = at_place i hung g.objects } in
      (if b
        then record g' {
          objects = at_place i finish g'.objects;
          connections = delete ((hung c).remote_addr) g.connections;
        }
        else g')
      ≡ turn i cleaned leaves g
unfolding cleaned leaves
cleaned_there g i c true e h =
    rw
      (
        e,
        h,
        same_addr c,
        at_place-at_place finish hung i g.objects,
        at_place-some (λ x. finish (hung x)) cleaned i g.objects c e (rw h refl),
      )
      refl
cleaned_there g i c false e h =
    rw (e, h, at_place-some hung cleaned i g.objects c e (rw h refl)) refl

cleanup_connection-turn :
    (g : TcpGateway) (i : ℕ) → cleanup_connection g i ≡ turn i cleaned leaves g
unfolding cleanup_connection on_connection
cleanup_connection-turn g i =
    let g' : TcpGateway = record g { objects = at_place i hung g.objects } in
    rw (hung_objects g i) (elim (Option-cases (get_elem? g.objects i)) [
      | inl e ↦
          let same = at_place-none hung i g.objects e in
          delete_connection-none g' i (rw same e)
          ∙ rw (e, same, at_place-none cleaned i g.objects e) refl
      | inr (c, e) ↦
          delete_connection-some g' i (hung c) (get_elem?-at_place_self hung i g.objects c e)
          ∙ cleaned_there g i c (is_hung_up ((hung c).stage)) e refl
    ])
