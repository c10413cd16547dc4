-- ===== src/Frame/Clients/Interleaved.antt =====
-- The registry of clients under every interleaving of the goroutines.
use Prim.Native.String.{String}
use thermal_recovery_flow.Base.{
  ℕ, ◌+◌, ◌≤◌, ◌≡◌, refl, ◌∙◌, Bool, true, false, Option, none, some, List, [], ◌∷◌, ◌++◌, arith,
  if◌then◌else◌, All, All-append, at_place-All, count_if, count_if-at_place,
}
use thermal_recovery_flow.Base.Int.{pos, ◌≤ℤ◌}
use thermal_recovery_flow.Frame.Clients.{
  Stage, untouched, marked, deleted, done, TcpClient, Registry, get_client_count, accept_error,
  accept_check, accept_add, new_client, mark_closed, delete_client, close_client, write_client,
  on_client, Action, accept_fails, accept_checks, accept_adds, marks, deletes, closes, writes,
  drops_counted, act, act_all,
}

abbrev is_kept : Stage → Bool
is_kept untouched = true
is_kept marked = true
is_kept deleted = false
is_kept done = false

abbrev is_open : Stage → Bool
is_open untouched = true
is_open marked = false
is_open deleted = false
is_open done = false

abbrev times_closed : Stage → ℕ
times_closed untouched = 0
times_closed marked = 0
times_closed deleted = 0
times_closed done = 1

-- A client is in the map until its cleanup deletes it, and its connection is closed once, after that.
pub record IsTracked (c : TcpClient) : Type 0 where
  pub registered : c.registered ≡ is_kept c.stage
  pub closed : (if c.closed then false else true) ≡ is_open c.stage
  pub close_calls : c.close_calls ≡ times_closed c.stage

abbrev pub is_registered : TcpClient → Bool
is_registered c = c.registered

abbrev on_its_way {ℓ} : {A : Type ℓ} → Option A → ℕ
on_its_way none = 0
on_its_way (some _) = 1

pub record IsRegistry (r : Registry) : Type 0 where
  pub tracked : All IsTracked r.tcp_clients
  pub fits : pos (get_client_count r + on_its_way r.accepting) ≤ℤ r.max_clients

-- An action on one client that keeps it tracked and puts nothing in the map.
record IsCareful (f : TcpClient → TcpClient) : Type 0 where
  tracked : (c : TcpClient) → IsTracked c → IsTracked (f c)
  shrinks : (c : TcpClient) → (f c).registered ≡ true → c.registered ≡ true

IsCareful-mark : IsCareful mark_closed
unfolding mark_closed
IsCareful-mark = record { tracked = λ c v. ground arith; shrinks = λ c h. ground arith }

IsCareful-delete : IsCareful delete_client
unfolding delete_client
IsCareful-delete = record { tracked = λ c v. ground arith; shrinks = λ c h. ground arith }

IsCareful-close : IsCareful close_client
unfolding close_client
IsCareful-close = record { tracked = λ c v. ground arith; shrinks = λ c h. ground arith }

IsCareful-write :
    (bytes : List ℕ) (fails : Bool) (now : ℕ) → IsCareful (λ c. (write_client bytes fails now c).0)
unfolding write_client
IsCareful-write bytes fails now = record {
  tracked = λ c v. ground arith;
  shrinks = λ c h. ground arith;
}

on_client-IsRegistry :
    (f : TcpClient → TcpClient) (k : IsCareful f) (r : Registry) (i : ℕ)
    → IsRegistry r
    → IsRegistry (on_client r i f)
unfolding on_client
on_client-IsRegistry f k r i v = record {
  tracked = at_place-All f IsTracked k.tracked i r.tcp_clients v.tracked;
  fits = omega (arith, count_if-at_place f is_registered k.shrinks i r.tcp_clients, v.fits);
}

count-append :
    (cs : List TcpClient) (c : TcpClient)
    → count_if is_registered (cs ++ c ∷ []) ≤ count_if is_registered cs + 1
count-append [] c = ground arith
count-append (d ∷ cs) c = ground (arith, count-append cs c)

accept_check-IsRegistry :
    (r : Registry) (addr : String) (now : ℕ) → IsRegistry r → IsRegistry (accept_check r addr now)
unfolding accept_check
accept_check-IsRegistry r addr now v = ground arith

accept_add-IsRegistry :
    (r : Registry) (o : Option (String × ℕ))
    → r.accepting ≡ o
    → IsRegistry r
    → IsRegistry (elim o [
      | none ↦ r
      | some conn ↦ record r {
        tcp_clients = r.tcp_clients ++ new_client conn ∷ [];
        accepting = none;
      }
    ])
accept_add-IsRegistry r none free v = v
accept_add-IsRegistry r (some conn) busy v = record {
  tracked = All-append IsTracked r.tcp_clients _ v.tracked (ground arith, tt);
  fits = ground (arith, count-append r.tcp_clients (new_client conn), v.fits);
}

act-IsRegistry : (r : Registry) (a : Action) → IsRegistry r → IsRegistry (act r a)
unfolding act accept_error accept_add
act-IsRegistry r accept_fails v = record { tracked = v.tracked; fits = v.fits }
act-IsRegistry r (accept_checks addr now) v =
    elim (r.accepting)
      as (λ o. IsRegistry (elim o [ none ↦ accept_check r addr now | some conn ↦ r ])) [
        | none ↦ accept_check-IsRegistry r addr now v
        | some conn ↦ v
      ]
act-IsRegistry r accept_adds v = accept_add-IsRegistry r r.accepting refl v
act-IsRegistry r (marks i) v = on_client-IsRegistry mark_closed IsCareful-mark r i v
act-IsRegistry r (deletes i) v = on_client-IsRegistry delete_client IsCareful-delete r i v
act-IsRegistry r (closes i) v = on_client-IsRegistry close_client IsCareful-close r i v
act-IsRegistry r (writes i bytes fails now) v =
    on_client-IsRegistry (λ c. (write_client bytes fails now c).0) (IsCareful-write bytes fails now)
      r i v
act-IsRegistry r drops_counted v = record { tracked = v.tracked; fits = v.fits }

-- Whatever the goroutines of the server do and in whatever order, the map holds no more clients than the
-- limit, with the connection that is on its way into it counted; every client that is not closed is in
-- the map, and a connection is closed at most once, after the client has left the map.
pub act_all-IsRegistry :
    (actions : List Action) (r : Registry) → IsRegistry r → IsRegistry (act_all r actions)
unfolding act_all
act_all-IsRegistry [] r v = v
act_all-IsRegistry (a ∷ rest) r v = act_all-IsRegistry rest (act r a) (act-IsRegistry r a v)

act-limit : (r : Registry) (a : Action) → (act r a).max_clients ≡ r.max_clients
unfolding act accept_error accept_check accept_add on_client
act-limit r accept_fails = refl
act-limit r (accept_checks addr now) = ground arith
act-limit r accept_adds = ground arith
act-limit r (marks i) = refl
act-limit r (deletes i) = refl
act-limit r (closes i) = refl
act-limit r (writes i bytes fails now) = refl
act-limit r drops_counted = refl

pub act_all-limit :
    (actions : List Action) (r : Registry) → (act_all r actions).max_clients ≡ r.max_clients
unfolding act_all
act_all-limit [] r = refl
act_all-limit (a ∷ rest) r = act_all-limit rest (act r a) ∙ act-limit r a
