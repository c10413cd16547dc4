-- ===== src/Gateway/Tcp/Order/Written.antt =====
-- internal/gateway/tcp.go: what `Broadcast` does to one connection.
use thermal_recovery_flow.Base.{
  ℕ, ◌≡◌, refl, sym, ◌∙◌, Bool, true, false, Option, none, some, List, ◌++◌, arith, if◌then◌else◌,
  get_elem?, at_place, get_elem?-at_place_self, at_place-at_place, at_place-none, at_place-some,
  Option-cases, Bool-cases, inl, inr,
}
use thermal_recovery_flow.Gateway.Tcp.{
  TcpGateway, TcpConnection, delete, on_connection, cleanup_connection, write_connection,
  broadcast_at,
}
use thermal_recovery_flow.Gateway.Tcp.Order.{turn, cleaned, leaves, cleanup_connection-turn}

module _ (bytes : List ℕ) (fails : ℕ → Bool) (now : ℕ) where
  -- The turn of one connection in a broadcast.
  pub heard : ℕ → TcpConnection → TcpConnection
  heard i c =
      if c.closed
      then c
      else if fails i
      then cleaned c
      else record c { written = c.written ++ bytes; last_active = now }

  pub lost : ℕ → TcpConnection → Bool
  lost i c = if c.closed then false else if fails i then leaves c else false

  abbrev pub counted : ℕ → Option TcpConnection → ℕ
  counted i none = 0
  counted i (some c) = if c.closed then 0 else if fails i then 0 else 1

  broadcast_at-none :
      (g : TcpGateway) (i : ℕ)
      → get_elem? g.objects i ≡ none
      → broadcast_at g bytes fails now i ≡ (g, 0)
  unfolding broadcast_at
  broadcast_at-none g i e = rw (e, broadcast_at) refl

  turn_of :
      (g : TcpGateway) (i : ℕ) (c x : TcpConnection) (b : Bool)
      → get_elem? g.objects i ≡ some c
      → heard i c ≡ x
      → lost i c ≡ b
      → record g {
        objects = at_place i (λ _. x) g.objects;
        connections = if b then delete c.remote_addr g.connections else g.connections;
      }
        ≡ turn i (heard i) (lost i) g
  turn_of g i c x b e hears loses =
      rw (e, loses, at_place-some (λ _. x) (heard i) i g.objects c e (sym hears)) refl

  -- The three cases of a turn: the connection is closed, writing fails, or it is written to.
  closed-heard :
      (i : ℕ) (c : TcpConnection)
      → c.closed ≡ true
      → (write_connection bytes (fails i) now c ≡ (c, false, false))
        × (heard i c ≡ c)
        × (lost i c ≡ false)
        × (counted i (some c) ≡ 0)
  unfolding write_connection heard lost
  closed-heard i c h = ground arith

  broken-heard :
      (i : ℕ) (c : TcpConnection)
      → c.closed ≡ false
      → fails i ≡ true
      → (write_connection bytes (fails i) now c ≡ (c, false, true))
        × (heard i c ≡ cleaned c)
        × (lost i c ≡ leaves c)
        × (counted i (some c) ≡ 0)
  unfolding write_connection heard lost
  broken-heard i c h k = ground arith

  abbrev with_bytes : TcpConnection → TcpConnection
  with_bytes c = record c { written = c.written ++ bytes; last_active = now }

  written-heard :
      (i : ℕ) (c : TcpConnection)
      → c.closed ≡ false
      → fails i ≡ false
      → (write_connection bytes (fails i) now c ≡ (with_bytes c, true, false))
        × (heard i c ≡ with_bytes c)
        × (lost i c ≡ false)
        × (counted i (some c) ≡ 1)
  unfolding write_connection heard lost
  written-heard i c h k = ground arith

  -- The part of the turn after the write.
  after_write : TcpGateway → ℕ → TcpConnection × Bool × Bool → TcpGateway × ℕ
  after_write g i (c, written, broken) =
      let g' : TcpGateway = record g { objects = at_place i (λ _. c) g.objects } in
      if broken then (cleanup_connection g' i, 0) else (g', if written then 1 else 0)

  broadcast_at-after_write :
      (g : TcpGateway) (i : ℕ) (c : TcpConnection)
      → get_elem? g.objects i ≡ some c
      → broadcast_at g bytes fails now i ≡ after_write g i (write_connection bytes (fails i) now c)
  unfolding after_write broadcast_at on_connection
  broadcast_at-after_write g i c e = rw (e, broadcast_at) refl

  some-turn :
      (g : TcpGateway) (i : ℕ) (c : TcpConnection)
      → get_elem? g.objects i ≡ some c
      → after_write g i (write_connection bytes (fails i) now c)
        ≡ (turn i (heard i) (lost i) g, counted i (some c))
  unfolding after_write
  some-turn g i c e = elim (Bool-cases c.closed) [
    | inl h ↦
        let (w, hears, loses, n) = closed-heard i c h in
        rw (w, n, sym (turn_of g i c c false e hears loses)) refl
    | inr h ↦ elim (Bool-cases (fails i)) [
      | inl k ↦
          let (w, hears, loses, n) = broken-heard i c h k in
          let g' : TcpGateway = record g { objects = at_place i (λ _. c) g.objects } in
          rw
            (
              w,
              n,
              sym (turn_of g i c (cleaned c) (leaves c) e hears loses),
              cleanup_connection-turn g' i,
              get_elem?-at_place_self (λ _. c) i g.objects c e,
              at_place-at_place cleaned (λ _. c) i g.objects,
            )
            refl
      | inr k ↦
          let (w, hears, loses, n) = written-heard i c h k in
          rw (w, n, sym (turn_of g i c (with_bytes c) false e hears loses)) refl
    ]
  ]

  pub broadcast_at-turn :
      (g : TcpGateway) (i : ℕ)
      → broadcast_at g bytes fails now i
        ≡ (turn i (heard i) (lost i) g, counted i (get_elem? g.objects i))
  broadcast_at-turn g i = elim (Option-cases (get_elem? g.objects i)) [
    | inl e ↦ broadcast_at-none g i e ∙ rw (e, at_place-none (heard i) i g.objects e) refl
    | inr (c, e) ↦ broadcast_at-after_write g i c e ∙ some-turn g i c e ∙ rw e refl
  ]
