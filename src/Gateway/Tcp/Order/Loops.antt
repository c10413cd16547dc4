-- ===== src/Gateway/Tcp/Order/Loops.antt =====
-- internal/gateway/tcp.go: `Broadcast` and `Stop` over the map of connections.
use Prim.Native.String.{String}
use mathlib.Core.List.{Permᴰ}
use native.Mathlib.Decide.{ℕ_discrete}
use thermal_recovery_flow.Base.{
  ℕ, ◌+◌, ◌≡◌, ◌≢◌, refl, sym, ap, ◌∙◌, Bool, true, false, List, ◌∷◌, arith, get_elem?,
  get_elem?-at_place_ne, ◌⊎◌, inl, inr,
}
use thermal_recovery_flow.Gateway.Tcp.{
  TcpGateway, cleanup_connection, cleanup_all, broadcast_to, broadcast, stop,
}
use thermal_recovery_flow.Gateway.Tcp.Order.{
  turn, turn_comm, cleaned, leaves, cleanup_connection-turn,
}
use thermal_recovery_flow.Gateway.Tcp.Order.Written.{heard, lost, counted, broadcast_at-turn}

same_or_not : (i j : ℕ) → (i ≡ j) ⊎ (i ≢ j)
same_or_not i j = elim (ℕ_discrete i j) [ yes e ↦ inl e | no h ↦ inr h ]

cleanup_all-swap :
    (i j : ℕ) (g : TcpGateway)
    → cleanup_connection (cleanup_connection g i) j ≡ cleanup_connection (cleanup_connection g j) i
cleanup_all-swap i j g = elim (same_or_not i j) [
  | inl e ↦ rw e refl
  | inr h ↦
      rw (cleanup_connection-turn g i, cleanup_connection-turn g j)
        (cleanup_connection-turn (turn i cleaned leaves g) j
          ∙ sym (turn_comm i j cleaned cleaned leaves leaves g h)
          ∙ sym (cleanup_connection-turn (turn j cleaned leaves g) i))
]

-- `Stop` may clean up the connections in any order.
cleanup_all-perm :
    {xs ys : List (String × ℕ)}
    → Permᴰ xs ys
    → (g : TcpGateway) → cleanup_all g xs ≡ cleanup_all g ys
unfolding cleanup_all
cleanup_all-perm Permᴰ.nil g = refl
cleanup_all-perm (Permᴰ.cons {a} {b} {l₁} {l₂} e p) g =
    cleanup_all-perm p (cleanup_connection g (a.1))
    ∙ ap (λ x. cleanup_all (cleanup_connection g (x.1)) l₂) e
cleanup_all-perm (Permᴰ.swap {a} {b} {a'} {b'} {l} e f) g =
    ap (λ h. cleanup_all h l) (cleanup_all-swap (a.1) (b.1) g)
    ∙ (λ k. cleanup_all (cleanup_connection (cleanup_connection g ((f k).1)) ((e k).1)) l)
cleanup_all-perm (Permᴰ.trans p q) g = cleanup_all-perm p g ∙ cleanup_all-perm q g

module _ (bytes : List ℕ) (fails : ℕ → Bool) (now : ℕ) where
  abbrev turns : TcpGateway → ℕ → TcpGateway
  turns g i = turn i (heard bytes fails now i) (lost bytes fails now i) g

  abbrev counts : TcpGateway → ℕ → ℕ
  counts g i = counted bytes fails now i (get_elem? g.objects i)

  -- A broadcast with `n` connections counted so far.
  abbrev onward : TcpGateway → ℕ → List (String × ℕ) → TcpGateway × ℕ
  onward g n l = let r = broadcast_to g bytes fails now l in (r.0, n + r.1)

  broadcast_to-cons :
      (g : TcpGateway) (a : String × ℕ) (l : List (String × ℕ))
      → broadcast_to g bytes fails now (a ∷ l) ≡ onward (turns g (a.1)) (counts g (a.1)) l
  unfolding broadcast_to
  broadcast_to-cons g a l = rw (broadcast_at-turn bytes fails now g (a.1)) refl

  counts_ne : (g : TcpGateway) (i j : ℕ) → i ≢ j → counts (turns g i) j ≡ counts g j
  counts_ne g i j h =
      ap (counted bytes fails now j)
        (get_elem?-at_place_ne (heard bytes fails now i) i j g.objects h)

  swap_turns :
      (g : TcpGateway) (i j : ℕ) (l : List (String × ℕ))
      → onward (turns (turns g i) j) (counts g i + counts (turns g i) j) l
        ≡ onward (turns (turns g j) i) (counts g j + counts (turns g j) i) l
  swap_turns g i j l = elim (same_or_not i j) [
    | inl e ↦ rw e refl
    | inr h ↦
        let same : turns (turns g i) j ≡ turns (turns g j) i = sym (
          turn_comm i j (heard bytes fails now i) (heard bytes fails now j) (lost bytes fails now i)
            (lost bytes fails now j) g h) in
        let total : counts g i + counts (turns g i) j ≡ counts g j + counts (turns g j) i =
          omega (arith, counts_ne g i j h, counts_ne g j i (λ e. h (sym e))) in
        λ k. onward (same k) (total k) l
  ]

  broadcast_to-two :
      (g : TcpGateway) (a b : String × ℕ) (l : List (String × ℕ))
      → broadcast_to g bytes fails now (a ∷ b ∷ l)
        ≡ onward (turns (turns g (a.1)) (b.1)) (counts g (a.1) + counts (turns g (a.1)) (b.1)) l
  broadcast_to-two g a b l =
      let h = turns (turns g (a.1)) (b.1) in
      let r = broadcast_to h bytes fails now l in
      let n = counts g (a.1) in
      let m = counts (turns g (a.1)) (b.1) in
      let total : n + (m + r.1) ≡ n + m + r.1 = omega arith in
      broadcast_to-cons g a (b ∷ l)
      ∙ ap (λ q. (q.0, n + q.1)) (broadcast_to-cons (turns g (a.1)) b l)
      ∙ (λ k. (r.0, total k))

  -- `Broadcast` may write to the connections in any order.
  broadcast_to-perm :
      {xs ys : List (String × ℕ)}
      → Permᴰ xs ys
      → (g : TcpGateway) → broadcast_to g bytes fails now xs ≡ broadcast_to g bytes fails now ys
  broadcast_to-perm Permᴰ.nil g = refl
  broadcast_to-perm (Permᴰ.cons {a} {b} {l₁} {l₂} e p) g =
      broadcast_to-cons g a l₁
      ∙ ap (λ r. (r.0, counts g (a.1) + r.1)) (broadcast_to-perm p (turns g (a.1)))
      ∙ sym (broadcast_to-cons g a l₂)
      ∙ ap (λ x. broadcast_to g bytes fails now (x ∷ l₂)) e
  broadcast_to-perm (Permᴰ.swap {a} {b} {a'} {b'} {l} e f) g =
      broadcast_to-two g a b l
      ∙ swap_turns g (a.1) (b.1) l
      ∙ sym (broadcast_to-two g b a l)
      ∙ (λ k. broadcast_to g bytes fails now (f k ∷ e k ∷ l))
  broadcast_to-perm (Permᴰ.trans p q) g = broadcast_to-perm p g ∙ broadcast_to-perm q g

-- The order in which Go goes through the map makes no difference to `Broadcast`, neither to its count nor to what
-- it leaves, nor to what `Stop` leaves of a gateway that runs.
pub broadcast-any_order :
    (g : TcpGateway) (bytes : List ℕ) (fails : ℕ → Bool) (now : ℕ) (order : List (String × ℕ))
    → Permᴰ order g.connections
    → g.running ≡ true
    → (broadcast_to g bytes fails now order ≡ broadcast g bytes fails now)
      × (cleanup_all (record g { listening = false; running = false }) order ≡ stop g)
unfolding broadcast stop
broadcast-any_order g bytes fails now order p runs = (
  broadcast_to-perm bytes fails now p g,
  cleanup_all-perm p (record g { listening = false; running = false }) ∙ rw (runs, stop) refl,
)
