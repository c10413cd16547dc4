-- ===== src/Gateway/Tcp/Handling.antt =====
-- internal/gateway/tcp.go: `handleConnection`, which forwards what one connection sends.
use thermal_recovery_flow.Base.{
  ℕ, ◌-◌, Bool, true, false, ◌&&◌, not, List, [], ◌∷◌, ◌++◌, if◌then◌else◌, ltb, length,
}
use thermal_recovery_flow.Base.Int.{ℤ, pos, ltb_ℤ}
use thermal_recovery_flow.Gateway.Tcp.{TcpConnection}

-- What a round of `handleConnection` meets. `sends`, `drops` and `cancels` are the cases of its last `select`.
pub data Choice : Type 0 where
  sends drops cancels : Choice

pub data Round : Type 0 where
  context_done deadline_refused read_failed : Round
  timed_out : (now : ℕ) → Round
  reads : (bytes : List ℕ) (now : ℕ) → Choice → Round

-- A chunk of bytes, and whether the loop goes on.
forward : List (List ℕ) → List ℕ → Choice → List (List ℕ) × Bool
forward chan bytes sends = (chan ++ bytes ∷ [], true)
forward chan bytes drops = (chan, true)
forward chan bytes cancels = (chan, false)

-- A round of the loop on the connection and the channel, and whether it goes on.
pub handle_round :
    ℤ → TcpConnection × List (List ℕ) → Round → (TcpConnection × List (List ℕ)) × Bool
unfolding forward
handle_round idle s context_done = (s, false)
handle_round idle s deadline_refused = (s, false)
handle_round idle s read_failed = (s, false)
handle_round idle (c, chan) (timed_out now) =
    ((c, chan), not (ltb_ℤ (pos 0) idle && ltb_ℤ idle (pos (now - c.last_active))))
handle_round idle (c, chan) (reads bytes now choice) =
    if ltb 0 (length bytes)
    then (let (chan', goes_on) = forward chan bytes choice in
        ((record c { last_active = now }, chan'), goes_on))
    else ((c, chan), true)

-- `handleConnection` up to the cleanup.
pub handle_loop : ℤ → TcpConnection × List (List ℕ) → List Round → TcpConnection × List (List ℕ)
unfolding handle_round
handle_loop idle s [] = s
handle_loop idle s (e ∷ rest) =
    let (s', goes_on) = handle_round idle s e in
    let later = handle_loop idle s' rest in if goes_on then later else s'
