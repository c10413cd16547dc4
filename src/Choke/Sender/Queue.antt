-- ===== src/Choke/Sender/Queue.antt =====
-- The queue of the sender: its bound, its order, and when sending on its channel panics.
use thermal_recovery_flow.Base.{
  ℕ, ◌≤◌, ◌≡◌, ◌↔◌, ◌⊎◌, inl, inr, refl, Bool, true, false, none, some, List, [], ◌∷◌, ◌++◌, arith,
  if◌then◌else◌, length, length-append, Bool-cases, ltb, inc64,
}
use thermal_recovery_flow.Base.Int.{ℤ}
use thermal_recovery_flow.Choke.Override.{OverridePacket}
use thermal_recovery_flow.Choke.Sender.{
  Attempt, SendResult, OverrideSender, max_override_queue_size, start, stop, send, send_packet,
  emergency_send, emit_result, sent_next, send_loop_round,
}

module _ {E F : Type 0} where
  -- The channel is open while the sender runs, and neither channel holds more than it has room for.
  pub record IsOpen (s : OverrideSender E F) : Type 0 where
    pub open_channel : s.running ≡ true → s.closed ≡ false
    pub queue_fits : length s.override_chan ≤ max_override_queue_size
    pub results_fit : length s.result_chan ≤ max_override_queue_size

  pub start-IsOpen : (s : OverrideSender E F) → s.closed ≡ false → IsOpen s → IsOpen (start s)
  unfolding start
  start-IsOpen s fresh v = ground arith

  pub stop-IsOpen : (s : OverrideSender E F) → IsOpen s → IsOpen (stop s)
  unfolding stop
  stop-IsOpen s v = ground arith

  emit_result-IsOpen :
      (s : OverrideSender E F) (r : SendResult E F) → IsOpen s → IsOpen (emit_result s r)
  unfolding emit_result
  emit_result-IsOpen s r v = ground (arith, length-append s.result_chan (r ∷ []))

  send_packet-IsOpen :
      (s : OverrideSender E F) (network : ℕ → Attempt E) (t : ℤ) (p : OverridePacket F)
      → IsOpen s
      → IsOpen (send_packet s network t p).0
  unfolding send_packet
  send_packet-IsOpen s network t p v = ground arith

  sent_next-IsOpen :
      (s : OverrideSender E F) (network : ℕ → Attempt E) (t : ℤ) (queue : List (OverridePacket F))
      → length queue ≤ max_override_queue_size
      → IsOpen s
      → IsOpen (sent_next s network t queue)
  unfolding sent_next
  sent_next-IsOpen s network t [] fits v = v
  sent_next-IsOpen s network t (p ∷ rest) fits v =
      let s₁ : OverrideSender E F = record s { override_chan = rest } in
      let v₁ : IsOpen s₁ = ground arith in
      emit_result-IsOpen _ _ (send_packet-IsOpen s₁ network t p v₁)

  pub send_loop_round-IsOpen :
      (s : OverrideSender E F) (network : ℕ → Attempt E) (t : ℤ)
      → IsOpen s
      → IsOpen (send_loop_round s network t)
  unfolding send_loop_round
  send_loop_round-IsOpen s network t v =
      elim (s.running) as (λ b. IsOpen (if b then sent_next s network t s.override_chan else s)) [
        | true ↦ sent_next-IsOpen s network t s.override_chan v.queue_fits v
        | false ↦ v
      ]

  -- While the channel is open `Send` does not panic, and the channel stays open. It is refused exactly when the
  -- sender does not run or 256 packets wait, and then leaves the sender as it was; else all that changes is that
  -- the packet goes to the end of the queue.
  pub send-IsOpen :
      (s : OverrideSender E F) (packet : OverridePacket F)
      → IsOpen s
      → (s' : OverrideSender E F) × (accepted : Bool) × (send s packet ≡ some (s', accepted))
        × IsOpen s'
        × ((accepted ≡ false)
            ↔ ((s.running ≡ false) ⊎ (length s.override_chan ≡ max_override_queue_size)))
        × (s'
            ≡ (if accepted then record s { override_chan = s.override_chan ++ packet ∷ [] } else s))
  unfolding send
  send-IsOpen s packet v = elim (Bool-cases (s.running)) [
    | inr stopped ↦ (s, false, ground arith, v, ground arith, refl)
    | inl running ↦
        let open_channel = v.open_channel running in
        elim (Bool-cases (ltb (length s.override_chan) max_override_queue_size)) [
          | inl room ↦ (
            record s { override_chan = s.override_chan ++ packet ∷ [] },
            true,
            ground arith,
            record {
              open_channel = v.open_channel;
              queue_fits = ground (arith, length-append s.override_chan (packet ∷ []));
              results_fit = v.results_fit;
            },
            ground arith,
            refl,
          )
          | inr full ↦ (s, false, ground arith, v, ground (arith, v.queue_fits), refl)
        ]
  ]

  -- A sender that was running, is stopped and started again panics at the next `Send`.
  pub send_restarted :
      (s : OverrideSender E F) (packet : OverridePacket F)
      → s.running ≡ true
      → send (start (stop s)) packet ≡ none
  unfolding start stop send
  send_restarted s packet h = ground arith

  -- `EmergencySend` counts what it reports, and changes nothing else of the sender but what it has written.
  pub emergency_send-counts :
      (s : OverrideSender E F) (network : ℕ → Attempt E) (t : ℤ) (packet : OverridePacket F)
      → let (s', r) = emergency_send s network t packet in
        s' ≡ record s {
          sent_count = if r.success then inc64 s.sent_count else s.sent_count;
          fail_count = if r.success then s.fail_count else inc64 s.fail_count;
          wire = s'.wire;
        }
  unfolding emergency_send send_packet
  emergency_send-counts s network t packet = ground arith
