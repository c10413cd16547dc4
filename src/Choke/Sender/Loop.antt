-- ===== src/Choke/Sender/Loop.antt =====
-- internal/choke/sender.go: `sendLoop`, and that it empties the queue.
use mathlib.Core.List.{map-append, append_assoc, append-nil}
use thermal_recovery_flow.Base.{
  ℕ, ◌+◌, ◌^◌, ◌≤◌, ◌<◌, ◌≡◌, refl, ap, ◌∙◌, sym, true, List, [], ◌∷◌, ◌++◌, map, arith,
  if◌then◌else◌, length, length-append,
}
use thermal_recovery_flow.Base.Int.{ℤ}
use thermal_recovery_flow.Choke.Override.{OverridePacket}
use thermal_recovery_flow.Choke.Sender.{
  Attempt, SendResult, OverrideSender, max_override_queue_size, send_packet, emit_result, sent_next,
  send_loop_round,
}

module _ {E F : Type 0} where
  -- `sendLoop`, with the network and the time of each round.
  pub send_loop : OverrideSender E F → List ((ℕ → Attempt E) × ℤ) → OverrideSender E F
  send_loop s [] = s
  send_loop s ((network, t) ∷ rest) = send_loop (send_loop_round s network t) rest

  abbrev pub packets : List (SendResult E F) → List (OverridePacket F)
  packets = map (λ r. r.packet)

  -- The packets of `queue` have been tried in their order, and each counted and reported.
  pub record IsDrained (s s' : OverrideSender E F) (queue : List (OverridePacket F)) : Type 0 where
    pub empty : s'.override_chan ≡ []
    pub running : s'.running ≡ true
    pub reports : packets s'.result_chan ≡ packets s.result_chan ++ queue
    pub counts : s'.sent_count + s'.fail_count ≡ s.sent_count + s.fail_count + length queue

  record IsSent (s s' : OverrideSender E F) (p : OverridePacket F) (queue : List (OverridePacket F))
      : Type 0 where
    waiting : s'.override_chan ≡ queue
    running : s'.running ≡ s.running
    reports : packets s'.result_chan ≡ packets s.result_chan ++ p ∷ []
    size : length s'.result_chan ≡ length s.result_chan + 1
    counts : s'.sent_count + s'.fail_count ≡ s.sent_count + s.fail_count + 1

  sent_next-IsSent :
      (s : OverrideSender E F) (network : ℕ → Attempt E) (t : ℤ) (p : OverridePacket F)
      (queue : List (OverridePacket F))
      → length s.result_chan < max_override_queue_size
      → s.sent_count + s.fail_count + 1 < 2 ^ 64
      → IsSent s (sent_next s network t (p ∷ queue)) p queue
  unfolding sent_next emit_result send_packet
  sent_next-IsSent s network t p queue fits room =
      let s₁ : OverrideSender E F = record s { override_chan = queue } in
      let r = (send_packet s₁ network t p).1 in
      ground (
        arith,
        map-append (λ (r : SendResult E F). r.packet) s.result_chan (r ∷ []),
        length-append s.result_chan (r ∷ []),
      )

  send_loop_round-next :
      (s : OverrideSender E F) (network : ℕ → Attempt E) (t : ℤ) (queue : List (OverridePacket F))
      → s.running ≡ true
      → s.override_chan ≡ queue
      → send_loop_round s network t ≡ sent_next s network t queue
  unfolding send_loop_round
  send_loop_round-next s network t queue running e =
      ap (λ b. if b then sent_next s network t s.override_chan else s) running
      ∙ ap (sent_next s network t) e

  drains :
      (rounds : List ((ℕ → Attempt E) × ℤ)) (queue : List (OverridePacket F))
      (s : OverrideSender E F)
      → s.running ≡ true
      → s.override_chan ≡ queue
      → length s.result_chan + length queue ≤ max_override_queue_size
      → s.sent_count + s.fail_count + length queue < 2 ^ 64
      → length rounds ≡ length queue
      → IsDrained s (send_loop s rounds) queue
  unfolding send_loop
  drains [] [] s running e fits room same = record {
    empty = e;
    running = running;
    reports = sym (append-nil (packets s.result_chan));
    counts = omega arith;
  }
  drains [] (p ∷ queue) s running e fits room same = absurd (omega arith)
  drains (i ∷ rounds) [] s running e fits room same = absurd (omega arith)
  drains ((network, t) ∷ rounds) (p ∷ queue) s running e fits room same =
      let s₁ = send_loop_round s network t in
      let v : IsSent s s₁ p queue =
        rw (send_loop_round-next s network t (p ∷ queue) running e)
          (sent_next-IsSent s network t p queue (omega arith) (omega arith)) in
      let w =
        drains rounds queue s₁ (v.running ∙ running) v.waiting (omega (arith, v.size))
          (omega (arith, v.counts)) (omega arith) in
      record {
        empty = w.empty;
        running = w.running;
        reports =
            w.reports
            ∙ ap (λ xs. xs ++ queue) v.reports
            ∙ append_assoc (packets s.result_chan) (p ∷ []) queue;
        counts = omega (arith, v.counts, w.counts);
      }

  -- The loop of a running sender empties its queue: after as many rounds as packets wait, and as long as no
  -- other comes in, the queue is empty, the sender still runs, every packet has been tried in its order, and
  -- each is counted as sent or failed and reported, while the channel of the reports has room and the counters
  -- do not wrap.
  pub send_loop-IsDrained :
      (rounds : List ((ℕ → Attempt E) × ℤ)) (s : OverrideSender E F)
      → s.running ≡ true
      → length s.result_chan + length s.override_chan ≤ max_override_queue_size
      → s.sent_count + s.fail_count + length s.override_chan < 2 ^ 64
      → length rounds ≡ length s.override_chan
      → IsDrained s (send_loop s rounds) s.override_chan
  send_loop-IsDrained rounds s running fits room same =
      drains rounds s.override_chan s running refl fits room same
