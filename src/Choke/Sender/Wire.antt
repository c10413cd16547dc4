-- ===== src/Choke/Sender/Wire.antt =====
-- What `sendPacket` gives to the connection.
use mathlib.Core.List.{append_assoc, append-nil}
use thermal_recovery_flow.Base.{
  ℕ, zero, suc, ◌+◌, ◌≡◌, refl, ap, sym, ◌∙◌, Bool, true, false, none, some, List, ◌++◌, arith,
  if◌then◌else◌, Option-cases, inl, inr, replicate, replicate-add,
}
use thermal_recovery_flow.Base.Int.{ℤ, pos}
use thermal_recovery_flow.Choke.Override.{OverridePacket}
use thermal_recovery_flow.Choke.Sender.{
  Attempt, Progress, SendResult, OverrideSender, write_call, exchange, attempt_error, send_attempts,
  attempts, no_progress, send_packet, emergency_send,
}
use thermal_recovery_flow.Choke.Sender.Retry.{
  after_failure, send_attempts-suc, send_attempts_done, IsReportOf, sent, given_up,
  send_packet-IsReportOf,
}

-- An attempt that comes as far as `conn.Write`: the connection is there and its deadline is set.
abbrev pub reaches : {E : Type 0} → Attempt E → Bool
reaches a = elim (a.dial) [
  | some e ↦ false
  | none ↦ elim (a.set_write_deadline) [ some e ↦ false | none ↦ true ]
]

module _ {E : Type 0} (network : ℕ → Attempt E) where
  -- How many of the `n` attempts from `i` on come so far.
  abbrev pub reached : ℕ → ℕ → ℕ
  reached i zero = 0
  reached i (suc n) = (if reaches (network i) then 1 else 0) + reached (i + 1) n

  write_call-reaches :
      (bytes : List ℕ) (a : Attempt E)
      → write_call bytes a ≡ replicate (if reaches a then 1 else 0) bytes
  unfolding write_call
  write_call-reaches bytes a = ground arith

  write_more :
      (bytes : List ℕ) (w : List (List ℕ)) (i n : ℕ)
      → (w ++ write_call bytes (network i)) ++ replicate (reached (i + 1) n) bytes
        ≡ w ++ replicate (reached i (suc n)) bytes
  write_more bytes w i n =
      append_assoc w (write_call bytes (network i)) (replicate (reached (i + 1) n) bytes)
      ∙ ap (λ t. w ++ t)
          (ap (λ t. t ++ replicate (reached (i + 1) n) bytes) (write_call-reaches bytes (network i))
            ∙ replicate-add (if reaches (network i) then 1 else 0) (reached (i + 1) n) bytes)

  write_last :
      (bytes : List ℕ) (w : List (List ℕ)) (i : ℕ)
      → w ++ write_call bytes (network i) ≡ w ++ replicate (reached i 1) bytes
  write_last bytes w i =
      sym (append-nil (w ++ write_call bytes (network i))) ∙ write_more bytes w i 0

  send_attempts_none :
      (bytes : List ℕ) (i : ℕ) (s : Progress E) → send_attempts network bytes 0 i s ≡ s
  unfolding send_attempts
  send_attempts_none bytes i s = refl

  -- The bytes are written once in every attempt that comes so far.
  send_attempts-written :
      (bytes : List ℕ) (left i : ℕ) (s : Progress E)
      → let p = send_attempts network bytes (suc left) i s in
        (k : ℕ) × (p.retries ≡ i + k)
        × (p.written ≡ s.written ++ replicate (reached i (suc k)) bytes)
  send_attempts-written bytes zero i s = elim (Option-cases (attempt_error (network i))) [
    | inl ok ↦
        rw (send_attempts_done network bytes 0 i s ok)
          (0, omega arith, write_last bytes s.written i)
    | inr (e, bad) ↦
        rw
          (
            send_attempts-suc network bytes 0 i s e bad,
            send_attempts_none bytes (i + 1) (after_failure network bytes i s e),
          )
          (0, omega arith, write_last bytes s.written i)
  ]
  send_attempts-written bytes (suc left) i s = elim (Option-cases (attempt_error (network i))) [
    | inl ok ↦
        rw (send_attempts_done network bytes (suc left) i s ok)
          (0, omega arith, write_last bytes s.written i)
    | inr (e, bad) ↦
        let (k, retries, written) =
          send_attempts-written bytes left (i + 1) (after_failure network bytes i s e) in
        rw (send_attempts-suc network bytes (suc left) i s e bad)
          (suc k, omega (arith, retries), written ∙ write_more bytes s.written i (suc k))
  ]

  written_copies :
      (m : ℕ) (bytes : List ℕ)
      → (k : ℕ) × ((send_attempts network bytes m 0 no_progress).written ≡ replicate k bytes)
  written_copies zero bytes = (0, ap (λ p. p.written) (send_attempts_none bytes 0 no_progress))
  written_copies (suc m) bytes =
      let (k, retries, written) = send_attempts-written bytes m 0 no_progress in
      (reached 0 (suc k), written)

  reaches_Works : (a : Attempt E) → attempt_error a ≡ none → reaches a ≡ true
  unfolding attempt_error exchange
  reaches_Works a works = ground arith

module _ {E F : Type 0} (network : ℕ → Attempt E) where
  sent_by : (s : OverrideSender E F) (packet : OverridePacket F) → Progress E
  sent_by s packet = send_attempts network packet.raw_bytes (attempts s.retry_count) 0 no_progress

  send_packet_wire :
      (s : OverrideSender E F) (packet : OverridePacket F) (t : ℤ)
      → let (s', r) = send_packet s network t packet in
        (s'.wire ≡ s.wire ++ (sent_by s packet).written) × (r.retries ≡ (sent_by s packet).retries)
  unfolding send_packet sent_by
  send_packet_wire s packet t = ground arith

  reported :
      (n : ℕ) (r : SendResult E F)
      → IsReportOf network n r
      → r.success ≡ true
      → reaches (network r.retries) ≡ true
  reported n r (sent done bound works first stale) h =
      reaches_Works network (network r.retries) works
  reported n r (given_up lost last none_works error) h = cc

  -- With a retry count of `n` the bytes of the packet, and nothing else, are given to the connection: once in each
  -- attempt up to the reported one in which the dialling and the setting of the deadline succeed. The reported
  -- attempt is one of these if the packet counts as sent.
  pub send_packet-wire :
      (n : ℕ) (s : OverrideSender E F) (packet : OverridePacket F) (t : ℤ)
      → s.retry_count ≡ pos n
      → let (s', r) = send_packet s network t packet in
        (s'.wire ≡ s.wire ++ replicate (reached network 0 (r.retries + 1)) packet.raw_bytes)
        × (r.success ≡ true → reaches (network r.retries) ≡ true)
  unfolding sent_by
  send_packet-wire n s packet t e =
      let (wire, last) = send_packet_wire s packet t in
      let counted : attempts s.retry_count ≡ suc n = ap attempts e ∙ omega arith in
      let (k, retries, written) = send_attempts-written network packet.raw_bytes n 0 no_progress in
      let same = ap (λ (m : ℕ). send_attempts network packet.raw_bytes m 0 no_progress) counted in
      let bytes = packet.raw_bytes in
      let tries : suc k ≡ (send_packet s network t packet).1.retries + 1 =
        omega (arith, last ∙ ap (λ p. p.retries) same ∙ retries) in
      (
        wire
            ∙ ap (λ p. s.wire ++ p.written) same
            ∙ ap (λ w. s.wire ++ w) written
            ∙ ap (λ (m : ℕ). s.wire ++ replicate (reached network 0 m) bytes) tries,
        reported n _ ((send_packet-IsReportOf network n s packet t e).0),
      )

  -- `EmergencySend` gives the connection nothing but copies of the packet.
  pub emergency_send-wire :
      (s : OverrideSender E F) (packet : OverridePacket F) (t : ℤ)
      → (k : ℕ) × ((emergency_send s network t packet).0.wire
          ≡ s.wire ++ replicate k packet.raw_bytes)
  unfolding emergency_send sent_by
  emergency_send-wire s packet t =
      let (k, copies) = written_copies network (attempts s.retry_count) packet.raw_bytes in
      (k, (send_packet_wire s packet t).0 ∙ ap (λ w. s.wire ++ w) copies)
