-- ===== src/Choke/Sender/Retry.antt =====
-- The retries of `sendPacket`.
use thermal_recovery_flow.Base.{
  ℕ, zero, suc, ◌+◌, List, ◌++◌, ◌≤◌, ◌<◌, ◌≡◌, ◌≢◌, ◌↔◌, inl, inr, refl, ap, true, false, none,
  some, arith, if◌then◌else◌, Option-cases, inc64,
}
use native.Mathlib.Decide.{dec_le}
use thermal_recovery_flow.Base.Int.{ℤ, pos}
use thermal_recovery_flow.Choke.Override.{OverridePacket}
use thermal_recovery_flow.Choke.Sender.{
  Attempt, Progress, SendResult, OverrideSender, write_call, attempt_error, send_attempts, attempts,
  no_progress, send_packet,
}

module _ {E : Type 0} (network : ℕ → Attempt E) where
  abbrev pub Works : ℕ → Type 0
  Works i = attempt_error (network i) ≡ none

  -- How the loop ends, when it tried the attempts from `lo` up to below `hi`.
  pub data Ending (lo hi : ℕ) (s p : Progress E) : Type 0 where
    worked :
        (p.success ≡ true)
        → lo ≤ p.retries
        → p.retries < hi
        → Works p.retries
        → ((j : ℕ) → lo ≤ j → j < p.retries → ¬ Works j)
        → (p.retries ≡ lo → p.last_err ≡ s.last_err)
        → (lo < p.retries → p.last_err ≢ none)
        → Ending lo hi s p
    failed :
        p.success ≡ s.success
        → ((j : ℕ) → lo ≤ j → j < hi → ¬ Works j)
        → (lo < hi → (p.last_err ≢ none) × (p.retries + 1 ≡ hi))
        → (lo ≡ hi → p ≡ s)
        → Ending lo hi s p

  not-Works : (i j : ℕ) (e : E) → attempt_error (network i) ≡ some e → j ≡ i → ¬ Works j
  not-Works i j e bad same w = cc (w, bad, same)

  none_below :
      (i hi : ℕ) (e : E)
      → attempt_error (network i) ≡ some e
      → ((j : ℕ) → i + 1 ≤ j → j < hi → ¬ Works j)
      → (j : ℕ) → i ≤ j
      → j < hi
      → ¬ Works j
  none_below i hi e bad later j a b = elim (dec_le j i) [
    | yes q ↦ not-Works i j e bad (omega arith)
    | no q ↦ later j (omega arith) b
  ]

  -- A failed attempt in front.
  Ending-cons :
      (i hi : ℕ) (s p : Progress E) (e : E) (written : List (List ℕ))
      → attempt_error (network i) ≡ some e
      → i < hi
      → Ending (i + 1) hi (record s { last_err = some e; retries = i; written = written }) p
      → Ending i hi s p
  Ending-cons i hi s p e written bad h (worked done low high works first same stale) =
      worked done (omega arith) high works (none_below i p.retries e bad first)
        (λ q. absurd (omega arith))
        (λ q. elim (dec_le p.retries (i + 1)) [
          | yes r ↦ λ gone. cc (same (omega arith), gone)
          | no r ↦ stale (omega arith)
        ])
  Ending-cons i hi s p e written bad h (failed kept none_works late empty) =
      failed kept (none_below i hi e bad none_works)
        (λ q. elim (dec_le hi (i + 1)) [
          | yes r ↦
              let same = empty (omega arith) in
              (
                λ gone. cc (ap Progress.last_err same, gone),
                omega (arith, ap Progress.retries same),
              )
          | no r ↦ late (omega arith)
        ])
        (λ q. absurd (omega arith))

  abbrev pub after_failure : List ℕ → ℕ → Progress E → E → Progress E
  after_failure bytes i s e = record s {
    last_err = some e;
    retries = i;
    written = s.written ++ write_call bytes (network i);
  }

  pub send_attempts-suc :
      (bytes : List ℕ) (left i : ℕ) (s : Progress E) (e : E)
      → attempt_error (network i) ≡ some e
      → send_attempts network bytes (suc left) i s
        ≡ send_attempts network bytes left (i + 1) (after_failure bytes i s e)
  unfolding send_attempts
  send_attempts-suc bytes left i s e bad = rw (bad, send_attempts) refl

  pub send_attempts_done :
      (bytes : List ℕ) (left i : ℕ) (s : Progress E)
      → Works i
      → send_attempts network bytes (suc left) i s ≡ record s {
        success = true;
        retries = i;
        remote_addr = (network i).remote_addr;
        written = s.written ++ write_call bytes (network i);
      }
  unfolding send_attempts
  send_attempts_done bytes left i s works = rw (works, send_attempts) refl

  send_attempts-Ending :
      (bytes : List ℕ) (left i hi : ℕ) (s : Progress E)
      → i + left ≡ hi
      → Ending i hi s (send_attempts network bytes left i s)
  send_attempts-Ending bytes zero i hi s h =
      failed (unfold send_attempts in refl) (λ j p q. absurd (omega arith))
        (λ p. absurd (omega arith)) (λ _. unfold send_attempts in refl)
  send_attempts-Ending bytes (suc left) i hi s h = elim (Option-cases (attempt_error (network i))) [
    | inl ok ↦ rw (send_attempts_done bytes left i s ok) (
        worked refl (omega arith) (omega arith) ok (λ j a b. absurd (omega arith)) (λ _. refl)
          (λ q. absurd (omega arith)))
    | inr (e, bad) ↦ rw (send_attempts-suc bytes left i s e bad) (
        Ending-cons i hi s _ e _ bad (omega arith)
          (send_attempts-Ending bytes left (i + 1) hi (after_failure bytes i s e) (omega arith)))
  ]

module _ {E F : Type 0} (network : ℕ → Attempt E) where
  -- What a result says of the attempts 0 to `n`: one of them worked, and this is the first, or none did.
  pub data IsReportOf (n : ℕ) (r : SendResult E F) : Type 0 where
    sent :
        (r.success ≡ true)
        → r.retries ≤ n
        → Works network r.retries
        → ((j : ℕ) → j < r.retries → ¬ Works network j)
        → ((r.error ≡ none) ↔ (r.retries ≡ 0))
        → IsReportOf n r
    given_up :
        (r.success ≡ false)
        → r.retries ≡ n
        → ((j : ℕ) → j ≤ n → ¬ Works network j)
        → (r.error ≢ none)
        → IsReportOf n r

  report :
      (n : ℕ) (packet : OverridePacket F) (t : ℤ) (p : Progress E)
      → Ending network 0 (n + 1) no_progress p
      → IsReportOf n (record {
        packet = packet;
        success = p.success;
        send_time = t;
        error = p.last_err;
        retries = p.retries;
        remote_addr = p.remote_addr;
      })
  report n packet t p (worked done low high works first same stale) =
      sent done (omega arith) works (λ j h. first j (omega arith) h)
        (
          λ e. elim (dec_le p.retries 0) [
            | yes q ↦ omega arith
            | no q ↦ absurd (stale (omega arith) e)
          ],
          λ e. same e,
        )
  report n packet t p (failed kept none_works late empty) =
      given_up kept (omega (arith, late (omega arith)))
        (λ j h. none_works j (omega arith) (omega arith)) ((late (omega arith)).0)

  -- With a retry count of `n` the packet counts as sent exactly if one of the attempts 0 to `n`
  -- works; then the first that does is reported, with an error exactly if it is not attempt 0.
  -- Otherwise none of them works, and the last attempt and an error are reported. The matching
  -- counter moves on by one, and the queue stays.
  pub send_packet-IsReportOf :
      (n : ℕ) (s : OverrideSender E F) (packet : OverridePacket F) (t : ℤ)
      → s.retry_count ≡ pos n
      → let (s', r) = send_packet s network t packet in
        IsReportOf n r
        × (s'.sent_count ≡ (if r.success then inc64 s.sent_count else s.sent_count))
        × (s'.fail_count ≡ (if r.success then s.fail_count else inc64 s.fail_count))
        × (s'.override_chan ≡ s.override_chan)
  unfolding send_packet
  send_packet-IsReportOf n s packet t e =
      let p = send_attempts network packet.raw_bytes (attempts s.retry_count) 0 no_progress in
      (
        rw e (
            report n packet t _ (
              send_attempts-Ending network packet.raw_bytes (n + 1) 0 (n + 1) no_progress
                (omega arith))),
        ground arith,
        ground arith,
        ground arith,
      )
