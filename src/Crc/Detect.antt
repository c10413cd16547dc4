-- ===== src/Crc/Detect.antt =====
-- Which changes of a frame the check cannot miss.
use thermal_recovery_flow.Base.{
  ℕ, ◌+◌, ◌*◌, ◌^◌, ◌≤◌, ◌<◌, ◌≡◌, refl, sym, ap, ◌∙◌, inl, inr, bit_xor, arith, true, false, List,
  [], ◌∷◌, ◌++◌, foldl, length, length-append, ==_iff, ◌==◌, Bool-cases, IsByte, IsBytes,
  All-append,
}
use thermal_recovery_flow.Base.Bits.{
  bit_xor-lt, bit_xor_assoc, bit_xor_fields, bit_xor_injective, bit_xor_comm,
}
use mathlib.Core.List.{foldl-append}
use thermal_recovery_flow.Crc.{crc16_init, crc_rounds, crc16_modbus, validate_crc16}
use thermal_recovery_flow.Crc.Round.{crc_rounds_injective}
use thermal_recovery_flow.Crc.Bitwise.{crc_byte, crc_rounds_high, crc16_modbus-crc_byte}
use thermal_recovery_flow.Crc.Frame.{crc_byte-lt, foldl-crc_byte-lt, validate_crc16-append}

crc_byte_injective :
    (c d b : ℕ) → c < 65536 → d < 65536 → IsByte b → crc_byte c b ≡ crc_byte d b → c ≡ d
unfolding crc_byte
crc_byte_injective c d b p q r e =
    let same =
      crc_rounds_injective 8 (bit_xor c b) (bit_xor d b) (bit_xor-lt 16 c b p (omega arith))
        (bit_xor-lt 16 d b q (omega arith)) e in
    bit_xor_injective b c d (bit_xor_comm b c ∙ same ∙ bit_xor_comm d b)

foldl-crc_byte_injective :
    (bytes : List ℕ) (c d : ℕ)
    → c < 65536
    → d < 65536
    → IsBytes bytes
    → foldl crc_byte c bytes ≡ foldl crc_byte d bytes
    → c ≡ d
foldl-crc_byte_injective [] c d p q h e = e
foldl-crc_byte_injective (b ∷ bytes) c d p q (r, rs) e = crc_byte_injective c d b p q r (
    foldl-crc_byte_injective bytes (crc_byte c b) (crc_byte d b) (crc_byte-lt c b p r)
      (crc_byte-lt d b q r) rs e)

crc_rounds_eight : (x : ℕ) → crc_rounds 8 (crc_rounds 8 x) ≡ crc_rounds 16 x
unfolding crc_rounds
crc_rounds_eight x = refl

-- Two bytes in a row are one 16-bit word that is added to the register.
crc_byte_pair :
    (c x y : ℕ) → IsByte x → crc_byte (crc_byte c x) y ≡ crc_rounds 16 (bit_xor c (y * 256 + x))
unfolding crc_byte
crc_byte_pair c x y p =
    ap (λ (t : ℕ). crc_rounds 8 t) (sym (crc_rounds_high 8 (bit_xor c x) y))
    ∙ crc_rounds_eight (bit_xor (bit_xor c x) (y * 2 ^ 8))
    ∙ ap (λ (t : ℕ). crc_rounds 16 t)
        (bit_xor_assoc c x (y * 256) ∙ ap (λ (t : ℕ). bit_xor c t) (bit_xor_fields 8 y x p))

crc_byte_pair_injective :
    (c x y x' y' : ℕ)
    → c < 65536
    → IsByte x
    → IsByte y
    → IsByte x'
    → IsByte y'
    → crc_byte (crc_byte c x) y ≡ crc_byte (crc_byte c x') y'
    → (x ≡ x') × (y ≡ y')
crc_byte_pair_injective c x y x' y' h p q p' q' e =
    let word = y * 256 + x in
    let word' = y' * 256 + x' in
    let small : word < 65536 = omega arith in
    let small' : word' < 65536 = omega arith in
    let sums =
      crc_rounds_injective 16 (bit_xor c word) (bit_xor c word') (bit_xor-lt 16 c word h small)
        (bit_xor-lt 16 c word' h small')
        (sym (crc_byte_pair c x y p) ∙ e ∙ crc_byte_pair c x' y' p') in
    let same : word ≡ word' = bit_xor_injective c word word' sums in (omega arith, omega arith)

-- If two messages differ only in a window of two adjacent bytes, that is in a burst of at most 16
-- bits that starts at a byte, and have the same checksum, then they are the same.
pub crc16_modbus_burst :
    (front back : List ℕ) (x y x' y' : ℕ)
    → IsBytes front
    → IsBytes back
    → IsByte x
    → IsByte y
    → IsByte x'
    → IsByte y'
    → crc16_modbus (front ++ x ∷ y ∷ back) ≡ crc16_modbus (front ++ x' ∷ y' ∷ back)
    → (x ≡ x') × (y ≡ y')
crc16_modbus_burst front back x y x' y' fs bs p q p' q' e =
    let c = foldl crc_byte crc16_init front in
    let h : c < 65536 = foldl-crc_byte-lt front crc16_init (omega arith) fs in
    let split : (u v : ℕ)
        → IsByte u
        → IsByte v
        → crc16_modbus (front ++ u ∷ v ∷ back) ≡ foldl crc_byte (crc_byte (crc_byte c u) v) back =
      λ u v r s.
        crc16_modbus-crc_byte (front ++ u ∷ v ∷ back)
          (All-append IsByte front (u ∷ v ∷ back) fs (r, (s, bs)))
        ∙ foldl-append crc_byte crc16_init front (u ∷ v ∷ back) in
    crc_byte_pair_injective c x y x' y' h p q p' q' (
      foldl-crc_byte_injective back (crc_byte (crc_byte c x) y) (crc_byte (crc_byte c x') y')
        (crc_byte-lt (crc_byte c x) y (crc_byte-lt c x h p) q)
        (crc_byte-lt (crc_byte c x') y' (crc_byte-lt c x' h p') q') bs
        (sym (split x y p q) ∙ e ∙ split x' y' p' q'))

-- If a frame passes `ValidateCRC16`, a frame that differs from it in one window of two adjacent
-- bytes before the checksum does not.
pub validate_crc16_burst :
    (front back : List ℕ) (x y x' y' l h : ℕ)
    → IsBytes front
    → IsBytes back
    → IsBytes (x ∷ y ∷ x' ∷ y' ∷ l ∷ h ∷ [])
    → ¬ ((x ≡ x') × (y ≡ y'))
    → validate_crc16 ((front ++ x ∷ y ∷ back) ++ l ∷ h ∷ []) ≡ true
    → validate_crc16 ((front ++ x' ∷ y' ∷ back) ++ l ∷ h ∷ []) ≡ false
validate_crc16_burst front back x y x' y' l h fs bs (p, (q, (p', (q', (r, (s, _)))))) damaged good =
    let sent = front ++ x ∷ y ∷ back in
    let got = front ++ x' ∷ y' ∷ back in
    let long : 2 ≤ length sent = omega (arith, length-append front (x ∷ y ∷ back)) in
    let long' : 2 ≤ length got = omega (arith, length-append front (x' ∷ y' ∷ back)) in
    elim (Bool-cases (crc16_modbus got == h * 256 + l)) [
      | inl hit ↦ absurd (
          damaged (
            crc16_modbus_burst front back x y x' y' fs bs p q p' q' (
              (==_iff _ _).0 (sym (validate_crc16-append sent l h long r s) ∙ good)
              ∙ sym ((==_iff _ _).0 hit))))
      | inr miss ↦ validate_crc16-append got l h long' r s ∙ miss
    ]

-- A frame of bytes that passes `ValidateCRC16` does not pass it with another checksum in its last
-- two bytes.
pub validate_crc16_checksum :
    (payload : List ℕ) (l h l' h' : ℕ)
    → 2 ≤ length payload
    → IsBytes (l ∷ h ∷ l' ∷ h' ∷ [])
    → ¬ ((l ≡ l') × (h ≡ h'))
    → validate_crc16 (payload ++ l ∷ h ∷ []) ≡ true
    → validate_crc16 (payload ++ l' ∷ h' ∷ []) ≡ false
validate_crc16_checksum payload l h l' h' long (p, (q, (p', (q', _)))) damaged good =
    elim (Bool-cases (crc16_modbus payload == h' * 256 + l')) [
      | inl hit ↦
          let sum : crc16_modbus payload ≡ h * 256 + l =
            (==_iff _ _).0 (sym (validate_crc16-append payload l h long p q) ∙ good) in
          let sum' : crc16_modbus payload ≡ h' * 256 + l' = (==_iff _ _).0 hit in
          absurd (damaged (omega arith, omega arith))
      | inr miss ↦ validate_crc16-append payload l' h' long p' q' ∙ miss
    ]
