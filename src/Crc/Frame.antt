-- ===== src/Crc/Frame.antt =====
-- The checksum at the end of a frame: its place, its byte order, and its round trip.
use thermal_recovery_flow.Base.{
  ℕ, ◌+◌, ◌-◌, ◌*◌, ◌/◌, ◌%◌, ◌≤◌, ◌<◌, ◌≡◌, refl, ap, ◌∙◌, bit_and, bit_or, bit_xor, arith, true,
  false, List, [], ◌∷◌, ◌++◌, foldl, get_or, length, length-append, take-length_append,
  get_or-append, ==_iff, ◌==◌, ltb, le→ltb, u8, u16, ◌>>>◌, ◌<<<◌, IsByte, IsBytes,
}
use thermal_recovery_flow.Base.Bits.{bit_xor-lt, bit_and_byte, bit_or_low}
use thermal_recovery_flow.Crc.{crc16_init, crc16_modbus, validate_crc16, append_crc16}
use thermal_recovery_flow.Crc.Round.{crc_rounds-lt}
use thermal_recovery_flow.Crc.Bitwise.{crc_byte, crc16_modbus-crc_byte}

pub crc_byte-lt : (crc b : ℕ) → crc < 65536 → IsByte b → crc_byte crc b < 65536
unfolding crc_byte
crc_byte-lt crc b p q = crc_rounds-lt 8 (bit_xor crc b) (bit_xor-lt 16 crc b p (omega arith))

pub foldl-crc_byte-lt :
    (bytes : List ℕ) (crc : ℕ) → crc < 65536 → IsBytes bytes → foldl crc_byte crc bytes < 65536
foldl-crc_byte-lt [] crc p h = p
foldl-crc_byte-lt (b ∷ bytes) crc p (q, qs) =
    foldl-crc_byte-lt bytes (crc_byte crc b) (crc_byte-lt crc b p q) qs

-- The checksum of a message fits the 16 bits that a frame has for it.
pub crc16_modbus-lt : (bytes : List ℕ) → IsBytes bytes → crc16_modbus bytes < 65536
crc16_modbus-lt bytes h =
    rw (crc16_modbus-crc_byte bytes h) (foldl-crc_byte-lt bytes crc16_init (omega arith) h)

-- What the check says of a frame that ends in the bytes `l` and `h`.
pub validate_crc16-append :
    (payload : List ℕ) (l h : ℕ)
    → 2 ≤ length payload
    → IsByte l
    → IsByte h
    → validate_crc16 (payload ++ l ∷ h ∷ []) ≡ (crc16_modbus payload == h * 256 + l)
unfolding validate_crc16
validate_crc16-append payload l h long p q =
    let bytes = payload ++ l ∷ h ∷ [] in
    let size : length bytes - 2 ≡ length payload =
      omega (arith, length-append payload (l ∷ h ∷ [])) in
    let enough : ltb (length bytes) 4 ≡ false =
      le→ltb (length bytes) 4 (omega (arith, length-append payload (l ∷ h ∷ []))) in
    let low : get_or bytes (length payload) 0 ≡ l =
      ap (λ (k : ℕ). get_or bytes k 0) (omega arith) ∙ get_or-append payload (l ∷ h ∷ []) 0 0 in
    let high : get_or bytes (length payload + 1) 0 ≡ h = get_or-append payload (l ∷ h ∷ []) 1 0 in
    let joined : bit_or l (u16 (h <<< 8)) ≡ h * 256 + l =
      ap (λ (t : ℕ). bit_or l t) (omega arith) ∙ bit_or_low 8 h l p in
    rw enough (rw size (rw (low, high, joined, take-length_append) refl))

pub validate_crc16_short : (bytes : List ℕ) → length bytes < 4 → validate_crc16 bytes ≡ false
unfolding validate_crc16
validate_crc16_short bytes h = ground arith

-- A frame of two or more bytes that `AppendCRC16` has closed passes `ValidateCRC16`.
pub validate_crc16-append_crc16 :
    (bytes : List ℕ) → IsBytes bytes → 2 ≤ length bytes → validate_crc16 (append_crc16 bytes) ≡ true
unfolding append_crc16
validate_crc16-append_crc16 bytes p long =
    let crc = crc16_modbus bytes in
    let fits : crc < 65536 = crc16_modbus-lt bytes p in
    rw
      (validate_crc16-append bytes (u8 (bit_and crc 0xFF)) (u8 (crc >>> 8)) long (omega arith)
        (omega arith))
      ((==_iff _ _).1 (omega (arith, bit_and_byte crc)))

-- The two bytes that are appended are the low and the high byte of the checksum.
pub append_crc16-split :
    (bytes : List ℕ)
    → IsBytes bytes
    → append_crc16 bytes ≡ bytes ++ crc16_modbus bytes % 256 ∷ crc16_modbus bytes / 256 ∷ []
unfolding append_crc16
append_crc16-split bytes p =
    let crc = crc16_modbus bytes in
    let fits : crc < 65536 = crc16_modbus-lt bytes p in
    let low : u8 (bit_and crc 0xFF) ≡ crc % 256 = omega (arith, bit_and_byte crc) in
    let high : u8 (crc >>> 8) ≡ crc / 256 = omega arith in rw (low, high) refl

pub length-append_crc16 : (bytes : List ℕ) → length (append_crc16 bytes) ≡ length bytes + 2
unfolding append_crc16
length-append_crc16 bytes = length-append bytes _
