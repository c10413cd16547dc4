-- ===== src/Choke/Override/Multiple.antt =====
-- The packet that writes several registers.
use thermal_recovery_flow.Base.{
  ℕ, zero, suc, ◌+◌, ◌*◌, ◌%◌, ◌^◌, ◌≤◌, ◌<◌, ◌≡◌, ◌↔◌, refl, ap, true, some, List, [], ◌∷◌, ◌++◌,
  arith, length, u8, u16, ◌>>>◌, IsByte, IsBytes, All, drop, take, get_or,
}
use thermal_recovery_flow.Base.Int.{ℤ}
use thermal_recovery_flow.Base.Float.{Float}
use thermal_recovery_flow.Crc.{validate_crc16}
use thermal_recovery_flow.Crc.Frame.{
  validate_crc16-append_crc16, append_crc16-split, length-append_crc16,
}
use thermal_recovery_flow.Protocol.Extract.{big_endian_uint16}
use thermal_recovery_flow.Choke.{SafetyAssessment}
use thermal_recovery_flow.Choke.Override.{
  OverrideCommand, OverridePacket, put_uint16, put_all, atomic_add_seq, multi_command,
  assemble_modbus_write_multiple, build_multi_register_override,
}

-- What a slave reads: `n` registers, highest byte first.
abbrev pub read_values : ℕ → List ℕ → List ℕ
read_values zero bytes = []
read_values (suc n) [] = []
read_values (suc n) (hi ∷ []) = []
read_values (suc n) (hi ∷ lo ∷ bytes) = (hi * 256 + lo) ∷ read_values n bytes

abbrev pub IsWord : ℕ → Type 0
IsWord v = v < 65536

length-put_all : (values : List ℕ) → length (put_all values) ≡ 2 * length values
length-put_all [] = refl
length-put_all (v ∷ values) = omega (arith, length-put_all values)

put_all-IsBytes : (values : List ℕ) → IsBytes (put_all values)
put_all-IsBytes [] = tt
put_all-IsBytes (v ∷ values) = (omega arith, (omega arith, put_all-IsBytes values))

read_values-put_all :
    (values rest : List ℕ)
    → All IsWord values
    → read_values (length values) (put_all values ++ rest) ≡ values
read_values-put_all [] rest h = refl
read_values-put_all (v ∷ values) rest (p, ps) =
    let word : u8 (v >>> 8) * 256 + u8 v ≡ v = omega arith in
    rw word (ap (◌∷◌ v) (read_values-put_all values rest ps))

-- A request to this slave to write several registers (function 16) from this one on, as the slave takes it apart.
pub record IsMultiWriteOf (slave register_addr : ℕ) (values raw : List ℕ) : Type 0 where
  pub checked : validate_crc16 raw ≡ true
  pub size : length raw ≡ 9 + 2 * length values
  pub head : take 2 raw ≡ slave ∷ 16 ∷ []
  pub register : big_endian_uint16 (drop 2 raw) ≡ register_addr
  pub count : big_endian_uint16 (drop 4 raw) ≡ length values
  pub byte_count : get_or raw 6 0 ≡ (2 * length values) % 256
  pub carried : read_values (length values) (drop 7 raw) ≡ values

module _ {F : Type 0} where
  assemble-IsMultiWriteOf :
      (cmd : OverrideCommand F) (values : List ℕ)
      → IsByte cmd.slave_address
      → cmd.function_code ≡ 16
      → cmd.register_addr < 65536
      → All IsWord values
      → length values < 65536
      → IsMultiWriteOf cmd.slave_address cmd.register_addr values
          (assemble_modbus_write_multiple cmd values)
  unfolding assemble_modbus_write_multiple
  assemble-IsMultiWriteOf cmd values p q r words few =
      let body =
        cmd.slave_address ∷ cmd.function_code ∷ put_uint16 cmd.register_addr
        ++ put_uint16 (u16 (length values))
        ++ u8 (length values * 2) ∷ put_all values in
      let bytes : IsBytes body = (
        p,
        (
          omega arith,
          (
            omega arith,
            (omega arith, (omega arith, (omega arith, (omega arith, put_all-IsBytes values)))),
          ),
        ),
      ) in
      let shape = append_crc16-split body bytes in
      record {
        checked = validate_crc16-append_crc16 body bytes (omega arith);
        size = omega (arith, length-append_crc16 body, length-put_all values);
        head = rw (shape, q) refl;
        register = rw shape (omega arith);
        count = rw shape (omega arith);
        byte_count = rw shape (omega arith);
        carried = rw shape (read_values-put_all values _ words);
      }

module _ {F : Type 0} ⦃o : Float F⦄ (seq now : ℕ) (elapsed : ℤ) (slave_addr register_addr : ℕ)
    (a : SafetyAssessment F) where
  -- The packet for one or more registers, fewer than 65536 values of 16 bits, to an address of one
  -- byte and a register of 16 bits asks the slave with this address to write (function 16) from this
  -- register on, and carries all of the values, in order, under a checksum that holds, and with their
  -- number. Its byte count is right exactly for up to 127 registers: from 128 on the
  -- count is cut to its lowest byte.
  pub build_multi_register_override-IsMultiWriteOf :
      (v : ℕ) (values : List ℕ)
      → IsByte slave_addr
      → register_addr < 65536
      → All IsWord (v ∷ values)
      → length (v ∷ values) < 65536
      → (packet : OverridePacket F) × (build_multi_register_override seq now elapsed slave_addr
            register_addr
            (v ∷ values)
            a
          ≡ ((seq + 1) % 2 ^ 32, some packet))
        × IsMultiWriteOf slave_addr register_addr (v ∷ values) packet.raw_bytes
        × ((get_or packet.raw_bytes 6 0 ≡ 2 * length (v ∷ values)) ↔ (length (v ∷ values) ≤ 127))
  unfolding build_multi_register_override
  build_multi_register_override-IsMultiWriteOf v values p r words few =
      let cmd = multi_command slave_addr register_addr now (atomic_add_seq seq) v a in
      let written = assemble-IsMultiWriteOf cmd (v ∷ values) p refl r words few in
      let raw = assemble_modbus_write_multiple cmd (v ∷ values) in
      (
        record { raw_bytes = raw; command = cmd; assemble_time = elapsed },
        refl,
        written,
        (λ e. omega (arith, written.byte_count), λ e. omega (arith, written.byte_count)),
      )
