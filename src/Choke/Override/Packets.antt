-- ===== src/Choke/Override/Packets.antt =====
-- The packets that write one register.
use thermal_recovery_flow.Base.{
  ℕ, ◌+◌, ◌%◌, ◌^◌, ◌≤◌, ◌<◌, ◌≡◌, refl, true, List, [], ◌∷◌, ◌++◌, arith, if◌then◌else◌, length,
  IsByte, IsBytes, drop, take,
}
use thermal_recovery_flow.Base.Int.{ℤ}
use thermal_recovery_flow.Base.Float.{Float}
use thermal_recovery_flow.Crc.{validate_crc16}
use thermal_recovery_flow.Crc.Frame.{
  validate_crc16-append_crc16, append_crc16-split, length-append_crc16,
}
use thermal_recovery_flow.Protocol.Extract.{big_endian_uint16}
use thermal_recovery_flow.Choke.{SafetyAssessment}
use thermal_recovery_flow.Choke.Override.{
  OverrideCommand, override_priority_emergency, override_priority_high, put_uint16,
  assemble_modbus_write_single, opening_to_register_value, build_emergency_override,
  build_lockdown_override,
}

pub big_endian_uint16-put_uint16 :
    (v : ℕ) (rest : List ℕ) → v < 65536 → big_endian_uint16 (put_uint16 v ++ rest) ≡ v
big_endian_uint16-put_uint16 v rest h = omega arith

-- The bytes on the wire are a Modbus request to this slave to write (function 6) this value to this register:
-- eight bytes, with a checksum that holds.
pub record IsWriteOf (slave register_addr register_value : ℕ) (raw : List ℕ) : Type 0 where
  pub checked : validate_crc16 raw ≡ true
  pub eight : length raw ≡ 8
  pub head : take 2 raw ≡ slave ∷ 6 ∷ []
  pub register : big_endian_uint16 (drop 2 raw) ≡ register_addr
  pub value : big_endian_uint16 (drop 4 raw) ≡ register_value

module _ {F : Type 0} where
  assemble-IsWriteOf :
      (cmd : OverrideCommand F)
      → IsByte cmd.slave_address
      → cmd.function_code ≡ 6
      → cmd.register_addr < 65536
      → cmd.register_value < 65536
      → IsWriteOf cmd.slave_address cmd.register_addr cmd.register_value
          (assemble_modbus_write_single cmd)
  unfolding assemble_modbus_write_single
  assemble-IsWriteOf cmd p q r s =
      let body =
        cmd.slave_address ∷ cmd.function_code ∷ put_uint16 cmd.register_addr
        ++ put_uint16 cmd.register_value in
      let bytes : IsBytes body = omega arith in
      let shape = append_crc16-split body bytes in
      record {
        checked = validate_crc16-append_crc16 body bytes (omega arith);
        eight = length-append_crc16 body;
        head = rw (shape, q) refl;
        register = rw shape (omega arith);
        value = rw shape (omega arith);
      }

module _ {F : Type 0} ⦃o : Float F⦄ where
  pub opening_to_register_value-le : (opening : F) → opening_to_register_value opening ≤ 1000
  unfolding opening_to_register_value
  opening_to_register_value-le opening = ground arith

  module _ (seq now : ℕ) (elapsed : ℤ) (slave_addr register_addr : ℕ) (a : SafetyAssessment F) where
    -- To an address of one byte and a register of 16 bits, an emergency override is a well-formed
    -- write of the commanded register, under the next sequence number. The value is at most 1000,
    -- and 0 under a lockdown, which has the emergency priority; any other has the high one.
    pub build_emergency_override-IsWriteOf :
        (opening : F)
        → IsByte slave_addr
        → register_addr < 65536
        → let (seq', packet) =
            build_emergency_override seq now elapsed slave_addr register_addr opening a in
          let cmd = packet.command in
          IsWriteOf slave_addr register_addr cmd.register_value packet.raw_bytes
          × (cmd.register_value ≤ (if a.lockdown_required then 0 else 1000))
          × (cmd.priority ≡ (
              if a.lockdown_required then override_priority_emergency else override_priority_high))
          × (seq' ≡ (seq + 1) % 2 ^ 32)
          × (cmd.sequence_number ≡ seq')
    unfolding build_emergency_override
    build_emergency_override-IsWriteOf opening p r =
        let bound = opening_to_register_value-le opening in
        let made = build_emergency_override seq now elapsed slave_addr register_addr opening a in
        let small : (if a.lockdown_required then 0 else opening_to_register_value opening)
            ≤ (if a.lockdown_required then 0 else 1000) =
          ground (arith, bound) in
        (
          assemble-IsWriteOf made.1.command p refl r (ground (arith, bound)),
          small,
          refl,
          refl,
          refl,
        )

    -- To an address of one byte and a register of 16 bits, a lockdown override is a well-formed
    -- write of 0 to the commanded register with the emergency priority, under the next sequence
    -- number.
    pub build_lockdown_override-IsWriteOf :
        IsByte slave_addr
        → register_addr < 65536
        → let (seq', packet) = build_lockdown_override seq now elapsed slave_addr register_addr a in
          let cmd = packet.command in
          IsWriteOf slave_addr register_addr 0 packet.raw_bytes
          × (cmd.priority ≡ override_priority_emergency)
          × (seq' ≡ (seq + 1) % 2 ^ 32)
          × (cmd.sequence_number ≡ seq')
    unfolding build_lockdown_override
    build_lockdown_override-IsWriteOf p r =
        let made = build_lockdown_override seq now elapsed slave_addr register_addr a in
        (assemble-IsWriteOf made.1.command p refl r (omega arith), refl, refl, refl)
