-- ===== src/Choke/Override.antt =====
-- internal/choke/modbus_override.go: the packets that override the valve. The counter `overrideSeqNum`
-- is passed through; `now` is `time.Now()` and `elapsed` what `time.Since(start)` gives.
pub mod Packets
pub mod Multiple
use Prim.Native.String.{String, ◌++◌ as string_append}
use thermal_recovery_flow.Base.{
  ℕ, ◌+◌, ◌*◌, Bool, true, false, Option, none, some, List, [], ◌∷◌, ◌++◌, if◌then◌else◌, ltb,
  length, u8, u16, u32, ◌>>>◌,
}
use thermal_recovery_flow.Base.Int.{ℤ}
use thermal_recovery_flow.Base.Float.{Float, ◌*ᶠ◌, ◌/ᶠ◌}
use thermal_recovery_flow.Crc.{append_crc16}
use thermal_recovery_flow.Choke.{
  ThreatLevel, threat_normal, threat_elevated, threat_critical, threat_imminent, SafetyAssessment,
}

abbrev pub func_write_single_register : ℕ
func_write_single_register = 0x06

abbrev pub func_write_multiple_registers : ℕ
func_write_multiple_registers = 0x10

abbrev pub override_priority_emergency : ℕ
override_priority_emergency = 0xFF

abbrev pub override_priority_high : ℕ
override_priority_high = 0x80

pub record OverrideCommand (F : Type 0) : Type 0 where
  pub slave_address : ℕ
  pub function_code : ℕ
  pub register_addr : ℕ
  pub register_value : ℕ
  pub priority : ℕ
  pub timestamp : ℕ
  pub sequence_number : ℕ
  pub reason : String
  pub assessment : SafetyAssessment F

pub record OverridePacket (F : Type 0) : Type 0 where
  pub raw_bytes : List ℕ
  pub command : OverrideCommand F
  pub assemble_time : ℤ

-- `threatLevelString`.
threat_level_string : ThreatLevel → String
threat_level_string threat_normal = "NORMAL"
threat_level_string threat_elevated = "ELEVATED"
threat_level_string threat_critical = "CRITICAL"
threat_level_string threat_imminent = "IMMINENT"

-- `atomicAddSeq`, which is no atomic operation.
atomic_add_seq : ℕ → ℕ
atomic_add_seq seq = u32 (seq + 1)

-- `binary.BigEndian.PutUint16(b, v)`, of the standard library.
abbrev pub put_uint16 : ℕ → List ℕ
put_uint16 v = u8 (v >>> 8) ∷ u8 v ∷ []

abbrev put_all : List ℕ → List ℕ
put_all [] = []
put_all (v ∷ values) = put_uint16 v ++ put_all values

module _ {F : Type 0} ⦃o : Float F⦄ where
  open o use {lit, to_uint16}

  unfoldable pub parse_opening_from_register_value : ℕ → F
  parse_opening_from_register_value value = lit value 0 /ᶠ lit 1000 0

  -- `OpeningToRegisterValue`, and the first lines of `BuildEmergencyOverride`.
  pub opening_to_register_value : F → ℕ
  opening_to_register_value opening =
      let v = to_uint16 (opening *ᶠ lit 1000 0) in if ltb 1000 v then 1000 else v

module _ {F : Type 0} where
  pub assemble_modbus_write_single : OverrideCommand F → List ℕ
  assemble_modbus_write_single cmd = append_crc16 (
      cmd.slave_address ∷ cmd.function_code ∷ put_uint16 cmd.register_addr
      ++ put_uint16 cmd.register_value)

  pub assemble_modbus_write_multiple : OverrideCommand F → List ℕ → List ℕ
  assemble_modbus_write_multiple cmd values =
      let n = length values in
      append_crc16 (
        cmd.slave_address ∷ cmd.function_code ∷ put_uint16 cmd.register_addr
        ++ put_uint16 (u16 n)
        ++ u8 (n * 2) ∷ put_all values)

  -- The command of `BuildMultiRegisterOverride`, with the first value.
  multi_command : ℕ → ℕ → ℕ → ℕ → ℕ → SafetyAssessment F → OverrideCommand F
  unfolding threat_level_string
  multi_command slave_addr register_addr now seq' v a = record {
    slave_address = slave_addr;
    function_code = func_write_multiple_registers;
    register_addr = register_addr;
    register_value = v;
    priority = if a.lockdown_required then override_priority_emergency else override_priority_high;
    timestamp = now;
    sequence_number = seq';
    reason = threat_level_string a.threat_level;
    assessment = a;
  }

module _ {F : Type 0} ⦃o : Float F⦄ (seq now : ℕ) (elapsed : ℤ) (slave_addr register_addr : ℕ) where
  -- `BuildEmergencyOverride`.
  unfoldable pub build_emergency_override : F → SafetyAssessment F → ℕ × OverridePacket F
  unfolding atomic_add_seq opening_to_register_value assemble_modbus_write_single
      threat_level_string
  build_emergency_override opening a =
      let seq' = atomic_add_seq seq in
      let permille = opening_to_register_value opening in
      let cmd : OverrideCommand F = record {
        slave_address = slave_addr;
        function_code = func_write_single_register;
        register_addr = register_addr;
        register_value = if a.lockdown_required then 0 else permille;
        priority =
            if a.lockdown_required then override_priority_emergency else override_priority_high;
        timestamp = now;
        sequence_number = seq';
        reason = threat_level_string a.threat_level;
        assessment = a;
      } in
      (
        seq',
        record {
          raw_bytes = assemble_modbus_write_single cmd;
          command = cmd;
          assemble_time = elapsed;
        },
      )

  -- `BuildLockdownOverride`.
  unfoldable pub build_lockdown_override : SafetyAssessment F → ℕ × OverridePacket F
  unfolding atomic_add_seq assemble_modbus_write_single threat_level_string
  build_lockdown_override a =
      let seq' = atomic_add_seq seq in
      let cmd : OverrideCommand F = record {
        slave_address = slave_addr;
        function_code = func_write_single_register;
        register_addr = register_addr;
        register_value = 0;
        priority = override_priority_emergency;
        timestamp = now;
        sequence_number = seq';
        reason = string_append "LOCKDOWN:" (threat_level_string a.threat_level);
        assessment = a;
      } in
      (
        seq',
        record {
          raw_bytes = assemble_modbus_write_single cmd;
          command = cmd;
          assemble_time = elapsed;
        },
      )

  -- `BuildMultiRegisterOverride`; `none` is the panic of `values[0]`, after the count has moved on.
  unfoldable pub build_multi_register_override :
      List ℕ → SafetyAssessment F → ℕ × Option (OverridePacket F)
  unfolding atomic_add_seq assemble_modbus_write_multiple multi_command
  build_multi_register_override [] a = (atomic_add_seq seq, none)
  build_multi_register_override (v ∷ values) a =
      let seq' = atomic_add_seq seq in
      let cmd = multi_command slave_addr register_addr now seq' v a in
      (
        seq',
        some (record {
          raw_bytes = assemble_modbus_write_multiple cmd (v ∷ values);
          command = cmd;
          assemble_time = elapsed;
        }),
      )
