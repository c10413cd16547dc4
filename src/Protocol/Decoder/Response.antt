-- ===== src/Protocol/Decoder/Response.antt =====
-- A well-formed response of a slave is decoded to what it carries.
use thermal_recovery_flow.Base.{
  ℕ, ◌+◌, ◌-◌, ◌*◌, ◌/◌, ◌%◌, ◌≤◌, ◌<◌, ◌≡◌, refl, ap, ◌∙◌, true, false, none, some, List, [], ◌∷◌,
  ◌++◌, arith, inc64, ltb, leb, ◌==◌, length, get_or, length-append, take-length_append,
  drop-length_append, slice?, IsByte, IsBytes,
}
use thermal_recovery_flow.Crc.{crc16_modbus, validate_crc16, append_crc16}
use thermal_recovery_flow.Crc.Frame.{append_crc16-split, validate_crc16-append_crc16}
use thermal_recovery_flow.Protocol.{ModbusRtuFrame}
use thermal_recovery_flow.Protocol.Decoder.{
  BitDecoder, decode_modbus_rtu, read_registers, check_crc, finish, carried_on,
}

-- What a slave sends before the checksum: its address, the function, the count, the registers.
abbrev pub response : ℕ → ℕ → List ℕ → List ℕ
response addr func payload = addr ∷ func ∷ length payload ∷ payload

abbrev bare : ℕ → ℕ → ℕ → ModbusRtuFrame
bare addr func size = record {
  slave_address = addr;
  function_code = func;
  payload = [];
  crc = 0;
  is_valid = false;
  raw_length = size;
}

slice-payload :
    (a b c : ℕ) (payload tail : List ℕ)
    → slice? (a ∷ b ∷ c ∷ payload ++ tail) 3 (3 + length payload) ≡ some payload
slice-payload a b c payload tail =
    let size : 3 + length payload - 3 ≡ length payload = omega arith in
    let inside : leb (3 + length payload) (length (a ∷ b ∷ c ∷ payload ++ tail)) ≡ true =
      ground (arith, length-append payload tail) in
    let lower : leb 3 (3 + length payload) ≡ true = ground arith in
    rw (lower, inside) (rw size (ap some (take-length_append payload tail)))

read_registers-response :
    (d : BitDecoder) (addr func l h : ℕ) (payload : List ℕ) (frame : ModbusRtuFrame)
    → 0 < length payload
    → length payload ≤ 255
    → read_registers d (response addr func payload ++ l ∷ h ∷ []) frame
      ≡ carried_on d (record frame { payload = payload })
unfolding read_registers
read_registers-response d addr func l h payload frame p q = ground (
  arith,
  length-append payload (l ∷ h ∷ []),
  slice-payload addr func (length payload) payload (l ∷ h ∷ []),
)

check_crc-tail :
    (d : BitDecoder) (body : List ℕ) (l h : ℕ) (frame : ModbusRtuFrame)
    → validate_crc16 (body ++ l ∷ h ∷ []) ≡ true
    → check_crc (body ++ l ∷ h ∷ []) d frame ≡ record {
      decoder = d;
      frame = some (record frame { is_valid = true; crc = l + 256 * h });
      error = none;
    }
unfolding check_crc
check_crc-tail d body l h frame good =
    let bytes = body ++ l ∷ h ∷ [] in
    let size : length bytes - 2 ≡ length body = omega (arith, length-append body (l ∷ h ∷ [])) in
    ground
      (arith, good, size, length-append body (l ∷ h ∷ []), drop-length_append body (l ∷ h ∷ []))

finish-carried_on :
    (bytes : List ℕ) (d : BitDecoder) (frame : ModbusRtuFrame)
    → finish bytes (carried_on d frame) ≡ check_crc bytes d frame
unfolding finish
finish-carried_on bytes d frame = refl

decode_modbus_rtu-in_range :
    (d : BitDecoder) (bytes : List ℕ)
    → 5 ≤ length bytes
    → length bytes ≤ 512
    → decode_modbus_rtu d bytes
      ≡ finish bytes (
          read_registers
            (record d { total_frames = inc64 d.total_frames })
            bytes
            (bare (get_or bytes 0 0) (get_or bytes 1 0) (length bytes)))
unfolding decode_modbus_rtu
decode_modbus_rtu-in_range d bytes p q =
    let tests : ((length bytes == 0) ≡ false)
        × (ltb 512 (length bytes) ≡ false)
        × (ltb (length bytes) 5 ≡ false) =
      ground arith in
    rw (tests.0, tests.1, tests.2) refl

-- Every response, of bytes, with 1 to 255 bytes of registers that is closed by its checksum
-- decodes without an error to exactly its address, function, registers and checksum, and only the
-- total is counted.
pub decode_modbus_rtu-response :
    (d : BitDecoder) (addr func : ℕ) (payload : List ℕ)
    → IsByte addr
    → IsByte func
    → IsBytes payload
    → 0 < length payload
    → length payload ≤ 255
    → decode_modbus_rtu d (append_crc16 (response addr func payload)) ≡ record {
      decoder = record d { total_frames = inc64 d.total_frames };
      frame = some (record {
        slave_address = addr;
        function_code = func;
        payload = payload;
        crc = crc16_modbus (response addr func payload);
        is_valid = true;
        raw_length = length payload + 5;
      });
      error = none;
    }
decode_modbus_rtu-response d addr func payload pa pf ps p q =
    let body = response addr func payload in
    let bytes : IsBytes body = (pa, (pf, (omega arith, ps))) in
    let crc = crc16_modbus body in
    let good = validate_crc16-append_crc16 body bytes (omega arith) in
    let sum : crc % 256 + 256 * (crc / 256) ≡ crc = omega arith in
    let size : length (body ++ crc % 256 ∷ crc / 256 ∷ []) ≡ length payload + 5 =
      omega (arith, length-append payload (crc % 256 ∷ crc / 256 ∷ [])) in
    let d' = record d { total_frames = inc64 d.total_frames } in
    let frame = bare addr func (length (body ++ crc % 256 ∷ crc / 256 ∷ [])) in
    rw (append_crc16-split body bytes) (
      decode_modbus_rtu-in_range d (body ++ crc % 256 ∷ crc / 256 ∷ []) (omega arith) (omega arith)
      ∙ ground (
        arith,
        read_registers-response d' addr func (crc % 256) (crc / 256) payload frame p q,
        finish-carried_on (body ++ crc % 256 ∷ crc / 256 ∷ []) d'
            (record frame { payload = payload }),
        check_crc-tail d' body (crc % 256) (crc / 256) (record frame { payload = payload })
            (rw (← append_crc16-split body bytes) good),
      ))
