-- ===== src/Frame/Binary.antt =====
-- The bytes of `serializeBinary`, read back.
use thermal_recovery_flow.Base.{
  ℕ, zero, suc, ◌+◌, ◌*◌, ◌/◌, ◌%◌, ◌^◌, ◌<◌, ◌≡◌, refl, ap, Bool, true, false, List, [], ◌∷◌, ◌++◌,
  map, arith, if◌then◌else◌, ◌==◌, length, get_or, drop, take, IsByte, IsBytes, u8,
}
use thermal_recovery_flow.Protocol.Extract.{bytes_to_uint48}
use thermal_recovery_flow.Protocol.Extract.Fields.{uint48_sum}
use thermal_recovery_flow.Driftflux.{HydrodynamicsFrame}
use thermal_recovery_flow.Frame.{
  Formats, put_uint64, put_uint48, put_values, float_values, serialize_binary,
}

-- The number that the first eight bytes are, lowest first.
abbrev pub little_endian_uint64 : List ℕ → ℕ
little_endian_uint64 b =
    get_or b 0 0
    + get_or b 1 0 * 2 ^ 8
    + get_or b 2 0 * 2 ^ 16
    + get_or b 3 0 * 2 ^ 24
    + get_or b 4 0 * 2 ^ 32
    + get_or b 5 0 * 2 ^ 40
    + get_or b 6 0 * 2 ^ 48
    + get_or b 7 0 * 2 ^ 56

little_endian_uint64-put_uint64 :
    (v : ℕ) (rest : List ℕ) → v < 2 ^ 64 → little_endian_uint64 (put_uint64 v ++ rest) ≡ v
little_endian_uint64-put_uint64 v rest h = omega arith

bytes_to_uint48-put_uint48 : (v : ℕ) → bytes_to_uint48 (put_uint48 v) ≡ v % 2 ^ 48
bytes_to_uint48-put_uint48 v = omega (
  arith,
  uint48_sum (u8 (v / 2 ^ 40)) (u8 (v / 2 ^ 32)) (u8 (v / 2 ^ 24)) (u8 (v / 2 ^ 16))
      (u8 (v / 2 ^ 8)) (u8 v),
)

-- What a reader of the format finds in the bytes of one frame.
pub record BinaryFrame : Type 0 where
  pub slave_address : ℕ
  pub sensor_type : ℕ
  pub pressure : ℕ
  pub temperature : ℕ
  pub steam_quality : ℕ
  pub void_fraction : ℕ
  pub slip_velocity : ℕ
  pub liquid_velocity : ℕ
  pub vapor_velocity : ℕ
  pub mixture_velocity : ℕ
  pub liquid_density : ℕ
  pub vapor_density : ℕ
  pub mixture_density : ℕ
  pub liquid_enthalpy : ℕ
  pub vapor_enthalpy : ℕ
  pub mass_flow_rate : ℕ
  pub reynolds_number : ℕ
  pub timestamp : ℕ
  pub high_speed_time : ℕ
  pub iterations : ℕ
  pub converged : Bool

words : ℕ → List ℕ → List ℕ
words zero b = []
words (suc n) b = little_endian_uint64 b ∷ words n (drop 8 b)

pub read_binary : List ℕ → BinaryFrame
read_binary b = record {
  slave_address = get_or b 0 0;
  sensor_type = get_or b 1 0;
  pressure = little_endian_uint64 (drop 2 b);
  temperature = little_endian_uint64 (drop 10 b);
  steam_quality = little_endian_uint64 (drop 18 b);
  void_fraction = little_endian_uint64 (drop 26 b);
  slip_velocity = little_endian_uint64 (drop 34 b);
  liquid_velocity = little_endian_uint64 (drop 42 b);
  vapor_velocity = little_endian_uint64 (drop 50 b);
  mixture_velocity = little_endian_uint64 (drop 58 b);
  liquid_density = little_endian_uint64 (drop 66 b);
  vapor_density = little_endian_uint64 (drop 74 b);
  mixture_density = little_endian_uint64 (drop 82 b);
  liquid_enthalpy = little_endian_uint64 (drop 90 b);
  vapor_enthalpy = little_endian_uint64 (drop 98 b);
  mass_flow_rate = little_endian_uint64 (drop 106 b);
  reynolds_number = little_endian_uint64 (drop 114 b);
  timestamp = little_endian_uint64 (drop 122 b);
  high_speed_time = bytes_to_uint48 (take 6 (drop 130 b));
  iterations = get_or b 136 0;
  converged = get_or b 137 0 == 1;
}

byte_of : (b : ℕ) → IsByte b → u8 b ≡ b
byte_of b h = omega arith

flag : (b : Bool) → ((if b then 1 else 0) == 1) ≡ b
flag true = refl
flag false = refl

module _ {E F : Type 0} (std : Formats E F) where
  words-put_values :
      (values : List F) (rest : List ℕ)
      → ((x : F) → std.bits x < 2 ^ 64)
      → words (length values) (put_values std values ++ rest) ≡ map std.bits values
  unfolding words
  words-put_values [] rest fits = refl
  words-put_values (v ∷ values) rest fits =
      rw (little_endian_uint64-put_uint64 (std.bits v) (put_values std values ++ rest) (fits v))
        (ap (λ t. std.bits v ∷ t) (words-put_values values rest fits))

  abbrev tail : HydrodynamicsFrame F → List ℕ
  tail h = u8 h.iterations ∷ (if h.converged then 1 else 0) ∷ []

  -- Each frame takes 138 bytes.
  pub serialize_binary-IsBytes :
      (h : HydrodynamicsFrame F)
      → (length (serialize_binary std h) ≡ 138) × IsBytes (serialize_binary std h)
  unfolding serialize_binary
  serialize_binary-IsBytes h = ground arith

  -- A reader of the bytes of a frame, who takes each field from its own place, finds every field
  -- again, where the address and the type of the sensor are bytes, and the time and the bits of a
  -- float64 have 64 bits: the address, the type, the bits of each of the 15 float64 values under
  -- its own name, the time and the flag as they are, the time of the sensor modulo 2 ^ 48, and the
  -- number of iterations modulo 256.
  pub read_binary-serialize_binary :
      (h : HydrodynamicsFrame F)
      → IsByte h.slave_address
      → IsByte h.sensor_type
      → h.timestamp < 2 ^ 64
      → ((x : F) → std.bits x < 2 ^ 64)
      → read_binary (serialize_binary std h) ≡ record {
        slave_address = h.slave_address;
        sensor_type = h.sensor_type;
        pressure = std.bits h.pressure;
        temperature = std.bits h.temperature;
        steam_quality = std.bits h.steam_quality;
        void_fraction = std.bits h.void_fraction;
        slip_velocity = std.bits h.slip_velocity;
        liquid_velocity = std.bits h.liquid_velocity;
        vapor_velocity = std.bits h.vapor_velocity;
        mixture_velocity = std.bits h.mixture_velocity;
        liquid_density = std.bits h.liquid_density;
        vapor_density = std.bits h.vapor_density;
        mixture_density = std.bits h.mixture_density;
        liquid_enthalpy = std.bits h.liquid_enthalpy;
        vapor_enthalpy = std.bits h.vapor_enthalpy;
        mass_flow_rate = std.bits h.mass_flow_rate;
        reynolds_number = std.bits h.reynolds_number;
        timestamp = h.timestamp;
        high_speed_time = h.high_speed_time % 2 ^ 48;
        iterations = h.iterations % 256;
        converged = h.converged;
      }
  unfolding serialize_binary read_binary words
  read_binary-serialize_binary h addr type now fits =
      let rest = put_uint64 h.timestamp ++ put_uint48 h.high_speed_time ++ tail h in
      let values = words-put_values (float_values std h) rest fits in
      let time =
        little_endian_uint64-put_uint64 h.timestamp (put_uint48 h.high_speed_time ++ tail h) now in
      λ i. record {
        slave_address = byte_of h.slave_address addr i;
        sensor_type = byte_of h.sensor_type type i;
        pressure = get_or (values i) 0 0;
        temperature = get_or (values i) 1 0;
        steam_quality = get_or (values i) 2 0;
        void_fraction = get_or (values i) 3 0;
        slip_velocity = get_or (values i) 4 0;
        liquid_velocity = get_or (values i) 5 0;
        vapor_velocity = get_or (values i) 6 0;
        mixture_velocity = get_or (values i) 7 0;
        liquid_density = get_or (values i) 8 0;
        vapor_density = get_or (values i) 9 0;
        mixture_density = get_or (values i) 10 0;
        liquid_enthalpy = get_or (values i) 11 0;
        vapor_enthalpy = get_or (values i) 12 0;
        mass_flow_rate = get_or (values i) 13 0;
        reynolds_number = get_or (values i) 14 0;
        timestamp = time i;
        high_speed_time = bytes_to_uint48-put_uint48 h.high_speed_time i;
        iterations = h.iterations % 256;
        converged = flag h.converged i;
      }
