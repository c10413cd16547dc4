-- ===== src/Config.antt =====
-- internal/config/config.go: the configuration, its default and how it is loaded. Reading a file and decoding JSON
-- are arguments; logging is left out.
use Prim.Native.String.{String}
use text.Mathlib.Text.{◌==◌ as str_eq}
use thermal_recovery_flow.Base.{
  ℕ, ◌≡◌, refl, arith, Bool, true, false, ◌||◌, Option, some, List, if◌then◌else◌, Result, ok, err,
}
use thermal_recovery_flow.Base.Int.{ℤ, pos}
use thermal_recovery_flow.Base.Float.{Float}
use thermal_recovery_flow.Logger.{
  LogLevel, level_debug, level_info, level_warn, level_error, level_fatal,
}

pub record TcpConfig : Type 0 where
  pub enabled : Bool
  pub listen_addr : String
  pub buffer_size : ℤ
  pub max_connections : ℤ
  pub idle_timeout_ms : ℤ

pub record SerialPortConfig : Type 0 where
  pub enabled : Bool
  pub port_name : String
  pub baud_rate : ℤ
  pub data_bits : ℤ
  pub stop_bits : ℤ
  pub parity : String
  pub rs485_mode : Bool

pub record DecoderConfig : Type 0 where
  pub channel_size : ℤ

pub record SolverConfig (F : Type 0) : Type 0 where
  pub max_iterations : ℤ
  pub tolerance : F
  pub flow_area : F
  pub gravity : F
  pub c0 : F
  pub vdj : F
  pub channel_size : ℤ

-- OutputConfig of this package.
pub record OutputSettings : Type 0 where
  pub enabled : Bool
  pub format : String
  pub output_file : String
  pub tcp_server : Bool
  pub tcp_listen_addr : String
  pub flush_interval : ℤ

pub record ChokeConfig (F : Type 0) : Type 0 where
  pub enabled : Bool
  pub safety_pressure_limit : F
  pub downstream_pressure : F
  pub override_slave_addr : ℤ
  pub override_register : ℤ
  pub override_target_addr : String

pub record Config (F : Type 0) : Type 0 where
  pub tcp : TcpConfig
  pub serial : SerialPortConfig
  pub decoder : DecoderConfig
  pub solver : SolverConfig F
  pub output : OutputSettings
  pub choke : ChokeConfig F
  pub log_level : String
  pub log_file : String

-- What `os.ReadFile` returns: the bytes, that there is no such file, or another error.
pub data FileRead (E : Type 0) : Type 0 where
  found : List ℕ → FileRead E
  not_found : FileRead E
  failed : E → FileRead E

module _ {F : Type 0} ⦃o : Float F⦄ where
  open o use {lit}

  pub default_config : Config F
  default_config = record {
    tcp = record {
      enabled = true;
      listen_addr = ":502";
      buffer_size = pos 10000;
      max_connections = pos 1024;
      idle_timeout_ms = pos 120000;
    };
    serial = record {
      enabled = false;
      port_name = "COM1";
      baud_rate = pos 115200;
      data_bits = pos 8;
      stop_bits = pos 1;
      parity = "N";
      rs485_mode = false;
    };
    decoder = record { channel_size = pos 10000 };
    solver = record {
      max_iterations = pos 100;
      tolerance = lit 1 10;
      flow_area = lit 7854 6;
      gravity = lit 981 2;
      c0 = lit 12 1;
      vdj = lit 35 2;
      channel_size = pos 10000;
    };
    output = record {
      enabled = true;
      format = "json";
      output_file = "data/hydrodynamics.log";
      tcp_server = true;
      tcp_listen_addr = ":8080";
      flush_interval = pos 100;
    };
    choke = record {
      enabled = true;
      safety_pressure_limit = lit 35000000 0;
      downstream_pressure = lit 1013250 1;
      override_slave_addr = pos 1;
      override_register = pos 256;
      override_target_addr = "127.0.0.1:502";
    };
    log_level = "INFO";
    log_file = "logs/gateway.log";
  }

  -- `LoadConfig`, with what the file is and `json.Unmarshal`, which starts from the default.
  pub load_config :
      {E : Type 0}
      → (List ℕ → Config F → Result E (Config F))
      → String
      → FileRead E
      → Result E (Config F)
  unfolding default_config
  load_config unmarshal path file = if str_eq path "" then ok default_config else elim file [
    | not_found ↦ ok default_config
    | failed e ↦ err e
    | found bytes ↦ unmarshal bytes default_config
  ]

-- `Save`, with `json.MarshalIndent` and `os.WriteFile`, which says what the file is then.
pub save :
    {E F : Type 0}
    → (Config F → Result E (List ℕ))
    → (List ℕ → FileRead E → FileRead E × Option E)
    → Config F
    → FileRead E
    → FileRead E × Option E
save marshal write_file cfg file = elim (marshal cfg) [
  | err e ↦ (file, some e)
  | ok bytes ↦ write_file bytes file
]

pub parse_log_level : String → LogLevel
parse_log_level level =
    if str_eq level "DEBUG" || str_eq level "debug"
    then level_debug
    else if str_eq level "INFO" || str_eq level "info"
    then level_info
    else if str_eq level "WARN"
        || str_eq level "warn"
        || str_eq level "WARNING"
        || str_eq level "warning"
    then level_warn
    else if str_eq level "ERROR" || str_eq level "error"
    then level_error
    else if str_eq level "FATAL" || str_eq level "fatal"
    then level_fatal
    else level_info

module _ {E F : Type 0} ⦃o : Float F⦄ where
  pub load_config-not_found :
      (unmarshal : List ℕ → Config F → Result E (Config F)) (path : String)
      → load_config unmarshal path not_found ≡ ok default_config
  unfolding load_config
  load_config-not_found unmarshal path = ground arith

  pub load_config-found :
      (unmarshal : List ℕ → Config F → Result E (Config F)) (path : String) (bytes : List ℕ)
      → str_eq path "" ≡ false
      → load_config unmarshal path (found bytes) ≡ unmarshal bytes default_config
  unfolding load_config
  load_config-found unmarshal path bytes named = rw named refl

  pub save-ok :
      (marshal : Config F → Result E (List ℕ))
      (write_file : List ℕ → FileRead E → FileRead E × Option E) (cfg : Config F)
      (file : FileRead E) (bytes : List ℕ)
      → marshal cfg ≡ ok bytes
      → save marshal write_file cfg file ≡ write_file bytes file
  unfolding save
  save-ok marshal write_file cfg file bytes e = rw (e, save) refl

pub default_config-level :
    (F : Type 0) → ⦃o : Float F⦄ → parse_log_level ((default_config {F = F}).log_level) ≡ level_info
unfolding default_config parse_log_level
default_config-level F = refl
