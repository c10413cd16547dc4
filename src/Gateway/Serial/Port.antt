-- ===== src/Gateway/Serial/Port.antt =====
-- internal/gateway/serial.go: the configuration of the port, its opening and closing, and writing to it. What the
-- package of the port answers is an argument; of its constants only the names are used.
pub mod Flags
use Prim.Native.String.{String}
use thermal_recovery_flow.Base.{
  ℕ, ◌+◌, Bool, true, false, not, ◌||◌, Option, none, some, List, [], ◌++◌, if◌then◌else◌, take,
}
use thermal_recovery_flow.Base.Int.{ℤ, pos}

pub data StopBits : Type 0 where
  one_stop_bit two_stop_bits : StopBits

pub data Parity : Type 0 where
  no_parity even_parity odd_parity : Parity

pub record SerialConfig : Type 0 where
  pub port_name : String
  pub baud_rate : ℤ
  pub data_bits : ℤ
  pub stop_bits : StopBits
  pub parity : Parity
  pub rs485_mode : Bool

-- The fields of SerialGateway that belong to the port; `port` says whether it is not nil.
pub record SerialPort : Type 0 where
  pub config : SerialConfig
  pub port : Bool
  pub running : Bool
  pub closed : Bool
  -- What `port.Write` has taken, and the calls of `port.Close`.
  pub written : List ℕ
  pub close_calls : ℕ

pub default_serial_config : String → SerialConfig
default_serial_config port_name = record {
  port_name = port_name;
  baud_rate = pos 115200;
  data_bits = pos 8;
  stop_bits = one_stop_bit;
  parity = no_parity;
  rs485_mode = false;
}

pub default_rs485_config : String → SerialConfig
default_rs485_config port_name = record {
  port_name = port_name;
  baud_rate = pos 115200;
  data_bits = pos 8;
  stop_bits = one_stop_bit;
  parity = even_parity;
  rs485_mode = true;
}

-- `NewSerialGateway`.
pub new_serial_gateway : SerialConfig → SerialPort
new_serial_gateway config = record {
  config = config;
  port = false;
  running = false;
  closed = false;
  written = [];
  close_calls = 0;
}

-- `Start`, with the error of `serial.Open`.
pub start {ℓ} : {E : Type ℓ} → SerialPort → Option E → SerialPort × Option E
start s (some e) = (s, some e)
start s none = (record s { port = true; running = true; closed = false }, none)

-- `Write`, with the count and the error of `port.Write`.
pub write {ℓ} : {E : Type ℓ} → SerialPort → List ℕ → ℕ × Option E → SerialPort × ℕ × Option E
write s bytes (count, e) =
    if not s.port || s.closed
    then (s, 0, none)
    else (record s { written = s.written ++ take count bytes }, count, e)

-- `muSafeClosePort`.
pub mu_safe_close_port : SerialPort → SerialPort
mu_safe_close_port s =
    if s.closed
    then s
    else if s.port
    then record s { closed = true; port = false; close_calls = s.close_calls + 1 }
    else record s { closed = true }

-- `Stop`, without the waiting for the goroutine.
pub stop : SerialPort → SerialPort
unfolding mu_safe_close_port
stop s = if s.running then mu_safe_close_port (record s { running = false }) else s
