-- ===== src/Gateway/Serial/Port/Flags.antt =====
-- internal/gateway/serial.go: when the port is open.
use thermal_recovery_flow.Base.{◌≡◌, refl, false, not, ◌&&◌, Option, none, some, arith}
use thermal_recovery_flow.Gateway.Serial.Port.{
  SerialConfig, SerialPort, new_serial_gateway, start, stop, mu_safe_close_port,
}

-- A port that runs has not been closed, and one that does not run is not open.
pub record IsPort (s : SerialPort) : Type 0 where
  pub open_port : (s.running && s.closed) ≡ false
  pub shut_port : (not s.running && s.port) ≡ false

pub new_serial_gateway-IsPort : (cfg : SerialConfig) → IsPort (new_serial_gateway cfg)
unfolding new_serial_gateway
new_serial_gateway-IsPort cfg = record { open_port = refl; shut_port = refl }

pub start-IsPort :
    {E : Type 0} (s : SerialPort) (opened : Option E) → IsPort s → IsPort (start s opened).0
unfolding start
start-IsPort s none v = record { open_port = refl; shut_port = refl }
start-IsPort s (some e) v = v

pub stop-IsPort : (s : SerialPort) → IsPort s → ((stop s).running ≡ false) × ((stop s).port ≡ false)
unfolding stop mu_safe_close_port
stop-IsPort s v = ground arith
