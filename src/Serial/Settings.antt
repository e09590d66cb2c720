-- ===== src/Serial/Settings.antt =====
-- transport/rtu/client.go, server.go: what the client and the server give the driver of the port.
use modbus_gateway.Base.{ℕ, Bool, if◌then◌else◌, Outcome, ok, err, none}
use modbus_gateway.Gateway.SlaveIds.{Text, ℤ}
use modbus_gateway.Config.{SerialConfig}
use modbus_gateway.Serial.Port.{SerialPort}
use modbus_gateway.Serial.Server.{Scanned, scan_loop}
use modbus_gateway.Reads.{Incoming}
use modbus_gateway.Base.{List}

-- `serial.Config`, as far as it is set.
pub record PortSettings : Type 0 where
  pub address : Text
  pub baud_rate : ℤ
  pub data_bits : ℤ
  pub stop_bits : ℤ
  pub parity : Text
  pub timeout : ℤ

-- `NewClient` of the RTU client: the settings of the port and the port, in milliseconds.
unfoldable pub new_client : SerialConfig → PortSettings × SerialPort
new_client cfg = (
  record {
    address = cfg.device;
    baud_rate = cfg.baud_rate;
    data_bits = cfg.data_bits;
    stop_bits = cfg.stop_bits;
    parity = cfg.parity;
    timeout = cfg.timeout;
  },
  record { idle_timeout = 60000; port = none; last_activity = 0; close_timer = none },
)

-- The settings in `Start` of the RTU server.
unfoldable pub port_settings : SerialConfig → PortSettings
port_settings cfg = record {
  address = cfg.device;
  baud_rate = cfg.baud_rate;
  data_bits = cfg.data_bits;
  stop_bits = cfg.stop_bits;
  parity = cfg.parity;
  timeout = cfg.timeout;
}

-- `Start` of the RTU server, by whether the port can be opened with the settings: it fails, or the
-- scan loop runs.
unfoldable pub start :
    (PortSettings → Bool) → SerialConfig → ℕ → List Incoming → Outcome (Unit {0}) Scanned
unfolding port_settings
start opens cfg rounds incoming =
    if opens (port_settings cfg) then ok (scan_loop rounds incoming) else err tt
