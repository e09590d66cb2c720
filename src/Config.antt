-- ===== src/Config.antt =====
-- internal/config/config.go: the structures of the configuration, and `LoadConfig` with its fixups.
pub mod Fixes
use modbus_gateway.Base.{
  ◌*◌, ℕ, Bool, not, List, map, if◌then◌else◌, ◌==◌, Outcome, ok, err, Option, some, none,
}
use text.Mathlib.Text.{◌==◌ as str_eq}
use Prim.Native.String.{String}
use modbus_gateway.Gateway.SlaveIds.{Text, ℤ, pos, negsuc}

pub record LogConfig : Type 0 where
  pub level : Text
  pub file : Text

pub record TcpConfig : Type 0 where
  pub address : Text

-- A duration is in nanoseconds.
pub record SerialConfig : Type 0 where
  pub device : Text
  pub baud_rate : ℤ
  pub data_bits : ℤ
  pub parity : Text
  pub stop_bits : ℤ
  pub timeout : ℤ
  pub rqst_pause : ℤ
  pub rs485 : Bool
  pub delay_rts_before_send : ℤ
  pub delay_rts_after_send : ℤ
  pub rts_high_during_send : Bool
  pub rts_high_after_send : Bool
  pub rx_during_tx : Bool

pub record PersistenceConfig : Type 0 where
  pub type : Text
  pub path : Text

pub record LocalConfig : Type 0 where
  pub device : Text
  pub persistence : PersistenceConfig

pub record DownstreamConfig : Type 0 where
  pub name : Text
  pub type : Text
  pub slave_ids : Text
  pub tcp : TcpConfig
  pub serial : SerialConfig
  pub local : LocalConfig

pub record UpstreamConfig : Type 0 where
  pub type : Text
  pub tcp : TcpConfig
  pub serial : SerialConfig

pub record GatewayConfig : Type 0 where
  pub name : Text
  pub upstreams : List UpstreamConfig
  pub downstreams : List DownstreamConfig

pub record Config : Type 0 where
  pub gateways : List GatewayConfig
  pub log : LogConfig

-- What `ReadInConfig` returns as an error, as far as the program looks at it: whether it is a
-- `ConfigFileNotFoundError`.
pub data ReadError : Type 0 where
  config_file_not_found other_error : ReadError

-- The calls of viper, on its state.
pub record Viper (V : Type 0) : Type 0 where
  pub new : V
  pub set_config_file : V → String → V
  pub set_config_name : V → String → V
  pub set_config_type : V → String → V
  pub add_config_path : V → String → V
  pub set_default : V → String → String → V
  pub read_in_config : V → Option ReadError × V
  pub unmarshal : V → Option Config

-- The errors of `LoadConfig`, by their texts: "failed to found config file", "failed to read config
-- file" and "failed to unmarshal config".
pub data ConfigError : Type 0 where
  found_failed read_failed unmarshal_failed : ConfigError

-- `if d == 0 { d = default }`, for a default in nanoseconds.
abbrev pub or_default : ℤ → ℕ → ℤ
or_default (pos n) default = if n == 0 then pos default else pos n
or_default (negsuc n) default = negsuc n

module _ (to_upper : Text → Text) where
  -- `fixupSerial`. `strings.ToUpper` is a parameter.
  unfoldable pub fixup_serial : SerialConfig → SerialConfig
  fixup_serial s = record s {
    parity = to_upper s.parity;
    timeout = or_default s.timeout (500 * 1000000);
    rqst_pause = or_default s.rqst_pause (100 * 1000000);
  }

  unfoldable pub fixup_gateway : GatewayConfig → GatewayConfig
  unfolding fixup_serial
  fixup_gateway gw = record gw {
    downstreams =
        map (λ (d : DownstreamConfig). record d { serial = fixup_serial d.serial }) gw.downstreams;
    upstreams =
        map (λ (u : UpstreamConfig). record u { serial = fixup_serial u.serial }) gw.upstreams;
  }

  module _ {V : Type 0} (viper : Viper V) where
    -- Where the configuration is looked for.
    abbrev pub with_source : V → String → V
    with_source v config_file =
        if not (str_eq config_file "")
        then viper.set_config_file v config_file
        else (let named = viper.set_config_type (viper.set_config_name v "config") "yaml" in
            viper.add_config_path
              (viper.add_config_path (viper.add_config_path named "/etc/modbusgw/")
                "$HOME/.modbusgw")
              ".")

    abbrev pub fixed_up : Option Config → Outcome ConfigError Config
    fixed_up none = err unmarshal_failed
    fixed_up (some config) = ok (record config { gateways = map fixup_gateway config.gateways })

    -- What follows `ReadInConfig`.
    abbrev pub after_read : Option ReadError × V → Outcome ConfigError Config
    after_read (some config_file_not_found, v) = err read_failed
    after_read (some other_error, v) = err found_failed
    after_read (none, v) = fixed_up (viper.unmarshal v)

    -- `LoadConfig`.
    unfoldable pub load_config : String → Outcome ConfigError Config
    unfolding fixup_gateway
    load_config config_file = after_read (
        viper.read_in_config
          (viper.set_default (with_source viper.new config_file) "log.level" "info"))
