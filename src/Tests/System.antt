-- ===== src/Tests/System.antt =====
-- main.go, internal/config and internal/gateway on a concrete configuration.
use modbus_gateway.Base.{
  ap, subst, ℕ, ◌-◌, ◌≡◌, refl, sym, inl, inr, true, false, ◌&&◌, ◌==◌, ==_refl, ==_iff, leb,
  if◌then◌else◌, [], ◌∷◌, map, All, ok, some, none,
}
use mathlib.Core.List.{Perm}
use mathlib.Core.List.Perm
use modbus_gateway.Pdu.{Pdu}
use modbus_gateway.Transport.{RequestHandler}
use modbus_gateway.Gateway.SlaveIds.{Text, pos, parse_slave_ids}
use modbus_gateway.Gateway.Routing.{Gateway, setup, handle_request}
use modbus_gateway.Gateway.Routing.Routed.{In}
use modbus_gateway.Gateway.Start.{unique_downstreams, start, add_targets, has_key}
use modbus_gateway.Base.Counts.{count}
use modbus_gateway.Gateway.Start.Once.{IsEquality, is_connect, is_close, start-Once}
use modbus_gateway.Config.{
  SerialConfig, LocalConfig, DownstreamConfig, UpstreamConfig, GatewayConfig, Config, Viper,
  load_config, fixup_gateway, fixup_serial, with_source,
}
use modbus_gateway.Config.Fixes.{Each, FixedGateway, load_config-Fixed}
use modbus_gateway.Main.{
  tcp_type, rtu_type, tcp_client, create_downstream, Pointer, Built, Running, main, build_all,
  build, created_downstreams, create_upstreams, setup_logger,
}
use modbus_gateway.Main.Routes.{behind, main-Forwards}
use modbus_gateway.Main.Ready.{IsReadyBuilt, main-IsReady}

-- The letters a to z in upper case.
abbrev to_upper : Text → Text
to_upper t = map (λ c. if leb b'a' c && leb c b'z' then c - 32 else c) t

-- A serial line of which only the device, the parity and the pause are configured.
abbrev line : SerialConfig
line = record {
  device = b't' ∷ b't' ∷ b'y' ∷ [];
  baud_rate = pos 9600;
  data_bits = pos 8;
  parity = b'n' ∷ [];
  stop_bits = pos 1;
  timeout = pos 0;
  rqst_pause = pos 7;
  rs485 = false;
  delay_rts_before_send = pos 0;
  delay_rts_after_send = pos 0;
  rts_high_during_send = false;
  rts_high_after_send = false;
  rx_during_tx = false;
}

abbrev no_local : LocalConfig
no_local = record { device = []; persistence = record { type = []; path = [] } }

-- A downstream on the line for the slaves 1 to 3, and one over TCP for slave 9.
abbrev on_line : DownstreamConfig
on_line = record {
  name = [];
  type = rtu_type;
  slave_ids = b'1' ∷ b'-' ∷ b'3' ∷ [];
  tcp = record { address = [] };
  serial = line;
  local = no_local;
}

abbrev over_tcp : DownstreamConfig
over_tcp = record {
  name = [];
  type = tcp_type;
  slave_ids = b'9' ∷ [];
  tcp = record { address = b':' ∷ b'1' ∷ [] };
  serial = line;
  local = no_local;
}

abbrev from_masters : UpstreamConfig
from_masters = record { type = rtu_type; tcp = record { address = [] }; serial = line }

abbrev one_gateway : GatewayConfig
one_gateway = record {
  name = b'g' ∷ [];
  upstreams = from_masters ∷ [];
  downstreams = on_line ∷ over_tcp ∷ [];
}

abbrev raw_config : Config
raw_config = record { gateways = one_gateway ∷ []; log = record { level = []; file = [] } }

-- A viper that finds this configuration, and keeps no state.
abbrev viper : Viper (Unit {0})
viper = record {
  new = tt;
  set_config_file = λ v s. tt;
  set_config_name = λ v s. tt;
  set_config_type = λ v s. tt;
  add_config_path = λ v s. tt;
  set_default = λ v k d. tt;
  read_in_config = λ v. (none, v);
  unmarshal = λ v. some raw_config;
}

loaded : (config : Config) × (load_config to_upper viper "" ≡ ok config)
unfolding load_config fixup_gateway fixup_serial
loaded = (_, refl)

load_config-Fixed_example :
    (v : Unit {0}) × (raw : Config) × (viper.read_in_config
        (viper.set_default (with_source to_upper viper viper.new "") "log.level" "info")
      ≡ (none, v))
    × (viper.unmarshal v ≡ some raw)
    × (loaded.0.log ≡ raw.log)
    × Each (FixedGateway to_upper) raw.gateways loaded.0.gateways
load_config-Fixed_example = load_config-Fixed to_upper viper "" loaded.0 loaded.1

running : (r : Running) × (main true (load_config to_upper viper "") ≡ ok r)
unfolding load_config fixup_gateway fixup_serial main build_all build setup created_downstreams
    create_upstreams create_downstream parse_slave_ids setup_logger
running = (_, refl)

main-IsReady_example : All (IsReadyBuilt to_upper) running.0.gateways
main-IsReady_example = main-IsReady to_upper viper "" true running.0 running.1

-- Clients that return the number of their configuration.
abbrev numbered : Pointer → RequestHandler ℕ
numbered p s id req = (ok (record { function_code = p.0; payload = [] }), s)

started : (r : Running) × (main true (ok raw_config) ≡ ok r)
unfolding main build_all build setup created_downstreams create_upstreams create_downstream
    parse_slave_ids setup_logger
started = (_, refl)

over_tcp-created_downstreams : create_downstream over_tcp ≡ some (tcp_client (b':' ∷ b'1' ∷ []))
unfolding create_downstream
over_tcp-created_downstreams = refl

nine_parsed : parse_slave_ids (b'9' ∷ []) ≡ ok (9 ∷ [])
unfolding parse_slave_ids
nine_parsed = refl

abbrev read : Pdu
read = record { function_code = 1; payload = 0 ∷ 0 ∷ 0 ∷ 1 ∷ [] }

main-Forwards_example :
    (b : Built) × In b started.0.gateways
    × (b.name ≡ one_gateway.name)
    × (n : ℕ) × (handle_request (behind numbered b.gateway) 5 9 read
        ≡ numbered (n, tcp_client (b':' ∷ b'1' ∷ [])) 5 9 read)
main-Forwards_example =
    main-Forwards numbered true raw_config started.0 one_gateway over_tcp
      (tcp_client (b':' ∷ b'1' ∷ [])) (9 ∷ []) 5 9 read started.1 (inl refl) (inr (inl refl))
      over_tcp-created_downstreams nine_parsed (inl refl)

-- A gateway with two slaves on one downstream, which is the default too, and one on another.
abbrev shared : Gateway ℕ
shared = record { routes = (1, 10) ∷ (2, 20) ∷ (3, 10) ∷ []; default_route = some 10 }

numbers-IsEquality : IsEquality ◌==◌
numbers-IsEquality = record {
  reflexive = ==_refl;
  congruent = λ d e h x. (let q : e ≡ d = (==_iff e d).0 h in ap (λ y. x == y) q);
}

shared_keys : unique_downstreams ◌==◌ shared ≡ 20 ∷ 10 ∷ []
unfolding unique_downstreams add_targets has_key
shared_keys = refl

two_orders : Perm (10 ∷ 20 ∷ []) (unique_downstreams ◌==◌ shared)
two_orders = subst (Perm (10 ∷ 20 ∷ [])) (sym shared_keys) (Perm.swap 20 10 [])

start-Once_example :
    let (before, after) =
      start {D = ℕ} {U = Text} (tcp_type ∷ rtu_type ∷ []) (10 ∷ 20 ∷ []) (10 ∷ 20 ∷ []) in
    (count (is_connect ◌==◌ 10) before ≡ 1)
    × (count (is_close ◌==◌ 10) before ≡ 0)
    × (count (is_connect ◌==◌ 10) after ≡ 0)
    × (count (is_close ◌==◌ 10) after ≡ 1)
start-Once_example =
    start-Once ◌==◌ numbers-IsEquality shared (tcp_type ∷ rtu_type ∷ []) (10 ∷ 20 ∷ [])
      (10 ∷ 20 ∷ []) 10 two_orders two_orders (inr refl)
