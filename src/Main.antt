-- ===== src/Main.antt =====
-- main.go: what `main` makes of the configuration, up to the start of the gateways.
pub mod Routes
pub mod Ready
use modbus_gateway.Base.{
  ℕ, ◌+◌, Bool, true, false, List, [], ◌∷◌, if◌then◌else◌, Outcome, ok, err, panic, ◌>>=◌, Option,
  some, none,
}
use modbus_gateway.Gateway.SlaveIds.{Text}
use modbus_gateway.Gateway.Routing.{Gateway, SetupError, exited, skipped, setup}
use modbus_gateway.Local.Startup.{is_text}
use modbus_gateway.Config.{
  LogConfig, SerialConfig, LocalConfig, DownstreamConfig, UpstreamConfig, GatewayConfig, Config,
  ConfigError,
}

-- What a configuration names: "tcp", "rtu" and "local"; the levels "debug", "warn" and "error"; and
-- "-" for the standard output.
abbrev pub tcp_type : Text
tcp_type = b't' ∷ b'c' ∷ b'p' ∷ []

abbrev pub rtu_type : Text
rtu_type = b'r' ∷ b't' ∷ b'u' ∷ []

abbrev pub local_type : Text
local_type = b'l' ∷ b'o' ∷ b'c' ∷ b'a' ∷ b'l' ∷ []

abbrev pub debug_level : Text
debug_level = b'd' ∷ b'e' ∷ b'b' ∷ b'u' ∷ b'g' ∷ []

abbrev pub warn_level : Text
warn_level = b'w' ∷ b'a' ∷ b'r' ∷ b'n' ∷ []

abbrev pub error_level : Text
error_level = b'e' ∷ b'r' ∷ b'r' ∷ b'o' ∷ b'r' ∷ []

-- The clients that `createDownstream` makes, with what their constructors are given.
pub data Downstream : Type 0 where
  tcp_client : Text → Downstream
  rtu_client : SerialConfig → Downstream
  local_client : LocalConfig → Downstream

-- `createDownstream`; the error is that of an unknown type.
unfoldable pub create_downstream : DownstreamConfig → Option Downstream
create_downstream cfg =
    if is_text cfg.type tcp_type
    then some (tcp_client cfg.tcp.address)
    else if is_text cfg.type rtu_type
    then some (rtu_client cfg.serial)
    else if is_text cfg.type local_type
    then some (local_client cfg.local)
    else none

-- The servers for masters.
pub data Upstream : Type 0 where
  tcp_server : Text → Upstream
  rtu_server : SerialConfig → Upstream

abbrev pub create_upstream : UpstreamConfig → Option Upstream
create_upstream cfg =
    if is_text cfg.type tcp_type
    then some (tcp_server cfg.tcp.address)
    else if is_text cfg.type rtu_type
    then some (rtu_server cfg.serial)
    else none

-- The loop over the upstreams.
unfoldable pub create_upstreams : List UpstreamConfig → List Upstream
create_upstreams [] = []
create_upstreams (cfg ∷ cfgs) =
    let later = create_upstreams cfgs in
    elim (create_upstream cfg) [ some us ↦ us ∷ later | none ↦ later ]

-- A downstream is a pointer: the number of its configuration in the gateway, and what it points to.
abbrev pub Pointer : Type 0
Pointer = ℕ × Downstream

abbrev pub pointer : ℕ → Option Downstream → Option Pointer
pointer n (some d) = some (n, d)
pointer n none = none

-- What `createDownstream` returns for the downstreams from number `n` on, and their ids.
unfoldable pub created_downstreams : ℕ → List DownstreamConfig → List (Option Pointer × Text)
created_downstreams n [] = []
created_downstreams n (cfg ∷ cfgs) =
    (pointer n (create_downstream cfg), cfg.slave_ids) ∷ created_downstreams (n + 1) cfgs

-- `gateway.Gateway`, with its name and its upstreams.
pub record Built : Type 0 where
  pub name : Text
  pub upstreams : List Upstream
  pub gateway : Gateway Pointer

-- `NewGateway`.
abbrev pub new_gateway : GatewayConfig → Gateway Pointer → Built
new_gateway cfg g = record {
  name = cfg.name;
  upstreams = create_upstreams cfg.upstreams;
  gateway = g;
}

-- One round of the loop over the gateways.
unfoldable pub build : GatewayConfig → Outcome SetupError Built
unfolding created_downstreams create_upstreams
build cfg = setup (created_downstreams 0 cfg.downstreams) >>= λ g. ok (new_gateway cfg g)

-- `append(gateways, gw)` or `continue`, before what the later rounds append.
abbrev pub append_built :
    Outcome SetupError Built → Outcome SetupError (List Built) → Outcome SetupError (List Built)
append_built (ok b) later = later >>= λ bs. ok (b ∷ bs)
append_built (err skipped) later = later
append_built (err exited) later = err exited
append_built panic later = panic

-- The loop over the gateways. Where it ends the process there is no list.
unfoldable pub build_all : List GatewayConfig → Outcome SetupError (List Built)
unfolding build
build_all [] = ok []
build_all (cfg ∷ cfgs) = append_built (build cfg) (build_all cfgs)

pub data Level : Type 0 where
  debug info warn error : Level

-- Where the log goes.
pub data LogOutput : Type 0 where
  stdout : LogOutput
  log_file : Text → LogOutput

abbrev pub log_level : Text → Level
log_level name =
    if is_text name debug_level
    then debug
    else if is_text name warn_level
    then warn
    else if is_text name error_level
    then error
    else info

-- `setupLogger`, by whether the file can be opened.
unfoldable pub setup_logger : Bool → LogConfig → Level × LogOutput
setup_logger opens cfg = (
  log_level cfg.level,
  if is_text cfg.file []
      then stdout
      else if is_text cfg.file (b'-' ∷ [])
      then stdout
      else if opens
      then log_file cfg.file
      else stdout,
)

-- The ways in which `main` ends the process.
pub data Exit : Type 0 where
  load_failed : ConfigError → Exit
  invalid_routes no_gateways : Exit

-- What runs after `main` has started the gateways.
pub record Running : Type 0 where
  pub logger : Level × LogOutput
  pub gateways : List Built

abbrev pub start_built : Level × LogOutput → Outcome SetupError (List Built) → Outcome Exit Running
start_built logger (ok []) = err no_gateways
start_built logger (ok (b ∷ bs)) = ok (record { logger = logger; gateways = b ∷ bs })
start_built logger (err e) = err invalid_routes
start_built logger panic = panic

-- `main`, from what `LoadConfig` returned.
unfoldable pub main : Bool → Outcome ConfigError Config → Outcome Exit Running
unfolding build_all setup_logger
main log_opens (ok cfg) = start_built (setup_logger log_opens cfg.log) (build_all cfg.gateways)
main log_opens (err e) = err (load_failed e)
main log_opens panic = panic
