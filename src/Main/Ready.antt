-- ===== src/Main/Ready.antt =====
-- main.go, internal/config/config.go, transport/rtu: the serial lines of the gateways that are started.
use modbus_gateway.Base.{
  ℕ, ◌+◌, ◌≡◌, ◌≢◌, refl, subst, Bool, true, false, List, [], ◌∷◌, All, Outcome, ok, err, panic,
  >>=-eq-ok, Option, some, none, if◌then◌else◌,
}
use Prim.Native.String.{String}
use modbus_gateway.Gateway.SlaveIds.{Text, pos}
use modbus_gateway.Gateway.Routing.{SetupError, exited, skipped, setup}
use modbus_gateway.Gateway.Routing.Kept.{OnSome, OnGateway, setup-OnGateway}
use modbus_gateway.Config.{
  SerialConfig, DownstreamConfig, UpstreamConfig, GatewayConfig, Config, ConfigError, Viper,
  load_config,
}
use modbus_gateway.Config.Fixes.{
  Each, FixedSerial, FixedDownstream, FixedUpstream, FixedGateway, load_config-Fixed,
}
use modbus_gateway.Local.Startup.{is_text}
use modbus_gateway.Serial.Settings.{PortSettings, port_settings, new_client}
use modbus_gateway.Main.{
  tcp_type, rtu_type, local_type, Downstream, tcp_client, rtu_client, local_client,
  create_downstream, Upstream, tcp_server, rtu_server, create_upstreams, Pointer, pointer,
  created_downstreams, new_gateway, Built, build, append_built, build_all, Running, main,
}
use modbus_gateway.Main.Routes.{start_built-built}

Each-All :
    {A B : Type 0} (R : A → B → Type 0) (P : B → Type 0) (xs : List A) (ys : List B)
    → ((a : A) (b : B) → R a b → P b)
    → Each R xs ys
    → All P ys
Each-All R P [] [] h e = tt
Each-All R P [] (y ∷ ys) h e = absurd e
Each-All R P (x ∷ xs) [] h e = absurd e
Each-All R P (x ∷ xs) (y ∷ ys) h (r, e) = (h x y r, Each-All R P xs ys h e)

module _ (to_upper : Text → Text) where
  -- The settings of a port whose reads time out, and whose parity is in upper case.
  abbrev pub IsReady : PortSettings → Type 0
  IsReady s = (s.timeout ≢ pos 0) × (p : Text) × (s.parity ≡ to_upper p)

  abbrev pub IsReadyUpstream : Upstream → Type 0
  IsReadyUpstream (tcp_server address) = Unit
  IsReadyUpstream (rtu_server cfg) = IsReady (port_settings cfg)

  abbrev pub IsReadyDownstream : Downstream → Type 0
  IsReadyDownstream (tcp_client address) = Unit
  IsReadyDownstream (rtu_client cfg) = IsReady (new_client cfg).0
  IsReadyDownstream (local_client cfg) = Unit

  -- All servers of a gateway, and all clients that its requests can reach.
  abbrev pub IsReadyBuilt : Built → Type 0
  IsReadyBuilt b =
      All IsReadyUpstream b.upstreams × OnGateway (λ (p : Pointer). IsReadyDownstream p.1) b.gateway

  abbrev IsReadySerial : SerialConfig → Type 0
  IsReadySerial s = (s.timeout ≢ pos 0) × (p : Text) × (s.parity ≡ to_upper p)

  abbrev IsReadyConfig : GatewayConfig → Type 0
  IsReadyConfig cfg =
      All (λ (d : DownstreamConfig). IsReadySerial d.serial) cfg.downstreams
      × All (λ (u : UpstreamConfig). IsReadySerial u.serial) cfg.upstreams

  fixed-IsReadySerial : (raw s : SerialConfig) → FixedSerial to_upper raw s → IsReadySerial s
  fixed-IsReadySerial raw s f = (f.timeout_set.0, raw.parity, f.upper)

  fixed-IsReadyConfig :
      (raw cfg : GatewayConfig) → FixedGateway to_upper raw cfg → IsReadyConfig cfg
  fixed-IsReadyConfig raw cfg (_, ds, us) = (
    Each-All (FixedDownstream to_upper) _ raw.downstreams cfg.downstreams
        (λ r d f. fixed-IsReadySerial r.serial d.serial f.0) ds,
    Each-All (FixedUpstream to_upper) _ raw.upstreams cfg.upstreams
        (λ r u f. fixed-IsReadySerial r.serial u.serial f.0) us,
  )

  create_upstreams-IsReady :
      (cfgs : List UpstreamConfig)
      → All (λ (u : UpstreamConfig). IsReadySerial u.serial) cfgs
      → All IsReadyUpstream (create_upstreams cfgs)
  unfolding create_upstreams port_settings
  create_upstreams-IsReady [] h = tt
  create_upstreams-IsReady (u ∷ us) h =
      go (is_text u.type tcp_type) (is_text u.type rtu_type) (create_upstreams-IsReady us h.1)
    where
      go :
          (tcp rtu : Bool)
          → All IsReadyUpstream (create_upstreams us)
          → All IsReadyUpstream
              (elim (if tcp
                then some (tcp_server u.tcp.address)
                else if rtu
                then some (rtu_server u.serial)
                else none) [ some x ↦ x ∷ create_upstreams us | none ↦ create_upstreams us ])
      go true rtu later = (tt, later)
      go false true later = (h.0, later)
      go false false later = later

  created_downstreams-IsReady :
      (n : ℕ) (cfgs : List DownstreamConfig)
      → All (λ (d : DownstreamConfig). IsReadySerial d.serial) cfgs
      → All
          (λ (c : Option Pointer × Text). OnSome (λ (p : Pointer). IsReadyDownstream p.1) c.0)
          (created_downstreams n cfgs)
  unfolding created_downstreams create_downstream new_client
  created_downstreams-IsReady n [] h = tt
  created_downstreams-IsReady n (d ∷ ds) h = (
    go (is_text d.type tcp_type) (is_text d.type rtu_type) (is_text d.type local_type),
    created_downstreams-IsReady (n + 1) ds h.1,
  )
    where
      go :
          (tcp rtu local : Bool)
          → OnSome
              (λ (p : Pointer). IsReadyDownstream p.1)
              (pointer n (
                if tcp
                then some (tcp_client d.tcp.address)
                else if rtu
                then some (rtu_client d.serial)
                else if local
                then some (local_client d.local)
                else none))
      go true rtu local = tt
      go false true local = h.0
      go false false true = tt
      go false false false = tt

  build-IsReady :
      (cfg : GatewayConfig) (b : Built) → IsReadyConfig cfg → build cfg ≡ ok b → IsReadyBuilt b
  unfolding build
  build-IsReady cfg b (ds, us) h =
      let (g, e, q) =
        >>=-eq-ok (setup (created_downstreams 0 cfg.downstreams)) (λ g. ok (new_gateway cfg g)) h in
      let same : new_gateway cfg g ≡ b = cc in
      subst IsReadyBuilt same (
        create_upstreams-IsReady cfg.upstreams us,
        setup-OnGateway (λ (p : Pointer). IsReadyDownstream p.1)
            (created_downstreams 0 cfg.downstreams) g
            (created_downstreams-IsReady 0 cfg.downstreams ds) e,
      )

  append_built-IsReady :
      (o : Outcome SetupError Built) (later : Outcome SetupError (List Built)) (bs : List Built)
      → ((b : Built) → o ≡ ok b → IsReadyBuilt b)
      → ((rest : List Built) → later ≡ ok rest → All IsReadyBuilt rest)
      → append_built o later ≡ ok bs
      → All IsReadyBuilt bs
  append_built-IsReady (ok b) (ok rest) bs f k h =
      let q : b ∷ rest ≡ bs = cc in subst (All IsReadyBuilt) q (f b refl, k rest refl)
  append_built-IsReady (ok b) (err e) bs f k h = cc
  append_built-IsReady (ok b) panic bs f k h = cc
  append_built-IsReady (err skipped) later bs f k h = k bs h
  append_built-IsReady (err exited) later bs f k h = cc
  append_built-IsReady panic later bs f k h = cc

  build_all-IsReady :
      (cfgs : List GatewayConfig) (bs : List Built)
      → All IsReadyConfig cfgs
      → build_all cfgs ≡ ok bs
      → All IsReadyBuilt bs
  unfolding build_all
  build_all-IsReady [] bs c h = let q : [] ≡ bs = cc in subst (All IsReadyBuilt) q tt
  build_all-IsReady (cfg ∷ cfgs) bs (c, cs) h =
      append_built-IsReady (build cfg) (build_all cfgs) bs (λ b. build-IsReady cfg b c)
        (λ rest. build_all-IsReady cfgs rest cs) h

  -- Whatever the configuration says, each serial port that a started gateway's servers open, or a
  -- client that its requests can reach, by a route or by default, has a time-out of its reads that is
  -- not 0, and a parity in upper case.
  pub main-IsReady :
      {V : Type 0} (viper : Viper V) (config_file : String) (log_opens : Bool) (running : Running)
      → main log_opens (load_config to_upper viper config_file) ≡ ok running
      → All IsReadyBuilt running.gateways
  unfolding main
  main-IsReady viper config_file log_opens running h =
      go (load_config to_upper viper config_file) refl h
    where
      go :
          (o : Outcome ConfigError Config)
          → load_config to_upper viper config_file ≡ o
          → main log_opens o ≡ ok running
          → All IsReadyBuilt running.gateways
      go (ok config) e h =
          let (_, raw, _, _, _, fixed) = load_config-Fixed to_upper viper config_file config e in
          build_all-IsReady config.gateways running.gateways
            (Each-All (FixedGateway to_upper) IsReadyConfig raw.gateways config.gateways
              fixed-IsReadyConfig fixed)
            (start_built-built _ (build_all config.gateways) running h)
      go (err x) e h = cc
      go panic e h = cc
