-- ===== src/Config/Fixes.antt =====
-- internal/config/config.go: what the fixups leave of the configuration that was read.
use modbus_gateway.Base.{
  subst, ap, sym, ◌<◌, ℕ, zero, suc, ◌≡◌, ◌≢◌, refl, ◌⊎◌, inl, inr, List, [], ◌∷◌, map, ok, Option,
  some, none, arith,
}
use Prim.Native.String.{String}
use modbus_gateway.Gateway.SlaveIds.{Text, ℤ, pos, negsuc}
use modbus_gateway.Config.{
  with_source, SerialConfig, DownstreamConfig, UpstreamConfig, GatewayConfig, Config, Viper,
  or_default, fixup_serial, fixup_gateway, load_config, fixed_up, after_read, ReadError,
  config_file_not_found, other_error,
}

-- Two lists of the same length, related element for element.
abbrev pub Each : {A B : Type 0} → (A → B → Type 0) → List A → List B → Type 0
Each R [] [] = Unit
Each R [] (b ∷ bs) = ⊥
Each R (a ∷ rest) [] = ⊥
Each R (a ∷ rest) (b ∷ bs) = R a b × Each R rest bs

Each-map :
    {A B : Type 0} (R : A → B → Type 0) (f : A → B) (xs : List A)
    → ((a : A) → R a (f a))
    → Each R xs (map f xs)
Each-map R f [] h = tt
Each-map R f (x ∷ xs) h = (h x, Each-map R f xs h)

-- A duration that is not 0, and is the given one unless this is 0 and it is the default.
abbrev pub IsOrDefault : ℕ → ℤ → ℤ → Type 0
IsOrDefault default given d = (d ≢ pos 0) × ((d ≡ given) ⊎ ((given ≡ pos 0) × (d ≡ pos default)))

or_default-IsOrDefault :
    (d : ℤ) (default : ℕ) → 0 < default → IsOrDefault default d (or_default d default)
or_default-IsOrDefault (pos zero) default h =
    ((λ e. (let q : default ≡ 0 = cc in omega arith)), inr (refl, refl))
or_default-IsOrDefault (pos (suc n)) default h = (ground arith, inl (ground arith))
or_default-IsOrDefault (negsuc n) default h = ((λ e. cc), inl refl)

module _ (to_upper : Text → Text) where
  -- A serial line's settings, from those that were read: the parity in upper case, a timeout of 500
  -- ms and a pause of 100 ms where they are 0, and all else as it was.
  pub record FixedSerial (raw s : SerialConfig) : Type 0 where
    pub upper : s.parity ≡ to_upper raw.parity
    pub timeout_set : IsOrDefault 500000000 raw.timeout s.timeout
    pub pause_set : IsOrDefault 100000000 raw.rqst_pause s.rqst_pause
    pub rest :
        record s { parity = raw.parity; timeout = raw.timeout; rqst_pause = raw.rqst_pause } ≡ raw

  fixup_serial-FixedSerial : (raw : SerialConfig) → FixedSerial raw (fixup_serial to_upper raw)
  unfolding fixup_serial
  fixup_serial-FixedSerial raw = record {
    upper = refl;
    timeout_set = or_default-IsOrDefault raw.timeout 500000000 (omega arith);
    pause_set = or_default-IsOrDefault raw.rqst_pause 100000000 (omega arith);
    rest = refl;
  }

  abbrev pub FixedDownstream : DownstreamConfig → DownstreamConfig → Type 0
  FixedDownstream raw d = FixedSerial raw.serial d.serial × (record d { serial = raw.serial } ≡ raw)

  abbrev pub FixedUpstream : UpstreamConfig → UpstreamConfig → Type 0
  FixedUpstream raw u = FixedSerial raw.serial u.serial × (record u { serial = raw.serial } ≡ raw)

  abbrev pub FixedGateway : GatewayConfig → GatewayConfig → Type 0
  FixedGateway raw gw =
      (gw.name ≡ raw.name)
      × Each FixedDownstream raw.downstreams gw.downstreams
      × Each FixedUpstream raw.upstreams gw.upstreams

  fixup_gateway-FixedGateway : (raw : GatewayConfig) → FixedGateway raw (fixup_gateway to_upper raw)
  unfolding fixup_gateway
  fixup_gateway-FixedGateway raw = (
    refl,
    Each-map FixedDownstream _ raw.downstreams (λ d. (fixup_serial-FixedSerial d.serial, refl)),
    Each-map FixedUpstream _ raw.upstreams (λ u. (fixup_serial-FixedSerial u.serial, refl)),
  )

  module _ {V : Type 0} (viper : Viper V) where
    fixed_up-Fixed :
        (o : Option Config) (config : Config)
        → fixed_up to_upper viper o ≡ ok config
        → (raw : Config) × (o ≡ some raw)
          × (config.log ≡ raw.log)
          × Each FixedGateway raw.gateways config.gateways
    fixed_up-Fixed none config h = cc
    fixed_up-Fixed (some raw) config h =
        let same : record raw { gateways = map (fixup_gateway to_upper) raw.gateways } ≡ config =
          cc in
        (
          raw,
          refl,
          sym (ap Config.log same),
          subst (λ x. Each FixedGateway raw.gateways (Config.gateways x)) same
              (Each-map FixedGateway _ raw.gateways fixup_gateway-FixedGateway),
        )

    after_read-Fixed :
        (o : Option ReadError × V) (config : Config)
        → after_read to_upper viper o ≡ ok config
        → (v : V) × (raw : Config) × (o ≡ (none, v))
          × (viper.unmarshal v ≡ some raw)
          × (config.log ≡ raw.log)
          × Each FixedGateway raw.gateways config.gateways
    after_read-Fixed (some config_file_not_found, v) config h = cc
    after_read-Fixed (some other_error, v) config h = cc
    after_read-Fixed (none, v) config h =
        let (raw, e, log, fixed) = fixed_up-Fixed (viper.unmarshal v) config h in
        (v, raw, refl, e, log, fixed)

    -- If the configuration is loaded, then viper has read and unmarshalled one, and what is
    -- returned is that one, gateway for gateway and in order, but for the serial lines of its
    -- downstreams and upstreams: their parity is in upper case, their timeout and their pause are
    -- not 0, but as they were or the default, and all else is as it was.
    pub load_config-Fixed :
        (config_file : String) (config : Config)
        → load_config to_upper viper config_file ≡ ok config
        → (v : V) × (raw : Config) × (viper.read_in_config (
              viper.set_default
                (with_source to_upper viper viper.new config_file)
                "log.level"
                "info")
            ≡ (none, v))
          × (viper.unmarshal v ≡ some raw)
          × (config.log ≡ raw.log)
          × Each FixedGateway raw.gateways config.gateways
    unfolding load_config
    load_config-Fixed config_file config h = after_read-Fixed _ config h
