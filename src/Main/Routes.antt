-- ===== src/Main/Routes.antt =====
-- main.go, internal/gateway/gateway.go: from the configuration to the client that a request reaches.
use modbus_gateway.Base.{
  ◌==◌, ℕ, ◌+◌, ◌≡◌, refl, ◌⊎◌, inl, inr, Bool, List, [], ◌∷◌, Outcome, ok, err, panic, >>=-eq-ok,
  >>=-eq-err, subst, true, false, if◌then◌else◌, Option, some, none, ap, ◌∙◌, sym, map,
}
use modbus_gateway.Pdu.{Pdu}
use modbus_gateway.Transport.{RequestHandler}
use modbus_gateway.Gateway.SlaveIds.{parse_slave_ids}
use modbus_gateway.Gateway.Routing.{
  Gateway, SetupError, exited, skipped, lookup, setup, handle_request,
}
use modbus_gateway.Gateway.Routing.Routed.{In, setup-Routed}
use modbus_gateway.Gateway.Routing.Unskipped.{setup_unskipped}
use modbus_gateway.Config.{DownstreamConfig, GatewayConfig, Config}
use modbus_gateway.Main.{
  new_gateway, append_built, Downstream, create_downstream, Pointer, pointer, created_downstreams,
  Built, build, build_all, Running, main, start_built, Exit, Level, LogOutput,
}

created_downstreams-In :
    (n : ℕ) (cfgs : List DownstreamConfig) (d : DownstreamConfig) (client : Downstream)
    → In d cfgs
    → create_downstream d ≡ some client
    → (k : ℕ) × In (some (k, client), d.slave_ids) (created_downstreams n cfgs)
unfolding created_downstreams
created_downstreams-In n [] d client m c = absurd m
created_downstreams-In n (cfg ∷ cfgs) d client (inl e) c =
    let q : create_downstream cfg ≡ some client = ap create_downstream (sym e) ∙ c in
    (
      n,
      inl (
          ap (λ (t : Option Downstream). (pointer n t, d.slave_ids)) (sym q)
          ∙ ap (λ t. (pointer n (create_downstream cfg), DownstreamConfig.slave_ids t)) e),
    )
created_downstreams-In n (cfg ∷ cfgs) d client (inr m) c =
    let (k, i) = created_downstreams-In (n + 1) cfgs d client m c in (k, inr i)

-- The gateway's routes are those that were set up.
build-setup :
    (cfg : GatewayConfig) (b : Built)
    → build cfg ≡ ok b
    → (setup (created_downstreams 0 cfg.downstreams) ≡ ok b.gateway) × (b.name ≡ cfg.name)
unfolding build
build-setup cfg b h =
    let (g, e, q) =
      >>=-eq-ok (setup (created_downstreams 0 cfg.downstreams)) (λ g. ok (new_gateway cfg g)) h in
    let same : new_gateway cfg g ≡ b = cc in
    (e ∙ ap (λ x. ok (Built.gateway x)) same, sym (ap Built.name same))

build-skipped :
    (cfg : GatewayConfig)
    → build cfg ≡ err skipped
    → setup (created_downstreams 0 cfg.downstreams) ≡ err skipped
unfolding build
build-skipped cfg h =
    elim (>>=-eq-err (setup (created_downstreams 0 cfg.downstreams)) (λ g. ok (new_gateway cfg g))
      h) [ inl e ↦ e | inr (g, _, e) ↦ cc ]

built_or_skipped :
    (o : Outcome SetupError Built) (later : Outcome SetupError (List Built)) (bs : List Built)
    → append_built o later ≡ ok bs
    → (o ≡ err skipped) ⊎ ((b : Built) × (o ≡ ok b) × In b bs)
built_or_skipped (ok b) (ok bs') bs h =
    let q : b ∷ bs' ≡ bs = cc in inr (b, refl, subst (In b) q (inl refl))
built_or_skipped (ok b) (err e) bs h = cc
built_or_skipped (ok b) panic bs h = cc
built_or_skipped (err skipped) later bs h = inl refl
built_or_skipped (err exited) later bs h = cc
built_or_skipped panic later bs h = cc

later_built :
    (o : Outcome SetupError Built) (later : Outcome SetupError (List Built)) (bs : List Built)
    → append_built o later ≡ ok bs
    → (mid : List Built) × (later ≡ ok mid) × ((b : Built) → In b mid → In b bs)
later_built (ok b) (ok bs') bs h =
    let q : b ∷ bs' ≡ bs = cc in (bs', refl, λ c m. subst (In c) q (inr m))
later_built (ok b) (err e) bs h = cc
later_built (ok b) panic bs h = cc
later_built (err skipped) later bs h = (bs, h, λ c m. m)
later_built (err exited) later bs h = cc
later_built panic later bs h = cc

-- A gateway that is not skipped is built.
build_all-In :
    (cfgs : List GatewayConfig) (cfg : GatewayConfig) (bs : List Built)
    → build_all cfgs ≡ ok bs
    → In cfg cfgs
    → (build cfg ≡ err skipped) ⊎ ((b : Built) × (build cfg ≡ ok b) × In b bs)
unfolding build_all
build_all-In [] cfg bs h m = absurd m
build_all-In (c ∷ cfgs) cfg bs h (inl e) =
    built_or_skipped (build cfg) (build_all cfgs) bs
      (ap (λ x. append_built (build x) (build_all cfgs)) e ∙ h)
build_all-In (c ∷ cfgs) cfg bs h (inr m) =
    let (mid, e, kept) = later_built (build c) (build_all cfgs) bs h in
    elim (build_all-In cfgs cfg mid e m) [ inl s ↦ inl s | inr (b, q, i) ↦ inr (b, q, kept b i) ]

pub start_built-built :
    (logger : Level × LogOutput) (o : Outcome SetupError (List Built)) (r : Running)
    → start_built logger o ≡ ok r
    → o ≡ ok r.gateways
start_built-built logger (ok []) r h = cc
start_built-built logger (ok (b ∷ bs)) r h =
    ap (λ (o : Outcome Exit Running). elim o [ ok x ↦ ok x.gateways | _ ↦ ok (b ∷ bs) ]) h
start_built-built logger (err e) r h = cc
start_built-built logger panic r h = cc

-- A gateway whose downstreams are the clients behind the pointers.
abbrev pub behind :
    {S : Type 0} → (Pointer → RequestHandler S) → Gateway Pointer → Gateway (RequestHandler S)
behind sends g = record {
  routes = map (λ (r : ℕ × Pointer). (r.0, sends r.1)) g.routes;
  default_route = elim g.default_route [ some p ↦ some (sends p) | none ↦ none ];
}

lookup-map :
    {S : Type 0} (sends : Pointer → RequestHandler S) (routes : List (ℕ × Pointer)) (id : ℕ)
    (p : Pointer)
    → lookup routes id ≡ some p
    → lookup (map (λ (r : ℕ × Pointer). (r.0, sends r.1)) routes) id ≡ some (sends p)
unfolding lookup
lookup-map sends [] id p h = cc
lookup-map {S = S} sends (r ∷ rs) id p h =
    go (r.0 == id) (lookup rs id) (lookup (map (λ (r : ℕ × Pointer). (r.0, sends r.1)) rs) id)
      (lookup-map sends rs id p) h
  where
    go :
        (b : Bool) (found : Option Pointer) (client : Option (RequestHandler S))
        → (found ≡ some p → client ≡ some (sends p))
        → (if b then some r.1 else found) ≡ some p
        → (if b then some (sends r.1) else client) ≡ some (sends p)
    go true found client later h = let q : r.1 ≡ p = cc in ap (λ x. some (sends x)) q
    go false found client later h = later h

-- If the program starts its gateways, then each slave id that the configuration of a gateway gives to
-- a downstream of a known type is served: the gateway of that configuration is among those
-- started, and its handler passes a request for the id to the client that was made for this downstream
-- and returns what this returns.
pub main-Forwards :
    {S : Type 0} (sends : Pointer → RequestHandler S) (log_opens : Bool) (config : Config)
    (running : Running) (cfg : GatewayConfig) (d : DownstreamConfig) (client : Downstream)
    (ids : List ℕ) (s : S) (id : ℕ) (req : Pdu)
    → main log_opens (ok config) ≡ ok running
    → In cfg config.gateways
    → In d cfg.downstreams
    → create_downstream d ≡ some client
    → parse_slave_ids d.slave_ids ≡ ok ids
    → In id ids
    → (b : Built) × In b running.gateways
      × (b.name ≡ cfg.name)
      × (n : ℕ) × (handle_request (behind sends b.gateway) s id req ≡ sends (n, client) s id req)
unfolding main
main-Forwards sends log_opens config running cfg d client ids s id req h g m c p i =
    let (k, configured) = created_downstreams-In 0 cfg.downstreams d client m c in
    let all = start_built-built _ (build_all config.gateways) running h in
    elim (build_all-In config.gateways cfg running.gateways all g) [
      | inl s ↦ absurd (
          setup_unskipped (created_downstreams 0 cfg.downstreams) (k, client) d.slave_ids ids id
            configured p i (build-skipped cfg s))
      | inr (b, q, j) ↦
          let (e, named) = build-setup cfg b q in
          let found =
            setup-Routed (created_downstreams 0 cfg.downstreams) b.gateway (k, client) d.slave_ids
              ids id e configured p i in
          (
            b,
            j,
            named,
            k,
            unfold handle_request in
                rw (lookup-map sends b.gateway.routes id (k, client) found) refl,
          )
    ]
