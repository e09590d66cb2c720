-- ===== src/Gateway/Routing/Kept.antt =====
-- main.go: the routes of a gateway lead only to the downstreams of its configuration.
use modbus_gateway.Base.{
  ℕ, ◌≡◌, subst, List, [], ◌∷◌, All, Outcome, ok, err, panic, ◌>>=◌, >>=-eq-ok, Option, some, none,
}
use modbus_gateway.Gateway.SlaveIds.{Text, ParseError, parse_slave_ids}
use modbus_gateway.Gateway.Routing.{
  Gateway, SetupError, has_routes, add_parsed, add_route, lookup, add_routes, routing_table, setup,
}

module _ {D : Type 0} (P : D → Type 0) where
  abbrev pub OnSome : Option D → Type 0
  OnSome (some d) = P d
  OnSome none = Unit

  abbrev pub OnRoutes : List (ℕ × D) → Type 0
  OnRoutes routes = All (λ (r : ℕ × D). P r.1) routes

  abbrev OnCreated : List (Option D × Text) → Type 0
  OnCreated cs = All (λ (c : Option D × Text). OnSome c.0) cs

  add_routes-OnRoutes :
      (d : D) (ids : List ℕ) (routes routes' : List (ℕ × D))
      → P d
      → OnRoutes routes
      → add_routes d ids routes ≡ ok routes'
      → OnRoutes routes'
  unfolding add_routes
  add_routes-OnRoutes d [] routes routes' p all h =
      let q : routes ≡ routes' = cc in subst OnRoutes q all
  add_routes-OnRoutes d (i ∷ ids) routes routes' p all h =
      go (lookup routes i) (λ e. add_routes-OnRoutes d ids ((i, d) ∷ routes) routes' p (p, all) e) h
    where
      go :
          (o : Option D)
          → (add_routes d ids ((i, d) ∷ routes) ≡ ok routes' → OnRoutes routes')
          → (add_route d i routes o >>= add_routes d ids) ≡ ok routes'
          → OnRoutes routes'
      go none later h = later h
      go (some e) later h = cc

  routing_table-OnRoutes :
      (cs : List (Option D × Text)) (routes routes' : List (ℕ × D))
      → OnCreated cs
      → OnRoutes routes
      → routing_table cs routes ≡ ok routes'
      → OnRoutes routes'
  unfolding routing_table
  routing_table-OnRoutes [] routes routes' c all h =
      let q : routes ≡ routes' = cc in subst OnRoutes q all
  routing_table-OnRoutes ((none, t) ∷ cs) routes routes' c all h =
      routing_table-OnRoutes cs routes routes' c.1 all h
  routing_table-OnRoutes ((some d, t) ∷ cs) routes routes' c all h =
      go (parse_slave_ids t) (λ mid. routing_table-OnRoutes cs mid routes' c.1) h
    where
      go :
          (o : Outcome ParseError (List ℕ))
          → ((mid : List (ℕ × D))
              → OnRoutes mid
              → routing_table cs mid ≡ ok routes'
              → OnRoutes routes')
          → (add_parsed d o routes >>= routing_table cs) ≡ ok routes'
          → OnRoutes routes'
      go (err e) later h = cc
      go panic later h = cc
      go (ok ids) later h =
          let (mid, a, rest) = >>=-eq-ok (add_routes d ids routes) (routing_table cs) h in
          later mid (add_routes-OnRoutes d ids routes mid c.0 all a) rest

  -- A gateway whose routes and default route lead to such downstreams only.
  abbrev pub OnGateway : Gateway D → Type 0
  OnGateway g = OnRoutes g.routes × OnSome g.default_route

  has_routes-OnGateway :
      (routes : List (ℕ × D)) (g : Gateway D)
      → OnRoutes routes
      → has_routes routes ≡ ok g
      → OnGateway g
  has_routes-OnGateway [] g all h = cc
  has_routes-OnGateway (r ∷ rs) g all h =
      subst (λ (o : Outcome SetupError (Gateway D)). elim o [ ok x ↦ OnGateway x | _ ↦ Unit {0} ]) h
        (all, tt)

  table-OnGateway :
      (cs : List (Option D × Text)) (g : Gateway D)
      → OnCreated cs
      → (routing_table cs [] >>= has_routes) ≡ ok g
      → OnGateway g
  table-OnGateway cs g c h =
      let (routes, t, e) = >>=-eq-ok (routing_table cs []) has_routes h in
      has_routes-OnGateway routes g (routing_table-OnRoutes cs [] routes c tt t) e

  pub setup-OnGateway :
      (cs : List (Option D × Text)) (g : Gateway D)
      → All (λ (c : Option D × Text). OnSome c.0) cs
      → setup cs ≡ ok g
      → OnGateway g
  unfolding setup
  setup-OnGateway [] g c h = table-OnGateway [] g c h
  setup-OnGateway ((none, []) ∷ []) g c h = cc
  setup-OnGateway ((some d, []) ∷ []) g c h =
      subst (λ (o : Outcome SetupError (Gateway D)). elim o [ ok x ↦ OnGateway x | _ ↦ Unit {0} ]) h
        (tt, c.0)
  setup-OnGateway ((none, x ∷ t) ∷ []) g c h = table-OnGateway ((none, x ∷ t) ∷ []) g c h
  setup-OnGateway ((some e, x ∷ t) ∷ []) g c h = table-OnGateway ((some e, x ∷ t) ∷ []) g c h
  setup-OnGateway ((none, []) ∷ c' ∷ cs) g c h = table-OnGateway ((none, []) ∷ c' ∷ cs) g c h
  setup-OnGateway ((none, x ∷ t) ∷ c' ∷ cs) g c h = table-OnGateway ((none, x ∷ t) ∷ c' ∷ cs) g c h
  setup-OnGateway ((some e, []) ∷ c' ∷ cs) g c h = table-OnGateway ((some e, []) ∷ c' ∷ cs) g c h
  setup-OnGateway ((some e, x ∷ t) ∷ c' ∷ cs) g c h =
      table-OnGateway ((some e, x ∷ t) ∷ c' ∷ cs) g c h
