-- ===== src/Gateway/Routing/Unskipped.antt =====
-- main.go: a gateway that the configuration gives a route is not skipped.
use modbus_gateway.Base.{
  ℕ, ◌≡◌, ◌≢◌, inl, inr, List, [], ◌∷◌, Outcome, ok, err, panic, ◌>>=◌, >>=-eq-err, Option, some,
  none, ap,
}
use modbus_gateway.Gateway.SlaveIds.{Text, ParseError, parse_slave_ids}
use modbus_gateway.Gateway.Routing.{
  skipped, has_routes, add_parsed, add_route, lookup, add_routes, routing_table, setup,
}
use modbus_gateway.Gateway.Routing.Routed.{In, routing_table-Routed}

module _ {D : Type 0} where
  add_routes_unskipped :
      (d : D) (ids : List ℕ) (routes : List (ℕ × D)) → add_routes d ids routes ≢ err skipped
  unfolding add_routes
  add_routes_unskipped d [] routes h = cc
  add_routes_unskipped d (i ∷ ids) routes h =
      go (lookup routes i) (add_routes_unskipped d ids ((i, d) ∷ routes)) h
    where
      go :
          (o : Option D)
          → add_routes d ids ((i, d) ∷ routes) ≢ err skipped
          → (add_route d i routes o >>= add_routes d ids) ≢ err skipped
      go none later h = later h
      go (some e) later h = cc

  routing_table_unskipped :
      (cs : List (Option D × Text)) (routes : List (ℕ × D)) → routing_table cs routes ≢ err skipped
  unfolding routing_table
  routing_table_unskipped [] routes h = cc
  routing_table_unskipped ((none, t) ∷ cs) routes h = routing_table_unskipped cs routes h
  routing_table_unskipped ((some d, t) ∷ cs) routes h =
      go (parse_slave_ids t) (routing_table_unskipped cs) h
    where
      go :
          (o : Outcome ParseError (List ℕ))
          → ((mid : List (ℕ × D)) → routing_table cs mid ≢ err skipped)
          → (add_parsed d o routes >>= routing_table cs) ≢ err skipped
      go (err e) later h = cc
      go panic later h = cc
      go (ok ids) later h = elim (>>=-eq-err (add_routes d ids routes) (routing_table cs) h) [
        | inl e ↦ add_routes_unskipped d ids routes e
        | inr (mid, _, e) ↦ later mid e
      ]

  table_unskipped :
      (cs : List (Option D × Text)) (d : D) (text : Text) (ids : List ℕ) (id : ℕ)
      → In (some d, text) cs
      → parse_slave_ids text ≡ ok ids
      → In id ids
      → (routing_table cs [] >>= has_routes) ≢ err skipped
  table_unskipped cs d text ids id m p i h = elim (>>=-eq-err (routing_table cs []) has_routes h) [
    | inl e ↦ routing_table_unskipped cs [] e
    | inr (routes, t, e) ↦ empty routes e (routing_table-Routed d text ids cs id [] routes t m p i)
  ]
    where
      empty : (routes : List (ℕ × D)) → has_routes routes ≡ err skipped → lookup routes id ≢ some d
      empty [] e r = unfold lookup in cc
      empty (x ∷ routes) e r = cc

  pub setup_unskipped :
      (cs : List (Option D × Text)) (d : D) (text : Text) (ids : List ℕ) (id : ℕ)
      → In (some d, text) cs
      → parse_slave_ids text ≡ ok ids
      → In id ids
      → setup cs ≢ err skipped
  unfolding setup
  setup_unskipped [] d text ids id m p i h = absurd m
  setup_unskipped ((none, []) ∷ []) d text ids id (inl q) p i h =
      let x : some d ≡ none = ap (λ (c : Option D × Text). c.0) q in cc
  setup_unskipped ((none, []) ∷ []) d text ids id (inr m) p i h = absurd m
  setup_unskipped ((some e, []) ∷ []) d text ids id m p i h = cc
  setup_unskipped ((none, x ∷ t) ∷ []) d text ids id m p i h =
      table_unskipped ((none, x ∷ t) ∷ []) d text ids id m p i h
  setup_unskipped ((some e, x ∷ t) ∷ []) d text ids id m p i h =
      table_unskipped ((some e, x ∷ t) ∷ []) d text ids id m p i h
  setup_unskipped ((none, []) ∷ c ∷ cs) d text ids id m p i h =
      table_unskipped ((none, []) ∷ c ∷ cs) d text ids id m p i h
  setup_unskipped ((none, x ∷ t) ∷ c ∷ cs) d text ids id m p i h =
      table_unskipped ((none, x ∷ t) ∷ c ∷ cs) d text ids id m p i h
  setup_unskipped ((some e, []) ∷ c ∷ cs) d text ids id m p i h =
      table_unskipped ((some e, []) ∷ c ∷ cs) d text ids id m p i h
  setup_unskipped ((some e, x ∷ t) ∷ c ∷ cs) d text ids id m p i h =
      table_unskipped ((some e, x ∷ t) ∷ c ∷ cs) d text ids id m p i h
