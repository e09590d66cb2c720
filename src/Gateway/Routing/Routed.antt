-- ===== src/Gateway/Routing/Routed.antt =====
-- main.go, internal/gateway/gateway.go: from the configuration to the downstream of a request.
use modbus_gateway.Base.{
  ℕ, ◌≡◌, refl, ◌⊎◌, inl, inr, List, [], ◌∷◌, ◌==◌, ==_iff, Bool-cases, arith, Outcome, ok, err,
  panic, ◌>>=◌, >>=-eq-ok, Option, some, none, subst, sym, ◌∙◌, ap,
}
use modbus_gateway.Pdu.{Pdu}
use modbus_gateway.Transport.{RequestHandler}
use modbus_gateway.Gateway.SlaveIds.{
  trim_space, trim_left, part_ids, parts_ids, split, Text, ParseError, parse_slave_ids,
}
use modbus_gateway.Gateway.Routing.{
  has_routes, add_parsed, add_route, lookup, Gateway, SetupError, add_routes, routing_table, setup,
  handle_request,
}

-- Membership of a list, by position.
abbrev pub In : {A : Type 0} → A → List A → Type 0
In a [] = ⊥
In a (b ∷ bs) = (a ≡ b) ⊎ In a bs

module _ {D : Type 0} where
  -- An id has a route to `d` in a map.
  abbrev Routed : D → List (ℕ × D) → ℕ → Type 0
  Routed d routes id = lookup routes id ≡ some d

  lookup-head : (d : D) (id : ℕ) (routes : List (ℕ × D)) → Routed d ((id, d) ∷ routes) id
  unfolding lookup
  lookup-head d id routes = ground arith

  add_route-kept :
      (d e : D) (i id : ℕ) (routes : List (ℕ × D))
      → lookup routes i ≡ none
      → Routed e routes id
      → Routed e ((i, d) ∷ routes) id
  unfolding lookup
  add_route-kept d e i id routes free h = elim (Bool-cases (i == id)) [
    | inl same ↦
        let q : i ≡ id = (==_iff i id).0 same in
        let c : lookup routes i ≡ some e = ap (lookup routes) q ∙ h in absurd cc
    | inr other ↦ rw other h
  ]

  add_routes-cons :
      (d : D) (i : ℕ) (ids : List ℕ) (routes routes' : List (ℕ × D))
      → add_routes d (i ∷ ids) routes ≡ ok routes'
      → (lookup routes i ≡ none) × (add_routes d ids ((i, d) ∷ routes) ≡ ok routes')
  unfolding add_routes
  add_routes-cons d i ids routes routes' h = go (lookup routes i) refl h
    where
      go :
          (o : Option D)
          → lookup routes i ≡ o
          → (add_route d i routes o >>= add_routes d ids) ≡ ok routes'
          → (lookup routes i ≡ none) × (add_routes d ids ((i, d) ∷ routes) ≡ ok routes')
      go none free h = (free, h)
      go (some x) free h = cc

  add_routes-kept :
      (d e : D) (ids : List ℕ) (id : ℕ) (routes routes' : List (ℕ × D))
      → add_routes d ids routes ≡ ok routes'
      → Routed e routes id
      → Routed e routes' id
  add_routes-kept d e [] id routes routes' h r = unfold add_routes in cc
  add_routes-kept d e (i ∷ ids) id routes routes' h r =
      let (free, rest) = add_routes-cons d i ids routes routes' h in
      add_routes-kept d e ids id ((i, d) ∷ routes) routes' rest
        (add_route-kept d e i id routes free r)

  add_routes-Routed :
      (d : D) (ids : List ℕ) (id : ℕ) (routes routes' : List (ℕ × D))
      → add_routes d ids routes ≡ ok routes'
      → In id ids
      → Routed d routes' id
  add_routes-Routed d [] id routes routes' h m = absurd m
  add_routes-Routed d (i ∷ ids) id routes routes' h (inl e) =
      let (free, rest) = add_routes-cons d i ids routes routes' h in
      add_routes-kept d d ids id ((i, d) ∷ routes) routes' rest
        (ap (lookup ((i, d) ∷ routes)) e ∙ lookup-head d i routes)
  add_routes-Routed d (i ∷ ids) id routes routes' h (inr m) =
      let (free, rest) = add_routes-cons d i ids routes routes' h in
      add_routes-Routed d ids id ((i, d) ∷ routes) routes' rest m

  routing_table-cons :
      (d : D) (t : Text) (cs : List (Option D × Text)) (routes routes' : List (ℕ × D))
      → routing_table ((some d, t) ∷ cs) routes ≡ ok routes'
      → (ids : List ℕ) × (mid : List (ℕ × D)) × (parse_slave_ids t ≡ ok ids)
        × (add_routes d ids routes ≡ ok mid)
        × (routing_table cs mid ≡ ok routes')
  unfolding routing_table
  routing_table-cons d t cs routes routes' h = go (parse_slave_ids t) refl h
    where
      go :
          (o : Outcome ParseError (List ℕ))
          → parse_slave_ids t ≡ o
          → (add_parsed d o routes >>= routing_table cs) ≡ ok routes'
          → (ids : List ℕ) × (mid : List (ℕ × D)) × (parse_slave_ids t ≡ ok ids)
            × (add_routes d ids routes ≡ ok mid)
            × (routing_table cs mid ≡ ok routes')
      go (ok ids) p h =
          let (mid, a, rest) = >>=-eq-ok (add_routes d ids routes) (routing_table cs) h in
          (ids, mid, p, a, rest)
      go (err x) p h = cc
      go panic p h = cc

  routing_table-kept :
      (e : D) (cs : List (Option D × Text)) (id : ℕ) (routes routes' : List (ℕ × D))
      → routing_table cs routes ≡ ok routes'
      → Routed e routes id
      → Routed e routes' id
  routing_table-kept e [] id routes routes' h r = unfold routing_table in cc
  routing_table-kept e ((none, text) ∷ cs) id routes routes' h r =
      routing_table-kept e cs id routes routes' (unfold routing_table in h) r
  routing_table-kept e ((some d, text) ∷ cs) id routes routes' h r =
      let (ids, mid, _, a, rest) = routing_table-cons d text cs routes routes' h in
      routing_table-kept e cs id mid routes' rest (add_routes-kept d e ids id routes mid a r)

  pub routing_table-Routed :
      (d : D) (text : Text) (ids : List ℕ) (cs : List (Option D × Text)) (id : ℕ)
      (routes routes' : List (ℕ × D))
      → routing_table cs routes ≡ ok routes'
      → In (some d, text) cs
      → parse_slave_ids text ≡ ok ids
      → In id ids
      → Routed d routes' id
  routing_table-Routed d text ids [] id routes routes' h m p i = absurd m
  routing_table-Routed d text ids ((none, t) ∷ cs) id routes routes' h (inl e) p i =
      let x : some d ≡ none = ap (λ (c : Option D × Text). c.0) e in cc
  routing_table-Routed d text ids ((none, t) ∷ cs) id routes routes' h (inr m) p i =
      routing_table-Routed d text ids cs id routes routes' (unfold routing_table in h) m p i
  routing_table-Routed d text ids ((some e, t) ∷ cs) id routes routes' h (inl q) p i =
      let same : some d ≡ some e = ap (λ (c : Option D × Text). c.0) q in
      let text_same : text ≡ t = ap (λ (c : Option D × Text). c.1) q in
      let (js, mid, pj, a, rest) = routing_table-cons e t cs routes routes' h in
      let ids_same : ids ≡ js = cc in
      let kept =
        routing_table-kept e cs id mid routes' rest
          (add_routes-Routed e js id routes mid a (subst (In id) ids_same i)) in
      kept ∙ sym same
  routing_table-Routed d text ids ((some e, t) ∷ cs) id routes routes' h (inr m) p i =
      let (js, mid, pj, a, rest) = routing_table-cons e t cs routes routes' h in
      routing_table-Routed d text ids cs id mid routes' rest m p i

  has_routes-routes :
      (routes : List (ℕ × D)) (g : Gateway D) → has_routes routes ≡ ok g → g.routes ≡ routes
  has_routes-routes [] g h = cc
  has_routes-routes (r ∷ rs) g h =
      ap (λ (o : Outcome SetupError (Gateway D)). elim o [ ok x ↦ x.routes | _ ↦ r ∷ rs ]) (sym h)

  routed_by-routing_table :
      (cs : List (Option D × Text)) (g : Gateway D) (d : D) (text : Text) (ids : List ℕ) (id : ℕ)
      → (routing_table cs [] >>= has_routes) ≡ ok g
      → In (some d, text) cs
      → parse_slave_ids text ≡ ok ids
      → In id ids
      → lookup g.routes id ≡ some d
  routed_by-routing_table cs g d text ids id h m p i =
      let (routes, t, e) = >>=-eq-ok (routing_table cs []) has_routes h in
      rw (has_routes-routes routes g e) (routing_table-Routed d text ids cs id [] routes t m p i)

  pub setup-Routed :
      (cs : List (Option D × Text)) (g : Gateway D) (d : D) (text : Text) (ids : List ℕ) (id : ℕ)
      → setup cs ≡ ok g
      → In (some d, text) cs
      → parse_slave_ids text ≡ ok ids
      → In id ids
      → lookup g.routes id ≡ some d
  unfolding setup
  setup-Routed [] g d text ids id h m p i = absurd m
  setup-Routed ((none, []) ∷ []) g d text ids id h m p i = cc
  setup-Routed ((some e, []) ∷ []) g d text ids id h (inl q) p i =
      let text_same : text ≡ [] = ap (λ (c : Option D × Text). c.1) q in
      let empty : parse_slave_ids [] ≡ ok [] =
        unfold parse_slave_ids split parts_ids trim_space trim_left part_ids in refl in
      let no_ids : ids ≡ [] = cc in absurd (subst (In id) no_ids i)
  setup-Routed ((some e, []) ∷ []) g d text ids id h (inr m) p i = absurd m
  setup-Routed ((none, x ∷ t) ∷ []) g d text ids id h m p i =
      routed_by-routing_table ((none, x ∷ t) ∷ []) g d text ids id h m p i
  setup-Routed ((some e, x ∷ t) ∷ []) g d text ids id h m p i =
      routed_by-routing_table ((some e, x ∷ t) ∷ []) g d text ids id h m p i
  setup-Routed ((none, []) ∷ c' ∷ cs) g d text ids id h m p i =
      routed_by-routing_table ((none, []) ∷ c' ∷ cs) g d text ids id h m p i
  setup-Routed ((none, x ∷ t) ∷ c' ∷ cs) g d text ids id h m p i =
      routed_by-routing_table ((none, x ∷ t) ∷ c' ∷ cs) g d text ids id h m p i
  setup-Routed ((some e, []) ∷ c' ∷ cs) g d text ids id h m p i =
      routed_by-routing_table ((some e, []) ∷ c' ∷ cs) g d text ids id h m p i
  setup-Routed ((some e, x ∷ t) ∷ c' ∷ cs) g d text ids id h m p i =
      routed_by-routing_table ((some e, x ∷ t) ∷ c' ∷ cs) g d text ids id h m p i

module _ {S : Type 0} where
  -- If a gateway is set up from a configuration, a request for a slave that the configuration gives
  -- to a downstream (which was created) goes to that downstream, and its result is returned.
  pub handle_request-setup :
      (cs : List (Option (RequestHandler S) × Text)) (g : Gateway (RequestHandler S))
      (d : RequestHandler S) (text : Text) (ids : List ℕ) (s : S) (id : ℕ) (req : Pdu)
      → setup cs ≡ ok g
      → In (some d, text) cs
      → parse_slave_ids text ≡ ok ids
      → In id ids
      → handle_request g s id req ≡ d s id req
  unfolding handle_request
  handle_request-setup cs g d text ids s id req h m p i =
      rw (setup-Routed cs g d text ids id h m p i) refl
