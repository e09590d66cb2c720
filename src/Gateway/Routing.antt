-- ===== src/Gateway/Routing.antt =====
-- internal/gateway/gateway.go: `handleRequest`; main.go: the routes of a gateway.
pub mod Routed
pub mod Unskipped
pub mod Kept
use modbus_gateway.Base.{
  ℕ, List, [], ◌∷◌, Bool, true, false, ◌==◌, if◌then◌else◌, Outcome, ok, err, panic, ◌>>=◌, Option,
  some, none,
}
use modbus_gateway.Pdu.{Pdu}
use modbus_gateway.Transport.{GoError, RequestHandler}
use modbus_gateway.Gateway.SlaveIds.{Text, ParseError, parse_slave_ids}

module _ {D : Type 0} where
  -- An index of a map of routes, newest first.
  unfoldable pub lookup : List (ℕ × D) → ℕ → Option D
  lookup [] id = none
  lookup (r ∷ rs) id = let rest = lookup rs id in if r.0 == id then some r.1 else rest

-- `Gateway`: the routes and the default route.
pub record Gateway (D : Type 0) : Type 0 where
  pub routes : List (ℕ × D)
  pub default_route : Option D

-- How the setup of a gateway fails: the process exits, or this gateway is skipped.
pub data SetupError : Type 0 where
  exited skipped : SetupError

module _ {D : Type 0} where
  -- One round of the loop over a downstream's ids, on what the map holds for the id.
  abbrev pub add_route : D → ℕ → List (ℕ × D) → Option D → Outcome SetupError (List (ℕ × D))
  add_route d id routes (some other) = err exited
  add_route d id routes none = ok ((id, d) ∷ routes)

  -- The loop over a downstream's ids.
  unfoldable pub add_routes : D → List ℕ → List (ℕ × D) → Outcome SetupError (List (ℕ × D))
  unfolding lookup
  add_routes d [] routes = ok routes
  add_routes d (id ∷ ids) routes = add_route d id routes (lookup routes id) >>= add_routes d ids

  -- The branch of the loop over the downstreams in which one was created.
  abbrev pub add_parsed :
      D → Outcome ParseError (List ℕ) → List (ℕ × D) → Outcome SetupError (List (ℕ × D))
  add_parsed d (ok ids) routes = add_routes d ids routes
  add_parsed d (err e) routes = err exited
  add_parsed d panic routes = panic

  -- The loop over the downstreams: what `createDownstream` returned for each, and its ids.
  unfoldable pub routing_table :
      List (Option D × Text) → List (ℕ × D) → Outcome SetupError (List (ℕ × D))
  unfolding add_routes
  routing_table [] routes = ok routes
  routing_table ((none, text) ∷ rest) routes = routing_table rest routes
  routing_table ((some d, text) ∷ rest) routes =
      add_parsed d (parse_slave_ids text) routes >>= routing_table rest

  -- The check for a gateway with no routes.
  abbrev pub has_routes : List (ℕ × D) → Outcome SetupError (Gateway D)
  has_routes [] = err skipped
  has_routes (r ∷ rs) = ok (record { routes = r ∷ rs; default_route = none })

  -- The routes of a gateway, from its configuration.
  unfoldable pub setup : List (Option D × Text) → Outcome SetupError (Gateway D)
  unfolding routing_table
  setup ((none, []) ∷ []) = err skipped
  setup ((some d, []) ∷ []) = ok (record { routes = []; default_route = some d })
  setup downstreams = routing_table downstreams [] >>= has_routes

-- The error of a slave without a route.
abbrev pub no_route : Outcome GoError Pdu
no_route = err (record { is_deadline_exceeded = false; text = "gateway path unavailable" })

module _ {S : Type 0} where
  abbrev pub target :
      Option (RequestHandler S) → Option (RequestHandler S) → Option (RequestHandler S)
  target (some d) default = some d
  target none default = default

  abbrev pub forward : Option (RequestHandler S) → RequestHandler S
  forward (some d) s id req = d s id req
  forward none s id req = (no_route, s)

  -- `handleRequest`. A downstream is its `Send` on the state of all that lies behind the gateway.
  unfoldable pub handle_request : Gateway (RequestHandler S) → RequestHandler S
  unfolding lookup
  handle_request g s id req = forward (target (lookup g.routes id) g.default_route) s id req
