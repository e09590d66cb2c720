-- ===== src/Gateway/Start.antt =====
-- internal/gateway/gateway.go: `Start`, as the calls that it makes.
pub mod Once
use modbus_gateway.Base.{
  ℕ, zero, suc, ◌+◌, ◌≡◌, ◌↔◌, refl, ◌⊎◌, inl, inr, Bool, true, false, ◌||◌, List, [], ◌∷◌, ◌++◌,
  map, if◌then◌else◌, Option, some, none, arith,
}
use mathlib.Core.List.{Perm, foldr}
use mathlib.Core.List.Perm
use modbus_gateway.Gateway.Routing.{Gateway, lookup}

-- The calls on downstreams `D` and upstreams `U`. An upstream's `Start` is called in a goroutine of
-- its own.
pub data Call (D U : Type 0) : Type 0 where
  connects : D → Call D U
  starts : U → Call D U
  closes_upstream : U → Call D U
  closes : D → Call D U

-- `same` compares pointers.
module _ {D : Type 0} (same : D → D → Bool) where
  unfoldable pub has_key : D → List D → Bool
  has_key d [] = false
  has_key d (e ∷ es) = same e d || has_key d es

  -- `uniqueDownstreams[d] = struct{}{}`, on the keys of the map.
  abbrev pub add_key : D → List D → List D
  add_key d keys = if has_key d keys then keys else d ∷ keys

  unfoldable pub add_targets : List (ℕ × D) → List D → List D
  unfolding has_key
  add_targets [] keys = keys
  add_targets ((id, d) ∷ routes) keys = add_targets routes (add_key d keys)

  abbrev pub add_default : Option D → List D → List D
  add_default (some d) keys = add_key d keys
  add_default none keys = keys

  -- The keys of `uniqueDownstreams`.
  unfoldable pub unique_downstreams : Gateway D → List D
  unfolding add_targets
  unique_downstreams g = add_default g.default_route (add_targets g.routes [])

-- `Start`: the calls up to the end of the context, and those behind it. A `range` over a map goes
-- through its keys in any order: `first` is that of the connecting, `last` that of the closing. What
-- a call returns is only logged.
unfoldable pub start : {D U : Type 0} → List U → List D → List D → List (Call D U) × List (Call D U)
start upstreams first last =
    (map connects first ++ map starts upstreams, map closes_upstream upstreams ++ map closes last)
