-- ===== src/Gateway/Start/Once.antt =====
-- internal/gateway/gateway.go: how often `Start` connects and closes a downstream.
use modbus_gateway.Base.{
  ℕ, ◌+◌, ◌≡◌, refl, sym, ◌∙◌, ap, ap₂, subst, ◌⊎◌, inl, inr, Bool, true, false, ◌||◌, ◌==◌, List,
  [], ◌∷◌, if◌then◌else◌, Option, some, none, Bool-cases, suc,
}
use mathlib.Core.List.{Perm}
use modbus_gateway.Base.Counts.{count, count-append-map, count_none, count-perm}
use modbus_gateway.Gateway.Routing.{Gateway, lookup}
use modbus_gateway.Gateway.Start.{
  Call, connects, starts, closes_upstream, closes, has_key, add_key, add_targets, add_default,
  unique_downstreams, start,
}

-- The calls that connect or close a downstream.
abbrev pub is_connect : {D U : Type 0} → (D → D → Bool) → D → Call D U → Bool
is_connect same d (connects e) = same e d
is_connect same d (starts u) = false
is_connect same d (closes_upstream u) = false
is_connect same d (closes e) = false

abbrev pub is_close : {D U : Type 0} → (D → D → Bool) → D → Call D U → Bool
is_close same d (connects e) = false
is_close same d (starts u) = false
is_close same d (closes_upstream u) = false
is_close same d (closes e) = same e d

-- What the comparison of pointers is.
pub record IsEquality {D : Type 0} (same : D → D → Bool) : Type 0 where
  pub reflexive : (d : D) → same d d ≡ true
  pub congruent : (d e : D) → same e d ≡ true → (x : D) → same x e ≡ same x d

module _ {D : Type 0} (same : D → D → Bool) (equality : IsEquality same) where
  has_key-same :
      (d e : D) (keys : List D) → same e d ≡ true → has_key same e keys ≡ has_key same d keys
  unfolding has_key
  has_key-same d e [] h = refl
  has_key-same d e (x ∷ keys) h = rw (equality.congruent d e h x, has_key-same d e keys h) refl

  -- A key is there once or not at all.
  abbrev Single : D → List D → Type 0
  Single d keys = count (λ e. same e d) keys ≡ (if has_key same d keys then 1 else 0)

  add_key-Single : (d e : D) (keys : List D) → Single d keys → Single d (add_key same e keys)
  unfolding has_key
  add_key-Single d e keys h = go (Bool-cases (has_key same e keys))
    where
      go :
          (has_key same e keys ≡ true) ⊎ (has_key same e keys ≡ false)
          → Single d (add_key same e keys)
      go (inl there) = rw there h
      go (inr absent) = elim (Bool-cases (same e d)) [
        | inl it ↦
            let also : has_key same d keys ≡ false = sym (has_key-same d e keys it) ∙ absent in
            let none_yet : count (λ x. same x d) keys ≡ 0 =
              h ∙ ap (λ (b : Bool). if b then 1 else 0) also in
            rw (absent, it) (ap suc none_yet)
        | inr other ↦ rw (absent, other) h
      ]

  add_targets-Single :
      (d : D) (routes : List (ℕ × D)) (keys : List D)
      → Single d keys
      → Single d (add_targets same routes keys)
  unfolding add_targets
  add_targets-Single d [] keys h = h
  add_targets-Single d ((id, e) ∷ routes) keys h =
      add_targets-Single d routes (add_key same e keys) (add_key-Single d e keys h)

  unique_downstreams-Single : (g : Gateway D) (d : D) → Single d (unique_downstreams same g)
  unfolding unique_downstreams has_key
  unique_downstreams-Single g d = go g.default_route (add_targets-Single d g.routes [] refl)
    where
      go :
          (default : Option D)
          → Single d (add_targets same g.routes [])
          → Single d (add_default same default (add_targets same g.routes []))
      go none h = h
      go (some e) h = add_key-Single d e (add_targets same g.routes []) h

  add_key-kept :
      (d e : D) (keys : List D)
      → has_key same d keys ≡ true
      → has_key same d (add_key same e keys) ≡ true
  unfolding has_key
  add_key-kept d e keys h = elim (Bool-cases (has_key same e keys)) [
    | inl there ↦ rw there h
    | inr absent ↦ rw absent (rw h (or_true (same e d)))
  ]
    where
      or_true : (b : Bool) → (b || true) ≡ true
      or_true true = refl
      or_true false = refl

  add_key-added : (d : D) (keys : List D) → has_key same d (add_key same d keys) ≡ true
  unfolding has_key
  add_key-added d keys = elim (Bool-cases (has_key same d keys)) [
    | inl there ↦ rw there there
    | inr absent ↦ rw absent (rw (equality.reflexive d) refl)
  ]

  add_targets-kept :
      (d : D) (routes : List (ℕ × D)) (keys : List D)
      → has_key same d keys ≡ true
      → has_key same d (add_targets same routes keys) ≡ true
  unfolding add_targets
  add_targets-kept d [] keys h = h
  add_targets-kept d ((id, e) ∷ routes) keys h =
      add_targets-kept d routes (add_key same e keys) (add_key-kept d e keys h)

  add_targets-added :
      (d : D) (routes : List (ℕ × D)) (keys : List D) (id : ℕ)
      → lookup routes id ≡ some d
      → has_key same d (add_targets same routes keys) ≡ true
  unfolding add_targets lookup
  add_targets-added d [] keys id h = cc
  add_targets-added d ((i, e) ∷ routes) keys id h = elim (Bool-cases (i == id)) [
    | inl it ↦
        let q : some e ≡ some d =
          sym (ap (λ (b : Bool). if b then some e else lookup routes id) it) ∙ h in
        let same_it : e ≡ d = cc in
        add_targets-kept d routes (add_key same e keys) (
          subst (λ x. has_key same d (add_key same x keys) ≡ true) (sym same_it)
            (add_key-added d keys))
    | inr other ↦
        add_targets-added d routes (add_key same e keys) id
          (sym (ap (λ (b : Bool). if b then some e else lookup routes id) other) ∙ h)
  ]

  -- A downstream that `handleRequest` may forward a request to.
  abbrev pub Target : Gateway D → D → Type 0
  Target g d = ((id : ℕ) × (lookup g.routes id ≡ some d)) ⊎ (g.default_route ≡ some d)

  unique_downstreams-has_key :
      (g : Gateway D) (d : D) → Target g d → has_key same d (unique_downstreams same g) ≡ true
  unfolding unique_downstreams
  unique_downstreams-has_key g d (inl (id, h)) =
      go g.default_route (add_targets-added d g.routes [] id h)
    where
      go :
          (default : Option D)
          → has_key same d (add_targets same g.routes []) ≡ true
          → has_key same d (add_default same default (add_targets same g.routes [])) ≡ true
      go none h = h
      go (some e) h = add_key-kept d e (add_targets same g.routes []) h
  unique_downstreams-has_key g d (inr h) = rw h (add_key-added d (add_targets same g.routes []))

  counted_once :
      (g : Gateway D) (d : D) (order : List D)
      → Target g d
      → Perm order (unique_downstreams same g)
      → count (λ e. same e d) order ≡ 1
  counted_once g d order t p =
      count-perm (λ e. same e d) order (unique_downstreams same g) p
      ∙ unique_downstreams-Single g d
      ∙ ap (λ (b : Bool). if b then 1 else 0) (unique_downstreams-has_key g d t)

  -- If the orders in which `Start` goes through its map are those of the keys of the map, then each
  -- downstream that a request may be forwarded to, by a route or by default, is connected once before
  -- the end of the context and closed once behind it, and it is neither closed before nor connected
  -- again, however many slave ids are routed to it.
  pub start-Once :
      {U : Type 0} (g : Gateway D) (upstreams : List U) (first last : List D) (d : D)
      → Perm first (unique_downstreams same g)
      → Perm last (unique_downstreams same g)
      → Target g d
      → let (before, after) = start upstreams first last in
        (count (is_connect same d) before ≡ 1)
        × (count (is_close same d) before ≡ 0)
        × (count (is_connect same d) after ≡ 0)
        × (count (is_close same d) after ≡ 1)
  unfolding start
  start-Once g upstreams first last d p q t = (
    count-append-map (is_connect same d) connects starts first upstreams
        ∙ ap₂ ◌+◌ (counted_once g d first t p) (count_none upstreams),
    count-append-map (is_close same d) connects starts first upstreams
        ∙ ap₂ ◌+◌ (count_none first) (count_none upstreams),
    count-append-map (is_connect same d) closes_upstream closes upstreams last
        ∙ ap₂ ◌+◌ (count_none upstreams) (count_none last),
    count-append-map (is_close same d) closes_upstream closes upstreams last
        ∙ ap₂ ◌+◌ (count_none upstreams) (counted_once g d last t q),
  )
