-- ===== src/Reads/Contents.antt =====
-- What the loops of Reads take from the bytes that arrive, however these are grouped.
use modbus_gateway.Base.{
  ℕ, zero, suc, ◌+◌, ◌-◌, ◌≤◌, ◌<◌, ◌≡◌, refl, sym, ap, ◌∙◌, List, [], ◌∷◌, ◌++◌, length, take,
  drop, take-append, length-drop, Bytes, leb, Bool-cases, inl, inr, arith, if◌then◌else◌,
}
use modbus_gateway.Reads.{
  Incoming, received, fault, First, idle, failed, nothing, one, read_first, full, behind, fill,
}

-- No `Read` fails.
abbrev pub Flows : List Incoming → Type 0
Flows [] = Unit
Flows (received bs ∷ rest) = Flows rest
Flows (fault ∷ rest) = ⊥

-- All the bytes that arrive.
abbrev pub contents : List Incoming → Bytes
contents [] = []
contents (received bs ∷ rest) = bs ++ contents rest
contents (fault ∷ rest) = contents rest

-- A bound on the calls of `Read` that it takes to read everything.
abbrev pub reads : List Incoming → ℕ
reads [] = 0
reads (received bs ∷ rest) = suc (length bs + reads rest)
reads (fault ∷ rest) = suc (reads rest)

-- `n` bytes that arrive are read, and the others left.
pub record Takes (xs ys : Bytes) (incoming : List Incoming) : Type 0 where
  pub rest : List Incoming
  pub fills : fill (length xs) incoming ≡ full xs rest
  pub flows : Flows rest
  pub leaves : contents rest ≡ ys
  pub fewer : reads rest ≤ reads incoming

-- Of two beginnings of a text the shorter one begins the longer one.
pub shorter_begins :
    (us cs bs ds : Bytes)
    → us ++ cs ≡ bs ++ ds
    → length us ≤ length bs
    → (bs ≡ us ++ drop (length us) bs) × (cs ≡ drop (length us) bs ++ ds)
shorter_begins [] cs bs ds e h = (refl, e)
shorter_begins (a ∷ us) cs [] ds e h = absurd (omega arith)
shorter_begins (a ∷ us) cs (b ∷ bs) ds e h =
    let head : a ≡ b = cc in
    let tail : us ++ cs ≡ bs ++ ds = cc in
    let (p, q) = shorter_begins us cs bs ds tail (omega arith) in
    (ap (λ (z : ℕ). z ∷ bs) (sym head) ∙ ap (◌∷◌ a) p, q)

pub fill_some :
    (n : ℕ) (bs : Bytes) (rest : List Incoming)
    → 1 ≤ n
    → fill n (received bs ∷ rest) ≡ (
        if leb (length bs) n
        then behind bs (fill (n - length bs) rest)
        else full (take n bs) (received (drop n bs) ∷ rest))
unfolding fill
fill_some zero bs rest h = absurd (omega arith)
fill_some (suc n) bs rest h = refl

-- Whatever the grouping, `n` bytes are filled with the first `n` bytes that arrive.
pub fill-Takes :
    (incoming : List Incoming) (xs ys : Bytes)
    → Flows incoming
    → contents incoming ≡ xs ++ ys
    → Takes xs ys incoming
fill-Takes incoming [] ys f e = record {
  rest = incoming;
  fills = unfold fill in refl;
  flows = f;
  leaves = e;
  fewer = omega arith;
}
fill-Takes [] (x ∷ xs) ys f e = cc
fill-Takes (received bs ∷ rest) (x ∷ xs) ys f e =
    elim (Bool-cases (leb (length bs) (suc (length xs)))) [
      | inl short ↦
          let (p, q) = shorter_begins bs (contents rest) (x ∷ xs) ys e (ground arith) in
          let t = fill-Takes rest (drop (length bs) (x ∷ xs)) ys f q in
          record {
            rest = t.rest;
            fills = rw (fill_some (suc (length xs)) bs rest (omega arith)) (
                rw short (
                  rw (length-drop (length bs) (x ∷ xs)) at (ap (behind bs) t.fills)
                  ∙ ap (λ (z : Bytes). full z t.rest) (sym p)));
            flows = t.flows;
            leaves = t.leaves;
            fewer = omega (arith, t.fewer);
          }
      | inr long ↦
          let (p, q) = shorter_begins (x ∷ xs) ys bs (contents rest) (sym e) (ground arith) in
          record {
            rest = received (drop (suc (length xs)) bs) ∷ rest;
            fills = rw (fill_some (suc (length xs)) bs rest (omega arith)) (
                rw long (
                  ap (λ (z : Bytes). full z (received (drop (suc (length xs)) bs) ∷ rest))
                    (ap (take (suc (length xs))) p
                      ∙ take-append (x ∷ xs) (drop (suc (length xs)) bs) (suc (length xs)) refl)));
            flows = f;
            leaves = sym q;
            fewer = omega (arith, length-drop (suc (length xs)) bs);
          }
    ]
fill-Takes (fault ∷ rest) (x ∷ xs) ys f e = absurd f

-- What the first `Read` of a round comes to on bytes that flow.
abbrev pub FirstOf : List Incoming → First → Type 0
FirstOf incoming idle = contents incoming ≡ []
FirstOf incoming (failed rest) = ⊥
FirstOf incoming (nothing rest) =
    Flows rest × (contents rest ≡ contents incoming) × (reads rest < reads incoming)
FirstOf incoming (one b rest) =
    Flows rest × (b ∷ contents rest ≡ contents incoming) × (reads rest < reads incoming)

pub read_first-FirstOf :
    (incoming : List Incoming) → Flows incoming → FirstOf incoming (read_first incoming)
unfolding read_first
read_first-FirstOf [] f = refl
read_first-FirstOf (received [] ∷ rest) f = (f, refl, omega arith)
read_first-FirstOf (received (b ∷ []) ∷ rest) f = (f, refl, omega arith)
read_first-FirstOf (received (b ∷ c ∷ bs) ∷ rest) f = (f, refl, omega arith)
read_first-FirstOf (fault ∷ rest) f = absurd f
