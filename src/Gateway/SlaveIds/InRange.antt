-- ===== src/Gateway/SlaveIds/InRange.antt =====
-- internal/gateway/gateway.go: the range of the ids of `ParseSlaveIDs`.
use modbus_gateway.Base.{
  ℕ, zero, suc, ◌+◌, ◌-◌, ◌*◌, ◌≢◌, refl, List, [], ◌∷◌, ◌++◌, Bool, ltb, ◌==◌, if◌then◌else◌,
  Outcome, ok, err, panic, ◌>>=◌, ◌>>◌, fail_if, leb, ◌^◌, IsByte, All, All-append, arith,
  Bool-cases, inl, inr,
}
use modbus_gateway.Gateway.SlaveIds.{
  digits_value, unsigned, negated, or_error, invalid_id, invalid_start, invalid_end, Text, split,
  trim_space, contains, ℤ, pos, negsuc, atoi, range_loop, range_ids, range_part, single_id,
  part_ids, parts_ids, parse_slave_ids, ParseError,
}

-- What a stage may return: bytes only, and no panic.
abbrev pub Ids : Outcome ParseError (List ℕ) → Type 0
Ids (ok ids) = All IsByte ids
Ids (err e) = Unit
Ids panic = ⊥

range_loop-Ids : (left i : ℕ) → Ids (range_loop left i)
unfolding range_loop
range_loop-Ids zero i = tt
range_loop-Ids (suc left) i = ground (arith, range_loop-Ids left (i + 1))

range_ids-Ids : (a b : ℤ) → Ids (range_ids a b)
unfolding range_ids
range_ids-Ids (pos a) (pos b) = ground (arith, range_loop-Ids (b + 1 - a) a)
range_ids-Ids (pos a) (negsuc b) = tt
range_ids-Ids (negsuc a) (pos b) = tt
range_ids-Ids (negsuc a) (negsuc b) = ground arith

digits_value-ne-panic : (cs : Text) (acc : ℕ) → digits_value acc cs ≢ panic
unfolding digits_value
digits_value-ne-panic [] acc e = cc
digits_value-ne-panic (c ∷ cs) acc e =
    ground (arith, digits_value-ne-panic cs (acc * 10 + (c - b'0')))

unsigned-ne-panic : (t : Text) → unsigned t ≢ panic
unsigned-ne-panic [] e = cc
unsigned-ne-panic (c ∷ cs) e = digits_value-ne-panic (c ∷ cs) 0 e

bounded-ne-panic :
    {A : Type 0} (o : Outcome ParseError ℕ) (b : ℕ → Bool) (f : ℕ → A)
    → o ≢ panic
    → (o >>= λ n. fail_if (b n) invalid_id >> ok (f n)) ≢ panic
bounded-ne-panic (ok n) b f h e = ground arith
bounded-ne-panic (err x) b f h e = cc
bounded-ne-panic panic b f h e = h refl

atoi-ne-panic : (t : Text) → atoi t ≢ panic
unfolding atoi
atoi-ne-panic [] = λ e. cc
atoi-ne-panic (c ∷ cs) = elim (Bool-cases (c == b'-')) [
  | inl minus ↦
      rw minus (bounded-ne-panic (unsigned cs) (λ n. ltb (2 ^ 63) n) negated (unsigned-ne-panic cs))
  | inr plain ↦ rw plain (
      bounded-ne-panic (unsigned (if c == b'+' then cs else c ∷ cs)) (λ n. leb (2 ^ 63) n) pos
        (unsigned-ne-panic (if c == b'+' then cs else c ∷ cs)))
]

range_part-Ids : (ts : List Text) → Ids (range_part ts)
unfolding range_part
range_part-Ids [] = tt
range_part-Ids (a ∷ []) = tt
range_part-Ids (a ∷ b ∷ c ∷ ts) = tt
range_part-Ids (a ∷ b ∷ []) =
    bounds (atoi (trim_space a)) (atoi (trim_space b)) (atoi-ne-panic (trim_space a))
      (atoi-ne-panic (trim_space b))
  where
    bounds :
        (x y : Outcome ParseError ℤ)
        → x ≢ panic
        → y ≢ panic
        → Ids (
            or_error invalid_start x >>= λ start.
            or_error invalid_end y >>= λ end. range_ids start end)
    bounds (ok x) (ok y) hx hy = range_ids-Ids x y
    bounds (ok x) (err e) hx hy = tt
    bounds (ok x) panic hx hy = absurd (hy refl)
    bounds (err e) y hx hy = tt
    bounds panic y hx hy = absurd (hx refl)

single_id-Ids : (o : Outcome ParseError ℤ) → o ≢ panic → Ids (o >>= single_id)
unfolding single_id
single_id-Ids (ok (pos id)) h = ground arith
single_id-Ids (ok (negsuc id)) h = tt
single_id-Ids (err e) h = tt
single_id-Ids panic h = absurd (h refl)

part_ids-Ids : (t : Text) → Ids (part_ids t)
unfolding part_ids
part_ids-Ids [] = tt
part_ids-Ids (c ∷ cs) = elim (Bool-cases (contains b'-' (c ∷ cs))) [
  | inl dash ↦ rw dash (range_part-Ids (split b'-' (c ∷ cs)))
  | inr plain ↦ rw plain (single_id-Ids (atoi (c ∷ cs)) (atoi-ne-panic (c ∷ cs)))
]

joined-Ids :
    (x y : Outcome ParseError (List ℕ))
    → Ids x
    → Ids y
    → Ids (x >>= λ ids. y >>= λ rest. ok (ids ++ rest))
joined-Ids (ok a) (ok b) ha hb = All-append IsByte a b ha hb
joined-Ids (ok a) (err e) ha hb = tt
joined-Ids (ok a) panic ha hb = hb
joined-Ids (err e) y ha hb = tt
joined-Ids panic y ha hb = ha

parts_ids-Ids : (ts : List Text) → Ids (parts_ids ts)
unfolding parts_ids
parts_ids-Ids [] = tt
parts_ids-Ids (t ∷ ts) =
    joined-Ids (part_ids (trim_space t)) (parts_ids ts) (part_ids-Ids (trim_space t))
      (parts_ids-Ids ts)

-- On every input `ParseSlaveIDs` returns ids from 0 to 255 or an error, and never panics.
pub parse_slave_ids-Ids : (input : Text) → Ids (parse_slave_ids input)
unfolding parse_slave_ids
parse_slave_ids-Ids input = parts_ids-Ids (split b',' input)
