-- ===== src/DataModel/Registers.antt =====
-- internal/local-slave/model/model.go: `ReadHoldingRegisters` and `ReadInputRegisters`.
use modbus_gateway.Base.{
  length-set, ℕ, zero, suc, ◌+◌, ◌*◌, ◌/◌, ◌%◌, ◌≤◌, ◌<◌, ◌≡◌, refl, sym, ap, ◌∙◌, [], ◌∷◌, ◌++◌,
  length, set, replicate, Bytes, IsByte, All, arith, ok, err, panic, length-append,
  length-replicate, append_assoc, set-append_end,
}
use modbus_gateway.DataModel.{
  DataModel, Table, put_word_at, words_loop, ModelError, zero_quantity, out_of_bounds,
  read_holding_registers, read_input_registers,
}
use modbus_gateway.DataModel.Coils.{InRange, validate_range-ok}

-- The registers of a range, high byte first.
abbrev pub words : Table → ℕ → ℕ → Bytes
words t a zero = []
words t a (suc n) = t a / 256 % 256 ∷ t a % 256 ∷ words t (a + 1) n

pub length-words : (t : Table) (a n : ℕ) → length (words t a n) ≡ n * 2
length-words t a zero = omega arith
length-words t a (suc n) = omega (arith, length-words t (a + 1) n)

pub words-IsByte : (t : Table) (a n : ℕ) → All IsByte (words t a n)
words-IsByte t a zero = tt
words-IsByte t a (suc n) = (omega arith, (omega arith, words-IsByte t (a + 1) n))

module _ (E : Type 0) where
  -- `PutUint16` behind what has been written.
  put_word_at-append :
      (w z : Bytes) (x y at v : ℕ)
      → at ≡ length w
      → put_word_at {E = E} (w ++ (x ∷ y ∷ z)) at v ≡ ok (w ++ (v / 256 % 256 ∷ v % 256 ∷ z))
  unfolding put_word_at
  put_word_at-append w z x y at v h =
      let hi = v / 256 % 256 in
      let lo = v % 256 in
      ground (
        arith,
        length-append w (x ∷ y ∷ z),
        set-append_end w (y ∷ z) x hi at h,
        append_assoc w (hi ∷ []) (y ∷ z),
        append_assoc w (hi ∷ []) (lo ∷ z),
        length-append w (hi ∷ []),
        set-append_end (w ++ (hi ∷ [])) z y lo (at + 1),
      )

  next : (a i : ℕ) → a + (i + 1) ≡ a + i + 1
  next a i = omega arith

  words_loop-words :
      (t : Table) (address left i : ℕ) (w : Bytes)
      → address + i + left ≤ 65536
      → length w ≡ i * 2
      → words_loop {E = E} t address left i (w ++ replicate (left * 2) 0)
        ≡ ok (w ++ words t (address + i) left)
  unfolding words_loop
  words_loop-words t address zero i w fits h = refl
  words_loop-words t address (suc left) i w fits h =
      let hi = t (address + i) / 256 % 256 in
      let lo = t (address + i) % 256 in
      let w' = w ++ (hi ∷ lo ∷ []) in
      let e : suc left * 2 ≡ suc (suc (left * 2)) = omega arith in
      rw e (
        ground (
          arith,
          put_word_at-append w (replicate (left * 2) 0) 0 0 (i * 2) (t (address + i)) (sym h),
          words_loop-words t address left (i + 1) w',
          length-append w (hi ∷ lo ∷ []),
          append_assoc w (hi ∷ lo ∷ []) (replicate (left * 2) 0),
          append_assoc w (hi ∷ lo ∷ []) (words t (address + i + 1) left),
          ap (λ (x : ℕ). words t x left) (next address i),
        ))

words_loop-start :
    (t : Table) (a q : ℕ)
    → InRange a q
    → q ≤ 32767
    → words_loop {E = ModelError} t a q 0 (replicate (q * 2 % 65536) 0) ≡ ok (words t a q)
words_loop-start t a q h small =
    let e : q * 2 % 65536 ≡ q * 2 = omega arith in
    let z : a + 0 ≡ a = omega arith in
    rw e (words_loop-words ModelError t a q 0 [] (omega arith) (omega arith) ∙ rw z)

-- `ReadHoldingRegisters` refuses an empty range and one beyond address 65535; in range, for up to
-- 32767 registers, it returns their values in order, high byte first.
pub read_holding_registers-words :
    (m : DataModel) (a q : ℕ)
    → (InRange a q → q ≤ 32767 → read_holding_registers m a q ≡ ok (words m.holding_registers a q))
      × (q ≡ 0 → read_holding_registers m a q ≡ err zero_quantity)
      × (1 ≤ q → 65536 < a + q → read_holding_registers m a q ≡ err out_of_bounds)
unfolding read_holding_registers
read_holding_registers-words m a q = (
  (λ h small. rw (validate_range-ok a q h) (words_loop-start m.holding_registers a q h small)),
  (λ h. ground arith),
  (λ h g. ground arith),
)

pub read_input_registers-words :
    (m : DataModel) (a q : ℕ)
    → InRange a q
    → q ≤ 32767
    → read_input_registers m a q ≡ ok (words m.input_registers a q)
unfolding read_input_registers
read_input_registers-words m a q h small =
    rw (validate_range-ok a q h) (words_loop-start m.input_registers a q h small)

module _ (E : Type 0) where
  -- A result with room for fewer registers than are read.
  words_loop-panic :
      (t : Table) (address left i : ℕ) (w : Bytes)
      → address + i + left ≤ 65536
      → i * 2 ≤ length w
      → length w < (i + left) * 2
      → words_loop {E = E} t address left i w ≡ panic
  unfolding words_loop
  words_loop-panic t address zero i w fits room short = absurd (omega arith)
  words_loop-panic t address (suc left) i w fits room short =
      let v = t (address + i) in
      let w₁ = set w (i * 2) (v / 256 % 256) in
      let w₂ = set w₁ (i * 2 + 1) (v % 256) in
      let l : length w₂ ≡ length w =
        length-set w₁ (i * 2 + 1) (v % 256) ∙ length-set w (i * 2) (v / 256 % 256) in
      ground (arith, l, words_loop-panic t address left (i + 1) w₂)

-- In range, a read of more than 32767 registers panics: its result is too small for them.
pub read_holding_registers-panic :
    (m : DataModel) (a q : ℕ)
    → InRange a q
    → 32767 < q
    → q ≤ 65535
    → read_holding_registers m a q ≡ panic
unfolding read_holding_registers
read_holding_registers-panic m a q h big word = rw (validate_range-ok a q h) (
    words_loop-panic ModelError m.holding_registers a q 0 (replicate (q * 2 % 65536) 0)
      (omega arith) (omega arith) (omega (arith, length-replicate {A = ℕ} (q * 2 % 65536) 0)))
