-- ===== src/DataModel/RegisterWrites.antt =====
-- internal/local-slave/model/model.go: `WriteMultipleRegisters`, and reading back what it wrote.
use modbus_gateway.Base.{
  ℕ, zero, suc, ◌+◌, ◌-◌, ◌*◌, ◌/◌, ◌%◌, ◌≤◌, ◌<◌, ◌≡◌, refl, sym, ap, ap₂, ◌∙◌, [], ◌∷◌, length,
  get_or, take, Bytes, IsByte, All, arith, leb, ltb, ◌&&◌, ◌==◌, if◌then◌else◌, ok, err, inl, inr,
  Bool-cases, subst,
}
use modbus_gateway.Base.Bits.{or-word}
use modbus_gateway.Base.Word.{uint16}
use modbus_gateway.DataModel.{
  DataModel, Table, put, word_at, store_words_loop, ModelError, zero_quantity, out_of_bounds,
  insufficient_data, read_holding_registers, write_multiple_registers,
}
use modbus_gateway.DataModel.Coils.{InRange}
use modbus_gateway.DataModel.Registers.{words, read_holding_registers-words}

-- The word at a place of a byte string.
abbrev pub word : Bytes → ℕ → ℕ
word bs i = get_or bs (i * 2) 0 * 256 + get_or bs (suc (i * 2)) 0

module _ (E : Type 0) where
  word_at-word :
      (bs : Bytes) (at : ℕ)
      → All IsByte bs
      → at + 2 ≤ length bs
      → word_at {E = E} bs at ≡ ok (get_or bs at 0 * 256 + get_or bs (suc at) 0)
  unfolding uint16
  word_at-word [] at b h = absurd (omega arith)
  word_at-word (x ∷ []) at b h = absurd (omega arith)
  word_at-word (x ∷ y ∷ bs) zero b h = ground (arith, or-word x y b.0 (b.1).0)
  word_at-word (x ∷ y ∷ bs) (suc at) b h =
      ground (arith, word_at-word (y ∷ bs) at b.1 (omega arith))

  -- The loop of `WriteMultipleRegisters` from round `i` on: the registers in its range take the
  -- words of the data, and the others stay.
  store_words_loop_lem :
      (t : Table) (address left i : ℕ) (bs : Bytes)
      → All IsByte bs
      → address + i + left ≤ 65536
      → (i + left) * 2 ≤ length bs
      → (t' : Table) × (store_words_loop {E = E} t address left i bs ≡ ok t')
        × ((j : ℕ)
            → t' j ≡ (
                if leb (address + i) j && ltb j (address + i + left)
                then word bs (j - address)
                else t j))
  unfolding store_words_loop
  store_words_loop_lem t address zero i bs h fits room = (t, refl, λ j. ground arith)
  store_words_loop_lem t address (suc left) i bs h fits room =
      let t₁ = put t (address + i) (word bs i) in
      let (t', e, f) =
        store_words_loop_lem t₁ address left (i + 1) bs h (omega arith) (omega arith) in
      (
        t',
        ground (arith, word_at-word bs (i * 2) h),
        λ j. elim (Bool-cases (j == address + i)) [
          | inl here ↦ let at : j - address ≡ i = ground arith in rw (f j) (rw at (ground arith))
          | inr away ↦ ground (arith, f j)
        ],
      )

-- `WriteMultipleRegisters` with enough data stores the data's words in the registers of the range
-- and changes no other register and no other table; with too little data, an empty range or one
-- beyond address 65535 it is an error.
pub write_multiple_registers_lem :
    (m : DataModel) (a q : ℕ) (bs : Bytes)
    → All IsByte bs
    → (InRange a q
        → q * 2 ≤ length bs
        → (t : Table) × (write_multiple_registers m a q bs
            ≡ ok (record m { holding_registers = t }))
          × ((j : ℕ)
              → t j
                ≡ (if leb a j && ltb j (a + q) then word bs (j - a) else m.holding_registers j)))
      × (InRange a q
          → length bs < q * 2
          → write_multiple_registers m a q bs ≡ err insufficient_data)
      × (q ≡ 0 → write_multiple_registers m a q bs ≡ err zero_quantity)
      × (1 ≤ q → 65536 < a + q → write_multiple_registers m a q bs ≡ err out_of_bounds)
unfolding write_multiple_registers
write_multiple_registers_lem m a q bs b = (
  (λ h enough.
      let (t, e, f) =
        store_words_loop_lem ModelError m.holding_registers a q 0 bs b (omega arith)
          (omega arith) in
      (t, ground arith, λ j. ground (arith, f j))),
  (λ h short. ground arith),
  (λ h. ground arith),
  (λ h g. ground arith),
)

word-cons : (x y : ℕ) (bs : Bytes) (j : ℕ) → word (x ∷ y ∷ bs) (suc j) ≡ word bs j
word-cons x y bs j = let e : suc j * 2 ≡ suc (suc (j * 2)) = omega arith in rw e

take_pair : (x y n : ℕ) (bs : Bytes) → take (suc n * 2) (x ∷ y ∷ bs) ≡ x ∷ y ∷ take (n * 2) bs
take_pair x y n bs = let e : suc n * 2 ≡ suc (suc (n * 2)) = omega arith in rw e

word_halves :
    (v x y : ℕ) → IsByte x → IsByte y → v ≡ x * 256 + y → (v / 256 % 256 ≡ x) × (v % 256 ≡ y)
word_halves v x y hx hy e = omega arith

-- The registers of a range that hold the words of a byte string are its first bytes.
words-take :
    (t : Table) (a n : ℕ) (bs : Bytes)
    → All IsByte bs
    → n * 2 ≤ length bs
    → ((j : ℕ) → j < n → t (a + j) ≡ word bs j)
    → words t a n ≡ take (n * 2) bs
words-take t a zero bs b h f = refl
words-take t a (suc n) [] b h f = absurd (omega arith)
words-take t a (suc n) (x ∷ []) b h f = absurd (omega arith)
words-take t a (suc n) (x ∷ y ∷ bs) b h f =
    let (hi, lo) = word_halves (t a) x y b.0 (b.1).0 (ap t (start a) ∙ f 0 (omega arith)) in
    let rest =
      words-take t (a + 1) n bs (b.1).1 (omega arith)
        (λ j lt. ap t (shift a j) ∙ f (suc j) (omega arith) ∙ word-cons x y bs j) in
    ap₂ (◌∷◌) hi (ap₂ (◌∷◌) lo rest) ∙ sym (take_pair x y n bs)
  where
    start : (a : ℕ) → a ≡ a + 0
    start a = omega arith

    shift : (a j : ℕ) → a + 1 + j ≡ a + suc j
    shift a j = omega arith

-- What `WriteMultipleRegisters` stored of bytes, in a range of at most 32767 registers that lies within
-- the table, is what `ReadHoldingRegisters` of the same range returns: the first `2 * q` bytes of the
-- data, byte for byte.
pub read_holding_registers-write_multiple_registers :
    (m m' : DataModel) (a q : ℕ) (bs : Bytes)
    → All IsByte bs
    → InRange a q
    → q ≤ 32767
    → write_multiple_registers m a q bs ≡ ok m'
    → read_holding_registers m' a q ≡ ok (take (q * 2) bs)
read_holding_registers-write_multiple_registers m m' a q bs b h small e =
    elim (Bool-cases (leb (q * 2) (length bs))) [
      | inl enough ↦
          let (t, e', f) = (write_multiple_registers_lem m a q bs b).0 h (ground arith) in
          let written : DataModel = record m { holding_registers = t } in
          let back =
            words-take t a q bs b (ground arith) (λ j lt. cut j (f (a + j)) (omega arith) lt) in
          subst (λ (x : DataModel). read_holding_registers x a q ≡ ok (take (q * 2) bs))
            (cc (e, e')) ((read_holding_registers-words written a q).0 h small ∙ ap ok back)
      | inr short ↦ cc (e, (write_multiple_registers_lem m a q bs b).1 h (ground arith))
    ]
  where
    cut :
        {t : ℕ} (j : ℕ)
        → t ≡ (
            if leb a (a + j) && ltb (a + j) (a + q)
            then word bs (a + j - a)
            else m.holding_registers (a + j))
        → a + j - a ≡ j
        → j < q
        → t ≡ word bs j
    cut j f back lt = ground (arith, f, ap (word bs) back)
