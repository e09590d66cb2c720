-- ===== src/DataModel/Bits.antt =====
-- internal/local-slave/model/model.go: the packed bits that `ReadCoils` and `ReadDiscreteInputs`
-- return, and those that `WriteMultipleCoils` stores.
use modbus_gateway.Base.{
  ℕ, zero, suc, ◌+◌, ◌-◌, ◌*◌, ◌/◌, ◌%◌, ◌^◌, ◌≤◌, ◌<◌, ◌≡◌, refl, ◌∙◌, length, get_or, set, Bytes,
  IsByte, All, arith, bit_or, bit_and, leb, ltb, ◌&&◌, not, ◌==◌, if◌then◌else◌, Outcome, ok,
  Bool-cases, inl, inr, get_or-set, set-IsByte, length-set, get_or-IsByte,
}
use modbus_gateway.Base.Bits.{bit, bit-or_bit, or_bit-IsByte, shifted_one, and_one-bit}
use modbus_gateway.DataModel.{Table, put, set_bit, pack_loop, unpack_loop}

-- Bit `k` of a packed byte string.
abbrev pub packed_bit : Bytes → ℕ → ℕ
packed_bit bs k = bit (get_or bs (k / 8) 0) (k % 8)

-- What a value of a coil stands for.
abbrev pub level : ℕ → ℕ
level v = if v == 0 then 0 else 1

module _ (E : Type 0) where
  -- `result[i/8] |= 1 << (i%8)` sets bit `i` alone.
  set_bit_lem :
      (bs : Bytes) (i : ℕ)
      → All IsByte bs
      → i < 8 * length bs
      → (bs' : Bytes) × (set_bit {E = E} bs (i / 8) (i % 8) ≡ ok bs')
        × (length bs' ≡ length bs)
        × All IsByte bs'
        × ((k : ℕ) → packed_bit bs' k ≡ (if k == i then 1 else packed_bit bs k))
  unfolding set_bit
  set_bit_lem bs i h lt =
      let b = get_or bs (i / 8) 0 in
      let v = bit_or b (2 ^ (i % 8) % 256) in
      let hb : IsByte b = get_or-IsByte bs (i / 8) h in
      let small : i % 8 < 8 = omega arith in
      (
        set bs (i / 8) v,
        ground arith,
        length-set bs (i / 8) v,
        set-IsByte bs (i / 8) v h
            (rw (shifted_one (i % 8) small) (or_bit-IsByte b (i % 8) hb small)),
        λ k. ground (
          arith,
          get_or-set bs (i / 8) (k / 8) v,
          shifted_one (i % 8),
          bit-or_bit b (i % 8) (k % 8) hb small,
        ),
      )

  -- One round of the loop: bit `i` is set if the coil is not 0.
  abbrev pack_round : ℕ → ℕ → Bytes → Outcome E Bytes
  pack_round v i bs = if v == 0 then ok bs else set_bit bs (i / 8) (i % 8)

  pack_round_lem :
      (v i : ℕ) (bs : Bytes)
      → All IsByte bs
      → i < 8 * length bs
      → (bs' : Bytes) × (pack_round v i bs ≡ ok bs')
        × (length bs' ≡ length bs)
        × All IsByte bs'
        × ((k : ℕ) → packed_bit bs' k ≡ (if not (v == 0) && k == i then 1 else packed_bit bs k))
  pack_round_lem v i bs h lt = elim (Bool-cases (v == 0)) [
    | inl z ↦ (bs, rw z, refl, h, λ k. rw z)
    | inr s ↦ let (bs', e, l, b, f) = set_bit_lem bs i h lt in (bs', rw s e, l, b, λ k. rw s (f k))
  ]

  -- The loop from round `i` on sets the bits of the coils that are not 0, and no others.
  pub pack_loop_lem :
      (t : Table) (address left i : ℕ) (bs : Bytes)
      → All IsByte bs
      → address + i + left ≤ 65536
      → i + left ≤ 8 * length bs
      → (bs' : Bytes) × (pack_loop {E = E} t address left i bs ≡ ok bs')
        × (length bs' ≡ length bs)
        × All IsByte bs'
        × ((k : ℕ)
            → packed_bit bs' k ≡ (
                if leb i k && ltb k (i + left) && not (t (address + k) == 0)
                then 1
                else packed_bit bs k))
  unfolding pack_loop
  pack_loop_lem t address zero i bs h fits room = (bs, refl, refl, h, λ k. ground arith)
  pack_loop_lem t address (suc left) i bs h fits room =
      let (bs', e, l, b, f) = pack_round_lem (t (address + i)) i bs h (omega arith) in
      let (bs'', e', l', b', f') =
        pack_loop_lem t address left (i + 1) bs' b (omega arith) (omega (arith, l)) in
      (bs'', ground arith, l' ∙ l, b', λ k. ground (arith, f k, f' k))

  -- The loop of `WriteMultipleCoils` from round `i` on: the coils in its range take the bits of
  -- the data, and the others stay.
  pub unpack_loop_lem :
      (t : Table) (address left i : ℕ) (bs : Bytes)
      → All IsByte bs
      → address + i + left ≤ 65536
      → i + left ≤ 8 * length bs
      → (t' : Table) × (unpack_loop {E = E} t address left i bs ≡ ok t')
        × ((j : ℕ)
            → t' j ≡ (
                if leb (address + i) j && ltb j (address + i + left)
                then packed_bit bs (j - address)
                else t j))
  unfolding unpack_loop
  unpack_loop_lem t address zero i bs h fits room = (t, refl, λ j. ground arith)
  unpack_loop_lem t address (suc left) i bs h fits room =
      let d = get_or bs (i / 8) 0 in
      let v : bit_and (d / 2 ^ (i % 8)) 1 ≡ packed_bit bs i =
        and_one-bit d (i % 8) (get_or-IsByte bs (i / 8) h) (omega arith) in
      let t₁ = put t (address + i) (bit_and (d / 2 ^ (i % 8)) 1) in
      let (t', e, f) = unpack_loop_lem t₁ address left (i + 1) bs h (omega arith) (omega arith) in
      (
        t',
        ground arith,
        λ j. elim (Bool-cases (j == address + i)) [
          | inl here ↦ let at : j - address ≡ i = ground arith in rw (f j) (rw at (ground arith))
          | inr away ↦ ground (arith, f j)
        ],
      )
