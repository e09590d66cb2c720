-- ===== src/DataModel/Coils.antt =====
-- internal/local-slave/model/model.go: `ReadCoils`, `ReadDiscreteInputs`, `WriteSingleCoil` and
-- `WriteMultipleCoils`.
use modbus_gateway.Base.{
  subst, Bool-cases, ℕ, ◌+◌, ◌-◌, ◌/◌, ◌≤◌, ◌<◌, ◌≡◌, ap, ◌∙◌, length, replicate, Bytes, IsByte,
  All, arith, leb, ltb, ◌&&◌, if◌then◌else◌, ok, err, inl, inr, length-replicate, get_or-replicate,
  replicate-IsByte,
}
use modbus_gateway.DataModel.{
  DataModel, Table, validate_range, pack_loop, ModelError, zero_quantity, out_of_bounds,
  insufficient_data, read_coils, read_discrete_inputs, write_multiple_coils,
}
use modbus_gateway.DataModel.Bits.{packed_bit, level, pack_loop_lem, unpack_loop_lem}

-- The range that an operation accepts.
abbrev pub InRange : ℕ → ℕ → Type 0
InRange address quantity = (1 ≤ quantity) × (address + quantity ≤ 65536)

pub validate_range-ok : (a q : ℕ) → InRange a q → validate_range a q ≡ ok tt
unfolding validate_range
validate_range-ok a q h = ground arith

pub validate_range-err : (a q : ℕ) → 1 ≤ q → 65536 < a + q → validate_range a q ≡ err out_of_bounds
unfolding validate_range
validate_range-err a q l h = ground arith

-- The bits of a table from an address on, packed: as many bytes as they need, the coils' levels in
-- order from the lowest bit, and zeros in the bits left over.
pub record Packed (t : Table) (address quantity : ℕ) (bs : Bytes) : Type 0 where
  pub size : length bs ≡ (quantity + 7) / 8
  pub bytes : All IsByte bs
  pub bits : (k : ℕ) → packed_bit bs k ≡ (if ltb k quantity then level (t (address + k)) else 0)

pack-Packed :
    (t : Table) (a q : ℕ)
    → InRange a q
    → (bs : Bytes) × (pack_loop {E = ModelError} t a q 0 (replicate ((q + 7) / 8) 0) ≡ ok bs)
      × Packed t a q bs
pack-Packed t a q h =
    let n = (q + 7) / 8 in
    let (bs, e, l, b, f) =
      pack_loop_lem ModelError t a q 0 (replicate n 0) (replicate-IsByte n) (omega arith)
        (omega (arith, length-replicate {A = ℕ} n 0)) in
    (
      bs,
      e,
      record {
        size = l ∙ length-replicate {A = ℕ} n 0;
        bytes = b;
        bits = λ k. ground (arith, f k, get_or-replicate n (k / 8));
      },
    )

-- `ReadCoils` refuses an empty range and one beyond address 65535; in range it returns the coils'
-- levels packed, with as many bytes as they need and zeros in the bits left over.
pub read_coils-Packed :
    (m : DataModel) (a q : ℕ)
    → (InRange a q → (bs : Bytes) × (read_coils m a q ≡ ok bs) × Packed m.coils a q bs)
      × (q ≡ 0 → read_coils m a q ≡ err zero_quantity)
      × (1 ≤ q → 65536 < a + q → read_coils m a q ≡ err out_of_bounds)
unfolding read_coils
read_coils-Packed m a q = (
  (λ h. let (bs, e, p) = pack-Packed m.coils a q h in (bs, rw (validate_range-ok a q h) e, p)),
  (λ h. ground arith),
  (λ h g. ground arith),
)

pub read_discrete_inputs-Packed :
    (m : DataModel) (a q : ℕ)
    → InRange a q
    → (bs : Bytes) × (read_discrete_inputs m a q ≡ ok bs) × Packed m.discrete_inputs a q bs
unfolding read_discrete_inputs
read_discrete_inputs-Packed m a q h =
    let (bs, e, p) = pack-Packed m.discrete_inputs a q h in (bs, rw (validate_range-ok a q h) e, p)

-- `WriteMultipleCoils` with enough data stores the data's bits in the coils of the range and
-- changes no other coil and no other table; with too little data, an empty range or one beyond
-- address 65535 it is an error.
pub write_multiple_coils_lem :
    (m : DataModel) (a q : ℕ) (bs : Bytes)
    → All IsByte bs
    → (InRange a q
        → (q + 7) / 8 ≤ length bs
        → (t : Table) × (write_multiple_coils m a q bs ≡ ok (record m { coils = t }))
          × ((j : ℕ)
              → t j ≡ (if leb a j && ltb j (a + q) then packed_bit bs (j - a) else m.coils j)))
      × (InRange a q
          → length bs < (q + 7) / 8
          → write_multiple_coils m a q bs ≡ err insufficient_data)
      × (q ≡ 0 → write_multiple_coils m a q bs ≡ err zero_quantity)
      × (1 ≤ q → 65536 < a + q → write_multiple_coils m a q bs ≡ err out_of_bounds)
unfolding write_multiple_coils
write_multiple_coils_lem m a q bs b = (
  (λ h enough.
      let (t, e, f) = unpack_loop_lem ModelError m.coils a q 0 bs b (omega arith) (omega arith) in
      (t, ground arith, λ j. ground (arith, f j))),
  (λ h short. ground arith),
  (λ h. ground arith),
  (λ h g. ground arith),
)

-- The first bits that `ReadCoils` returns are those of the data, and the others are zero.
abbrev pub ReadsBack : DataModel → ℕ → ℕ → Bytes → Type 0
ReadsBack m a q bs =
    (out : Bytes) × (read_coils m a q ≡ ok out)
    × (length out ≡ (q + 7) / 8)
    × ((k : ℕ) → packed_bit out k ≡ (if ltb k q then packed_bit bs k else 0))

coils_read_back :
    (m : DataModel) (a q : ℕ) (bs : Bytes)
    → InRange a q
    → ((j : ℕ) → j < q → m.coils (a + j) ≡ packed_bit bs j)
    → ReadsBack m a q bs
coils_read_back m a q bs h f =
    let (out, e, p) = (read_coils-Packed m a q).0 h in
    (out, e, p.size, λ k. ground (arith, p.bits k, f k))

-- What `WriteMultipleCoils` stored is what `ReadCoils` of the same range returns: as many bytes
-- as the range needs, whose first bits are those of the data and whose others are zero.
pub read_coils-write_multiple_coils :
    (m m' : DataModel) (a q : ℕ) (bs : Bytes)
    → All IsByte bs
    → InRange a q
    → write_multiple_coils m a q bs ≡ ok m'
    → ReadsBack m' a q bs
read_coils-write_multiple_coils m m' a q bs b h e =
    elim (Bool-cases (leb ((q + 7) / 8) (length bs))) [
      | inl enough ↦
          let (t, e', f) = (write_multiple_coils_lem m a q bs b).0 h (ground arith) in
          let written : DataModel = record m { coils = t } in
          let at = λ (j : ℕ) (lt : j < q). cut j (f (a + j)) (omega arith) lt in
          subst (λ (x : DataModel). ReadsBack x a q bs) (cc (e, e'))
            (coils_read_back written a q bs h at)
      | inr short ↦ cc (e, (write_multiple_coils_lem m a q bs b).1 h (ground arith))
    ]
  where
    cut :
        {t : ℕ} (j : ℕ)
        → t ≡ (
            if leb a (a + j) && ltb (a + j) (a + q)
            then packed_bit bs (a + j - a)
            else m.coils (a + j))
        → a + j - a ≡ j
        → j < q
        → t ≡ packed_bit bs j
    cut j f back lt = ground (arith, f, ap (packed_bit bs) back)
