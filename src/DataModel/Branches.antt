-- ===== src/DataModel/Branches.antt =====
-- internal/local-slave/model/model.go: the operations on ranges, on every branch.
use modbus_gateway.Base.{
  refl, ℕ, ◌+◌, ◌-◌, ◌*◌, ◌/◌, ◌≤◌, ◌<◌, ◌≡◌, length, Bytes, IsByte, All, arith, leb, ltb, ◌==◌,
  ◌&&◌, ==_iff, if◌then◌else◌, Outcome, ok, err, panic, inl, inr, Bool-cases,
}
use modbus_gateway.DataModel.{
  DataModel, Table, ModelError, zero_quantity, out_of_bounds, insufficient_data,
  address_out_of_range, read_coils, read_holding_registers, write_multiple_coils,
  write_multiple_registers,
}
use modbus_gateway.DataModel.Bits.{packed_bit}
use modbus_gateway.DataModel.Coils.{InRange, Packed, read_coils-Packed, write_multiple_coils_lem}
use modbus_gateway.DataModel.Registers.{
  words, read_holding_registers-words, read_holding_registers-panic,
}
use modbus_gateway.DataModel.RegisterWrites.{word, write_multiple_registers_lem}

-- What a read of `q` bits of a table from `a` on comes to.
abbrev pub ReadsBits : Table → ℕ → ℕ → Outcome ModelError Bytes → Type 0
ReadsBits t a q (ok bs) = InRange a q × Packed t a q bs
ReadsBits t a q (err zero_quantity) = q ≡ 0
ReadsBits t a q (err out_of_bounds) = (1 ≤ q) × (65536 < a + q)
ReadsBits t a q (err _) = ⊥
ReadsBits t a q panic = ⊥

-- `ReadCoils` returns the coils' levels packed, with as many bytes as they need and zeros in the
-- bits left over, exactly if the range is not empty and ends within the table; else it is the error
-- for an empty range or for one beyond address 65535, and it never panics.
pub read_coils-ReadsBits : (m : DataModel) (a q : ℕ) → ReadsBits m.coils a q (read_coils m a q)
read_coils-ReadsBits m a q =
    let (inside, empty, beyond) = read_coils-Packed m a q in
    elim (Bool-cases (q == 0)) [
      | inl z ↦ let e : q ≡ 0 = (==_iff q 0).0 z in rw (empty e) e
      | inr n ↦ elim (Bool-cases (ltb 65536 (a + q))) [
        | inl far ↦ rw (beyond (ground arith) (ground arith)) (ground arith)
        | inr near ↦ let r : InRange a q = ground arith in let (bs, e, p) = inside r in rw e (r, p)
      ]
    ]

-- What a read of `q` registers of a table from `a` on comes to.
abbrev pub ReadsWords : Table → ℕ → ℕ → Outcome ModelError Bytes → Type 0
ReadsWords t a q (ok bs) = InRange a q × (q ≤ 32767) × (bs ≡ words t a q)
ReadsWords t a q (err zero_quantity) = q ≡ 0
ReadsWords t a q (err out_of_bounds) = (1 ≤ q) × (65536 < a + q)
ReadsWords t a q (err _) = ⊥
ReadsWords t a q panic = InRange a q × (32767 < q)

-- `ReadHoldingRegisters` of a uint16 quantity returns the registers in order, high byte first,
-- exactly if the range is not empty, ends within the table and has at most 32767 registers; with
-- more it panics, since its result is too small for them; an empty range and one beyond address
-- 65535 are errors.
pub read_holding_registers-ReadsWords :
    (m : DataModel) (a q : ℕ)
    → q ≤ 65535
    → ReadsWords m.holding_registers a q (read_holding_registers m a q)
read_holding_registers-ReadsWords m a q u =
    let (inside, empty, beyond) = read_holding_registers-words m a q in
    elim (Bool-cases (q == 0)) [
      | inl z ↦ let e : q ≡ 0 = (==_iff q 0).0 z in rw (empty e) e
      | inr n ↦ elim (Bool-cases (ltb 65536 (a + q))) [
        | inl far ↦ rw (beyond (ground arith) (ground arith)) (ground arith)
        | inr near ↦
            let r : InRange a q = ground arith in
            elim (Bool-cases (ltb 32767 q)) [
              | inl many ↦
                  let l : 32767 < q = ground arith in
                  rw (read_holding_registers-panic m a q r l u) (r, l)
              | inr few ↦ let l : q ≤ 32767 = ground arith in rw (inside r l) (r, l, refl)
            ]
      ]
    ]

-- What a write of the data's first `q` values to the addresses from `a` on comes to: the table
-- holds `new` in the range and what it held elsewhere.
abbrev pub Replaced : Table → Table → ℕ → ℕ → (ℕ → ℕ) → Type 0
Replaced t t' a q new = (j : ℕ) → t' j ≡ (if leb a j && ltb j (a + q) then new (j - a) else t j)

abbrev pub StoresBits : DataModel → ℕ → ℕ → Bytes → Outcome ModelError DataModel → Type 0
StoresBits m a q bs (ok m') =
    InRange a q
    × ((q + 7) / 8 ≤ length bs)
    × (m' ≡ record m { coils = m'.coils })
    × Replaced m.coils m'.coils a q (packed_bit bs)
StoresBits m a q bs (err zero_quantity) = q ≡ 0
StoresBits m a q bs (err out_of_bounds) = (1 ≤ q) × (65536 < a + q)
StoresBits m a q bs (err insufficient_data) = InRange a q × (length bs < (q + 7) / 8)
StoresBits m a q bs (err address_out_of_range) = ⊥
StoresBits m a q bs panic = ⊥

-- `WriteMultipleCoils` stores the data's bits in the coils of the range, and changes no other coil
-- and no other table, exactly if the range is not empty, ends within the table and the data has
-- enough bytes; else it is the error for an empty range, for one beyond address 65535 or for too
-- little data, and it never panics.
pub write_multiple_coils-StoresBits :
    (m : DataModel) (a q : ℕ) (bs : Bytes)
    → All IsByte bs
    → StoresBits m a q bs (write_multiple_coils m a q bs)
write_multiple_coils-StoresBits m a q bs b =
    let (inside, little, empty, beyond) = write_multiple_coils_lem m a q bs b in
    elim (Bool-cases (q == 0)) [
      | inl z ↦ let e : q ≡ 0 = (==_iff q 0).0 z in rw (empty e) e
      | inr n ↦ elim (Bool-cases (ltb 65536 (a + q))) [
        | inl far ↦ rw (beyond (ground arith) (ground arith)) (ground arith)
        | inr near ↦
            let r : InRange a q = ground arith in
            elim (Bool-cases (ltb (length bs) ((q + 7) / 8))) [
              | inl short ↦ let l : length bs < (q + 7) / 8 = ground arith in rw (little r l) (r, l)
              | inr long ↦
                  let l : (q + 7) / 8 ≤ length bs = ground arith in
                  let (t, e, f) = inside r l in rw e (r, l, refl, f)
            ]
      ]
    ]

abbrev pub StoresWords : DataModel → ℕ → ℕ → Bytes → Outcome ModelError DataModel → Type 0
StoresWords m a q bs (ok m') =
    InRange a q
    × (q * 2 ≤ length bs)
    × (m' ≡ record m { holding_registers = m'.holding_registers })
    × Replaced m.holding_registers m'.holding_registers a q (word bs)
StoresWords m a q bs (err zero_quantity) = q ≡ 0
StoresWords m a q bs (err out_of_bounds) = (1 ≤ q) × (65536 < a + q)
StoresWords m a q bs (err insufficient_data) = InRange a q × (length bs < q * 2)
StoresWords m a q bs (err address_out_of_range) = ⊥
StoresWords m a q bs panic = ⊥

-- `WriteMultipleRegisters` stores the data's words in the registers of the range, and changes no
-- other register and no other table, exactly if the range is not empty, ends within the table and
-- the data has two bytes for each register; else it is the error for an empty range, for one beyond
-- address 65535 or for too little data, and it never panics.
pub write_multiple_registers-StoresWords :
    (m : DataModel) (a q : ℕ) (bs : Bytes)
    → All IsByte bs
    → StoresWords m a q bs (write_multiple_registers m a q bs)
write_multiple_registers-StoresWords m a q bs b =
    let (inside, little, empty, beyond) = write_multiple_registers_lem m a q bs b in
    elim (Bool-cases (q == 0)) [
      | inl z ↦ let e : q ≡ 0 = (==_iff q 0).0 z in rw (empty e) e
      | inr n ↦ elim (Bool-cases (ltb 65536 (a + q))) [
        | inl far ↦ rw (beyond (ground arith) (ground arith)) (ground arith)
        | inr near ↦
            let r : InRange a q = ground arith in
            elim (Bool-cases (ltb (length bs) (q * 2))) [
              | inl short ↦ let l : length bs < q * 2 = ground arith in rw (little r l) (r, l)
              | inr long ↦
                  let l : q * 2 ≤ length bs = ground arith in
                  let (t, e, f) = inside r l in rw e (r, l, refl, f)
            ]
      ]
    ]
