-- ===== src/Slave/Returns.antt =====
-- internal/local-slave/model/model.go as the handlers of slave.go call it.
use modbus_gateway.Base.{
  ℕ, ◌+◌, ◌*◌, ◌/◌, ◌≤◌, ◌<◌, ◌≡◌, ◌⊎◌, inl, inr, refl, length, Bytes, IsByte, IsWord, All, arith,
  leb, Bool-cases, Outcome, ok, err, panic,
}
use modbus_gateway.DataModel.{
  DataModel, ModelError, read_coils, read_discrete_inputs, read_holding_registers,
  read_input_registers, write_single_coil, write_single_register, write_multiple_coils,
  write_multiple_registers,
}
use modbus_gateway.DataModel.Coils.{
  InRange, validate_range-err, read_coils-Packed, read_discrete_inputs-Packed,
  write_multiple_coils_lem,
}
use modbus_gateway.DataModel.Registers.{
  length-words, words-IsByte, read_holding_registers-words, read_input_registers-words,
}
use modbus_gateway.DataModel.RegisterWrites.{write_multiple_registers_lem}

-- A read returns at most 250 bytes or an error.
abbrev pub ReadReturns : Outcome ModelError Bytes → Type 0
ReadReturns (ok bs) = All IsByte bs × (length bs ≤ 250)
ReadReturns (err e) = Unit
ReadReturns panic = ⊥

-- A write accepts only a range in the tables and leaves the read-only tables alone, or is an error.
abbrev pub WriteReturns : DataModel → ℕ → ℕ → Outcome ModelError DataModel → Type 0
WriteReturns m a q (ok m') =
    InRange a q
    × (m'.discrete_inputs ≡ m.discrete_inputs)
    × (m'.input_registers ≡ m.input_registers)
WriteReturns m a q (err e) = Unit
WriteReturns m a q panic = ⊥

range_cases : (a q : ℕ) → 1 ≤ q → InRange a q ⊎ (65536 < a + q)
range_cases a q h = omega arith

pub read_coils-ReadReturns :
    (m : DataModel) (a q : ℕ) → 1 ≤ q → q ≤ 2000 → ReadReturns (read_coils m a q)
read_coils-ReadReturns m a q l h = elim (range_cases a q l) [
  | inl r ↦ let (bs, e, p) = (read_coils-Packed m a q).0 r in rw e (p.bytes, omega (arith, p.size))
  | inr o ↦ rw ((read_coils-Packed m a q).2 l o) tt
]

pub read_discrete_inputs-ReadReturns :
    (m : DataModel) (a q : ℕ) → 1 ≤ q → q ≤ 2000 → ReadReturns (read_discrete_inputs m a q)
unfolding read_discrete_inputs
read_discrete_inputs-ReadReturns m a q l h = elim (range_cases a q l) [
  | inl r ↦
      let (bs, e, p) = read_discrete_inputs-Packed m a q r in rw e (p.bytes, omega (arith, p.size))
  | inr o ↦ rw (validate_range-err a q l o) tt
]

pub read_holding_registers-ReadReturns :
    (m : DataModel) (a q : ℕ) → 1 ≤ q → q ≤ 125 → ReadReturns (read_holding_registers m a q)
read_holding_registers-ReadReturns m a q l h = elim (range_cases a q l) [
  | inl r ↦
      rw ((read_holding_registers-words m a q).0 r (omega arith))
        (words-IsByte m.holding_registers a q, omega (arith, length-words m.holding_registers a q))
  | inr o ↦ rw ((read_holding_registers-words m a q).2 l o) tt
]

pub read_input_registers-ReadReturns :
    (m : DataModel) (a q : ℕ) → 1 ≤ q → q ≤ 125 → ReadReturns (read_input_registers m a q)
read_input_registers-ReadReturns m a q l h = elim (range_cases a q l) [
  | inl r ↦
      rw (read_input_registers-words m a q r (omega arith))
        (words-IsByte m.input_registers a q, omega (arith, length-words m.input_registers a q))
  | inr o ↦ unfold read_input_registers in rw (validate_range-err a q l o) tt
]

pub write_single_coil-WriteReturns :
    (m : DataModel) (a v : ℕ) → IsWord a → WriteReturns m a 1 (write_single_coil m a v)
unfolding write_single_coil
write_single_coil-WriteReturns m a v h = ground arith

pub write_single_register-WriteReturns :
    (m : DataModel) (a v : ℕ) → IsWord a → WriteReturns m a 1 (write_single_register m a v)
unfolding write_single_register
write_single_register-WriteReturns m a v h = ground arith

pub write_multiple_coils-WriteReturns :
    (m : DataModel) (a q : ℕ) (bs : Bytes)
    → All IsByte bs
    → 1 ≤ q
    → WriteReturns m a q (write_multiple_coils m a q bs)
write_multiple_coils-WriteReturns m a q bs b l =
    let w = write_multiple_coils_lem m a q bs b in
    elim (range_cases a q l) [
      | inl r ↦ elim (Bool-cases (leb ((q + 7) / 8) (length bs))) [
        | inl enough ↦ let (t, e, f) = w.0 r (ground arith) in rw e (r, refl, refl)
        | inr short ↦ rw (w.1 r (ground arith)) tt
      ]
      | inr o ↦ rw (w.3 l o) tt
    ]

pub write_multiple_registers-WriteReturns :
    (m : DataModel) (a q : ℕ) (bs : Bytes)
    → All IsByte bs
    → 1 ≤ q
    → WriteReturns m a q (write_multiple_registers m a q bs)
write_multiple_registers-WriteReturns m a q bs b l =
    let w = write_multiple_registers_lem m a q bs b in
    elim (range_cases a q l) [
      | inl r ↦ elim (Bool-cases (leb (q * 2) (length bs))) [
        | inl enough ↦ let (t, e, f) = w.0 r (ground arith) in rw e (r, refl, refl)
        | inr short ↦ rw (w.1 r (ground arith)) tt
      ]
      | inr o ↦ rw (w.3 l o) tt
    ]
