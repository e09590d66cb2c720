-- ===== src/Slave/Steps.antt =====
-- internal/local-slave/slave.go: what `Process` may do to a slave, as a relation.
use modbus_gateway.Base.{
  ap, ℕ, suc, ◌+◌, ◌-◌, ◌*◌, ◌%◌, ◌≡◌, refl, [], ◌∷◌, ◌++◌, length, get_or-IsByte, Bytes, IsByte,
  IsWord, All, arith, ltb, leb, ◌==◌, ◌&&◌, not, ◌||◌, bit_or, Bool, true, false, Bool-cases, inl,
  inr, if◌then◌else◌, Outcome, ok, err, panic, ◌>>=◌,
}
use modbus_gateway.Base.Word.{put_uint16, halves-IsWord}
use modbus_gateway.Pdu.{Pdu, IsPdu}
use modbus_gateway.DataModel.{
  DataModel, TableType, table_coils, table_holding_registers, ModelError, read_coils,
  read_discrete_inputs, read_holding_registers, read_input_registers, write_single_coil,
  write_single_register, write_multiple_coils, write_multiple_registers,
}
use modbus_gateway.DataModel.Bits.{packed_bit}
use modbus_gateway.DataModel.Coils.{InRange}
use modbus_gateway.DataModel.RegisterWrites.{word}
use modbus_gateway.DataModel.Branches.{
  Replaced, StoresBits, StoresWords, write_multiple_coils-StoresBits,
  write_multiple_registers-StoresWords,
}
use modbus_gateway.Storage.{Storage}
use modbus_gateway.Slave.{
  LocalSlave, Handled, or_refuse, notify, handle_read, handle_write_single, handle_write_multiple,
  process, handle_read_coils, handle_read_discrete_inputs, handle_read_holding_registers,
  handle_read_input_registers, handle_write_single_coil, handle_write_single_register,
  handle_write_multiple_coils, handle_write_multiple_registers,
}

-- The widths of the elements of the tables.
pub record IsModel (m : DataModel) : Type 0 where
  pub coils_bytes : (i : ℕ) → IsByte (m.coils i)
  pub discrete_inputs_bytes : (i : ℕ) → IsByte (m.discrete_inputs i)
  pub holding_registers_words : (i : ℕ) → IsWord (m.holding_registers i)
  pub input_registers_words : (i : ℕ) → IsWord (m.input_registers i)

-- A write of new values to a range of one of the two tables that a master writes.
pub data Changed (t : TableType) (a q : ℕ) (m m' : DataModel) : Type 0 where
  in_coils :
      (new : ℕ → ℕ)
      → t ≡ table_coils
      → InRange a q
      → ((k : ℕ) → IsByte (new k))
      → m' ≡ record m { coils = m'.coils }
      → Replaced m.coils m'.coils a q new
      → Changed t a q m m'
  in_registers :
      (new : ℕ → ℕ)
      → t ≡ table_holding_registers
      → InRange a q
      → ((k : ℕ) → IsWord (new k))
      → m' ≡ record m { holding_registers = m'.holding_registers }
      → Replaced m.holding_registers m'.holding_registers a q new
      → Changed t a q m m'

-- What a write of a range of a table may come to.
abbrev pub Changes : TableType → ℕ → ℕ → DataModel → Outcome ModelError DataModel → Type 0
Changes t a q m (ok m') = Changed t a q m m'
Changes t a q m (err e) = Unit
Changes t a q m panic = Unit

write_single_coil-Changes :
    (m : DataModel) (a v : ℕ)
    → IsModel m
    → IsWord a
    → Changes table_coils a 1 m (write_single_coil m a v)
unfolding write_single_coil
write_single_coil-Changes m a v i h =
    let below : ltb 65535 a ≡ false = ground arith in
    let inside : ltb a 65536 ≡ true = ground arith in
    let range : InRange a 1 = (omega arith, omega arith) in
    rw below (
      rw inside (elim (Bool-cases (v == 0xff00)) [
        | inl on ↦ rw on (in_coils (λ k. 1) refl range (λ k. omega arith) refl (λ j. ground arith))
        | inr not_on ↦ rw not_on (elim (Bool-cases (v == 0)) [
          | inl off ↦
              rw off (in_coils (λ k. 0) refl range (λ k. omega arith) refl (λ j. ground arith))
          | inr other ↦ rw other (
              in_coils (λ k. m.coils (a + k)) refl range (λ k. i.coils_bytes (a + k)) refl
                (λ j. elim (Bool-cases (leb a j && ltb j (a + 1))) [
                  | inl at ↦ rw at (ap m.coils (ground arith))
                  | inr away ↦ rw away refl
                ]))
        ])
      ]))

write_single_register-Changes :
    (m : DataModel) (a v : ℕ)
    → IsWord a
    → IsWord v
    → Changes table_holding_registers a 1 m (write_single_register m a v)
unfolding write_single_register
write_single_register-Changes m a v h w =
    let below : ltb 65535 a ≡ false = ground arith in
    let inside : ltb a 65536 ≡ true = ground arith in
    rw below (
      rw inside
        (in_registers (λ k. v) refl (omega arith, omega arith) (λ k. w) refl (λ j. ground arith)))

write_multiple_coils-Changes :
    (m : DataModel) (a q : ℕ) (bs : Bytes)
    → All IsByte bs
    → Changes table_coils a q m (write_multiple_coils m a q bs)
write_multiple_coils-Changes m a q bs b =
    go (write_multiple_coils m a q bs) (write_multiple_coils-StoresBits m a q bs b)
  where
    go : (o : Outcome ModelError DataModel) → StoresBits m a q bs o → Changes table_coils a q m o
    go (ok m') (r, _, same, new) = in_coils (packed_bit bs) refl r (λ k. omega arith) same new
    go (err e) s = tt
    go panic s = tt

word-IsWord : (bs : Bytes) (i : ℕ) → All IsByte bs → IsWord (word bs i)
word-IsWord bs i b = omega (arith, get_or-IsByte bs (i * 2) b, get_or-IsByte bs (suc (i * 2)) b)

write_multiple_registers-Changes :
    (m : DataModel) (a q : ℕ) (bs : Bytes)
    → All IsByte bs
    → Changes table_holding_registers a q m (write_multiple_registers m a q bs)
write_multiple_registers-Changes m a q bs b =
    go (write_multiple_registers m a q bs) (write_multiple_registers-StoresWords m a q bs b)
  where
    go :
        (o : Outcome ModelError DataModel)
        → StoresWords m a q bs o
        → Changes table_holding_registers a q m o
    go (ok m') (r, _, same, new) = in_registers (word bs) refl r (λ k. word-IsWord bs k b) same new
    go (err e) s = tt
    go panic s = tt

-- What a request does to a slave: nothing, or one write of the model of which the storage is told.
pub data Step {S : Type 0} (ops : Storage S) (s s' : LocalSlave S) : Type 0 where
  same : s' ≡ s → Step ops s s'
  wrote :
      (t : TableType) (a q : ℕ)
      → Changed t a q s.model s'.model
      → ops.on_write s.storage s'.model t a q ≡ ok s'.storage
      → Step ops s s'

module _ {S : Type 0} (ops : Storage S) where
  -- What a handler may come to.
  abbrev pub Steps : LocalSlave S → Handled S → Type 0
  Steps s (ok (resp, s')) = Step ops s s'
  Steps s (err e) = Unit
  Steps s panic = Unit

  or_refuse-Steps :
      (s : LocalSlave S) (req resp : Pdu) (t : TableType) (a q : ℕ)
      (o : Outcome ModelError DataModel)
      → Changes t a q s.model o
      → Steps s (or_refuse s req o (λ m. do s' ← notify ops s m t a q; ok (resp, s')))
  or_refuse-Steps s req resp t a q (ok m) c = told (ops.on_write s.storage m t a q) refl
    where
      told :
          (r : Outcome ModelError S)
          → ops.on_write s.storage m t a q ≡ r
          → Steps s ((r >>= λ st. ok (record { model = m; storage = st })) >>= λ s'. ok (resp, s'))
      told (ok st) e = wrote t a q c e
      told (err x) e = tt
      told panic e = tt
  or_refuse-Steps s req resp t a q (err e) c = same refl
  or_refuse-Steps s req resp t a q panic c = tt

  read_or_refuse-Steps :
      (s : LocalSlave S) (req : Pdu) (o : Outcome ModelError Bytes) (f : Bytes → Pdu)
      → Steps s (or_refuse s req o (λ bs. ok (f bs, s)))
  read_or_refuse-Steps s req (ok bs) f = same refl
  read_or_refuse-Steps s req (err e) f = same refl
  read_or_refuse-Steps s req panic f = tt

  either-Steps :
      (b : Bool) (s : LocalSlave S) (x y : Handled S)
      → Steps s x
      → Steps s y
      → Steps s (if b then x else y)
  either-Steps true s x y hx hy = hx
  either-Steps false s x y hx hy = hy

  handle_read-Steps :
      (most : ℕ) (read : DataModel → ℕ → ℕ → Outcome ModelError Bytes) (s : LocalSlave S) (c : ℕ)
      (p : Bytes)
      → let req : Pdu = record { function_code = c; payload = p } in
        Steps s (handle_read most read s req)
  unfolding handle_read
  handle_read-Steps most read s c [] = same refl
  handle_read-Steps most read s c (x ∷ []) = same refl
  handle_read-Steps most read s c (x ∷ y ∷ []) = same refl
  handle_read-Steps most read s c (x ∷ y ∷ z ∷ []) = same refl
  handle_read-Steps most read s c (x ∷ y ∷ z ∷ w ∷ []) =
      let a = bit_or (x * 256) y in
      let q = bit_or (z * 256) w in
      let req : Pdu = record { function_code = c; payload = x ∷ y ∷ z ∷ w ∷ [] } in
      either-Steps (ltb q 1 || ltb most q) s _ _ (same refl) (
        read_or_refuse-Steps s req (read s.model a q)
          (λ bs. record { function_code = c; payload = length bs % 256 ∷ bs }))
  handle_read-Steps most read s c (x ∷ y ∷ z ∷ w ∷ v ∷ p) =
      let long : (suc (suc (suc (suc (suc (length p))))) == 4) ≡ false = ground arith in
      rw long (same refl)

  handle_write_single-Steps :
      (t : TableType) (write : DataModel → ℕ → ℕ → Outcome ModelError DataModel) (s : LocalSlave S)
      (c : ℕ) (p : Bytes)
      → All IsByte p
      → ((a v : ℕ) → IsWord a → IsWord v → Changes t a 1 s.model (write s.model a v))
      → let req : Pdu = record { function_code = c; payload = p } in
        Steps s (handle_write_single ops t write s req)
  unfolding handle_write_single
  handle_write_single-Steps t write s c [] b h = same refl
  handle_write_single-Steps t write s c (x ∷ []) b h = same refl
  handle_write_single-Steps t write s c (x ∷ y ∷ []) b h = same refl
  handle_write_single-Steps t write s c (x ∷ y ∷ z ∷ []) b h = same refl
  handle_write_single-Steps t write s c (x ∷ y ∷ z ∷ w ∷ []) b h =
      let a = bit_or (x * 256) y in
      let v = bit_or (z * 256) w in
      let req : Pdu = record { function_code = c; payload = x ∷ y ∷ z ∷ w ∷ [] } in
      or_refuse-Steps s req req t a 1 (write s.model a v)
        (h a v (halves-IsWord x y b.0 (b.1).0) (halves-IsWord z w ((b.1).1).0 (((b.1).1).1).0))
  handle_write_single-Steps t write s c (x ∷ y ∷ z ∷ w ∷ v ∷ p) b h =
      let long : (suc (suc (suc (suc (suc (length p))))) == 4) ≡ false = ground arith in
      rw long (same refl)

  handle_write_multiple-Steps :
      (most : ℕ) (t : TableType) (write : DataModel → ℕ → ℕ → Bytes → Outcome ModelError DataModel)
      (s : LocalSlave S) (c : ℕ) (p : Bytes)
      → All IsByte p
      → ((a q : ℕ) (bs : Bytes) → All IsByte bs → Changes t a q s.model (write s.model a q bs))
      → let req : Pdu = record { function_code = c; payload = p } in
        Steps s (handle_write_multiple ops most t write s req)
  unfolding handle_write_multiple
  handle_write_multiple-Steps most t write s c [] b h = same refl
  handle_write_multiple-Steps most t write s c (x ∷ []) b h = same refl
  handle_write_multiple-Steps most t write s c (x ∷ y ∷ []) b h = same refl
  handle_write_multiple-Steps most t write s c (x ∷ y ∷ z ∷ []) b h = same refl
  handle_write_multiple-Steps most t write s c (x ∷ y ∷ z ∷ w ∷ []) b h = same refl
  handle_write_multiple-Steps most t write s c (x ∷ y ∷ z ∷ w ∷ n ∷ []) b h = same refl
  handle_write_multiple-Steps most t write s c (x ∷ y ∷ z ∷ w ∷ n ∷ v ∷ p) b h =
      let a = bit_or (x * 256) y in
      let q = bit_or (z * 256) w in
      let req : Pdu = record { function_code = c; payload = x ∷ y ∷ z ∷ w ∷ n ∷ v ∷ p } in
      let size = suc (suc (suc (suc (suc (suc (length p)))))) in
      let long : ltb size 6 ≡ false = ground arith in
      rw long (
        either-Steps (ltb q 1 || ltb most q) s _ _ (same refl) (
          either-Steps (not ((size - 5) % 256 == n)) s _ _ (same refl) (
            or_refuse-Steps s req
              (record { function_code = c; payload = put_uint16 a ++ put_uint16 q }) t a q
              (write s.model a q (v ∷ p)) (h a q (v ∷ p) (((((b.1).1).1).1).1)))))

  pub process-Steps :
      (s : LocalSlave S) (req : Pdu) → IsPdu req → IsModel s.model → Steps s (process ops s req)
  unfolding process handle_read_coils handle_read_discrete_inputs handle_read_holding_registers
      handle_read_input_registers handle_write_single_coil handle_write_single_register
      handle_write_multiple_coils handle_write_multiple_registers
  process-Steps s req h i =
      let c = req.function_code in
      let p = req.payload in
      let hp = h.payload_bytes in
      either-Steps (c == 1) s _ _ (handle_read-Steps 2000 read_coils s c p) (
        either-Steps (c == 2) s _ _ (handle_read-Steps 2000 read_discrete_inputs s c p) (
          either-Steps (c == 3) s _ _ (handle_read-Steps 125 read_holding_registers s c p) (
            either-Steps (c == 4) s _ _ (handle_read-Steps 125 read_input_registers s c p) (
              either-Steps (c == 5) s _ _
                (handle_write_single-Steps table_coils write_single_coil s c p hp
                  (λ a v ha hv. write_single_coil-Changes s.model a v i ha))
                (either-Steps (c == 6) s _ _
                  (handle_write_single-Steps table_holding_registers write_single_register s c p hp
                    (write_single_register-Changes s.model))
                  (either-Steps (c == 15) s _ _
                    (handle_write_multiple-Steps 1968 table_coils write_multiple_coils s c p hp
                      (write_multiple_coils-Changes s.model))
                    (either-Steps (c == 16) s _ _
                      (handle_write_multiple-Steps 123 table_holding_registers
                        write_multiple_registers s c p hp
                        (write_multiple_registers-Changes s.model))
                      (same refl))))))))
