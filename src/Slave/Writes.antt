-- ===== src/Slave/Writes.antt =====
-- internal/local-slave/slave.go: the responses of the write handlers, and of `Process` as a whole.
use modbus_gateway.Base.{
  Bool, ℕ, suc, ◌-◌, ◌*◌, ◌%◌, ◌≤◌, ◌≡◌, inl, inr, refl, [], ◌∷◌, ◌++◌, length, Bytes, IsByte,
  IsWord, All, arith, ltb, ◌==◌, not, ◌||◌, bit_or, Bool-cases, Outcome, ok, err, panic, false,
  true, if◌then◌else◌, ◌>>=◌,
}
use modbus_gateway.Base.Word.{put_uint16-IsByte, put_uint16, halves-IsWord}
use modbus_gateway.Pdu.{Pdu, IsPdu, Fits}
use modbus_gateway.DataModel.{
  table_holding_registers, table_coils, DataModel, TableType, ModelError, read_coils,
  read_discrete_inputs, read_holding_registers, read_input_registers, write_single_coil,
  write_single_register, write_multiple_coils, write_multiple_registers,
}
use modbus_gateway.Storage.{Storage}
use modbus_gateway.Slave.{
  LocalSlave, Handled, or_refuse, notify, handle_write_single, handle_write_multiple, process,
  handle_read_coils, handle_read_discrete_inputs, handle_read_holding_registers,
  handle_read_input_registers, handle_write_single_coil, handle_write_single_register,
  handle_write_multiple_coils, handle_write_multiple_registers,
}
use modbus_gateway.Slave.Returns.{
  WriteReturns, read_coils-ReadReturns, read_discrete_inputs-ReadReturns,
  read_holding_registers-ReadReturns, read_input_registers-ReadReturns,
  write_single_coil-WriteReturns, write_single_register-WriteReturns,
  write_multiple_coils-WriteReturns, write_multiple_registers-WriteReturns,
}
use modbus_gateway.Slave.Responds.{IsResponse, Responds, refuse-Responds, handle_read-Responds}

module _ {S : Type 0} (ops : Storage S) where
  -- After a write that was accepted the storage is told, and the response is sent.
  written-Responds :
      (s : LocalSlave S) (req resp : Pdu) (table : TableType) (a q : ℕ)
      (o : Outcome ModelError DataModel)
      → IsByte req.function_code
      → IsPdu resp
      → Fits resp
      → resp.function_code ≡ req.function_code
      → WriteReturns s.model a q o
      → Responds s req (or_refuse s req o (λ m. do s' ← notify ops s m table a q; ok (resp, s')))
  written-Responds s req resp table a q (ok m) hc b f e w =
      let (st, told) = ops.on_write_returns s.storage m table a q w.0 in
      rw told (record {
        bytes = b;
        fits = f;
        discrete_inputs_kept = w.1;
        input_registers_kept = w.2;
        kind = inr e;
      })
  written-Responds s req resp table a q (err x) hc b f e w =
      refuse-Responds s req 2 hc (omega arith) (omega arith)
  written-Responds s req resp table a q panic hc b f e w = w

  handle_write_single-Responds :
      (table : TableType) (write : DataModel → ℕ → ℕ → Outcome ModelError DataModel)
      (s : LocalSlave S) (c : ℕ) (p : Bytes)
      → IsByte c
      → All IsByte p
      → ((a v : ℕ) → IsWord a → WriteReturns s.model a 1 (write s.model a v))
      → let req : Pdu = record { function_code = c; payload = p } in
        Responds s req (handle_write_single ops table write s req)
  unfolding handle_write_single
  handle_write_single-Responds table write s c [] hc hp h =
      refuse-Responds s _ 3 hc (omega arith) (omega arith)
  handle_write_single-Responds table write s c (x ∷ []) hc hp h =
      refuse-Responds s _ 3 hc (omega arith) (omega arith)
  handle_write_single-Responds table write s c (x ∷ y ∷ []) hc hp h =
      refuse-Responds s _ 3 hc (omega arith) (omega arith)
  handle_write_single-Responds table write s c (x ∷ y ∷ z ∷ []) hc hp h =
      refuse-Responds s _ 3 hc (omega arith) (omega arith)
  handle_write_single-Responds table write s c (x ∷ y ∷ z ∷ w ∷ []) hc hp h =
      let a = bit_or (x * 256) y in
      let req : Pdu = record { function_code = c; payload = x ∷ y ∷ z ∷ w ∷ [] } in
      written-Responds s req req table a 1 (write s.model a (bit_or (z * 256) w)) hc
        (record { code_byte = hc; payload_bytes = hp }) (omega arith) refl
        (h a _ (halves-IsWord x y hp.0 (hp.1).0))
  handle_write_single-Responds table write s c (x ∷ y ∷ z ∷ w ∷ v ∷ p) hc hp h =
      let long : (suc (suc (suc (suc (suc (length p))))) == 4) ≡ false = ground arith in
      rw long (
        refuse-Responds s (record { function_code = c; payload = x ∷ y ∷ z ∷ w ∷ v ∷ p }) 3 hc
          (omega arith) (omega arith))

  handle_write_multiple-Responds :
      (most : ℕ) (table : TableType)
      (write : DataModel → ℕ → ℕ → Bytes → Outcome ModelError DataModel) (s : LocalSlave S) (c : ℕ)
      (p : Bytes)
      → IsByte c
      → All IsByte p
      → ((a q : ℕ) (bs : Bytes)
          → All IsByte bs
          → 1 ≤ q
          → WriteReturns s.model a q (write s.model a q bs))
      → let req : Pdu = record { function_code = c; payload = p } in
        Responds s req (handle_write_multiple ops most table write s req)
  unfolding handle_write_multiple
  handle_write_multiple-Responds most table write s c [] hc hp h =
      refuse-Responds s _ 3 hc (omega arith) (omega arith)
  handle_write_multiple-Responds most table write s c (x ∷ []) hc hp h =
      refuse-Responds s _ 3 hc (omega arith) (omega arith)
  handle_write_multiple-Responds most table write s c (x ∷ y ∷ []) hc hp h =
      refuse-Responds s _ 3 hc (omega arith) (omega arith)
  handle_write_multiple-Responds most table write s c (x ∷ y ∷ z ∷ []) hc hp h =
      refuse-Responds s _ 3 hc (omega arith) (omega arith)
  handle_write_multiple-Responds most table write s c (x ∷ y ∷ z ∷ w ∷ []) hc hp h =
      refuse-Responds s _ 3 hc (omega arith) (omega arith)
  handle_write_multiple-Responds most table write s c (x ∷ y ∷ z ∷ w ∷ n ∷ []) hc hp h =
      refuse-Responds s _ 3 hc (omega arith) (omega arith)
  handle_write_multiple-Responds most table write s c (x ∷ y ∷ z ∷ w ∷ n ∷ v ∷ p) hc hp h =
      let a = bit_or (x * 256) y in
      let q = bit_or (z * 256) w in
      let req : Pdu = record { function_code = c; payload = x ∷ y ∷ z ∷ w ∷ n ∷ v ∷ p } in
      let size = suc (suc (suc (suc (suc (suc (length p)))))) in
      let long : ltb size 6 ≡ false = ground arith in
      rw long (elim (Bool-cases (ltb q 1 || ltb most q)) [
        | inl bad ↦ rw bad (refuse-Responds s req 3 hc (omega arith) (omega arith))
        | inr good ↦ rw good (elim (Bool-cases (not ((size - 5) % 256 == n))) [
          | inl other ↦ rw other (refuse-Responds s req 3 hc (omega arith) (omega arith))
          | inr same ↦ rw same (
              written-Responds s req
                (record { function_code = c; payload = put_uint16 a ++ put_uint16 q }) table a q
                (write s.model a q (v ∷ p)) hc
                (record { code_byte = hc; payload_bytes = put_uint16-IsByte a q }) (omega arith)
                refl (h a q (v ∷ p) (((((hp.1).1).1).1).1) (ground arith)))
        ])
      ])

  either-Responds :
      (b : Bool) (s : LocalSlave S) (req : Pdu) (x y : Handled S)
      → Responds s req x
      → Responds s req y
      → Responds s req (if b then x else y)
  either-Responds true s req x y hx hy = hx
  either-Responds false s req x y hx hy = hy

  process-Responds_of_Handled :
      (s : LocalSlave S) (req : Pdu) → IsPdu req → Responds s req (process ops s req)
  unfolding process handle_read_coils handle_read_discrete_inputs handle_read_holding_registers
      handle_read_input_registers handle_write_single_coil handle_write_single_register
      handle_write_multiple_coils handle_write_multiple_registers
  process-Responds_of_Handled s req h =
      let c = req.function_code in
      let p = req.payload in
      let hc = h.code_byte in
      let hp = h.payload_bytes in
      either-Responds (c == 1) s req _ _
        (handle_read-Responds 2000 read_coils s c p hc hp (read_coils-ReadReturns s.model))
        (either-Responds (c == 2) s req _ _
          (handle_read-Responds 2000 read_discrete_inputs s c p hc hp
            (read_discrete_inputs-ReadReturns s.model))
          (either-Responds (c == 3) s req _ _
            (handle_read-Responds 125 read_holding_registers s c p hc hp
              (read_holding_registers-ReadReturns s.model))
            (either-Responds (c == 4) s req _ _
              (handle_read-Responds 125 read_input_registers s c p hc hp
                (read_input_registers-ReadReturns s.model))
              (either-Responds (c == 5) s req _ _
                (handle_write_single-Responds table_coils write_single_coil s c p hc hp
                  (write_single_coil-WriteReturns s.model))
                (either-Responds (c == 6) s req _ _
                  (handle_write_single-Responds table_holding_registers write_single_register s c p
                    hc hp (write_single_register-WriteReturns s.model))
                  (either-Responds (c == 15) s req _ _
                    (handle_write_multiple-Responds 1968 table_coils write_multiple_coils s c p hc
                      hp (write_multiple_coils-WriteReturns s.model))
                    (either-Responds (c == 16) s req _ _
                      (handle_write_multiple-Responds 123 table_holding_registers
                        write_multiple_registers s c p hc hp
                        (write_multiple_registers-WriteReturns s.model))
                      (refuse-Responds s req 1 hc (omega arith) (omega arith)))))))))

  -- `Process` answers every request of bytes with a response, over any storage whose hook returns on
  -- ranges within the tables: it neither panics nor returns a Go error. The response consists of
  -- bytes and fits an ADU; it is an exception with code 1, 2 or 3 and then the slave is unchanged, or
  -- it carries the request's function code; and the discrete inputs and the input registers are
  -- never changed.
  pub process-Responds :
      (s : LocalSlave S) (req : Pdu)
      → IsPdu req
      → (resp : Pdu) × (s' : LocalSlave S) × (process ops s req ≡ ok (resp, s'))
        × IsResponse s req resp s'
  process-Responds s req h = found (process ops s req) (process-Responds_of_Handled s req h)
    where
      found :
          (o : Handled S)
          → Responds s req o
          → (resp : Pdu) × (s' : LocalSlave S) × (o ≡ ok (resp, s')) × IsResponse s req resp s'
      found (ok (resp, s')) r = (resp, s', refl, r)
      found (err e) r = absurd r
      found panic r = absurd r
