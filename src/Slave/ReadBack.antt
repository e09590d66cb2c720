-- ===== src/Slave/ReadBack.antt =====
-- internal/local-slave/slave.go: a write by a master and a read behind it.
use modbus_gateway.Base.{
  take_all, ℕ, ◌*◌, ◌≤◌, ◌≡◌, ap, ◌∙◌, [], ◌∷◌, ◌++◌, length, Bytes, IsByte, IsWord, All, arith, ok,
}
use modbus_gateway.Base.Word.{put_uint16, uint16-put_uint16}
use modbus_gateway.Pdu.{Pdu, func_code_read_holding_registers, func_code_write_multiple_registers}
use modbus_gateway.DataModel.{
  DataModel, table_holding_registers, ModelError, read_holding_registers, write_multiple_registers,
}
use modbus_gateway.DataModel.Coils.{InRange}
use modbus_gateway.DataModel.RegisterWrites.{
  write_multiple_registers_lem, read_holding_registers-write_multiple_registers,
}
use modbus_gateway.Storage.{Storage}
use modbus_gateway.Slave.{
  LocalSlave, process, handle_read_holding_registers, handle_write_multiple_registers, handle_read,
  handle_write_multiple,
}

-- The request to write the words `bs` to `q` registers from `a` on.
abbrev pub write_request : ℕ → ℕ → Bytes → Pdu
write_request a q bs = record {
  function_code = func_code_write_multiple_registers;
  payload = put_uint16 a ++ (put_uint16 q ++ (length bs ∷ bs));
}

-- The request to read `q` registers from `a` on.
abbrev pub read_request : ℕ → ℕ → Pdu
read_request a q = record {
  function_code = func_code_read_holding_registers;
  payload = put_uint16 a ++ put_uint16 q;
}

module _ {S : Type 0} (ops : Storage S) where
  process-write_request :
      (s : LocalSlave S) (a q : ℕ) (bs : Bytes) (m : DataModel) (st : S)
      → IsWord a
      → 1 ≤ q
      → q ≤ 123
      → length bs ≡ q * 2
      → write_multiple_registers s.model a q bs ≡ ok m
      → ops.on_write s.storage m table_holding_registers a q ≡ ok st
      → process ops s (write_request a q bs)
        ≡ ok (
          record { function_code = 16; payload = put_uint16 a ++ put_uint16 q },
          record { model = m; storage = st },
        )
  unfolding process handle_write_multiple_registers handle_write_multiple
  process-write_request s a q bs m st ha l u e w o = ground (
    arith,
    uint16-put_uint16 {E = ModelError} a [],
    uint16-put_uint16 {E = ModelError} q [],
    w,
    o,
  )

  process-read_request :
      (s : LocalSlave S) (a q : ℕ) (bs : Bytes)
      → IsWord a
      → 1 ≤ q
      → q ≤ 125
      → length bs ≡ q * 2
      → read_holding_registers s.model a q ≡ ok bs
      → process ops s (read_request a q)
        ≡ ok (record { function_code = 3; payload = length bs ∷ bs }, s)
  unfolding process handle_read_holding_registers handle_read put_uint16
  process-read_request s a q bs ha l u e r =
      ground
        (arith, uint16-put_uint16 {E = ModelError} a [], uint16-put_uint16 {E = ModelError} q [], r)

  -- A master that writes up to 123 registers within the table is answered with the address and the
  -- quantity, and reading the same registers from the slave as it then is returns the bytes written
  -- behind their count; over any storage whose hook returns on ranges within the tables.
  pub process_write_read :
      (s : LocalSlave S) (a q : ℕ) (bs : Bytes)
      → InRange a q
      → q ≤ 123
      → All IsByte bs
      → length bs ≡ q * 2
      → (s' : LocalSlave S) × (process ops s (write_request a q bs)
          ≡ ok (record { function_code = 16; payload = put_uint16 a ++ put_uint16 q }, s'))
        × (process ops s' (read_request a q)
            ≡ ok (record { function_code = 3; payload = length bs ∷ bs }, s'))
  process_write_read s a q bs h u b e =
      let (t, w, _) = (write_multiple_registers_lem s.model a q bs b).0 h (omega arith) in
      let m : DataModel = record s.model { holding_registers = t } in
      let (st, o) = ops.on_write_returns s.storage m table_holding_registers a q h in
      let s' : LocalSlave S = record { model = m; storage = st } in
      let back =
        read_holding_registers-write_multiple_registers s.model m a q bs b h (omega arith) w
        ∙ ap ok (take_all bs (q * 2) (omega arith)) in
      (
        s',
        process-write_request s a q bs m st (omega arith) (omega arith) u e w o,
        process-read_request s' a q bs (omega arith) (omega arith) (omega arith) e back,
      )
