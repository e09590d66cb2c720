-- ===== src/Slave.antt =====
-- internal/local-slave/slave.go: the Modbus functions over a data model, for any storage.
pub mod Returns
pub mod ReadBack
pub mod Writes
pub mod Steps
pub mod Invariant
pub mod Responds
use modbus_gateway.Base.{
  ℕ, ◌-◌, ◌%◌, bit_or, [], ◌∷◌, ◌++◌, length, get_or, take, drop, Bytes, ◌||◌, not, ltb, ◌==◌,
  if◌then◌else◌, Outcome, ok, err, panic, ◌>>=◌,
}
use modbus_gateway.Base.Word.{uint16, put_uint16}
use modbus_gateway.Pdu.{
  Pdu, func_code_read_coils, func_code_read_discrete_inputs, func_code_read_holding_registers,
  func_code_read_input_registers, func_code_write_single_coil, func_code_write_single_register,
  func_code_write_multiple_coils, func_code_write_multiple_registers,
  exception_code_illegal_function, exception_code_illegal_data_address,
  exception_code_illegal_data_value,
}
use modbus_gateway.DataModel.{
  DataModel, TableType, table_coils, table_holding_registers, ModelError, read_coils,
  read_discrete_inputs, read_holding_registers, read_input_registers, write_single_coil,
  write_single_register, write_multiple_coils, write_multiple_registers,
}
use modbus_gateway.Storage.{Storage}

-- `exception`.
unfoldable pub exception : ℕ → ℕ → Pdu
exception func_code code = record { function_code = bit_or func_code 0x80; payload = code ∷ [] }

-- `LocalSlave`, over a storage of state `S`.
pub record LocalSlave (S : Type 0) : Type 0 where
  pub model : DataModel
  pub storage : S

-- A handler's response with the slave after it, or an error.
abbrev pub Handled : Type 0 → Type 0
Handled S = Outcome ModelError (Pdu × LocalSlave S)

-- `return s.exception(req.FunctionCode, code), nil`.
abbrev pub refuse : {S : Type 0} → LocalSlave S → Pdu → ℕ → Handled S
refuse s req code = ok (exception req.function_code code, s)

-- What a handler does with the error of an operation on the model.
abbrev pub or_refuse :
    {S A : Type 0} → LocalSlave S → Pdu → Outcome ModelError A → (A → Handled S) → Handled S
or_refuse s req (ok a) f = f a
or_refuse s req (err e) f = refuse s req exception_code_illegal_data_address
or_refuse s req panic f = panic

-- The read handlers, by the largest quantity and the operation on the model.
unfoldable pub handle_read :
    {S : Type 0}
    → ℕ
    → (DataModel → ℕ → ℕ → Outcome ModelError Bytes)
    → LocalSlave S
    → Pdu
    → Handled S
unfolding exception uint16
handle_read most read s req =
    if not (length req.payload == 4) then refuse s req exception_code_illegal_data_value else (do
      address ← uint16 (take 2 req.payload)
      quantity ← uint16 (take 2 (drop 2 req.payload))
      if ltb quantity 1 || ltb most quantity
          then refuse s req exception_code_illegal_data_value
          else or_refuse s req (read s.model address quantity) (λ bs.
            ok (record { function_code = req.function_code; payload = length bs % 256 ∷ bs }, s)))

-- `handleReadCoils`.
unfoldable pub handle_read_coils : {S : Type 0} → LocalSlave S → Pdu → Handled S
handle_read_coils = handle_read 2000 read_coils

-- `handleReadDiscreteInputs`.
unfoldable pub handle_read_discrete_inputs : {S : Type 0} → LocalSlave S → Pdu → Handled S
handle_read_discrete_inputs = handle_read 2000 read_discrete_inputs

-- `handleReadHoldingRegisters`.
unfoldable pub handle_read_holding_registers : {S : Type 0} → LocalSlave S → Pdu → Handled S
handle_read_holding_registers = handle_read 125 read_holding_registers

-- `handleReadInputRegisters`.
unfoldable pub handle_read_input_registers : {S : Type 0} → LocalSlave S → Pdu → Handled S
handle_read_input_registers = handle_read 125 read_input_registers

module _ {S : Type 0} (ops : Storage S) where
  -- `s.storage.OnWrite(table, address, quantity)`, on the model as it is after the write.
  abbrev pub notify :
      LocalSlave S → DataModel → TableType → ℕ → ℕ → Outcome ModelError (LocalSlave S)
  notify s m table address quantity = do
    storage' ← ops.on_write s.storage m table address quantity
    ok (record { model = m; storage = storage' })

  -- The handlers of single writes, by the operation on the model and its table.
  unfoldable pub handle_write_single :
      TableType
      → (DataModel → ℕ → ℕ → Outcome ModelError DataModel)
      → LocalSlave S
      → Pdu
      → Handled S
  unfolding exception uint16
  handle_write_single table write s req =
      if not (length req.payload == 4) then refuse s req exception_code_illegal_data_value else (do
        address ← uint16 (take 2 req.payload)
        value ← uint16 (take 2 (drop 2 req.payload))
        or_refuse s req (write s.model address value)
            (λ m. do s' ← notify s m table address 1; ok (req, s')))

  -- `handleWriteSingleCoil`.
  unfoldable pub handle_write_single_coil : LocalSlave S → Pdu → Handled S
  handle_write_single_coil = handle_write_single table_coils write_single_coil

  -- `handleWriteSingleRegister`.
  unfoldable pub handle_write_single_register : LocalSlave S → Pdu → Handled S
  handle_write_single_register = handle_write_single table_holding_registers write_single_register

  -- The handlers of multiple writes, by the largest quantity, the operation and its table.
  unfoldable pub handle_write_multiple :
      ℕ
      → TableType
      → (DataModel → ℕ → ℕ → Bytes → Outcome ModelError DataModel)
      → LocalSlave S
      → Pdu
      → Handled S
  unfolding exception uint16 put_uint16
  handle_write_multiple most table write s req =
      if ltb (length req.payload) 6 then refuse s req exception_code_illegal_data_value else (do
        address ← uint16 (take 2 req.payload)
        quantity ← uint16 (take 2 (drop 2 req.payload))
        let byte_count = get_or req.payload 4 0
        if ltb quantity 1 || ltb most quantity
            then refuse s req exception_code_illegal_data_value
            else if not ((length req.payload - 5) % 256 == byte_count)
            then refuse s req exception_code_illegal_data_value
            else or_refuse s req (write s.model address quantity (drop 5 req.payload)) (λ m. do
              s' ← notify s m table address quantity
              ok (
                record {
                  function_code = req.function_code;
                  payload = put_uint16 address ++ put_uint16 quantity;
                },
                s',
              )))

  -- `handleWriteMultipleCoils`.
  unfoldable pub handle_write_multiple_coils : LocalSlave S → Pdu → Handled S
  handle_write_multiple_coils = handle_write_multiple 1968 table_coils write_multiple_coils

  -- `handleWriteMultipleRegisters`.
  unfoldable pub handle_write_multiple_registers : LocalSlave S → Pdu → Handled S
  handle_write_multiple_registers =
      handle_write_multiple 123 table_holding_registers write_multiple_registers

  -- `Process`.
  unfoldable pub process : LocalSlave S → Pdu → Handled S
  unfolding exception
  process s req =
      if req.function_code == func_code_read_coils
      then handle_read_coils s req
      else if req.function_code == func_code_read_discrete_inputs
      then handle_read_discrete_inputs s req
      else if req.function_code == func_code_read_holding_registers
      then handle_read_holding_registers s req
      else if req.function_code == func_code_read_input_registers
      then handle_read_input_registers s req
      else if req.function_code == func_code_write_single_coil
      then handle_write_single_coil s req
      else if req.function_code == func_code_write_single_register
      then handle_write_single_register s req
      else if req.function_code == func_code_write_multiple_coils
      then handle_write_multiple_coils s req
      else if req.function_code == func_code_write_multiple_registers
      then handle_write_multiple_registers s req
      else refuse s req exception_code_illegal_function
