-- ===== src/DataModel.antt =====
-- internal/local-slave/model/model.go: the four tables of a local slave and the operations on them.
-- The operations hold the model's lock throughout, so each is one step here.
pub mod Branches
pub mod Bits
pub mod Coils
pub mod Registers
pub mod RegisterWrites
use modbus_gateway.Base.{
  ℕ, zero, suc, ◌+◌, ◌*◌, ◌/◌, ◌%◌, ◌^◌, bit_and, bit_or, get_or, set, length, replicate, drop,
  Bytes, ltb, leb, ◌==◌, if◌then◌else◌, Outcome, ok, ◌>>=◌, ◌>>◌, fail_if, in_range,
}
use modbus_gateway.Base.Word.{uint16}

abbrev pub max_address : ℕ
max_address = 65535

-- `TableType`.
pub data TableType : Type 0 where
  table_coils table_discrete_inputs table_holding_registers table_input_registers : TableType

-- A Go slice of `MaxAddress+1` elements, by its contents. An index outside of it is a panic.
abbrev pub Table : Type 0
Table = ℕ → ℕ

abbrev pub index : {E : Type 0} → Table → ℕ → Outcome E ℕ
index t i = do in_range (ltb i (max_address + 1)); ok (t i)

-- The contents after `t[i] = v`.
abbrev pub put : Table → ℕ → ℕ → Table
put t i v j = if j == i then v else t j

abbrev pub assign : {E : Type 0} → Table → ℕ → ℕ → Outcome E Table
assign t i v = do in_range (ltb i (max_address + 1)); ok (put t i v)

pub data ModelError : Type 0 where
  zero_quantity out_of_bounds address_out_of_range insufficient_data : ModelError

-- `DataModel`.
pub record DataModel : Type 0 where
  pub coils : Table
  pub discrete_inputs : Table
  pub holding_registers : Table
  pub input_registers : Table

-- `NewDataModel`.
abbrev pub new_data_model : DataModel
new_data_model = record {
  coils = λ i. 0;
  discrete_inputs = λ i. 0;
  holding_registers = λ i. 0;
  input_registers = λ i. 0;
}

-- `validateRange`.
unfoldable pub validate_range : ℕ → ℕ → Outcome ModelError (Unit {0})
validate_range address quantity = do
  fail_if (quantity == 0) zero_quantity
  fail_if (ltb (max_address + 1) (address + quantity)) out_of_bounds
  ok tt

-- `result[byteIdx] |= 1 << bitIdx`.
unfoldable pub set_bit : {E : Type 0} → Bytes → ℕ → ℕ → Outcome E Bytes
set_bit result byte_idx bit_idx = do
  in_range (ltb byte_idx (length result))
  ok (set result byte_idx (bit_or (get_or result byte_idx 0) (2 ^ bit_idx % 256)))

-- The loop of `ReadCoils` and `ReadDiscreteInputs`: the rounds left, and `i`.
unfoldable pub pack_loop : {E : Type 0} → Table → ℕ → ℕ → ℕ → Bytes → Outcome E Bytes
unfolding set_bit
pack_loop t address zero i result = ok result
pack_loop t address (suc left) i result = do
  v ← index t (address + i)
  result' ← if v == 0 then ok result else set_bit result (i / 8) (i % 8)
  pack_loop t address left (i + 1) result'

-- `ReadCoils`.
unfoldable pub read_coils : DataModel → ℕ → ℕ → Outcome ModelError Bytes
unfolding validate_range pack_loop
read_coils m address quantity = do
  validate_range address quantity
  pack_loop m.coils address quantity 0 (replicate ((quantity + 7) / 8) 0)

-- `WriteSingleCoil`.
unfoldable pub write_single_coil : DataModel → ℕ → ℕ → Outcome ModelError DataModel
write_single_coil m address value = do
  fail_if (ltb max_address address) address_out_of_range
  coils' ←
      if value == 0xff00
      then assign m.coils address 1
      else if value == 0x0000
      then assign m.coils address 0
      else ok m.coils
  ok (record m { coils = coils' })

-- `data[i]` of a byte slice.
abbrev pub byte_at : {E : Type 0} → Bytes → ℕ → Outcome E ℕ
byte_at bs i = do in_range (ltb i (length bs)); ok (get_or bs i 0)

-- The loop of `WriteMultipleCoils`.
unfoldable pub unpack_loop : {E : Type 0} → Table → ℕ → ℕ → ℕ → Bytes → Outcome E Table
unpack_loop t address zero i bs = ok t
unpack_loop t address (suc left) i bs = do
  b ← byte_at bs (i / 8)
  t' ← assign t (address + i) (bit_and (b / 2 ^ (i % 8)) 1)
  unpack_loop t' address left (i + 1) bs

-- `WriteMultipleCoils`.
unfoldable pub write_multiple_coils : DataModel → ℕ → ℕ → Bytes → Outcome ModelError DataModel
unfolding validate_range unpack_loop
write_multiple_coils m address quantity bs = do
  validate_range address quantity
  fail_if (ltb (length bs) ((quantity + 7) / 8)) insufficient_data
  coils' ← unpack_loop m.coils address quantity 0 bs
  ok (record m { coils = coils' })

-- `ReadDiscreteInputs`.
unfoldable pub read_discrete_inputs : DataModel → ℕ → ℕ → Outcome ModelError Bytes
unfolding validate_range pack_loop
read_discrete_inputs m address quantity = do
  validate_range address quantity
  pack_loop m.discrete_inputs address quantity 0 (replicate ((quantity + 7) / 8) 0)

-- `binary.BigEndian.PutUint16(result[at:], v)`.
unfoldable pub put_word_at : {E : Type 0} → Bytes → ℕ → ℕ → Outcome E Bytes
put_word_at result at v = do
  in_range (leb (at + 2) (length result))
  ok (set (set result at (v / 256 % 256)) (at + 1) (v % 256))

-- The loop of `ReadHoldingRegisters` and `ReadInputRegisters`.
unfoldable pub words_loop : {E : Type 0} → Table → ℕ → ℕ → ℕ → Bytes → Outcome E Bytes
unfolding put_word_at
words_loop t address zero i result = ok result
words_loop t address (suc left) i result = do
  v ← index t (address + i)
  result' ← put_word_at result (i * 2) v
  words_loop t address left (i + 1) result'

-- `ReadHoldingRegisters`. The size `quantity*2` is computed in uint16.
unfoldable pub read_holding_registers : DataModel → ℕ → ℕ → Outcome ModelError Bytes
unfolding validate_range words_loop
read_holding_registers m address quantity = do
  validate_range address quantity
  words_loop m.holding_registers address quantity 0 (replicate (quantity * 2 % 65536) 0)

-- `WriteSingleRegister`.
unfoldable pub write_single_register : DataModel → ℕ → ℕ → Outcome ModelError DataModel
write_single_register m address value = do
  fail_if (ltb max_address address) address_out_of_range
  registers ← assign m.holding_registers address value
  ok (record m { holding_registers = registers })

-- `binary.BigEndian.Uint16(data[at:])`.
abbrev pub word_at : {E : Type 0} → Bytes → ℕ → Outcome E ℕ
word_at bs at = do in_range (leb at (length bs)); uint16 (drop at bs)

-- The loop of `WriteMultipleRegisters`.
unfoldable pub store_words_loop : {E : Type 0} → Table → ℕ → ℕ → ℕ → Bytes → Outcome E Table
unfolding uint16
store_words_loop t address zero i bs = ok t
store_words_loop t address (suc left) i bs = do
  v ← word_at bs (i * 2)
  t' ← assign t (address + i) v
  store_words_loop t' address left (i + 1) bs

-- `WriteMultipleRegisters`.
unfoldable pub write_multiple_registers : DataModel → ℕ → ℕ → Bytes → Outcome ModelError DataModel
unfolding validate_range store_words_loop
write_multiple_registers m address quantity bs = do
  validate_range address quantity
  fail_if (ltb (length bs) (quantity * 2)) insufficient_data
  registers ← store_words_loop m.holding_registers address quantity 0 bs
  ok (record m { holding_registers = registers })

-- `ReadInputRegisters`.
unfoldable pub read_input_registers : DataModel → ℕ → ℕ → Outcome ModelError Bytes
unfolding validate_range words_loop
read_input_registers m address quantity = do
  validate_range address quantity
  words_loop m.input_registers address quantity 0 (replicate (quantity * 2 % 65536) 0)
