-- ===== src/Tests/Slave.antt =====
-- internal/local-slave on a fresh model with the memory storage.
use modbus_gateway.Base.{◌*◌, ◌≡◌, refl, [], ◌∷◌, ◌++◌, take, Bytes, All, IsByte, arith, ok}
use modbus_gateway.Base.Word.{put_uint16, uint16}
use modbus_gateway.Pdu.{Pdu, IsPdu}
use modbus_gateway.DataModel.{
  DataModel, new_data_model, validate_range, read_coils, read_holding_registers,
  write_multiple_coils, write_multiple_registers, unpack_loop, store_words_loop,
}
use modbus_gateway.DataModel.RegisterWrites.{read_holding_registers-write_multiple_registers}
use modbus_gateway.DataModel.Branches.{
  ReadsBits, ReadsWords, StoresBits, StoresWords, read_coils-ReadsBits,
  read_holding_registers-ReadsWords, write_multiple_coils-StoresBits,
  write_multiple_registers-StoresWords,
}
use modbus_gateway.Storage.{memory_storage}
use modbus_gateway.Slave.{LocalSlave, process}
use modbus_gateway.Slave.Responds.{IsResponse}
use modbus_gateway.Slave.Writes.{process-Responds}
use modbus_gateway.Slave.ReadBack.{write_request, read_request, process_write_read}

abbrev fresh : LocalSlave (Unit {0})
fresh = record { model = new_data_model; storage = tt }

-- The request to write 0x1234 and 7 to the registers 2 and 3.
abbrev two_words : Bytes
two_words = 0x12 ∷ 0x34 ∷ 0 ∷ 7 ∷ []

two_words-IsByte : All IsByte two_words
two_words-IsByte = (omega arith, (omega arith, (omega arith, (omega arith, tt))))

abbrev unknown : Pdu
unknown = record { function_code = 43; payload = 14 ∷ [] }

unknown-IsPdu : IsPdu unknown
unknown-IsPdu = record { code_byte = omega arith; payload_bytes = (omega arith, tt) }

unknown_refused :
    process memory_storage fresh unknown
    ≡ ok (record { function_code = 0xab; payload = 1 ∷ [] }, fresh)
unfolding process
unknown_refused = refl

process-Responds_example :
    (resp : Pdu) × (s' : LocalSlave (Unit {0})) × (process memory_storage fresh unknown
      ≡ ok (resp, s'))
    × IsResponse fresh unknown resp s'
process-Responds_example = process-Responds memory_storage fresh unknown unknown-IsPdu

process_write_read_example :
    (s' : LocalSlave (Unit {0})) × (process memory_storage fresh (write_request 2 2 two_words)
      ≡ ok (record { function_code = 16; payload = put_uint16 2 ++ put_uint16 2 }, s'))
    × (process memory_storage s' (read_request 2 2)
        ≡ ok (record { function_code = 3; payload = 4 ∷ two_words }, s'))
process_write_read_example =
    process_write_read memory_storage fresh 2 2 two_words (omega arith, omega arith) (omega arith)
      two_words-IsByte refl

read_coils-ReadsBits_example :
    ReadsBits new_data_model.coils 65535 2 (read_coils new_data_model 65535 2)
read_coils-ReadsBits_example = read_coils-ReadsBits new_data_model 65535 2

read_holding_registers-ReadsWords_example :
    ReadsWords new_data_model.holding_registers 0 40000
      (read_holding_registers new_data_model 0 40000)
read_holding_registers-ReadsWords_example =
    read_holding_registers-ReadsWords new_data_model 0 40000 (omega arith)

write_multiple_coils-StoresBits_example :
    StoresBits new_data_model 3 9 two_words (write_multiple_coils new_data_model 3 9 two_words)
write_multiple_coils-StoresBits_example =
    write_multiple_coils-StoresBits new_data_model 3 9 two_words two_words-IsByte

write_multiple_registers-StoresWords_example :
    StoresWords new_data_model 2 3 two_words (write_multiple_registers new_data_model 2 3 two_words)
write_multiple_registers-StoresWords_example =
    write_multiple_registers-StoresWords new_data_model 2 3 two_words two_words-IsByte

registers_written : (m : DataModel) × (write_multiple_registers new_data_model 2 2 two_words ≡ ok m)
unfolding write_multiple_registers validate_range store_words_loop uint16
registers_written = (_, refl)

nine_written : (m : DataModel) × (write_multiple_coils new_data_model 3 9 two_words ≡ ok m)
unfolding write_multiple_coils validate_range unpack_loop
nine_written = (_, refl)

read_holding_registers-write_multiple_registers_example :
    read_holding_registers registers_written.0 2 2 ≡ ok (take (2 * 2) two_words)
read_holding_registers-write_multiple_registers_example =
    read_holding_registers-write_multiple_registers new_data_model registers_written.0 2 2 two_words
      two_words-IsByte (omega arith, omega arith) (omega arith) registers_written.1
