-- ===== src/Pdu.antt =====
-- modbus/modbus.go: the protocol data unit, and its function and exception codes.
use Prim.Native.String.{String}
use modbus_gateway.Base.{◌==◌, if◌then◌else◌, ℕ, Bytes, IsByte, All, length, ◌≤◌}

abbrev pub func_code_read_coils : ℕ
func_code_read_coils = 1

abbrev pub func_code_read_discrete_inputs : ℕ
func_code_read_discrete_inputs = 2

abbrev pub func_code_read_holding_registers : ℕ
func_code_read_holding_registers = 3

abbrev pub func_code_read_input_registers : ℕ
func_code_read_input_registers = 4

abbrev pub func_code_write_single_coil : ℕ
func_code_write_single_coil = 5

abbrev pub func_code_write_single_register : ℕ
func_code_write_single_register = 6

abbrev pub func_code_write_multiple_coils : ℕ
func_code_write_multiple_coils = 15

abbrev pub func_code_write_multiple_registers : ℕ
func_code_write_multiple_registers = 16

abbrev pub func_code_mask_write_register : ℕ
func_code_mask_write_register = 22

abbrev pub func_code_read_write_multiple_registers : ℕ
func_code_read_write_multiple_registers = 23

abbrev pub func_code_read_fifo_queue : ℕ
func_code_read_fifo_queue = 24

abbrev pub func_code_read_device_identification : ℕ
func_code_read_device_identification = 43

-- The exception codes.
abbrev pub exception_code_illegal_function : ℕ
exception_code_illegal_function = 1

abbrev pub exception_code_illegal_data_address : ℕ
exception_code_illegal_data_address = 2

abbrev pub exception_code_illegal_data_value : ℕ
exception_code_illegal_data_value = 3

abbrev pub exception_code_server_device_failure : ℕ
exception_code_server_device_failure = 4

abbrev pub exception_code_acknowledge : ℕ
exception_code_acknowledge = 5

abbrev pub exception_code_server_device_busy : ℕ
exception_code_server_device_busy = 6

abbrev pub exception_code_memory_parity_error : ℕ
exception_code_memory_parity_error = 8

abbrev pub exception_code_gateway_path_unavailable : ℕ
exception_code_gateway_path_unavailable = 10

abbrev pub exception_code_gateway_target_device_failed_to_respond : ℕ
exception_code_gateway_target_device_failed_to_respond = 11

-- The name of an exception in the text of an `Error`.
unfoldable pub exception_name : ℕ → String
exception_name code =
    if code == exception_code_illegal_function
    then "illegal function"
    else if code == exception_code_illegal_data_address
    then "illegal data address"
    else if code == exception_code_illegal_data_value
    then "illegal data value"
    else if code == exception_code_server_device_failure
    then "server device failure"
    else if code == exception_code_acknowledge
    then "acknowledge"
    else if code == exception_code_server_device_busy
    then "server device busy"
    else if code == exception_code_memory_parity_error
    then "memory parity error"
    else if code == exception_code_gateway_path_unavailable
    then "gateway path unavailable"
    else if code == exception_code_gateway_target_device_failed_to_respond
    then "gateway target device failed to respond"
    else "unknown"

-- `ProtocolDataUnit`.
pub record Pdu : Type 0 where
  pub function_code : ℕ
  pub payload : Bytes

-- The function code and the data of a `ProtocolDataUnit` are of type byte.
pub record IsPdu (p : Pdu) : Type 0 where
  pub code_byte : IsByte p.function_code
  pub payload_bytes : All IsByte p.payload

-- A PDU fits an ADU, which holds 252 bytes of data at most.
abbrev pub Fits : Pdu → Type 0
Fits p = length p.payload ≤ 252
