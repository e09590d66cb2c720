-- ===== src/Rtu/Framer.antt =====
-- modbus/rtu/framer.go: the lengths of frames, and the reader that finds a response in a stream.
pub mod Bounds
pub mod Finds
pub mod Taken
pub mod Lengths
use modbus_gateway.Base.{
  arith, ◌≡◌, ℕ, ◌+◌, ◌-◌, ◌*◌, ◌/◌, ◌%◌, [], ◌∷◌, ◌++◌, get_or, length, drop, Bytes, Bool, ◌||◌,
  not, ltb, leb, ◌==◌, if◌then◌else◌, Outcome, ok, err, panic, ◌>>=◌, ◌>>◌, fail_if, in_range,
  Option, some, none,
}
use modbus_gateway.Base.Word.{uint16}
use modbus_gateway.Pdu.{
  func_code_read_coils, func_code_read_discrete_inputs, func_code_read_holding_registers,
  func_code_read_input_registers, func_code_write_single_coil, func_code_write_single_register,
  func_code_write_multiple_coils, func_code_write_multiple_registers, func_code_mask_write_register,
  func_code_read_write_multiple_registers, func_code_read_fifo_queue,
}
use modbus_gateway.Rtu.Adu.{min_size, max_size}

-- The count of a request, `int(binary.BigEndian.Uint16(adu[4:]))`.
abbrev count_at_4 : {E : Type 0} → Bytes → Outcome E ℕ
count_at_4 adu = do in_range (leb 4 (length adu)); uint16 (drop 4 adu)

-- `count/8`, rounded up.
abbrev packed_size : ℕ → ℕ
packed_size count = count / 8 + (if not (count % 8 == 0) then 1 else 0)

-- The switch of `CalculateResponseLength` on `adu[1]`.
unfoldable pub response_length : {E : Type 0} → ℕ → Bytes → Outcome E ℕ
unfolding uint16
response_length code adu =
    if code == func_code_read_discrete_inputs || code == func_code_read_coils
    then (count_at_4 adu >>= λ count. ok (min_size + 1 + packed_size count))
    else if code == func_code_read_input_registers
        || code == func_code_read_holding_registers
        || code == func_code_read_write_multiple_registers
    then (count_at_4 adu >>= λ count. ok (min_size + 1 + count * 2))
    else if code == func_code_write_single_coil
        || code == func_code_write_multiple_coils
        || code == func_code_write_single_register
        || code == func_code_write_multiple_registers
    then ok (min_size + 4)
    else if code == func_code_mask_write_register
    then ok (min_size + 6)
    else ok min_size

-- `CalculateResponseLength`.
unfoldable pub calculate_response_length : {E : Type 0} → Bytes → Outcome E ℕ
unfolding response_length
calculate_response_length adu = do
  in_range (leb 2 (length adu))
  response_length (get_or adu 1 0) adu

-- The errors of this file. `timed_out` and `read_failed` are the two ways in which reading ends.
pub data FrameError : Type 0 where
  timed_out read_failed nil_reader : FrameError
  need_header : ℕ → ℕ → FrameError
  unsupported : ℕ → FrameError
  not_handled : ℕ → FrameError
  invalid_length : ℕ → FrameError

-- `CalculateRequestLength`.
unfoldable pub calculate_request_length : ℕ → Bytes → Outcome FrameError ℕ
calculate_request_length code header =
    if code == func_code_read_coils
      || code == func_code_read_discrete_inputs
      || code == func_code_read_holding_registers
      || code == func_code_read_input_registers
      || code == func_code_write_single_coil
      || code == func_code_write_single_register
    then ok 8
    else if code == func_code_write_multiple_coils || code == func_code_write_multiple_registers
    then (do
      fail_if (ltb (length header) 7) (need_header code (length header))
      let byte_count = get_or header 6 0
      ok (7 + byte_count + 2))
    else err (unsupported code)

-- The states of `ReadResponse`.
pub data State : Type 0 where
  state_slave_id state_function_code state_read_length state_read_payload state_crc : State

-- The variables of its loop: `buffer` holds `data[:n]`, the bytes stored so far.
pub record Reader : Type 0 where
  pub state : State
  pub buffer : Bytes
  pub to_read : ℕ
  pub crc_count : ℕ

-- `data[n] = b; n++`, in an array of `MaxSize` bytes.
unfoldable pub store : ℕ → Reader → Outcome FrameError Reader
store b r = do
  in_range (ltb (length r.buffer) max_size)
  ok (record r { buffer = r.buffer ++ (b ∷ []) })

-- What a byte leads to: another round, or a frame.
pub data Progress : Type 0 where
  more : Reader → Progress
  done : Bytes → Progress

-- The answers that begin with a count of bytes, and those of a fixed size.
unfoldable pub is_counted : ℕ → Bool
is_counted code =
    code == func_code_read_discrete_inputs
    || code == func_code_read_coils
    || code == func_code_read_holding_registers
    || code == func_code_read_input_registers
    || code == func_code_read_write_multiple_registers
    || code == func_code_read_fifo_queue

unfoldable pub is_echoed : ℕ → Bool
is_echoed code =
    code == func_code_write_single_coil
    || code == func_code_write_single_register
    || code == func_code_write_multiple_registers
    || code == func_code_write_multiple_coils

-- The inner switch of `case stateFunctionCode`.
unfoldable pub expect_payload : ℕ → Reader → Outcome FrameError Reader
unfolding is_counted is_echoed
expect_payload code r =
    if is_counted code
    then ok (record r { state = state_read_length })
    else if is_echoed code
    then ok (record r { state = state_read_payload; to_read = 4 })
    else if code == func_code_mask_write_register
    then ok (record r { state = state_read_payload; to_read = 6 })
    else err (not_handled code)

-- The switch of the loop, by the state.
unfoldable pub step_in : State → ℕ → ℕ → Reader → ℕ → Outcome FrameError Progress
unfolding expect_payload store
step_in state_slave_id slave_id code r b =
    if b == slave_id
    then (store b (record r { state = state_function_code }) >>= λ r'. ok (more r'))
    else ok (more r)
step_in state_function_code slave_id code r b =
    if b == code
    then (do expecting ← expect_payload code r; r' ← store b expecting; ok (more r'))
    else if b == (code + 0x80) % 256
    then (do
      r' ← store b (record r { state = state_read_payload })
      ok (more (record r' { to_read = 1 })))
    else ok (more r)
step_in state_read_length slave_id code r b = do
  fail_if (ltb (max_size - 5) b || b == 0) (invalid_length b)
  r' ← store b (record r { to_read = b })
  ok (more (record r' { state = state_read_payload }))
step_in state_read_payload slave_id code r b = do
  r' ← store b r
  let left = (r'.to_read + 255) % 256
  ok (
      more
        (record r' { to_read = left; state = if left == 0 then state_crc else state_read_payload }))
step_in state_crc slave_id code r b = do
  r' ← store b r
  let count = r'.crc_count + 1
  ok (if count == 2 then done r'.buffer else more (record r' { crc_count = count }))

abbrev pub step : ℕ → ℕ → Reader → ℕ → Outcome FrameError Progress
step slave_id code r b = step_in r.state slave_id code r b

-- What a reader has to give: the bytes that the loop gets to read, and what ends its reading when
-- they are used up: the deadline has passed, or the read fails.
pub record Stream : Type 0 where
  pub bytes : Bytes
  pub stop : FrameError

-- The result of the loop, with the bytes left unread.
abbrev pub Reading : Type 0
Reading = Outcome FrameError Bytes × Bytes

unfoldable pub read_loop : ℕ → ℕ → FrameError → Reader → Bytes → Reading
unfolding step_in
read_loop slave_id code stop r [] = (err stop, [])
read_loop slave_id code stop r (b ∷ bs) = elim (step slave_id code r b) [
  | ok progress ↦ elim progress [
    | more r' ↦ read_loop slave_id code stop r' bs
    | done frame ↦ (ok frame, bs)
  ]
  | err e ↦ (err e, bs)
  | panic ↦ (panic, bs)
]

-- The rest of the loop behind one step.
abbrev pub after : ℕ → ℕ → FrameError → Bytes → Outcome FrameError Progress → Reading
after slave_id code stop bs (ok (more r)) = read_loop slave_id code stop r bs
after slave_id code stop bs (ok (done f)) = (ok f, bs)
after slave_id code stop bs (err e) = (err e, bs)
after slave_id code stop bs panic = (panic, bs)

-- One round of the loop.
pub read_loop_round :
    (slave_id code : ℕ) (stop : FrameError) (r : Reader) (b : ℕ) (bs : Bytes)
    → read_loop slave_id code stop r (b ∷ bs) ≡ after slave_id code stop bs (step slave_id code r b)
unfolding read_loop
read_loop_round slave_id code stop r b bs = ground arith

abbrev pub start : Reader
start = record { state = state_slave_id; buffer = []; to_read = 0; crc_count = 0 }

-- `ReadResponse`; `none` is a nil reader.
unfoldable pub read_response : ℕ → ℕ → Option Stream → Reading
unfolding read_loop
read_response slave_id code none = (err nil_reader, [])
read_response slave_id code (some s) = read_loop slave_id code s.stop start s.bytes
