-- ===== src/Rtu/Framer/Lengths.antt =====
-- modbus/rtu/framer.go: the lengths computed from a header or a request against those of the
-- frames.
use modbus_gateway.Base.{
  get_or-append_left, length-take, get_or-take, ℕ, ◌+◌, ◌*◌, ◌/◌, ◌≤◌, ◌<◌, ◌≡◌, ◌⊎◌, ◌↔◌, inl, inr,
  ◌∙◌, [], ◌∷◌, ◌++◌, length, get_or, Bytes, IsByte, arith, ◌||◌, ◌==◌, if◌then◌else◌, ok, panic,
  take,
}
use modbus_gateway.Base.Word.{uint16}
use modbus_gateway.Base.Bits.{or-word}
use modbus_gateway.Pdu.{
  Pdu, func_code_read_coils, func_code_read_discrete_inputs, func_code_read_holding_registers,
  func_code_read_input_registers, func_code_write_multiple_coils,
  func_code_write_multiple_registers, func_code_read_write_multiple_registers,
}
use modbus_gateway.Rtu.Adu.{ApplicationDataUnit}
use modbus_gateway.Crc.{checksum}
use modbus_gateway.Rtu.Adu.RoundTrip.{body, frame, length-frame}
use modbus_gateway.Rtu.Framer.{
  FrameError, calculate_request_length, response_length, calculate_response_length,
}

-- The requests of a fixed size, and those that carry a count of bytes in their seventh byte.
abbrev pub IsFixed : ℕ → Type 0
IsFixed code = (1 ≤ code) × (code ≤ 6)

abbrev pub IsMultiple : ℕ → Type 0
IsMultiple code =
    (code ≡ func_code_write_multiple_coils) ⊎ (code ≡ func_code_write_multiple_registers)

-- The size that a request's data must have, by its own bytes: four for a fixed request, and for a
-- multiple write the five before the data and as many as the fifth says.
abbrev pub IsRequest : Pdu → Type 0
IsRequest p =
    (IsFixed p.function_code × (length p.payload ≡ 4))
    ⊎ (IsMultiple p.function_code
        × (5 ≤ length p.payload)
        × (length p.payload ≡ 5 + get_or p.payload 4 0))

header_byte :
    (a : ApplicationDataUnit)
    → 5 ≤ length a.pdu.payload
    → get_or (take 7 (frame a)) 6 0 ≡ get_or a.pdu.payload 4 0
unfolding frame
header_byte a h = get_or-take 7 6 (frame a) (omega arith) ∙ get_or-append_left a.pdu.payload _ 4 h

-- From the first seven bytes of the frame of a well-formed request, `CalculateRequestLength`
-- computes the length of the whole frame.
pub calculate_request_length-frame :
    (a : ApplicationDataUnit)
    → IsRequest a.pdu
    → calculate_request_length a.pdu.function_code (take 7 (frame a)) ≡ ok (length (frame a))
unfolding calculate_request_length
calculate_request_length-frame a (inl h) = ground (arith, length-frame a)
calculate_request_length-frame a (inr h) =
    ground (arith, length-frame a, header_byte a, length-take 7 (frame a))

-- A length that `CalculateRequestLength` computes is 8 bytes at least, and exceeds the buffer of 256 bytes exactly
-- for a multiple write that announces more than 247 bytes.
pub calculate_request_length_bounds :
    (code n : ℕ) (header : Bytes)
    → calculate_request_length code header ≡ ok n
    → (8 ≤ n) × ((256 < n) ↔ (IsMultiple code × (247 < get_or header 6 0)))
unfolding calculate_request_length
calculate_request_length_bounds code n header e = ground arith

-- The requests whose answer's length is computed from their count.
abbrev pub IsCounted : ℕ → Type 0
IsCounted code = ((1 ≤ code) × (code ≤ 4)) ⊎ (code ≡ func_code_read_write_multiple_registers)

response_length-panic :
    (code s c lo hi : ℕ) (d : Bytes)
    → (response_length {E = FrameError} code (s ∷ c ∷ (d ++ (lo ∷ hi ∷ []))) ≡ panic)
      ↔ (IsCounted code × (length d < 2))
unfolding response_length
response_length-panic code s c lo hi [] = ground arith
response_length-panic code s c lo hi (x ∷ []) = ground arith
response_length-panic code s c lo hi (x ∷ y ∷ []) = ground arith
response_length-panic code s c lo hi (x ∷ y ∷ z ∷ []) = ground arith
response_length-panic code s c lo hi (x ∷ y ∷ z ∷ w ∷ d) = ground arith

-- On the frame of a request `CalculateResponseLength` panics exactly if the request is one with a
-- count and its data has fewer than two bytes.
pub calculate_response_length-panic :
    (a : ApplicationDataUnit)
    → (calculate_response_length {E = FrameError} (frame a) ≡ panic)
      ↔ (IsCounted a.pdu.function_code × (length a.pdu.payload < 2))
unfolding calculate_response_length frame
calculate_response_length-panic a = ground (
  arith,
  response_length-panic a.pdu.function_code a.slave_id a.pdu.function_code (checksum (body a)).low
      (checksum (body a)).high a.pdu.payload,
)

-- On a read request `CalculateResponseLength` computes the length of the answer to it: five bytes,
-- for the slave, the code, the count of bytes and the checksum, and the bytes that hold as many bits
-- or registers as asked.
pub calculate_response_length-answer :
    (s c a1 a0 q1 q0 : ℕ) (rest : Bytes)
    → IsByte q1
    → IsByte q0
    → (c ≡ func_code_read_coils)
      ⊎ (c ≡ func_code_read_discrete_inputs)
      ⊎ (c ≡ func_code_read_holding_registers)
      ⊎ (c ≡ func_code_read_input_registers)
    → calculate_response_length {E = FrameError} (s ∷ c ∷ a1 ∷ a0 ∷ q1 ∷ q0 ∷ rest)
      ≡ ok (
          if c == func_code_read_coils || c == func_code_read_discrete_inputs
          then 5 + (q1 * 256 + q0 + 7) / 8
          else 5 + 2 * (q1 * 256 + q0))
unfolding calculate_response_length uint16
calculate_response_length-answer s c a1 a0 q1 q0 rest h1 h0 h = ground (arith, or-word q1 q0)
