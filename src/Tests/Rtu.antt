-- ===== src/Tests/Rtu.antt =====
-- modbus/crc and modbus/rtu on concrete frames.
use modbus_gateway.Base.{
  inl, inr, ℕ, get_or, ◌↔◌, ◌<◌, ◌≤◌, ◌≡◌, ◌≢◌, refl, [], ◌∷◌, ◌++◌, length, Bytes, All, IsByte,
  arith, ok, some,
}
use modbus_gateway.Crc.{reset, push_byte, push_bytes, value, checksum}
use modbus_gateway.Crc.Reference.{crc16, value-crc16}
use modbus_gateway.Rtu.Adu.{ApplicationDataUnit, decode, encode}
use modbus_gateway.Rtu.Adu.RoundTrip.{IsAdu, body, decode-encode}
use modbus_gateway.Rtu.Adu.Accepts.{encode-decode, decode_one_byte}
use modbus_gateway.Rtu.Framer.Lengths.{IsMultiple, calculate_request_length_bounds}
use modbus_gateway.Rtu.Framer.{timed_out, read_response, calculate_request_length}
use modbus_gateway.Rtu.Framer.Taken.{Found, read_response-Found}
use modbus_gateway.Rtu.Framer.Bounds.{Bounded, read_response-Bounded}
use modbus_gateway.Rtu.Framer.Finds.{counted, read_response-answer}

-- The request to read a register of slave 1, and its frame.
abbrev request : ApplicationDataUnit
request = record {
  slave_id = 1;
  pdu = record { function_code = 3; payload = 0 ∷ 0 ∷ 0 ∷ 1 ∷ [] };
  crc = record { high = 0x0a; low = 0x84 };
}

abbrev raw : Bytes
raw = 1 ∷ 3 ∷ 0 ∷ 0 ∷ 0 ∷ 1 ∷ 0x84 ∷ 0x0a ∷ []

decoded : decode raw ≡ ok request
unfolding decode value push_bytes push_byte reset
decoded = refl

encoded : encode request ≡ ok raw
unfolding encode value push_bytes push_byte reset
encoded = refl

bytes_raw : All IsByte raw
bytes_raw = (
  omega arith,
  (
    omega arith,
    (omega arith, (omega arith, (omega arith, (omega arith, (omega arith, (omega arith, tt)))))),
  ),
)

request-IsAdu : IsAdu request
request-IsAdu = record {
  slave_byte = omega arith;
  pdu_bytes = record {
    code_byte = omega arith;
    payload_bytes = (omega arith, (omega arith, (omega arith, (omega arith, tt))));
  };
}

value-crc16_example :
    value (push_bytes (reset (record { high = 0; low = 0 })) raw) ≡ crc16 0xffff raw
value-crc16_example = value-crc16 (record { high = 0; low = 0 }) raw bytes_raw

decode-encode_example :
    (out : Bytes) × (encode request ≡ ok out)
    × (length out ≡ 8)
    × (decode out ≡ ok (record request { crc = checksum (body request) }))
decode-encode_example = decode-encode request request-IsAdu (omega arith)

encode-decode_example : encode request ≡ ok raw
encode-decode_example = encode-decode raw request bytes_raw (omega arith) decoded

decode_one_byte_example : decode ((1 ∷ 3 ∷ []) ++ (8 ∷ 0 ∷ 0 ∷ 1 ∷ 0x84 ∷ 0x0a ∷ [])) ≢ ok request
decode_one_byte_example =
    decode_one_byte (1 ∷ 3 ∷ []) (0 ∷ 0 ∷ 1 ∷ 0x84 ∷ 0x0a ∷ []) 0 8 request request
      (omega arith, (omega arith, tt))
      (omega arith, (omega arith, (omega arith, (omega arith, (omega arith, tt))))) (omega arith)
      (omega arith) (omega arith) decoded

read_response-answer_example :
    read_response 1 3 (
      some (record {
        bytes = (9 ∷ []) ++ (1 ∷ 3 ∷ ((2 ∷ 0 ∷ 7 ∷ []) ++ (0xf8 ∷ 0x46 ∷ 5 ∷ [])));
        stop = timed_out;
      }))
    ≡ (ok (1 ∷ 3 ∷ 2 ∷ 0 ∷ 7 ∷ 0xf8 ∷ 0x46 ∷ []), 5 ∷ [])
read_response-answer_example =
    read_response-answer 1 3 3 0xf8 0x46 (9 ∷ []) (2 ∷ 0 ∷ 7 ∷ []) (5 ∷ []) timed_out (omega arith)
      ((λ e. omega arith), tt)
      (counted 2 (0 ∷ 7 ∷ []) (inr (inr (inl refl))) refl refl refl (omega arith) (omega arith))

read_response-Bounded_example :
    Bounded 1 3 (read_response 1 3 (some (record { bytes = raw; stop = timed_out }))).0
read_response-Bounded_example =
    read_response-Bounded 1 3 (record { bytes = raw; stop = timed_out }) bytes_raw

read_response-Found_example :
    Found 1 (7 ∷ raw) (read_response 1 3 (some (record { bytes = 7 ∷ raw; stop = timed_out }))).0
read_response-Found_example = read_response-Found 1 3 (record { bytes = 7 ∷ raw; stop = timed_out })

calculate_request_length_long :
    calculate_request_length 16 (1 ∷ 16 ∷ 0 ∷ 0 ∷ 0 ∷ 124 ∷ 248 ∷ []) ≡ ok 257
unfolding calculate_request_length
calculate_request_length_long = refl

calculate_request_length_bounds_example :
    (8 ≤ 257)
    × ((256 < 257)
        ↔ (IsMultiple 16 × (247 < get_or {A = ℕ} (1 ∷ 16 ∷ 0 ∷ 0 ∷ 0 ∷ 124 ∷ 248 ∷ []) 6 0)))
calculate_request_length_bounds_example =
    calculate_request_length_bounds 16 257 (1 ∷ 16 ∷ 0 ∷ 0 ∷ 0 ∷ 124 ∷ 248 ∷ [])
      calculate_request_length_long
