-- ===== src/RtuOverTcp/Server.antt =====
-- transport/rtu-over-tcp/server.go: the connection loop of the RTU over TCP server.
pub mod Rounds
pub mod Serves
pub mod Overflow
use modbus_gateway.Base.{
  ℕ, zero, suc, ◌+◌, ◌-◌, ◌%◌, bit_or, List, [], ◌∷◌, ◌++◌, get_or, length, Bytes, Bool, true,
  false, leb, if◌then◌else◌, Outcome, ok, err, panic, Option, some, none,
}
use modbus_gateway.Pdu.{
  Pdu, exception_code_server_device_failure, exception_code_gateway_target_device_failed_to_respond,
}
use modbus_gateway.Crc.{Crc}
use modbus_gateway.Transport.{GoError, RequestHandler}
use modbus_gateway.Rtu.Adu.{ApplicationDataUnit, AduError, max_size, decode, encode}
use modbus_gateway.Rtu.Framer.{FrameError, calculate_request_length}
use modbus_gateway.Rtu.Round.{Round, pending, stopped, crashed, again, request}
use modbus_gateway.Reads.{
  Incoming, First, idle, failed, nothing, one, read_first, Filled, blocked, faulted, full, fill,
}

-- Steps 5 and 6 up to the call of the handler, on the frame.
unfoldable pub decoded : List Incoming → Outcome AduError ApplicationDataUnit → Round
decoded rest (ok adu) = request adu rest
decoded rest (err e) = again rest
decoded rest panic = crashed

-- Step 4, the reading of the remaining body, and what follows it.
unfoldable pub with_body : Bytes → Filled → Round
unfolding decoded
with_body header blocked = pending
with_body header (faulted bs rest) = stopped
with_body header (full bs rest) = decoded rest (decode (header ++ bs))

-- From the expected length on. `buf[current:expectedLen]` panics beyond the 256 bytes of `buf`.
unfoldable pub with_length : Bytes → List Incoming → Outcome FrameError ℕ → Round
unfolding with_body
with_length header rest (ok expected_len) =
    if leb expected_len max_size
    then with_body header (fill (expected_len - length header) rest)
    else crashed
with_length header rest (err e) = stopped
with_length header rest panic = crashed

-- Steps 2 and 3: the header, and the expected length.
unfoldable pub with_header : ℕ → Filled → Round
unfolding with_length
with_header b blocked = pending
with_header b (faulted bs rest) = stopped
with_header b (full bs rest) =
    with_length (b ∷ bs) rest (calculate_request_length (get_or (b ∷ bs) 1 0) (b ∷ bs))

-- Step 1, the first byte, and what follows it.
unfoldable pub with_first : First → Round
unfolding with_header
with_first idle = pending
with_first (failed rest) = stopped
with_first (nothing rest) = again rest
with_first (one b rest) = with_header b (fill 6 rest)

-- One round of the loop up to the call of the handler.
unfoldable pub round : List Incoming → Round
unfolding with_first
round incoming = with_first (read_first incoming)

-- The exception code for an error of the handler.
unfoldable pub exception_code : GoError → ℕ
exception_code e =
    if e.is_deadline_exceeded
    then exception_code_gateway_target_device_failed_to_respond
    else exception_code_server_device_failure

-- `respPdu`, for what the handler returned.
unfoldable pub response_pdu : Pdu → Outcome GoError Pdu → Option Pdu
unfolding exception_code
response_pdu req (ok resp) = some resp
response_pdu req (err e) = some (record {
  function_code = bit_or req.function_code 0x80;
  payload = exception_code e % 256 ∷ [];
})
response_pdu req panic = none

-- `respAdu`, with the zero value of its checksum.
abbrev pub response_adu : ℕ → Pdu → ApplicationDataUnit
response_adu id resp = record { slave_id = id; pdu = resp; crc = record { high = 0; low = 0 } }

-- How a connection stands: waiting for more, closed, or the process has panicked.
pub data Ending : Type 0 where
  open_still closed panicked : Ending

-- What a connection comes to.
pub record Served (S : Type 0) : Type 0 where
  pub sent : List Bytes
  pub state : S
  pub ending : Ending

module _ {S : Type 0} where
  abbrev pub ended : S → Ending → Served S
  ended s e = record { sent = []; state = s; ending = e }

  -- Step 7: `later` is the rest of the loop.
  unfoldable pub send_response : Bool → S → Outcome AduError Bytes → Served S → Served S
  send_response writes s (ok raw) later =
      if writes then record later { sent = raw ∷ later.sent } else ended s closed
  send_response writes s (err e) later = later
  send_response writes s panic later = ended s panicked

  -- `handleConnection`, over what arrives: the rounds until the context is done, and whether each
  -- `Write` succeeds, by the rounds that are left.
  unfoldable pub handle_connection :
      RequestHandler S → (ℕ → Bool) → ℕ → S → List Incoming → Served S
  unfolding round response_pdu send_response
  handle_connection h writes zero s incoming = ended s closed
  handle_connection h writes (suc rounds) s incoming = elim (round incoming) [
    | pending ↦ ended s open_still
    | stopped ↦ ended s closed
    | crashed ↦ ended s panicked
    | again rest ↦ handle_connection h writes rounds s rest
    | request adu rest ↦
        let (result, s') = h s adu.slave_id adu.pdu in
        let later = handle_connection h writes rounds s' rest in
        elim (response_pdu adu.pdu result) [
          | none ↦ ended s' panicked
          | some resp ↦
              send_response (writes rounds) s' (encode (response_adu adu.slave_id resp)) later
        ]
  ]
