-- ===== src/Tcp/Server.antt =====
-- transport/tcp/server.go: the connection loop of the Modbus TCP server.
pub mod Replies
pub mod Accepting
use modbus_gateway.Base.{
  ℕ, ◌+◌, ◌%◌, bit_or, List, [], ◌∷◌, length, Bytes, Bool, ◌||◌, ltb, if◌then◌else◌, Outcome, ok,
  err, panic, Option, some, none,
}
use text.Mathlib.Text.{◌==◌ as str_eq}
use modbus_gateway.Pdu.{
  Pdu, exception_code_server_device_failure, exception_code_gateway_target_device_failed_to_respond,
}
use modbus_gateway.Transport.{GoError, RequestHandler}
use modbus_gateway.Tcp.Adu.{ApplicationDataUnit, AduError, decode, encode}

-- What one `conn.Read` comes to. For a chunk it is also said whether a response to it can be
-- written.
pub data Arrival : Type 0 where
  cancelled read_failed : Arrival
  chunk : Bytes → Bool → Arrival

-- How a connection stands after what has arrived: waiting for more, closed, or a panic.
pub data Ending : Type 0 where
  waiting closed crashed : Ending

-- What the server does with a chunk: nothing, close, write a response, or panic.
pub data Reaction : Type 0 where
  ignore close crash : Reaction
  reply : Bytes → Reaction

-- The exception code for an error of the handler.
unfoldable pub exception_code : GoError → ℕ
exception_code e =
    if e.is_deadline_exceeded || str_eq e.text "modbus: request timed out"
    then exception_code_gateway_target_device_failed_to_respond
    else exception_code_server_device_failure

-- The response PDU for what the handler returned.
unfoldable pub response_pdu : Pdu → Outcome GoError Pdu → Option Pdu
unfolding exception_code
response_pdu req (ok resp) = some resp
response_pdu req (err e) = some (record {
  function_code = bit_or req.function_code 0x80;
  payload = exception_code e % 256 ∷ [];
})
response_pdu req panic = none

-- `respAdu`, for a request and a response PDU.
unfoldable pub response_adu : ApplicationDataUnit → Pdu → ApplicationDataUnit
response_adu adu resp = record {
  transaction_id = adu.transaction_id;
  protocol_id = adu.protocol_id;
  size = (1 + 1 + length resp.payload) % 65536;
  slave_id = adu.slave_id;
  pdu = resp;
}

-- From the response PDU to what is written.
unfoldable pub respond : ApplicationDataUnit → Option Pdu → Reaction
unfolding response_adu
respond adu none = crash
respond adu (some resp) = elim (encode (response_adu adu resp)) [
  | ok raw ↦ reply raw
  | err e ↦ ignore
  | panic ↦ crash
]

-- What a connection comes to: the responses written, the state and how it stands.
pub record Served (S : Type 0) : Type 0 where
  pub sent : List Bytes
  pub state : S
  pub ending : Ending

module _ {S : Type 0} where
  -- The handling of what was decoded; `none` is a nil handler.
  unfoldable pub dispatch :
      Option (RequestHandler S) → S → Outcome AduError ApplicationDataUnit → Reaction × S
  unfolding respond response_pdu
  dispatch handler s (err e) = (ignore, s)
  dispatch handler s panic = (crash, s)
  dispatch none s (ok adu) = (close, s)
  dispatch (some h) s (ok adu) =
      let (result, s') = h s adu.slave_id adu.pdu in (respond adu (response_pdu adu.pdu result), s')

  -- One round of the loop on a chunk.
  unfoldable pub react : Option (RequestHandler S) → S → Bytes → Reaction × S
  unfolding dispatch
  react handler s buf = if ltb 260 (length buf) then (close, s) else dispatch handler s (decode buf)

  -- `handleConnection`, over what arrives.
  unfoldable pub handle_connection : Option (RequestHandler S) → S → List Arrival → Served S
  handle_connection handler s [] = record { sent = []; state = s; ending = waiting }
  handle_connection handler s (cancelled ∷ rest) = record { sent = []; state = s; ending = closed }
  handle_connection handler s (read_failed ∷ rest) = record {
    sent = [];
    state = s;
    ending = closed;
  }
  handle_connection handler s (chunk buf writable ∷ rest) =
      let (reaction, s') = react handler s buf in
      let later = handle_connection handler s' rest in
      elim reaction [
        | ignore ↦ later
        | close ↦ record { sent = []; state = s'; ending = closed }
        | crash ↦ record { sent = []; state = s'; ending = crashed }
        | reply raw ↦
            if writable
            then record later { sent = raw ∷ later.sent }
            else record { sent = []; state = s'; ending = closed }
      ]
