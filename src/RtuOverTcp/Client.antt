-- ===== src/RtuOverTcp/Client.antt =====
-- transport/rtu-over-tcp/client.go: `Send`, over what the network does during the call.
pub mod Answered
use modbus_gateway.Base.{
  ℕ, [], ◌++◌, Bytes, Bool, true, false, if◌then◌else◌, Outcome, ok, err, panic, ◌>>=◌, Option,
  some, none,
}
use modbus_gateway.Pdu.{Pdu}
use modbus_gateway.Crc.{Crc}
use modbus_gateway.Rtu.Adu.{ApplicationDataUnit, AduError, decode, encode, verify}
use modbus_gateway.Rtu.Framer.{FrameError, Stream, Reading, read_response}

-- What the network does during a call: whether dialling, setting the deadline and writing succeed,
-- the bytes that arrive, and what ends the reading of them.
pub record Network : Type 0 where
  pub connects : Bool
  pub deadline_set : Bool
  pub writes : Bool
  pub received : Bytes
  pub stop : FrameError

pub data ClientError : Type 0 where
  connect_failed io_failed : ClientError
  read_failed : FrameError → ClientError
  encode_failed decode_failed verify_failed : AduError → ClientError

-- What a call comes to: its result, and for an open connection the bytes that have arrived on it
-- and are not read. The latter is all of the client's state.
pub record Sent : Type 0 where
  pub result : Outcome ClientError Pdu
  pub unread : Option Bytes

-- `connect`: what is unread on the connection there is, or a new one.
abbrev pub connect : Option Bytes → Bool → Option Bytes
connect (some unread) connects = some unread
connect none true = some []
connect none false = none

-- The ADU of a request, with the zero value of its checksum.
abbrev pub request_adu : ℕ → Pdu → ApplicationDataUnit
request_adu id req = record { slave_id = id; pdu = req; crc = record { high = 0; low = 0 } }

abbrev pub or_error :
    {A : Type 0} → (AduError → ClientError) → Outcome AduError A → Outcome ClientError A
or_error f (ok a) = ok a
or_error f (err e) = err (f e)
or_error f panic = panic

-- From the response's bytes to the result.
unfoldable pub response : ApplicationDataUnit → Bytes → Outcome ClientError Pdu
response adu raw = do
  resp ← or_error decode_failed (decode raw)
  checked ← or_error verify_failed (verify adu resp)
  ok resp.pdu

-- From what `ReadResponse` returned to the end.
unfoldable pub finish : ApplicationDataUnit → Reading → Sent
unfolding response
finish adu (ok raw, rest) = record { result = response adu raw; unread = some rest }
finish adu (err e, rest) = record { result = err (read_failed e); unread = none }
finish adu (panic, rest) = record { result = panic; unread = none }

-- From the encoded request to the end, on a connection.
unfoldable pub exchange : Network → ApplicationDataUnit → Bytes → Outcome AduError Bytes → Sent
unfolding finish
exchange net adu unread (err e) = record { result = err (encode_failed e); unread = some unread }
exchange net adu unread panic = record { result = panic; unread = some unread }
exchange net adu unread (ok raw) =
    if net.deadline_set
    then (if net.writes
        then finish adu (
            read_response adu.slave_id adu.pdu.function_code
              (some (record { bytes = unread ++ net.received; stop = net.stop })))
        else record { result = err io_failed; unread = none })
    else record { result = err io_failed; unread = none }

-- `Send` behind `connect`.
abbrev pub on_connection : Network → ℕ → Pdu → Option Bytes → Sent
on_connection net id req none = record { result = err connect_failed; unread = none }
on_connection net id req (some unread) =
    let adu = request_adu id req in exchange net adu unread (encode adu)

-- `Send`.
unfoldable pub send : Option Bytes → Network → ℕ → Pdu → Sent
send conn net id req = on_connection net id req (connect conn net.connects)

-- `Connect`, by whether dialling succeeds.
unfoldable pub connect_client : Option Bytes → Bool → Option ClientError × Option Bytes
connect_client conn connects = elim (connect conn connects) [
  | some unread ↦ (none, some unread)
  | none ↦ (some connect_failed, none)
]

-- `Close`.
abbrev pub close_client : Option Bytes → Option Bytes
close_client conn = none

-- `NewClient`, which has no connection.
abbrev pub new_client : Option Bytes
new_client = none
