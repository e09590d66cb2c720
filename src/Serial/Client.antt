-- ===== src/Serial/Client.antt =====
-- transport/rtu/client.go: `Send` over a serial port, and what happens on the line during the call.
pub mod Answered
pub mod Idle
use modbus_gateway.Base.{
  ℕ, ◌+◌, ◌*◌, ◌/◌, [], ◌++◌, get_or, length, Bytes, Bool, true, false, ltb, ◌==◌, ◌||◌,
  if◌then◌else◌, Outcome, ok, err, panic, ◌>>=◌, Option, some, none,
}
use modbus_gateway.Pdu.{Pdu}
use modbus_gateway.Rtu.Adu.{ApplicationDataUnit, AduError, decode, encode, verify}
use modbus_gateway.Rtu.Framer.{
  FrameError, Stream, Reading, read_response, calculate_response_length,
}
use modbus_gateway.RtuOverTcp.Client.{request_adu}
use modbus_gateway.Serial.Port.{SerialPort, Access, ConnectError, connect, start_close_timer}

-- What happens during a call: the time of it, the access to the port, whether writing succeeds,
-- whether the context is done before the frame delay has passed, the bytes that arrive, and what
-- ends the reading of them.
pub record Line : Type 0 where
  pub now : ℕ
  pub access : Access
  pub writes : Bool
  pub done_waiting : Bool
  pub received : Bytes
  pub stop : FrameError

pub data ClientError : Type 0 where
  not_connected : ConnectError → ClientError
  write_failed done : ClientError
  read_failed : FrameError → ClientError
  encode_failed decode_failed verify_failed : AduError → ClientError

-- What a call comes to: its result, and the port after it.
pub record Sent (A : Type 0) : Type 0 where
  pub result : Outcome ClientError A
  pub after : SerialPort

-- `calculateDelay` in microseconds; a baud rate of 0 stands for one that is not positive.
unfoldable pub calculate_delay : ℕ → ℕ → ℕ
calculate_delay baud_rate chars =
    if baud_rate == 0 || ltb 19200 baud_rate
    then 750 * chars + 1750
    else 15000000 / baud_rate * chars + 35000000 / baud_rate

-- From what `ReadResponse` returned to the end of the transporter's `Send`: on an error the port
-- stays open, with what was not read.
abbrev pub finish : SerialPort → Reading → Sent Bytes
finish p (ok raw, rest) = record { result = ok raw; after = record p { port = some rest } }
finish p (err e, rest) = record {
  result = err (read_failed e);
  after = record p { port = some rest };
}
finish p (panic, rest) = record { result = panic; after = record p { port = some rest } }

-- From the call of `ReadResponse` on.
abbrev pub read_back : SerialPort → Line → Bytes → Bytes → Sent Bytes
read_back p line unread adu = finish p (
    read_response (get_or adu 0 0) (get_or adu 1 0)
      (some (record { bytes = unread ++ line.received; stop = line.stop })))

-- From the wait for the frame delay on.
abbrev pub after_delay : SerialPort → Line → Bytes → Bytes → Bool → Sent Bytes
after_delay p line unread adu true = record { result = err done; after = p }
after_delay p line unread adu false = read_back p line unread adu

-- From the length that the response is expected to have on.
abbrev pub after_write : SerialPort → Line → Bytes → Bytes → Outcome FrameError ℕ → Sent Bytes
after_write p line unread adu (ok expected) = after_delay p line unread adu line.done_waiting
after_write p line unread adu (err e) = after_delay p line unread adu line.done_waiting
after_write p line unread adu panic = record { result = panic; after = p }

-- From the port that `connect` leaves on.
abbrev pub on_port : SerialPort → Line → Bytes → Option Bytes → Sent Bytes
on_port p line adu none = record { result = panic; after = p }
on_port p line adu (some unread) =
    if line.writes
    then after_write p line unread adu (calculate_response_length adu)
    else record { result = err write_failed; after = p }

-- From what `connect` returned on.
abbrev pub connected : Line → Bytes → SerialPort × Option ConnectError → Sent Bytes
connected line adu (p, some e) = record { result = err (not_connected e); after = p }
connected line adu (p, none) =
    let active = start_close_timer (record p { last_activity = line.now }) line.now in
    on_port active line adu active.port

-- `rtuSerialTransporter.Send`.
unfoldable pub transport : SerialPort → Line → Bytes → Sent Bytes
unfolding connect start_close_timer
transport p line adu = connected line adu (connect p line.access)

abbrev pub or_error :
    {A : Type 0} → (AduError → ClientError) → Outcome AduError A → Outcome ClientError A
or_error f (ok a) = ok a
or_error f (err e) = err (f e)
or_error f panic = panic

-- From the response's bytes to the result.
unfoldable pub response : ApplicationDataUnit → Bytes → Outcome ClientError Pdu
response adu raw = do
  resp ← or_error decode_failed (decode raw)
  checked ← or_error verify_failed (verify adu resp)
  ok resp.pdu

-- `Send` behind the encoding of the request.
abbrev pub exchange : SerialPort → Line → ApplicationDataUnit → Outcome AduError Bytes → Sent Pdu
exchange p line adu (err e) = record { result = err (encode_failed e); after = p }
exchange p line adu panic = record { result = panic; after = p }
exchange p line adu (ok raw) =
    let sent = transport p line raw in
    record { result = sent.result >>= response adu; after = sent.after }

-- `Send`.
unfoldable pub send : SerialPort → Line → ℕ → Pdu → Sent Pdu
unfolding transport response
send p line id req = let adu = request_adu id req in exchange p line adu (encode adu)
