-- ===== src/RtuOverTcp/Client/Answered.antt =====
-- transport/rtu-over-tcp/client.go: what `Send` returns of what arrives on its connection.
use modbus_gateway.Base.{
  ap₂, if◌then◌else◌, append_assoc, ℕ, ◌+◌, ◌%◌, ◌≤◌, ◌≡◌, ◌≢◌, ◌⊎◌, refl, sym, ap, ◌∙◌, [], ◌∷◌,
  ◌++◌, length, get_or, Bytes, Bool, true, false, IsByte, All, All-append, arith, Outcome, ok, err,
  panic, Option, some, none, >>=-eq-ok,
}
use modbus_gateway.Pdu.{Pdu, IsPdu, Fits}
use modbus_gateway.Crc.{checksum}
use modbus_gateway.Rtu.Adu.{ApplicationDataUnit, AduError, decode, encode, verify}
use modbus_gateway.Rtu.Adu.RoundTrip.{IsAdu, frame, body, encode-frame, decode-encode}
use modbus_gateway.Rtu.Adu.Accepts.{decode-eq-ok}
use modbus_gateway.Rtu.Framer.{Stream, FrameError, Reading, read_response}
use modbus_gateway.Rtu.Framer.Finds.{Answers, read_response-answer}
use modbus_gateway.Rtu.Framer.Bounds.{Bounded, read_response-Bounded}
use modbus_gateway.Rtu.Framer.Taken.{Taken, Taken-IsByte, Found, read_response-Found}
use modbus_gateway.RtuOverTcp.Client.{
  io_failed, on_connection, verify_failed, decode_failed, Network, Sent, ClientError, connect,
  request_adu, or_error, response, finish, exchange, send,
}

-- A network on which nothing fails, and these bytes arrive.
abbrev pub delivering : Bytes → FrameError → Network
delivering bytes stop = record {
  connects = true;
  deadline_set = true;
  writes = true;
  received = bytes;
  stop = stop;
}

response-frame :
    (req : Pdu) (a : ApplicationDataUnit)
    → IsAdu a
    → Fits a.pdu
    → response (request_adu a.slave_id req) (frame a) ≡ ok a.pdu
unfolding response verify
response-frame req a h f =
    let (raw, en, size, d) = decode-encode a h f in
    let same : raw ≡ frame a = cc (en, encode-frame a h f) in
    let d' : decode (frame a) ≡ ok (record a { crc = checksum (body a) }) =
      ap decode (sym same) ∙ d in
    rw d' (ground arith)

read_response-frame :
    (req : Pdu) (noise rest : Bytes) (a : ApplicationDataUnit) (stop : FrameError)
    → IsByte req.function_code
    → All (λ b. b ≢ a.slave_id) noise
    → Answers req.function_code a.pdu.function_code a.pdu.payload
    → read_response a.slave_id req.function_code
        (some (record { bytes = noise ++ (frame a ++ rest); stop = stop }))
      ≡ (ok (frame a), rest)
unfolding frame
read_response-frame req noise rest a stop hc n ans =
    let k = checksum (body a) in
    rw (append_assoc a.pdu.payload (k.low ∷ k.high ∷ []) rest) (
      read_response-answer a.slave_id req.function_code a.pdu.function_code k.low k.high noise
        a.pdu.payload rest stop hc n ans)

-- A client with an open connection sends a request that fits, on a network on which nothing fails. If
-- what arrives, behind the bytes still unread, is the frame of an answer of the slave asked, after
-- any bytes other than the slave's, the answer's PDU is returned, and what follows the frame stays
-- unread. The answers are those of the Modbus specification to a read of coils, inputs or registers,
-- to a write, a mask write, or a read and write of registers, and the exception to any code.
pub send-Answers :
    (req : Pdu) (unread received noise rest : Bytes) (a : ApplicationDataUnit) (stop : FrameError)
    → IsPdu req
    → Fits req
    → IsAdu a
    → Fits a.pdu
    → All (λ b. b ≢ a.slave_id) noise
    → Answers req.function_code a.pdu.function_code a.pdu.payload
    → unread ++ received ≡ noise ++ (frame a ++ rest)
    → send (some unread) (delivering received stop) a.slave_id req
      ≡ record { result = ok a.pdu; unread = some rest }
unfolding send exchange finish
send-Answers req unread received noise rest a stop hp f ha fa n ans s =
    let adu = request_adu a.slave_id req in
    let en : encode adu ≡ ok (frame adu) =
      encode-frame adu (record { slave_byte = ha.slave_byte; pdu_bytes = hp }) f in
    rw en (
      rw s (
        rw (read_response-frame req noise rest a stop hp.code_byte n ans)
          (rw (response-frame req a ha fa) refl)))

-- The unread bytes of a connection are bytes.
abbrev pub UnreadBytes : Option Bytes → Type 0
UnreadBytes none = Unit
UnreadBytes (some unread) = All IsByte unread

-- The bytes that a call has to read: those still unread, and behind them what arrives.
abbrev pub arriving : Option Bytes → Network → Bytes
arriving none net = net.received
arriving (some unread) net = unread ++ net.received

-- What a call may return of the stream: a PDU whose frame from the slave asked, checksum included,
-- stands in the stream, and which has the code asked, plain or with 0x80 added.
pub record FromSlave (id code : ℕ) (stream : Bytes) (resp : Pdu) : Type 0 where
  pub raw : Bytes
  pub taken : Taken id stream raw
  pub framed : raw ≡ frame (request_adu id resp)
  pub size : length raw ≤ 256
  pub answers : (resp.function_code ≡ code) ⊎ (resp.function_code ≡ (code + 128) % 256)

decode-code :
    (raw : Bytes) (a : ApplicationDataUnit)
    → decode raw ≡ ok a
    → a.pdu.function_code ≡ get_or raw 1 0
unfolding decode
decode-code raw a h = ground arith

verify-slave :
    (req a : ApplicationDataUnit) (t : Unit {0}) → verify req a ≡ ok t → a.slave_id ≡ req.slave_id
unfolding verify
verify-slave req a t h = ground arith

or_error-eq-ok :
    {A : Type 0} (f : AduError → ClientError) (o : Outcome AduError A) (x : A)
    → or_error f o ≡ ok x
    → o ≡ ok x
or_error-eq-ok f (ok a) x h = cc
or_error-eq-ok f (err e) x h = cc
or_error-eq-ok f panic x h = cc

response-FromSlave :
    (id : ℕ) (req resp : Pdu) (raw stream : Bytes)
    → Bounded id req.function_code (ok raw)
    → Taken id stream raw
    → All IsByte raw
    → response (request_adu id req) raw ≡ ok resp
    → FromSlave id req.function_code stream resp
unfolding response frame
response-FromSlave id req resp raw stream b found bytes h =
    let (r, d, k) = >>=-eq-ok (or_error decode_failed (decode raw)) _ h in
    let (t, v, e) = >>=-eq-ok (or_error verify_failed (verify (request_adu id req) r)) _ k in
    let d' = or_error-eq-ok decode_failed (decode raw) r d in
    let (_, size, (_, answers)) = b in
    let same : r.pdu ≡ resp = cc in
    let from : r.slave_id ≡ id =
      verify-slave (request_adu id req) r t (or_error-eq-ok verify_failed _ t v) in
    let code : resp.function_code ≡ get_or raw 1 0 =
      ap (λ (p : Pdu). p.function_code) (sym same) ∙ decode-code raw r d' in
    record {
      raw = raw;
      taken = found;
      framed = (decode-eq-ok raw r bytes d').0 ∙ ap₂ (λ n p. frame (request_adu n p)) from same;
      size = size;
      answers = rw code answers;
    }

finish-FromSlave :
    (id : ℕ) (req resp : Pdu) (reading : Reading) (stream : Bytes)
    → Bounded id req.function_code reading.0
    → Found id stream reading.0
    → All IsByte stream
    → (finish (request_adu id req) reading).result ≡ ok resp
    → FromSlave id req.function_code stream resp
unfolding finish
finish-FromSlave id req resp (ok raw, rest) stream b found bytes h =
    response-FromSlave id req resp raw stream b found (Taken-IsByte id stream raw found bytes) h
finish-FromSlave id req resp (err e, rest) stream b found bytes h = cc
finish-FromSlave id req resp (panic, rest) stream b found bytes h = cc

exchange-FromSlave :
    (net : Network) (id : ℕ) (req resp : Pdu) (unread : Bytes) (o : Outcome AduError Bytes)
    → All IsByte unread
    → All IsByte net.received
    → (exchange net (request_adu id req) unread o).result ≡ ok resp
    → FromSlave id req.function_code (unread ++ net.received) resp
unfolding exchange
exchange-FromSlave net id req resp unread (err e) bu br h = cc
exchange-FromSlave net id req resp unread panic bu br h = cc
exchange-FromSlave net id req resp unread (ok raw) bu br h =
    let s : Stream = record { bytes = unread ++ net.received; stop = net.stop } in
    let bytes = All-append IsByte unread net.received bu br in
    let found =
      finish-FromSlave id req resp (read_response id req.function_code (some s)) s.bytes
        (read_response-Bounded id req.function_code s bytes)
        (read_response-Found id req.function_code s) bytes in
    go net.deadline_set net.writes
      (finish (request_adu id req) (read_response id req.function_code (some s))) found h
  where
    go :
        (d w : Bool) (sent : Sent)
        → (sent.result ≡ ok resp → FromSlave id req.function_code (unread ++ net.received) resp)
        → (if d
            then (if w then sent else record { result = err io_failed; unread = none })
            else record { result = err io_failed; unread = none }).result
          ≡ ok resp
        → FromSlave id req.function_code (unread ++ net.received) resp
    go true true sent f h = f h
    go true false sent f h = cc
    go false w sent f h = cc

-- Whatever the network does and delivers, the frame of a PDU that the call returns, from the slave
-- asked and with its checksum, stands in what was unread and what arrived: the slave's byte, and,
-- after bytes that may be skipped, all the others one behind the other. The frame has at most 256
-- bytes, and the PDU has the function code asked, plain or with 0x80 added.
pub send-FromSlave :
    (conn : Option Bytes) (net : Network) (id : ℕ) (req resp : Pdu)
    → UnreadBytes conn
    → All IsByte net.received
    → (send conn net id req).result ≡ ok resp
    → FromSlave id req.function_code (arriving conn net) resp
unfolding send
send-FromSlave (some unread) net id req resp bu br h =
    exchange-FromSlave net id req resp unread (encode (request_adu id req)) bu br h
send-FromSlave none net id req resp bu br h = go net.connects h
  where
    go :
        (c : Bool)
        → (on_connection net id req (connect none c)).result ≡ ok resp
        → FromSlave id req.function_code net.received resp
    go true h = exchange-FromSlave net id req resp [] (encode (request_adu id req)) tt br h
    go false h = cc
