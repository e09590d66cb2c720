-- ===== src/Tcp/Client.antt =====
-- transport/tcp/client.go: `Send`, over what the network does during the call.
pub mod Exchange
pub mod Transactions
use modbus_gateway.Base.{
  ℕ, ◌+◌, ◌*◌, ◌^◌, ◌%◌, bit_or, [], ◌++◌, length, get_or, take, drop, Bytes, Bool, true, false,
  ltb, if◌then◌else◌, Outcome, ok, err, panic, ◌>>=◌, Option, some, none,
}
use modbus_gateway.Pdu.{Pdu}
use modbus_gateway.Tcp.Adu.{ApplicationDataUnit, AduError, decode, encode, verify}

-- `Client`: the counter of transactions, and for an open connection the bytes that have arrived on
-- it and are not read.
pub record Client : Type 0 where
  pub transaction_id : ℕ
  pub unread : Option Bytes

-- What the network does during a call: whether dialling, setting the deadline and writing succeed,
-- and the bytes that arrive before the deadline.
pub record Network : Type 0 where
  pub connects : Bool
  pub deadline_set : Bool
  pub writes : Bool
  pub received : Bytes

pub data ClientError : Type 0 where
  connect_failed io_failed : ClientError
  encode_failed decode_failed verify_failed : AduError → ClientError

-- What a call comes to: its result, the client after it, and the request if it was written.
pub record Sent : Type 0 where
  pub result : Outcome ClientError Pdu
  pub client : Client
  pub written : Option Bytes

-- `connect`: what is unread on the connection there is, or a new one.
abbrev pub connect : Option Bytes → Bool → Option Bytes
connect (some unread) connects = some unread
connect none true = some []
connect none false = none

-- The ADU of a request.
unfoldable pub request_adu : ℕ → ℕ → Pdu → ApplicationDataUnit
request_adu tid id req = record {
  transaction_id = tid % 65536;
  protocol_id = 0;
  size = (1 + length req.payload) % 65536;
  slave_id = id;
  pdu = req;
}

-- The reading in `sendAndRead`: a header of six bytes and as many as it says, and what is left.
unfoldable pub read_frame : Bytes → Option (Bytes × Bytes)
read_frame stream =
    let size = 6 + bit_or (get_or stream 4 0 * 256) (get_or stream 5 0) in
    if ltb (length stream) 6
    then none
    else if ltb (length stream) size
    then none
    else some (take size stream, drop size stream)

abbrev or_error :
    {A : Type 0} → (AduError → ClientError) → Outcome AduError A → Outcome ClientError A
or_error f (ok a) = ok a
or_error f (err e) = err (f e)
or_error f panic = panic

-- From the response's bytes to the result.
unfoldable pub response : ApplicationDataUnit → Bytes → Outcome ClientError Pdu
response adu raw = do
  resp ← or_error decode_failed (decode raw)
  checked ← or_error verify_failed (verify adu resp)
  ok resp.pdu

-- From the response's bytes and what is left, or an error of the reads, to the end.
unfoldable pub finish : ℕ → ApplicationDataUnit → Bytes → Option (Bytes × Bytes) → Sent
unfolding response
finish tid adu raw none = record {
  result = err io_failed;
  client = record { transaction_id = tid; unread = none };
  written = some raw;
}
finish tid adu raw (some (frame, rest)) = record {
  result = response adu frame;
  client = record { transaction_id = tid; unread = some rest };
  written = some raw;
}

-- From the encoded request to the end, on a connection.
unfoldable pub exchange : Network → ℕ → ApplicationDataUnit → Bytes → Outcome AduError Bytes → Sent
unfolding finish read_frame
exchange net tid adu unread (err e) = record {
  result = err (encode_failed e);
  client = record { transaction_id = tid; unread = some unread };
  written = none;
}
exchange net tid adu unread panic = record {
  result = panic;
  client = record { transaction_id = tid; unread = some unread };
  written = none;
}
exchange net tid adu unread (ok raw) =
    let failed : Sent = record {
      result = err io_failed;
      client = record { transaction_id = tid; unread = none };
      written = none;
    } in
    if net.deadline_set
    then (if net.writes then finish tid adu raw (read_frame (unread ++ net.received)) else failed)
    else failed

-- `Send`. The counter is an `uint32`, and a transaction its lower half.
unfoldable pub send : Client → Network → ℕ → Pdu → Sent
unfolding exchange request_adu
send c net id req =
    let tid = (c.transaction_id + 1) % 2 ^ 32 in
    elim (connect c.unread net.connects) [
      | none ↦ record { result = err connect_failed; client = c; written = none }
      | some unread ↦ let adu = request_adu tid id req in exchange net tid adu unread (encode adu)
    ]

-- `NewClient`.
abbrev pub new_client : Client
new_client = record { transaction_id = 0; unread = none }

-- `Connect`, by whether dialling succeeds.
unfoldable pub connect_client : Client → Bool → Option ClientError × Client
connect_client c connects = elim (connect c.unread connects) [
  | some unread ↦ (none, record c { unread = some unread })
  | none ↦ (some connect_failed, c)
]

-- `Close`.
unfoldable pub close_client : Client → Client
close_client c = record c { unread = none }
