-- ===== src/Rtu/Framed.antt =====
-- modbus/rtu as the servers use it: a request's frame as a header of seven bytes and a body.
use modbus_gateway.Base.{
  ℕ, ◌+◌, ◌≤◌, ◌<◌, ◌≡◌, sym, ap, ◌∙◌, inl, inr, [], ◌∷◌, ◌++◌, take, drop, length, length-drop,
  length-take, take-append-drop, get_or, Bytes, arith, ok, List,
}
use modbus_gateway.Pdu.{Fits}
use modbus_gateway.Crc.{checksum}
use modbus_gateway.Reads.{Incoming}
use modbus_gateway.Reads.Contents.{Flows, contents, reads}
use modbus_gateway.Rtu.Adu.{ApplicationDataUnit, decode}
use modbus_gateway.Rtu.Adu.RoundTrip.{IsAdu, body, frame, length-frame, decode-encode, encode-frame}
use modbus_gateway.Rtu.Framer.{calculate_request_length}
use modbus_gateway.Rtu.Framer.Lengths.{IsRequest, calculate_request_length-frame}
use modbus_gateway.Rtu.Round.{Round, pending, stopped, crashed, again, request}

-- A request that a master may send: its fields are bytes, it fits, and its size is the one that its
-- function code and its count of bytes announce.
pub record IsSent (a : ApplicationDataUnit) : Type 0 where
  pub bytes : IsAdu a
  pub fits : Fits a.pdu
  pub sized : IsRequest a.pdu

-- A frame as its first byte, six more, and the rest, with what the servers compute of these.
pub record Framed (a : ApplicationDataUnit) : Type 0 where
  pub first : ℕ
  pub header : Bytes
  pub rest : Bytes
  pub splits : frame a ≡ first ∷ (header ++ rest)
  pub header_size : length header ≡ 6
  pub size : length (frame a) ≡ 7 + length rest
  pub small : length (frame a) ≤ 256
  pub computed :
      calculate_request_length (get_or (first ∷ header) 1 0) (first ∷ header)
      ≡ ok (length (frame a))
  pub decodes : decode (frame a) ≡ ok (record a { crc = checksum (body a) })

decode_sent :
    (a : ApplicationDataUnit)
    → IsSent a
    → decode (frame a) ≡ ok (record a { crc = checksum (body a) })
decode_sent a h =
    let (raw, en, size, d) = decode-encode a h.bytes h.fits in
    let same : raw ≡ frame a = cc (en, encode-frame a h.bytes h.fits) in ap decode (sym same) ∙ d

payload_size : (a : ApplicationDataUnit) → IsRequest a.pdu → 4 ≤ length a.pdu.payload
payload_size a (inl h) = omega arith
payload_size a (inr h) = omega arith

pub IsSent-Framed : (a : ApplicationDataUnit) → IsSent a → Framed a
unfolding frame
IsSent-Framed a h =
    let k = checksum (body a) in
    let tail : Bytes = a.pdu.function_code ∷ (a.pdu.payload ++ (k.low ∷ k.high ∷ [])) in
    let size : length tail ≡ length a.pdu.payload + 3 = omega (arith, length-frame a) in
    let enough = payload_size a h.sized in
    record {
      first = a.slave_id;
      header = take 6 tail;
      rest = drop 6 tail;
      splits = ap (◌∷◌ a.slave_id) (sym (take-append-drop 6 tail));
      header_size = omega (arith, length-take 6 tail);
      size = omega (arith, length-drop 6 tail);
      small = omega (arith, length-frame a, h.fits);
      computed = calculate_request_length-frame a h.sized;
      decodes = decode_sent a h;
    }

-- What a round comes to on bytes that begin with the frame: it has the request, or only an empty
-- `Read`; and fewer calls of `Read` are left.
abbrev pub OnFrame : ApplicationDataUnit → Bytes → List Incoming → Round → Type 0
OnFrame a ys incoming pending = ⊥
OnFrame a ys incoming stopped = ⊥
OnFrame a ys incoming crashed = ⊥
OnFrame a ys incoming (again rest) =
    Flows rest × (contents rest ≡ contents incoming) × (reads rest < reads incoming)
OnFrame a ys incoming (request adu rest) =
    (adu ≡ record a { crc = checksum (body a) })
    × Flows rest
    × (contents rest ≡ ys)
    × (reads rest < reads incoming)
