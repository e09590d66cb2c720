-- ===== src/Tcp/Server/Replies.antt =====
-- transport/tcp/server.go: the responses to requests, on one chunk and over a connection.
use modbus_gateway.Base.{
  ap, ℕ, ◌+◌, ◌%◌, ◌≤◌, ◌≡◌, refl, bit_or, List, [], ◌∷◌, length, Bytes, true, IsByte, All, arith,
  Outcome, ok, err, panic, some, le→ltb, map,
}
use modbus_gateway.Base.Bits.{or_top_bit}
use modbus_gateway.Pdu.{Pdu, IsPdu, Fits}
use modbus_gateway.Transport.{GoError, RequestHandler}
use modbus_gateway.Tcp.Adu.{
  ApplicationDataUnit, IsAdu, decode, decode-encode_mbap, encode-decode_mbap,
}
use modbus_gateway.Tcp.Server.{
  Reaction, Arrival, chunk, waiting, reply, exception_code, response_pdu, response_adu, respond,
  react, handle_connection,
}

-- What a handler may return for a response to be sent: a PDU of bytes that fits, or an error.
abbrev pub Sendable : Outcome GoError Pdu → Type 0
Sendable (ok resp) = IsPdu resp × Fits resp
Sendable (err e) = Unit
Sendable panic = ⊥

response_pdu-Sendable :
    (req : Pdu) (result : Outcome GoError Pdu)
    → IsByte req.function_code
    → Sendable result
    → (resp : Pdu) × (response_pdu req result ≡ some resp) × IsPdu resp × Fits resp
unfolding response_pdu
response_pdu-Sendable req (ok resp) h (b, f) = (resp, refl, b, f)
response_pdu-Sendable req (err e) h k = (
  record { function_code = bit_or req.function_code 0x80; payload = exception_code e % 256 ∷ [] },
  refl,
  record {
    code_byte = omega (arith, or_top_bit req.function_code h);
    payload_bytes = (omega arith, tt);
  },
  omega arith,
)
response_pdu-Sendable req panic h k = absurd k

-- The answer to a request: the same transaction, protocol and slave, the response PDU, and a length
-- field that counts the bytes behind it.
pub record IsAnswer (adu : ApplicationDataUnit) (resp : Pdu) (raw : Bytes) : Type 0 where
  pub answer : ApplicationDataUnit
  pub decodes : decode raw ≡ ok answer
  pub same_transaction : answer.transaction_id ≡ adu.transaction_id
  pub same_protocol : answer.protocol_id ≡ adu.protocol_id
  pub same_slave : answer.slave_id ≡ adu.slave_id
  pub is_response : answer.pdu ≡ resp
  pub counts : length raw ≡ 6 + answer.size

respond-IsAnswer :
    (adu : ApplicationDataUnit) (resp : Pdu)
    → IsAdu adu
    → IsPdu resp
    → Fits resp
    → (raw : Bytes) × (respond adu (some resp) ≡ reply raw) × IsAnswer adu resp raw
unfolding respond response_adu
respond-IsAnswer adu resp h b f =
    let a = response_adu adu resp in
    let (raw, e, size, _, d) =
      decode-encode_mbap a
        (record {
          transaction_word = h.transaction_word;
          protocol_word = h.protocol_word;
          size_word = omega arith;
          slave_byte = h.slave_byte;
          pdu_bytes = b;
        })
        f in
    (
      raw,
      rw (e, respond),
      record {
        answer = a;
        decodes = d;
        same_transaction = refl;
        same_protocol = refl;
        same_slave = refl;
        is_response = refl;
        counts = omega arith;
      },
    )

module _ {S : Type 0} (h : RequestHandler S) where
  -- A chunk of 8 to 260 bytes is a request, whatever its length field says. If the handler returns
  -- a PDU that fits, or an error, one response is written: it carries the request's transaction,
  -- protocol and slave and the PDU, or the exception for the error, and its length field is right.
  pub react-IsAnswer :
      (s : S) (buf : Bytes)
      → All IsByte buf
      → 8 ≤ length buf
      → length buf ≤ 260
      → ((id : ℕ) (req : Pdu) → IsByte id → IsPdu req → Sendable (h s id req).0)
      → (adu : ApplicationDataUnit) × (resp : Pdu) × (raw : Bytes) × (decode buf ≡ ok adu)
        × (response_pdu adu.pdu (h s adu.slave_id adu.pdu).0 ≡ some resp)
        × (react (some h) s buf ≡ (reply raw, (h s adu.slave_id adu.pdu).1))
        × IsAnswer adu resp raw
  unfolding react
  react-IsAnswer s buf b l u good =
      let (adu, d, w, _) = encode-decode_mbap buf b l u in
      let (resp, e, rb, rf) =
        response_pdu-Sendable adu.pdu (h s adu.slave_id adu.pdu).0 w.pdu_bytes.code_byte
          (good adu.slave_id adu.pdu w.slave_byte w.pdu_bytes) in
      let (raw, r, a) = respond-IsAnswer adu resp w rb rf in
      (adu, resp, raw, d, e, rw (le→ltb 260 (length buf) u) (rw d (rw (e, r))), a)

  -- The responses to a list of requests: one for each, in order, under the same transaction,
  -- protocol and slave.
  abbrev pub AnswersInOrder : List Bytes → List Bytes → Type 0
  AnswersInOrder [] [] = Unit
  AnswersInOrder [] (r ∷ rs) = ⊥
  AnswersInOrder (q ∷ qs) [] = ⊥
  AnswersInOrder (q ∷ qs) (r ∷ rs) =
      ((adu : ApplicationDataUnit) × (resp : Pdu) × (decode q ≡ ok adu) × IsAnswer adu resp r)
      × AnswersInOrder qs rs

  -- A chunk that can be a request.
  abbrev pub IsFrame : Bytes → Type 0
  IsFrame buf = All IsByte buf × (8 ≤ length buf) × (length buf ≤ 260)

  round :
      (s s' : S) (buf raw : Bytes) (rest : List Arrival)
      → react (some h) s buf ≡ (reply raw, s')
      → let later = handle_connection (some h) s' rest in
        handle_connection (some h) s (chunk buf true ∷ rest)
        ≡ record later { sent = raw ∷ later.sent }
  unfolding handle_connection
  round s s' buf raw rest e = rw (e, handle_connection) (rw (ap (λ (p : Reaction × S). p.1) e))

  -- A connection on which requests arrive one to a chunk, and whose responses can be written, sends
  -- one response for each, in order and under its transaction, and stays open.
  pub handle_connection-AnswersInOrder :
      (bufs : List Bytes) (s : S)
      → All IsFrame bufs
      → ((t : S) (id : ℕ) (req : Pdu) → IsByte id → IsPdu req → Sendable (h t id req).0)
      → let served = handle_connection (some h) s (map (λ b. chunk b true) bufs) in
        AnswersInOrder bufs served.sent × (served.ending ≡ waiting)
  handle_connection-AnswersInOrder [] s f good = unfold handle_connection in (tt, refl)
  handle_connection-AnswersInOrder (buf ∷ bufs) s f good =
      let (adu, resp, raw, d, _, r, a) = react-IsAnswer s buf (f.0).0 (f.0).1 (f.0).2 (good s) in
      let s' = (h s adu.slave_id adu.pdu).1 in
      let (later, stays) = handle_connection-AnswersInOrder bufs s' f.1 good in
      rw (round s s' buf raw (map (λ b. chunk b true) bufs) r) (((adu, resp, d, a), later), stays)
