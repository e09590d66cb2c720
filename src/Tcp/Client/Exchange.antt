-- ===== src/Tcp/Client/Exchange.antt =====
-- transport/tcp: the client and the server of this program, and what the client writes.
use modbus_gateway.Base.{
  subst, ◌∷◌, ℕ, ◌+◌, ◌*◌, ◌^◌, ◌%◌, ◌≤◌, ◌≡◌, refl, sym, bit_or, [], length, get_or, drop,
  take_all, Bytes, IsByte, arith, true, false, ltb, Bool-cases, inl, inr, ok, Option, some, none,
}
use modbus_gateway.Pdu.{Pdu, IsPdu, Fits}
use modbus_gateway.Transport.{RequestHandler}
use modbus_gateway.Tcp.Adu.{ApplicationDataUnit, IsAdu, decode, verify, decode-encode_mbap}
use modbus_gateway.Tcp.Server.{reply, react, response_pdu}
use modbus_gateway.Tcp.Server.Replies.{Sendable, IsAnswer, react-IsAnswer}
use modbus_gateway.Tcp.Client.{Network, request_adu, read_frame, response, finish, exchange, send}

request_adu-IsAdu :
    (tid id : ℕ) (req : Pdu) → IsByte id → IsPdu req → Fits req → IsAdu (request_adu tid id req)
unfolding request_adu
request_adu-IsAdu tid id req hi hp f = record {
  transaction_word = omega arith;
  protocol_word = omega arith;
  size_word = omega arith;
  slave_byte = hi;
  pdu_bytes = hp;
}

decode-size :
    (raw : Bytes) (a : ApplicationDataUnit)
    → decode raw ≡ ok a
    → (8 ≤ length raw) × (a.size ≡ bit_or (get_or raw 4 0 * 256) (get_or raw 5 0))
unfolding decode
decode-size raw a h = elim (Bool-cases (ltb (length raw) 8)) [
  | inl short ↦ ground arith
  | inr long ↦ ground arith
]

drop_all : (xs : Bytes) → drop (length xs) xs ≡ []
drop_all [] = refl
drop_all (x ∷ xs) = drop_all xs

read_frame-all :
    (raw : Bytes) (a : ApplicationDataUnit)
    → decode raw ≡ ok a
    → length raw ≡ 6 + a.size
    → read_frame raw ≡ some (raw, [])
unfolding read_frame
read_frame-all raw a d n =
    let (long, size) = decode-size raw a d in
    let whole : length raw ≡ 6 + bit_or (get_or raw 4 0 * 256) (get_or raw 5 0) = omega arith in
    let some_left : ltb (length raw) 6 ≡ false = ground arith in
    let enough : ltb (length raw) (length raw) ≡ false = ground arith in
    rw some_left (
      rw (sym whole)
        (rw enough (rw (take_all raw (length raw) (omega arith)) (rw (drop_all raw) refl))))

response-IsAnswer :
    (adu : ApplicationDataUnit) (resp : Pdu) (raw : Bytes)
    → IsAnswer adu resp raw
    → response adu raw ≡ ok resp
unfolding response verify
response-IsAnswer adu resp raw a =
    rw a.decodes (rw a.same_transaction (ground (arith, a.is_response)))

finish-written :
    (tid : ℕ) (adu : ApplicationDataUnit) (raw : Bytes) (o : Option (Bytes × Bytes))
    → (finish tid adu raw o).written ≡ some raw
unfolding finish
finish-written tid adu raw none = refl
finish-written tid adu raw (some (frame, rest)) = refl

-- The network of a call on which nothing fails, and these bytes arrive.
abbrev pub delivering : Bytes → Network
delivering raw = record { connects = true; deadline_set = true; writes = true; received = raw }

-- A new client's request is written whole. Its length field is one less than the bytes behind it.
pub send-written :
    (tid id : ℕ) (req : Pdu) (received : Bytes)
    → IsByte id
    → IsPdu req
    → Fits req
    → (adu : ApplicationDataUnit) × (raw : Bytes) × ((send
          (record { transaction_id = tid; unread = none })
          (delivering received)
          id
          req).written
        ≡ some raw)
      × (decode raw ≡ ok adu)
      × (adu.pdu ≡ req)
      × (length raw ≡ 6 + adu.size + 1)
unfolding send exchange
send-written tid id req received hi hp f =
    let t = (tid + 1) % 2 ^ 32 in
    let adu = request_adu t id req in
    let (raw, e, size, _, d) = decode-encode_mbap adu (request_adu-IsAdu t id req hi hp f) f in
    (
      adu,
      raw,
      rw e (finish-written t adu raw (read_frame received)),
      d,
      unfold request_adu in refl,
      unfold request_adu in omega arith,
    )

module _ {S : Type 0} (h : RequestHandler S) where
  -- A new client sends a request to the server of this program, whose handler returns a PDU that
  -- fits or an error. The client returns what the server responds with, and keeps the connection.
  pub send-react :
      (tid id : ℕ) (req : Pdu) (s : S)
      → IsByte id
      → IsPdu req
      → Fits req
      → ((id : ℕ) (req : Pdu) → IsByte id → IsPdu req → Sendable (h s id req).0)
      → (request answer : Bytes) × (resp : Pdu) × (react (some h) s request
          ≡ (reply answer, (h s id req).1))
        × (response_pdu req (h s id req).0 ≡ some resp)
        × (send (record { transaction_id = tid; unread = none }) (delivering answer) id req
            ≡ record {
              result = ok resp;
              client = record { transaction_id = (tid + 1) % 2 ^ 32; unread = some [] };
              written = some request;
            })
  unfolding send exchange finish
  send-react tid id req s hi hp f good =
      let t = (tid + 1) % 2 ^ 32 in
      let adu = request_adu t id req in
      let (request, e, size, b, d) =
        decode-encode_mbap adu (request_adu-IsAdu t id req hi hp f) f in
      let (adu', resp, answer, d', p, r, a) =
        react-IsAnswer h s request b (unfold request_adu in omega arith)
          (unfold request_adu in omega arith) good in
      let q : adu' ≡ adu = cc in
      let p' : response_pdu req (h s id req).0 ≡ some resp =
        unfold request_adu in
        subst (λ x. response_pdu x.pdu (h s x.slave_id x.pdu).0 ≡ some resp) q p in
      let r' : react (some h) s request ≡ (reply answer, (h s id req).1) =
        unfold request_adu in
        subst (λ x. react (some h) s request ≡ (reply answer, (h s x.slave_id x.pdu).1)) q r in
      let a' : IsAnswer adu resp answer = subst (λ x. IsAnswer x resp answer) q a in
      (
        request,
        answer,
        resp,
        r',
        p',
        rw e (
            rw (read_frame-all answer a'.answer a'.decodes a'.counts)
              (rw (response-IsAnswer adu resp answer a') refl)),
      )
