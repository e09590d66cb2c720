-- ===== src/RtuOverTcp/Server/Serves.antt =====
-- transport/rtu-over-tcp/server.go: a connection on which requests arrive, against a service that
-- answers whole requests.
use modbus_gateway.Base.{
  ℕ, zero, suc, ◌<◌, ◌≡◌, refl, ap, ◌∙◌, bit_or, List, [], ◌∷◌, ◌++◌, Bytes, true, IsByte, All,
  arith, Outcome, ok, err, panic, some,
}
use modbus_gateway.Base.Bits.{or_top_bit}
use modbus_gateway.Pdu.{Pdu, IsPdu, Fits}
use modbus_gateway.Crc.{checksum}
use modbus_gateway.Transport.{GoError, RequestHandler}
use modbus_gateway.Reads.{Incoming}
use modbus_gateway.Reads.Contents.{Flows, contents, reads}
use modbus_gateway.Rtu.Adu.{ApplicationDataUnit, encode}
use modbus_gateway.Rtu.Adu.RoundTrip.{IsAdu, frame, body, encode-frame}
use modbus_gateway.Rtu.Framed.{IsSent, OnFrame}
use modbus_gateway.Rtu.Round.{Round, pending, stopped, crashed, again, request}
use modbus_gateway.Tcp.Server.Replies.{Sendable}
use modbus_gateway.RtuOverTcp.Server.{
  Served, open_still, response_pdu, response_adu, exception_code, send_response, round,
  handle_connection,
}
use modbus_gateway.RtuOverTcp.Server.Rounds.{round-OnFrame, OnNothing, round-OnNothing}

-- The frames of requests, one behind the other.
abbrev pub wire : List ApplicationDataUnit → Bytes
wire [] = []
wire (a ∷ requests) = frame a ++ wire requests

-- The frame of the response to what the handler returned.
abbrev pub reply_frame : ApplicationDataUnit → Outcome GoError Pdu → Bytes
reply_frame a (ok resp) = frame (response_adu a.slave_id resp)
reply_frame a (err e) = frame (
    response_adu a.slave_id
      (record { function_code = bit_or a.pdu.function_code 0x80; payload = exception_code e ∷ [] }))
reply_frame a panic = []

exception_code_small : (e : GoError) → exception_code e < 256
unfolding exception_code
exception_code_small e = ground arith

module _ {S : Type 0} (h : RequestHandler S) where
  -- A service that takes requests one by one, whole: the frames that it sends, and its state.
  abbrev pub replies : S → List ApplicationDataUnit → List Bytes
  replies s [] = []
  replies s (a ∷ requests) =
      reply_frame a (h s a.slave_id a.pdu).0 ∷ replies (h s a.slave_id a.pdu).1 requests

  abbrev pub state_after : S → List ApplicationDataUnit → S
  state_after s [] = s
  state_after s (a ∷ requests) = state_after (h s a.slave_id a.pdu).1 requests

  send_response-frame :
      (a : ApplicationDataUnit) (resp : Pdu) (s : S) (later : Served S)
      → IsByte a.slave_id
      → IsPdu resp
      → Fits resp
      → send_response true s (encode (response_adu a.slave_id resp)) later
        ≡ record later { sent = frame (response_adu a.slave_id resp) ∷ later.sent }
  unfolding send_response
  send_response-frame a resp s later ha b f =
      rw (encode-frame (response_adu a.slave_id resp) (record { slave_byte = ha; pdu_bytes = b }) f)
        refl

  answered :
      (a : ApplicationDataUnit) (result : Outcome GoError Pdu) (s : S) (later : Served S)
      → IsAdu a
      → Sendable result
      → (resp : Pdu) × (response_pdu a.pdu result ≡ some resp)
        × (send_response true s (encode (response_adu a.slave_id resp)) later
            ≡ record later { sent = reply_frame a result ∷ later.sent })
  unfolding response_pdu
  answered a (ok resp) s later ha (b, f) =
      (resp, refl, send_response-frame a resp s later ha.slave_byte b f)
  answered a (err e) s later ha k =
      let resp : Pdu = record {
        function_code = bit_or a.pdu.function_code 0x80;
        payload = exception_code e ∷ [];
      } in
      let c = exception_code_small e in
      let b : IsPdu resp = record {
        code_byte = omega (arith, or_top_bit a.pdu.function_code ha.pdu_bytes.code_byte);
        payload_bytes = (omega (arith, c), tt);
      } in
      (
        resp,
        ap
            (λ (x : ℕ).
              some (record { function_code = bit_or a.pdu.function_code 0x80; payload = x ∷ [] }))
            (omega (arith, c)),
        send_response-frame a resp s later ha.slave_byte b (omega arith),
      )
  answered a panic s later ha k = absurd k

  -- What the loop does on bytes that flow, within a number of rounds.
  abbrev ServesIn : ℕ → Type 0
  ServesIn rounds =
      (requests : List ApplicationDataUnit) (s : S) (incoming : List Incoming)
      → All IsSent requests
      → Flows incoming
      → contents incoming ≡ wire requests
      → reads incoming < rounds
      → handle_connection h (λ n. true) rounds s incoming
        ≡ record { sent = replies s requests; state = state_after s requests; ending = open_still }

  abbrev AlwaysSendable : Type 0
  AlwaysSendable = (t : S) (id : ℕ) (req : Pdu) → IsByte id → IsPdu req → Sendable (h t id req).0

  serves_nothing :
      (rounds : ℕ) (s : S) (incoming : List Incoming) (o : Round)
      → ServesIn rounds
      → round incoming ≡ o
      → OnNothing incoming o
      → contents incoming ≡ []
      → reads incoming < suc rounds
      → handle_connection h (λ n. true) (suc rounds) s incoming
        ≡ record { sent = []; state = s; ending = open_still }
  unfolding handle_connection
  serves_nothing rounds s incoming pending ih r o e enough = rw (r, handle_connection) refl
  serves_nothing rounds s incoming (again rest) ih r (flows, c, fewer) e enough =
      rw (r, handle_connection) (ih [] s rest tt flows (c ∙ e) (omega arith))
  serves_nothing rounds s incoming stopped ih r o e enough = absurd o
  serves_nothing rounds s incoming crashed ih r o e enough = absurd o
  serves_nothing rounds s incoming (request adu rest) ih r o e enough = absurd o

  serves_request :
      (rounds : ℕ) (a : ApplicationDataUnit) (requests : List ApplicationDataUnit) (s : S)
      (incoming : List Incoming) (o : Round)
      → ServesIn rounds
      → AlwaysSendable
      → All IsSent (a ∷ requests)
      → round incoming ≡ o
      → OnFrame a (wire requests) incoming o
      → contents incoming ≡ wire (a ∷ requests)
      → reads incoming < suc rounds
      → handle_connection h (λ n. true) (suc rounds) s incoming ≡ record {
        sent = replies s (a ∷ requests);
        state = state_after s (a ∷ requests);
        ending = open_still;
      }
  unfolding handle_connection
  serves_request rounds a requests s incoming (again rest) ih good sent r (flows, c, fewer) e
        enough =
      rw (r, handle_connection) (ih (a ∷ requests) s rest sent flows (c ∙ e) (omega arith))
  serves_request rounds a requests s incoming (request adu rest) ih good sent r
        (same, flows, c, fewer) e enough =
      let found : round incoming ≡ request (record a { crc = checksum (body a) }) rest =
        r ∙ ap (λ x. request x rest) same in
      let (result, s') = h s a.slave_id a.pdu in
      let later = ih requests s' rest sent.1 flows c (omega arith) in
      let (resp, p, q) =
        answered a result s' (handle_connection h (λ n. true) rounds s' rest) (sent.0).bytes
          (good s a.slave_id a.pdu (sent.0).bytes.slave_byte (sent.0).bytes.pdu_bytes) in
      rw (found, handle_connection)
        (rw (p)
          (q ∙ ap (λ (x : Served S). record x { sent = reply_frame a result ∷ x.sent }) later))
  serves_request rounds a requests s incoming pending ih good sent r o e enough = absurd o
  serves_request rounds a requests s incoming stopped ih good sent r o e enough = absurd o
  serves_request rounds a requests s incoming crashed ih good sent r o e enough = absurd o

  serves_in : AlwaysSendable → (rounds : ℕ) → ServesIn rounds
  serves_in good zero requests s incoming sent flows e enough = absurd (omega arith)
  serves_in good (suc rounds) [] s incoming sent flows e enough =
      serves_nothing rounds s incoming (round incoming) (serves_in good rounds) refl
        (round-OnNothing incoming flows e) e enough
  serves_in good (suc rounds) (a ∷ requests) s incoming sent flows e enough =
      serves_request rounds a requests s incoming (round incoming) (serves_in good rounds) good sent
        refl (round-OnFrame a (wire requests) incoming sent.0 flows e) e enough

  -- Requests that a master may send arrive one behind the other, their bytes grouped in any way. If
  -- no `Read` and no write fails, the context is not done before everything is read, and the handler
  -- returns a PDU of bytes that fits or an error, then the loop does what a service does that takes
  -- the requests one by one, whole: it sends the same frames, comes to the same state, and keeps the
  -- connection open.
  pub handle_connection-replies :
      (requests : List ApplicationDataUnit) (rounds : ℕ) (s : S) (incoming : List Incoming)
      → All IsSent requests
      → ((t : S) (id : ℕ) (req : Pdu) → IsByte id → IsPdu req → Sendable (h t id req).0)
      → Flows incoming
      → contents incoming ≡ wire requests
      → reads incoming < rounds
      → handle_connection h (λ n. true) rounds s incoming
        ≡ record { sent = replies s requests; state = state_after s requests; ending = open_still }
  handle_connection-replies requests rounds s incoming sent good flows e enough =
      serves_in good rounds requests s incoming sent flows e enough
