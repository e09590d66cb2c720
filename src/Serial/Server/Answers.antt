-- ===== src/Serial/Server/Answers.antt =====
-- transport/rtu/server.go: from the bytes on the line to the responses, by the scan loop and the
-- goroutines that it starts.
use modbus_gateway.Base.{ℕ, List, [], ◌∷◌, ◌++◌, Bytes, Outcome, ok, err, panic}
use modbus_gateway.Pdu.{Pdu}
use modbus_gateway.Transport.{GoError, RequestHandler}
use modbus_gateway.Rtu.Adu.RoundTrip.{frame}
use modbus_gateway.RtuOverTcp.Server.{response_adu}

-- The response to what the handler returned: the frame of a PDU, and nothing for an error.
abbrev pub answer : ℕ → Outcome GoError Pdu → List Bytes
answer id (ok resp) = frame (response_adu id resp) ∷ []
answer id (err e) = []
answer id panic = []

module _ {S : Type 0} (h : RequestHandler S) where
  -- A service that takes requests one by one, whole: the frames that it sends, and its state.
  unfoldable pub answers : List (ℕ × Pdu) → S → List Bytes × S
  answers [] s = ([], s)
  answers ((id, req) ∷ later) s =
      let (result, s') = h s id req in
      let (frames, last) = answers later s' in (answer id result ++ frames, last)
