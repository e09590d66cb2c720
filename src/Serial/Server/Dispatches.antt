-- ===== src/Serial/Server/Dispatches.antt =====
-- transport/rtu/server.go: the requests that the scan loop starts goroutines for.
use modbus_gateway.Base.{ℕ, ◌<◌, ◌≡◌, List, [], ◌∷◌, ◌++◌, map, All}
use modbus_gateway.Pdu.{Pdu}
use modbus_gateway.Reads.{Incoming, fault}
use modbus_gateway.Reads.Contents.{Flows, contents, reads}
use modbus_gateway.Rtu.Adu.{ApplicationDataUnit}
use modbus_gateway.Rtu.Framed.{IsSent}
use modbus_gateway.Rtu.Round.{Round}
use modbus_gateway.RtuOverTcp.Server.Serves.{wire}
use modbus_gateway.Serial.Server.{scanning, scan_loop}

-- What arrives delivers requests: bursts of whole frames, whose bytes are grouped in any way, with
-- failing `Read`s, such as timeouts, between them.
pub data Delivers : List ApplicationDataUnit → List Incoming → Type 0 where
  ends : Delivers [] []
  gap :
      {requests : List ApplicationDataUnit} {rest : List Incoming}
      → Delivers requests rest
      → Delivers requests (fault ∷ rest)
  burst :
      {requests : List ApplicationDataUnit} {incoming : List Incoming}
      (now later : List ApplicationDataUnit) (bytes rest : List Incoming)
      → Flows bytes
      → contents bytes ≡ wire now
      → requests ≡ now ++ later
      → incoming ≡ bytes ++ rest
      → Delivers later rest
      → Delivers requests incoming

abbrev pub as_pair : ApplicationDataUnit → ℕ × Pdu
as_pair a = (a.slave_id, a.pdu)

abbrev DispatchesIn : ℕ → Type 0
DispatchesIn rounds =
    (requests : List ApplicationDataUnit) (incoming : List Incoming)
    → All IsSent requests
    → Delivers requests incoming
    → reads incoming < rounds
    → scan_loop rounds incoming ≡ record { dispatched = map as_pair requests; ending = scanning }
