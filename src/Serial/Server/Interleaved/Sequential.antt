-- ===== src/Serial/Server/Interleaved/Sequential.antt =====
-- transport/rtu/server.go: what the goroutines of the server come to, against the requests handled
-- one after another.
use modbus_gateway.Base.{ℕ, ◌≤◌, ◌≡◌, List, [], ◌∷◌, ◌++◌, Bytes, map, length}
use mathlib.Core.List.{Perm}
use mathlib.Core.List.Perm
use modbus_gateway.Pdu.{Pdu}
use modbus_gateway.Transport.{RequestHandler}
use modbus_gateway.Serial.Server.{Job, silent, writes, panics, job}
use modbus_gateway.Serial.Server.Interleaved.{Running, view}

-- What a goroutine writes.
abbrev pub outputs : Job → List Bytes
outputs (writes raw) = raw ∷ []
outputs silent = []
outputs panics = []

module _ {S : Type 0} (h : RequestHandler S) where
  -- What one request after another would come to: the responses, oldest first, and the state.
  unfoldable pub sequential : List (ℕ × Pdu) → S → List Bytes × S
  sequential [] s = ([], s)
  sequential (request ∷ later) s =
      let (outcome, s') = job h s request in
      let (responses, last) = sequential later s' in (outputs outcome ++ responses, last)

  -- The handler's calls so far, in the order of the requests, account for them, for the responses and
  -- for the state; and at most one goroutine has its call still to come, for what the buffer holds.
  abbrev Accounted : List (ℕ × Pdu) → S → Running S → Type 0
  Accounted requests s r =
      (calls : List (ℕ × Pdu)) × (calls ++ (map (view r.buffer) r.started ++ r.to_start) ≡ requests)
      × (length r.started ≤ 1)
      × Perm (r.written ++ r.to_write) (sequential calls s).0
      × (r.state ≡ (sequential calls s).1)
