-- ===== src/Local/Serves.antt =====
-- transport/local/client.go, internal/gateway/gateway.go and transport/tcp/server.go together.
use modbus_gateway.Base.{
  ◌⊎◌, true, ℕ, ◌≡◌, List, [], ◌∷◌, ◌==◌, Bool-cases, inl, inr, IsByte, All, map, Bytes, Option,
  some, none,
}
use modbus_gateway.Pdu.{Pdu, IsPdu}
use modbus_gateway.Storage.{Storage}
use modbus_gateway.Slave.Writes.{process-Responds}
use modbus_gateway.Transport.{RequestHandler}
use modbus_gateway.Gateway.Routing.{Gateway, lookup, handle_request, target, forward}
use modbus_gateway.Tcp.Server.{chunk, waiting, handle_connection}
use modbus_gateway.Tcp.Server.Replies.{
  Sendable, AnswersInOrder, IsFrame, handle_connection-AnswersInOrder,
}
use modbus_gateway.Tcp.Server.Accepting.{Connection, Live, Reached}
use modbus_gateway.Tcp.Server.Accepting.Progress.{GoesOn, Reached-GoesOn}
use modbus_gateway.Tcp.Server.Accepting.Answers.{request, Answering, Reached-Answering}
use modbus_gateway.Gateway.Routing.Routed.{In}
use modbus_gateway.Local.{send}

-- A downstream that comes back from each request with a PDU of bytes that fits, or an error.
abbrev pub Serves : {S : Type 0} → RequestHandler S → Type 0
Serves {S} d = (s : S) (id : ℕ) (req : Pdu) → IsByte id → IsPdu req → Sendable (d s id req).0

abbrev pub DefaultServes : {S : Type 0} → Option (RequestHandler S) → Type 0
DefaultServes none = Unit
DefaultServes (some d) = Serves d

module _ {S : Type 0} where
  -- The local slave is such a downstream, over any storage whose hook returns on ranges within the
  -- tables.
  pub send-Serves : (ops : Storage S) → Serves (send ops)
  unfolding send
  send-Serves ops s id req hi hp =
      let (resp, s', e, r) = process-Responds ops s req hp in rw e (r.bytes, r.fits)

  target-Serves :
      (routes : List (ℕ × RequestHandler S)) (default : Option (RequestHandler S)) (id : ℕ)
      → All (λ r. Serves r.1) routes
      → DefaultServes default
      → DefaultServes (target (lookup routes id) default)
  unfolding lookup
  target-Serves [] default id h k = k
  target-Serves (r ∷ rs) default id (hr, h) k = elim (Bool-cases (r.0 == id)) [
    | inl here ↦ rw here hr
    | inr there ↦ rw there (target-Serves rs default id h k)
  ]

  forward-Serves : (d : Option (RequestHandler S)) → DefaultServes d → Serves (forward d)
  forward-Serves none h s id req hi hp = tt
  forward-Serves (some d) h s id req hi hp = h s id req hi hp

  -- A gateway whose downstreams come back from each request answers every request of a TCP
  -- connection, also those for slaves without a route: requests that arrive one to a chunk, and
  -- whose responses can be written, are answered once each, in order and under their transactions,
  -- and the connection stays open.
  pub gateway-AnswersInOrder :
      (g : Gateway (RequestHandler S)) (s : S) (bufs : List Bytes)
      → All (λ r. Serves r.1) g.routes
      → DefaultServes g.default_route
      → All (IsFrame (handle_request g)) bufs
      → let served = handle_connection (some (handle_request g)) s (map (λ b. chunk b true) bufs) in
        AnswersInOrder (handle_request g) bufs served.sent × (served.ending ≡ waiting)
  unfolding handle_request
  gateway-AnswersInOrder g s bufs h k f =
      handle_connection-AnswersInOrder (handle_request g) bufs s f (λ t id req hi hp.
        forward-Serves (target (lookup g.routes id) g.default_route)
          (target-Serves g.routes g.default_route id h k) t id req hi hp)

  -- A gateway whose downstreams come back from each request, behind a TCP server with any number of
  -- connections whose rounds take turns in any way: on a connection on which requests arrive, one
  -- to a chunk and with responses that can be written, the first of them are answered at any time,
  -- once each, in order and under their transactions, also those for slaves without a route; the
  -- others are still to come, and the connection is open, whatever arrives on the others. As long
  -- as there are others, there is a step of the server that answers the next of them.
  pub gateway-Answering :
      (g : Gateway (RequestHandler S)) (s : S) (live : Live S) (c : Connection) (bufs : List Bytes)
      → All (λ r. Serves r.1) g.routes
      → DefaultServes g.default_route
      → Reached (some (handle_request g)) s live
      → In c live.connections
      → c.arrivals ≡ map request bufs
      → All (IsFrame (handle_request g)) bufs
      → Answering (handle_request g) bufs c × ((c.to_come ≡ []) ⊎ GoesOn (handle_request g) live c)
  unfolding handle_request
  gateway-Answering g s live c bufs h k r m e f =
      let good : Serves (handle_request g) = λ t id req hi hp.
        forward-Serves (target (lookup g.routes id) g.default_route)
          (target-Serves g.routes g.default_route id h k) t id req hi hp in
      (
        Reached-Answering (handle_request g) good s live c bufs r m e f,
        Reached-GoesOn (handle_request g) good s live c bufs r m e f,
      )
