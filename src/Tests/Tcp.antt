-- ===== src/Tests/Tcp.antt =====
-- transport/tcp in front of a local slave.
use modbus_gateway.Base.{
  ◌⊎◌, inl, ◌≢◌, ◌+◌, ◌^◌, ◌%◌, ◌≡◌, refl, [], ◌∷◌, length, Bytes, All, IsByte, arith, true, map,
  ok, some, none,
}
use modbus_gateway.Pdu.{Pdu, IsPdu}
use modbus_gateway.DataModel.{new_data_model}
use modbus_gateway.Storage.{memory_storage}
use modbus_gateway.DataModel.{read_coils}
use modbus_gateway.Slave.{handle_read_coils, handle_read, process, LocalSlave}
use modbus_gateway.Transport.{RequestHandler}
use modbus_gateway.Tcp.Adu.{ApplicationDataUnit, IsAdu, decode, encode, decode-encode_mbap}
use modbus_gateway.Tcp.Server.{response_adu, respond, dispatch, waiting, reply, react, response_pdu}
use modbus_gateway.Tcp.Server.Replies.{IsAnswer, react-IsAnswer}
use modbus_gateway.Tcp.Client.{
  connect, close_client, read_frame, Network, connect_client, Client, send,
}
use modbus_gateway.Tcp.Client.Exchange.{delivering, send-react}
use modbus_gateway.Gateway.Routing.{lookup, Gateway, handle_request}
use modbus_gateway.Local.{send as local_send}
use modbus_gateway.Local.Serves.{send-Serves, gateway-Answering}
use modbus_gateway.Tcp.Client.Transactions.{Calls, no_calls, sends, connects, closes, send-late}
use modbus_gateway.Tcp.Server.Accepting.{
  Connection, Live, Reached, started, next, accepts, serves, connection, accept_round,
  connection_round,
}
use modbus_gateway.Tcp.Server.Accepting.Answers.{request as once, Answering}
use modbus_gateway.Tcp.Server.Accepting.Progress.{GoesOn}
use modbus_gateway.Gateway.Routing.Routed.{In}

abbrev fresh : LocalSlave (Unit {0})
fresh = record { model = new_data_model; storage = tt }

abbrev handler : RequestHandler (LocalSlave (Unit {0}))
handler = local_send memory_storage

-- A request to read one coil, by itself and in its frame.
abbrev request : Pdu
request = record { function_code = 1; payload = 0 ∷ 0 ∷ 0 ∷ 1 ∷ [] }

abbrev raw : Bytes
raw = 0 ∷ 7 ∷ 0 ∷ 0 ∷ 0 ∷ 6 ∷ 1 ∷ 1 ∷ 0 ∷ 0 ∷ 0 ∷ 1 ∷ []

abbrev adu : ApplicationDataUnit
adu = record { transaction_id = 7; protocol_id = 0; size = 6; slave_id = 1; pdu = request }

raw-IsByte : All IsByte raw
raw-IsByte = (
  omega arith,
  (
    omega arith,
    (
      omega arith,
      (
        omega arith,
        (
          omega arith,
          (
            omega arith,
            (
              omega arith,
              (omega arith, (omega arith, (omega arith, (omega arith, (omega arith, tt))))),
            ),
          ),
        ),
      ),
    ),
  ),
)

request-IsPdu : IsPdu request
request-IsPdu = record {
  code_byte = omega arith;
  payload_bytes = (omega arith, (omega arith, (omega arith, (omega arith, tt))));
}

adu-IsAdu : IsAdu adu
adu-IsAdu = record {
  transaction_word = omega arith;
  protocol_word = omega arith;
  size_word = omega arith;
  slave_byte = omega arith;
  pdu_bytes = request-IsPdu;
}

decoded : decode raw ≡ ok adu
unfolding decode
decoded = refl

decode-encode_mbap_example :
    (out : Bytes) × (encode adu ≡ ok out)
    × (length out ≡ 12)
    × All IsByte out
    × (decode out ≡ ok adu)
decode-encode_mbap_example = decode-encode_mbap adu adu-IsAdu (omega arith)

react-IsAnswer_example :
    (a : ApplicationDataUnit) × (resp : Pdu) × (out : Bytes) × (decode raw ≡ ok a)
    × (response_pdu a.pdu (handler fresh a.slave_id a.pdu).0 ≡ some resp)
    × (react (some handler) fresh raw ≡ (reply out, (handler fresh a.slave_id a.pdu).1))
    × IsAnswer a resp out
react-IsAnswer_example =
    react-IsAnswer handler fresh raw raw-IsByte (omega arith) (omega arith)
      (send-Serves memory_storage fresh)

send-react_example :
    (sent answer : Bytes) × (resp : Pdu) × (react (some handler) fresh sent
      ≡ (reply answer, (handler fresh 1 request).1))
    × (response_pdu request (handler fresh 1 request).0 ≡ some resp)
    × (send (record { transaction_id = 6; unread = none }) (delivering answer) 1 request ≡ record {
      result = ok resp;
      client = record { transaction_id = (6 + 1) % 2 ^ 32; unread = some [] };
      written = some sent;
    })
send-react_example =
    send-react handler 6 1 request fresh (omega arith) request-IsPdu (omega arith)
      (send-Serves memory_storage fresh)

-- A gateway with a route for slave 1 only.
abbrev gateway : Gateway (RequestHandler (LocalSlave (Unit {0})))
gateway = record { routes = (1, handler) ∷ []; default_route = none }

-- A client after its call for transaction 6, then a connection that is lost and dialled again, and a
-- call for transaction 7 on which nothing arrives; the answer for 6 is read by the call for 8.
abbrev timed_out_client : Client
timed_out_client = record { transaction_id = 6; unread = none }

abbrev silent_network : Network
silent_network = record { connects = true; deadline_set = true; writes = true; received = [] }

abbrev late_frame : Bytes
late_frame = 0 ∷ 6 ∷ 0 ∷ 0 ∷ 0 ∷ 5 ∷ 1 ∷ 3 ∷ 2 ∷ 0 ∷ 9 ∷ []

abbrev later_client : Client
later_client =
    (connect_client (close_client (send timed_out_client silent_network 1 request).client) true).1

later_client-Calls : Calls timed_out_client 1 later_client
later_client-Calls =
    connects 1 _ true (closes 1 _ (sends 0 timed_out_client silent_network 1 request no_calls))

later_connected : connect later_client.unread true ≡ some []
unfolding connect_client close_client
later_connected = refl

late_read : read_frame late_frame ≡ some (late_frame, [])
unfolding read_frame
late_read = refl

abbrev late_adu : ApplicationDataUnit
late_adu = record {
  transaction_id = 6;
  protocol_id = 0;
  size = 5;
  slave_id = 1;
  pdu = record { function_code = 3; payload = 2 ∷ 0 ∷ 9 ∷ [] };
}

late_decoded : decode late_frame ≡ ok late_adu
unfolding decode
late_decoded = refl

send-late_example : (send later_client (delivering late_frame) 1 request).result ≢ ok late_adu.pdu
send-late_example =
    send-late timed_out_client later_client (delivering late_frame) 1 1 request [] late_frame []
      late_adu late_adu.pdu (omega arith) later_client-Calls (omega arith) later_connected late_read
      late_decoded refl

-- Two connections: on the first two requests arrive, on the second a byte that is no request. The
-- second is served between the two requests.
abbrev two_requests : Connection
two_requests = record {
  arrivals = map once (raw ∷ raw ∷ []);
  to_come = map once (raw ∷ raw ∷ []);
  sent = [];
  ending = waiting;
}

abbrev garbage : Connection
garbage = record {
  arrivals = once (9 ∷ []) ∷ [];
  to_come = once (9 ∷ []) ∷ [];
  sent = [];
  ending = waiting;
}

abbrev Server : Type 0
Server = Live (LocalSlave (Unit {0}))

abbrev serve_gateway : RequestHandler (LocalSlave (Unit {0}))
serve_gateway = handle_request gateway

interleaved :
    (live : Server) × (c : Connection) × Reached (some serve_gateway) fresh live
    × In c live.connections
    × (c.arrivals ≡ map once (raw ∷ raw ∷ []))
    × (c.to_come ≡ map once (raw ∷ []))
unfolding accept_round connection_round react dispatch respond response_pdu response_adu decode
    encode handle_request lookup local_send process handle_read_coils handle_read read_coils
interleaved = (
  _,
  _,
  next _ _
      (next _ _
        (next _ _
          (next _ _ (started _ refl) (accepts (connection (map once (raw ∷ raw ∷ []))) refl))
          (accepts (connection (once (9 ∷ []) ∷ [])) refl))
        (serves [] (garbage ∷ []) two_requests (once raw) (once raw ∷ []) refl refl refl))
      (serves (_ ∷ []) [] garbage (once (9 ∷ [])) [] refl refl refl),
  inl refl,
  refl,
  refl,
)

gateway-Answering_example :
    Answering serve_gateway (raw ∷ raw ∷ []) interleaved.1
    × ((interleaved.1.to_come ≡ []) ⊎ GoesOn serve_gateway interleaved.0 interleaved.1)
gateway-Answering_example =
    gateway-Answering gateway fresh interleaved.0 interleaved.1 (raw ∷ raw ∷ [])
      (send-Serves memory_storage, tt) tt interleaved.2 interleaved.3 interleaved.4
      ((raw-IsByte, omega arith, omega arith), ((raw-IsByte, omega arith, omega arith), tt))
