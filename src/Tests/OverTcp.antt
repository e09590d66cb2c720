-- ===== src/Tests/OverTcp.antt =====
-- transport/rtu-over-tcp on a concrete exchange.
use modbus_gateway.Base.{inl, inr, refl, ◌≡◌, [], ◌∷◌, ◌++◌, Bytes, arith, ok, some}
use modbus_gateway.Crc.{reset, push_bytes, push_byte, value}
use modbus_gateway.Pdu.{Pdu, IsPdu}
use modbus_gateway.Rtu.Adu.{ApplicationDataUnit, decode, encode, verify}
use modbus_gateway.Rtu.Adu.RoundTrip.{IsAdu, frame}
use modbus_gateway.Rtu.Framer.{timed_out, read_response}
use modbus_gateway.Rtu.Framer.Finds.{counted}
use modbus_gateway.RtuOverTcp.Client.{send, exchange, finish, response}
use modbus_gateway.RtuOverTcp.Client.Answered.{delivering, FromSlave, send-Answers, send-FromSlave}

-- The request to read a register, and an answer of slave 1 to it.
abbrev request : Pdu
request = record { function_code = 3; payload = 0 ∷ 0 ∷ 0 ∷ 1 ∷ [] }

abbrev answer : ApplicationDataUnit
answer = record {
  slave_id = 1;
  pdu = record { function_code = 3; payload = 2 ∷ 0 ∷ 7 ∷ [] };
  crc = record { high = 0; low = 0 };
}

abbrev raw : Bytes
raw = 1 ∷ 3 ∷ 2 ∷ 0 ∷ 7 ∷ 0xf9 ∷ 0x86 ∷ []

answer-frame : frame answer ≡ raw
unfolding frame reset push_bytes push_byte
answer-frame = refl

request-IsPdu : IsPdu request
request-IsPdu = record {
  code_byte = omega arith;
  payload_bytes = (omega arith, (omega arith, (omega arith, (omega arith, tt))));
}

answer-IsAdu : IsAdu answer
answer-IsAdu = record {
  slave_byte = omega arith;
  pdu_bytes = record {
    code_byte = omega arith;
    payload_bytes = (omega arith, (omega arith, (omega arith, tt)));
  };
}

send-Answers_example :
    send (some []) (delivering ((9 ∷ []) ++ (frame answer ++ (5 ∷ []))) timed_out) 1 request
    ≡ record { result = ok answer.pdu; unread = some (5 ∷ []) }
send-Answers_example =
    send-Answers request [] ((9 ∷ []) ++ (frame answer ++ (5 ∷ []))) (9 ∷ []) (5 ∷ []) answer
      timed_out request-IsPdu (omega arith) answer-IsAdu (omega arith) ((λ e. omega arith), tt)
      (counted 2 (0 ∷ 7 ∷ []) (inr (inr (inl refl))) refl refl refl (omega arith) (omega arith))
      refl

sent : (send (some []) (delivering raw timed_out) 1 request).result ≡ ok answer.pdu
unfolding send exchange finish response decode encode verify read_response value push_bytes
    push_byte reset
sent = refl

send-FromSlave_example : FromSlave 1 3 ([] ++ raw) answer.pdu
send-FromSlave_example =
    send-FromSlave (some []) (delivering raw timed_out) 1 request answer.pdu tt
      (
        omega arith,
        (
          omega arith,
          (omega arith, (omega arith, (omega arith, (omega arith, (omega arith, tt))))),
        ),
      )
      sent
