-- ===== src/Tests/Servers.antt =====
-- transport/rtu-over-tcp/server.go and transport/rtu on concrete requests.
use modbus_gateway.Tcp.Server.Replies.{Sendable}
use modbus_gateway.Base.{
  IsByte, some, ◌≤◌, ◌+◌, refl, ◌≡◌, ◌↔◌, ◌<◌, ℕ, List, [], ◌∷◌, ◌++◌, Bytes, true, false, arith,
  ok, inl, inr, panic, none,
}
use modbus_gateway.Crc.{reset, push_bytes, push_byte, value}
use modbus_gateway.Pdu.{Pdu, IsPdu}
use modbus_gateway.Transport.{RequestHandler}
use modbus_gateway.Reads.{Incoming, received, fault, fill, read_first}
use modbus_gateway.Rtu.Adu.{ApplicationDataUnit, decode, encode}
use modbus_gateway.Rtu.Adu.RoundTrip.{frame}
use modbus_gateway.Rtu.Framed.{IsSent}
use modbus_gateway.Rtu.Framer.{
  timed_out, calculate_request_length, calculate_response_length, response_length, read_response,
  read_loop,
}
use modbus_gateway.Rtu.Framer.Lengths.{IsCounted}
use modbus_gateway.RtuOverTcp.Server.{handle_connection, open_still, panicked}
use modbus_gateway.RtuOverTcp.Server.Serves.{replies, state_after, handle_connection-replies}
use modbus_gateway.RtuOverTcp.Server.Overflow.{handle_connection-panicked}
use modbus_gateway.Serial.Server.{
  scan_loop, scanning, round, with_first, header_read, with_header, with_length, with_body,
  with_frame, decoded,
}
use modbus_gateway.Serial.Server.{Scanned, job, respond}
use modbus_gateway.Serial.Server.Interleaved.{
  Running, launched, starts, handles, responds, Steps, none_yet, next, IsDone, IsQuiet, goroutine,
  view,
}
use modbus_gateway.Serial.Port.{SerialPort, connect, start_close_timer, close_idle, close}
use modbus_gateway.Serial.Client.{Line, send, transport}
use modbus_gateway.Serial.Client.Idle.{unused, call, sends, close_idle-due}
use modbus_gateway.Serial.Client.Answered.{Reaches, send-panic}

-- The request of a master to slave 1 to read a register.
abbrev read_one : ApplicationDataUnit
read_one = record {
  slave_id = 1;
  pdu = record { function_code = 3; payload = 0 ∷ 0 ∷ 0 ∷ 1 ∷ [] };
  crc = record { high = 0; low = 0 };
}

abbrev raw : Bytes
raw = 1 ∷ 3 ∷ 0 ∷ 0 ∷ 0 ∷ 1 ∷ 0x84 ∷ 0x0a ∷ []

read_one-IsSent : IsSent read_one
read_one-IsSent = record {
  bytes = record {
    slave_byte = omega arith;
    pdu_bytes = record {
      code_byte = omega arith;
      payload_bytes = (omega arith, (omega arith, (omega arith, (omega arith, tt))));
    };
  };
  fits = omega arith;
  sized = inl ((omega arith, omega arith), refl);
}

-- A slave that counts the requests, and answers each with the value 7.
abbrev counting : RequestHandler ℕ
counting n id req =
    (ok (record { function_code = req.function_code; payload = 2 ∷ 0 ∷ 7 ∷ [] }), n + 1)

-- Two requests, in pieces.
abbrev pieces : List Incoming
pieces =
    received (1 ∷ 3 ∷ 0 ∷ [])
    ∷ received []
    ∷ received (0 ∷ 0 ∷ 1 ∷ 0x84 ∷ 0x0a ∷ 1 ∷ 3 ∷ 0 ∷ 0 ∷ 0 ∷ [])
    ∷ received (1 ∷ 0x84 ∷ 0x0a ∷ [])
    ∷ []

counting-Sendable : (t id : ℕ) (req : Pdu) → IsByte id → IsPdu req → Sendable (counting t id req).0
counting-Sendable t id req b p = (
  record {
    code_byte = p.code_byte;
    payload_bytes = (omega arith, (omega arith, (omega arith, tt)));
  },
  omega arith,
)

handle_connection-replies_example : handle_connection counting (λ n. true) 30 5 pieces ≡ record {
  sent = replies counting 5 (read_one ∷ read_one ∷ []);
  state = state_after counting 5 (read_one ∷ read_one ∷ []);
  ending = open_still;
}
unfolding frame reset push_bytes push_byte
handle_connection-replies_example =
    handle_connection-replies counting (read_one ∷ read_one ∷ []) 30 5 pieces
      (read_one-IsSent, (read_one-IsSent, tt)) counting-Sendable tt refl (omega arith)

-- A write of 248 bytes of data is announced.
abbrev announced : List Incoming
announced = received (1 ∷ 16 ∷ 0 ∷ 0 ∷ 0 ∷ 124 ∷ 248 ∷ []) ∷ []

handle_connection-panicked_example :
    handle_connection counting (λ n. true) 9 5 announced
    ≡ record { sent = []; state = 5; ending = panicked }
handle_connection-panicked_example =
    handle_connection-panicked counting (λ n. true) 9 5 announced 1 16 0 0 0 124 248 [] (inr refl)
      (omega arith) tt refl (omega arith)

-- Two bytes of a frame, a timeout, and a whole frame: the frame is lost.
lost_behind_a_timeout :
    scan_loop 5 (received (1 ∷ 3 ∷ []) ∷ fault ∷ received raw ∷ [])
    ≡ record { dispatched = []; ending = scanning }
unfolding scan_loop round with_first header_read with_header with_length with_body with_frame
    decoded decode value reset push_bytes push_byte fill read_first calculate_request_length
lost_behind_a_timeout = refl

-- A serial port that is closed and opens.
abbrev closed_port : SerialPort
closed_port = record { idle_timeout = 60; port = none; last_activity = 0; close_timer = none }

abbrev quiet : Line
quiet = record {
  now = 100;
  access = record { is_done = false; opens = true };
  writes = true;
  done_waiting = false;
  received = [];
  stop = timed_out;
}

-- A read without data.
abbrev no_data : Pdu
no_data = record { function_code = 3; payload = [] }

send-panic_example :
    ((send closed_port quiet 1 no_data).result ≡ panic)
    ↔ (Reaches closed_port quiet × IsCounted 3 × (0 < 2))
send-panic_example =
    send-panic closed_port quiet 1 no_data tt tt (omega arith)
      (record { code_byte = omega arith; payload_bytes = tt })

-- So a read without data makes the process panic.
no_data-panic : (send closed_port quiet 1 no_data).result ≡ panic
no_data-panic =
    send-panic_example.1 ((refl, inl refl, refl), inl (omega arith, omega arith), omega arith)

-- The port after a call at time 100 that no slave answers.
abbrev used_port : SerialPort
used_port = (send closed_port quiet 1 read_one.pdu).after

used_port-close_timer : used_port.close_timer ≡ some 160
unfolding send transport connect start_close_timer encode value push_bytes push_byte reset
    calculate_response_length response_length read_response read_loop
used_port-close_timer = refl

close_idle-due_example :
    (160 ≤ 200 → close_idle used_port 200 ≡ close used_port)
    × (200 < 160 → close_idle used_port 200 ≡ used_port)
close_idle-due_example =
    close_idle-due 60 160 200 used_port
      (call closed_port used_port unused (sends quiet 1 read_one.pdu)) used_port-close_timer

-- Two requests whose goroutines take turns: the second is started behind the first one's call of the
-- handler, and the response to the second is written first.
abbrev two_found : Scanned
two_found = record { dispatched = (1, read_one.pdu) ∷ (1, read_one.pdu) ∷ []; ending = scanning }

-- What may come of the requests that the scan loop has found.
abbrev Quietly : Scanned → Type 0
Quietly x =
    (last : Running ℕ) × (steps : Steps counting (launched x 5) last) × IsQuiet counting
      (launched x 5) last steps
    × IsDone last

-- A handler that keeps the data of the requests it gets.
abbrev keeping : RequestHandler (List Bytes)
keeping kept id req = (ok req, kept ++ (req.payload ∷ []))

-- Two writes of a register, of register 1 and of register 2.
abbrev first_write : Pdu
first_write = record { function_code = 6; payload = 0 ∷ 1 ∷ 0 ∷ 7 ∷ [] }

abbrev second_write : Pdu
second_write = record { function_code = 6; payload = 0 ∷ 2 ∷ 0 ∷ 9 ∷ [] }

abbrev two_writes : Scanned
two_writes = record { dispatched = (1, first_write) ∷ (1, second_write) ∷ []; ending = scanning }

-- If the loop has read the second before the first one's goroutine calls the handler, the handler
-- gets the second write twice, and never the first.
second_twice :
    (last : Running (List Bytes)) × Steps keeping (launched two_writes []) last
    × IsDone last
    × (last.state ≡ second_write.payload ∷ second_write.payload ∷ [])
unfolding launched job view respond encode value push_bytes push_byte reset
second_twice = (
  _,
  next _ _
      (next _ _
        (next _ _
          (next _ _
            (next _ _
              (next _ _ none_yet
                (starts 1 first_write 0x99 0xc8 ((1, second_write) ∷ []) refl (omega arith)))
              (starts 1 second_write 0xe8 0x0c [] refl (omega arith)))
            (handles (goroutine (1, second_write) ∷ []) [] (goroutine (1, first_write)) refl))
          (handles [] [] (goroutine (1, second_write)) refl))
        (responds [] (_ ∷ []) _ refl))
      (responds [] [] _ refl),
  (refl, refl, refl),
  refl,
)
