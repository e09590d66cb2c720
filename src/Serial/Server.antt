-- ===== src/Serial/Server.antt =====
-- transport/rtu/server.go: the scan loop of the RTU server, and what it starts for each request.
pub mod Rounds
pub mod Dispatches
pub mod Interleaved
pub mod Answers
use modbus_gateway.Base.{
  ℕ, zero, suc, ◌+◌, ◌-◌, List, [], ◌∷◌, ◌++◌, get_or, length, Bytes, leb, ltb, ◌==◌, if◌then◌else◌,
  Outcome, ok, err, panic,
}
use modbus_gateway.Pdu.{Pdu}
use modbus_gateway.Crc.{Crc}
use modbus_gateway.Transport.{GoError, RequestHandler}
use modbus_gateway.Rtu.Adu.{ApplicationDataUnit, AduError, max_size, decode, encode}
use modbus_gateway.Rtu.Framer.{FrameError, calculate_request_length}
use modbus_gateway.Rtu.Round.{Round, pending, stopped, crashed, again, request}
use modbus_gateway.Reads.{
  Incoming, First, idle, failed, nothing, one, read_first, Filled, blocked, faulted, full, fill,
}

unfoldable pub decoded : List Incoming → Outcome AduError ApplicationDataUnit → Round
decoded rest (ok adu) = request adu rest
decoded rest (err e) = again rest
decoded rest panic = crashed

-- The check of the length reached, and what follows it.
unfoldable pub with_frame : ℕ → Bytes → List Incoming → Round
unfolding decoded
with_frame expected_len frame rest =
    if length frame == expected_len then decoded rest (decode frame) else again rest

-- The reading of what remains. A fault ends it, and the bytes read so far are kept.
unfoldable pub with_body : ℕ → Bytes → Filled → Round
unfolding with_frame
with_body expected_len header blocked = pending
with_body expected_len header (faulted bs rest) = with_frame expected_len (header ++ bs) rest
with_body expected_len header (full bs rest) = with_frame expected_len (header ++ bs) rest

-- From the expected length on. `buf[current:expectedLen]` panics beyond the 256 bytes of `buf`.
unfoldable pub with_length : Bytes → List Incoming → Outcome FrameError ℕ → Round
unfolding with_body
with_length header rest (ok expected_len) =
    if leb expected_len max_size
    then with_body expected_len header (fill (expected_len - length header) rest)
    else crashed
with_length header rest (err e) = again rest
with_length header rest panic = crashed

-- The header as far as it was read, of seven bytes or up to a fault.
unfoldable pub with_header : Bytes → List Incoming → Round
unfolding with_length
with_header header rest =
    if ltb (length header) 2
    then again rest
    else with_length header rest (calculate_request_length (get_or header 1 0) header)

unfoldable pub header_read : ℕ → Filled → Round
unfolding with_header
header_read b blocked = pending
header_read b (faulted bs rest) = with_header (b ∷ bs) rest
header_read b (full bs rest) = with_header (b ∷ bs) rest

unfoldable pub with_first : First → Round
unfolding header_read
with_first idle = pending
with_first (failed rest) = again rest
with_first (nothing rest) = again rest
with_first (one b rest) = header_read b (fill 6 rest)

-- One round of the loop, up to the start of the goroutine.
unfoldable pub round : List Incoming → Round
unfolding with_first
round incoming = with_first (read_first incoming)

-- How the loop stands: waiting for more, returned, or the process has panicked.
pub data Ending : Type 0 where
  scanning returned panicked : Ending

-- What the loop comes to: the requests for which a goroutine is started, in order.
pub record Scanned : Type 0 where
  pub dispatched : List (ℕ × Pdu)
  pub ending : Ending

-- `scanLoop`, by the rounds until the context is done.
unfoldable pub scan_loop : ℕ → List Incoming → Scanned
unfolding round
scan_loop zero incoming = record { dispatched = []; ending = returned }
scan_loop (suc rounds) incoming = elim (round incoming) [
  | pending ↦ record { dispatched = []; ending = scanning }
  | stopped ↦ record { dispatched = []; ending = returned }
  | crashed ↦ record { dispatched = []; ending = panicked }
  | again rest ↦ scan_loop rounds rest
  | request adu rest ↦
      let later = scan_loop rounds rest in
      record later { dispatched = (adu.slave_id, adu.pdu) ∷ later.dispatched }
]

-- What a goroutine does: it writes nothing, it writes a response, or it panics.
pub data Job : Type 0 where
  silent : Job
  writes : Bytes → Job
  panics : Job

abbrev pub encoded : Outcome AduError Bytes → Job
encoded (ok raw) = writes raw
encoded (err e) = silent
encoded panic = panics

-- The goroutine behind the handler's return.
unfoldable pub respond : ℕ → Outcome GoError Pdu → Job
respond id (ok resp) =
    encoded (encode (record { slave_id = id; pdu = resp; crc = record { high = 0; low = 0 } }))
respond id (err e) = silent
respond id panic = panics

-- The goroutine for a request.
unfoldable pub job : {S : Type 0} → RequestHandler S → S → ℕ × Pdu → Job × S
unfolding respond
job h s (id, req) = let (result, s') = h s id req in (respond id result, s')
