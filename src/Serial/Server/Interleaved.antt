-- ===== src/Serial/Server/Interleaved.antt =====
-- transport/rtu/server.go: the goroutines that the scan loop starts, in any order of their steps, and
-- the one buffer that the loop reads into. A goroutine takes two steps: the call of the handler, and
-- the write to the port. The data of its request are a slice of the buffer, so the handler gets what
-- the buffer holds at its call.
pub mod Sequential
use modbus_gateway.Base.{
  ℕ, ◌+◌, ◌≤◌, ◌≡◌, List, [], ◌∷◌, ◌++◌, take, drop, replicate, length, Bytes, Option, some, none,
}
use modbus_gateway.Pdu.{Pdu}
use modbus_gateway.Rtu.Adu.{max_size}
use modbus_gateway.Transport.{RequestHandler}
use modbus_gateway.Serial.Server.{Job, silent, writes, panics, job, Scanned}

-- A goroutine that has not called the handler: the slave, the function code, and the size of the
-- slice that its PDU has for data.
pub record Goroutine : Type 0 where
  pub slave_id : ℕ
  pub function_code : ℕ
  pub size : ℕ

-- The goroutines of the server, the buffer and what the port has taken: the requests for which a
-- goroutine is still to be started, those whose goroutine has not called the handler, the responses
-- that are encoded and not written, and those that are written, oldest first.
pub record Running (S : Type 0) : Type 0 where
  pub to_start : List (ℕ × Pdu)
  pub started : List Goroutine
  pub buffer : Bytes
  pub to_write : List Bytes
  pub written : List Bytes
  pub state : S

-- At the first request that the scan loop finds.
unfoldable pub launched : {S : Type 0} → Scanned → S → Running S
launched scanned s = record {
  to_start = scanned.dispatched;
  started = [];
  buffer = replicate max_size 0;
  to_write = [];
  written = [];
  state = s;
}

-- What a `Read` leaves in the buffer that puts these bytes at `at`.
abbrev pub overwritten : ℕ → Bytes → Bytes → Bytes
overwritten at bytes buffer = take at buffer ++ (bytes ++ drop (at + length bytes) buffer)

-- The request that a goroutine sees: its data are the buffer from the third byte on.
unfoldable pub view : Bytes → Goroutine → ℕ × Pdu
view buffer g =
    (g.slave_id, record { function_code = g.function_code; payload = take g.size (drop 2 buffer) })

abbrev pub goroutine : ℕ × Pdu → Goroutine
goroutine (id, req) = record {
  slave_id = id;
  function_code = req.function_code;
  size = length req.payload;
}

-- What is encoded after the handler's call, or that the process has panicked.
abbrev pub handled : {S : Type 0} → Running S → List Goroutine → Job × S → Option (Running S)
handled r others (writes raw, s) =
    some (record r { started = others; to_write = raw ∷ r.to_write; state = s })
handled r others (silent, s) = some (record r { started = others; state = s })
handled r others (panics, s) = none

module _ {S : Type 0} (h : RequestHandler S) where
  -- One step of the process: the scan loop reads bytes into the buffer, or it has read the frame of
  -- the next request, with any two bytes for the checksum, and starts its goroutine, or some goroutine
  -- calls the handler or writes. None is the end of the process by a panic.
  pub data Step (r : Running S) : Option (Running S) → Type 0 where
    reads :
        (at : ℕ) (bytes : Bytes)
        → at + length bytes ≤ max_size
        → Step r (some (record r { buffer = overwritten at bytes r.buffer }))
    starts :
        (id : ℕ) (req : Pdu) (lo hi : ℕ) (later : List (ℕ × Pdu))
        → r.to_start ≡ (id, req) ∷ later
        → length req.payload + 4 ≤ max_size
        → Step r (
            some (record r {
              to_start = later;
              started = goroutine (id, req) ∷ r.started;
              buffer =
                  overwritten 0 (id ∷ req.function_code ∷ (req.payload ++ (lo ∷ hi ∷ []))) r.buffer;
            }))
    handles :
        (front back : List Goroutine) (g : Goroutine)
        → r.started ≡ front ++ (g ∷ back)
        → Step r (handled r (front ++ back) (job h r.state (view r.buffer g)))
    responds :
        (front back : List Bytes) (raw : Bytes)
        → r.to_write ≡ front ++ (raw ∷ back)
        → Step r (some (record r { to_write = front ++ back; written = r.written ++ (raw ∷ []) }))

  -- Any number of steps.
  pub data Steps (r : Running S) : Running S → Type 0 where
    none_yet : Steps r r
    next : (mid last : Running S) → Steps r mid → Step mid (some last) → Steps r last

module _ {S : Type 0} where
  abbrev pub OnSome : (Running S → Type 0) → Option (Running S) → Type 0
  OnSome P (some r) = P r
  OnSome P none = Unit

  -- No goroutine is left to start, and none has work left.
  abbrev pub IsDone : Running S → Type 0
  IsDone r = (r.to_start ≡ []) × (r.started ≡ []) × (r.to_write ≡ [])

module _ {S : Type 0} (h : RequestHandler S) where
  -- The loop reads only while no goroutine is between its start and the return of the handler.
  abbrev pub IsQuietStep : (r : Running S) (o : Option (Running S)) → Step h r o → Type 0
  IsQuietStep r _ (reads at bytes f) = r.started ≡ []
  IsQuietStep r _ (starts id req lo hi later e f) = r.started ≡ []
  IsQuietStep r _ (handles front back g e) = Unit
  IsQuietStep r _ (responds front back raw e) = Unit

  abbrev pub IsQuiet : (r last : Running S) → Steps h r last → Type 0
  IsQuiet r _ none_yet = Unit
  IsQuiet r _ (next mid last before step) = IsQuiet r mid before × IsQuietStep mid (some last) step
