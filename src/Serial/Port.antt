-- ===== src/Serial/Port.antt =====
-- transport/rtu/serial.go: the serial port of the RTU client. Time is in the units of the clock that
-- `time.Now` reads; a timeout of 0 stands for one that is not positive.
use modbus_gateway.Base.{ℕ, ◌+◌, ◌-◌, [], Bytes, Bool, leb, ◌==◌, if◌then◌else◌, Option, some, none}

-- `serialPort`: for an open port the bytes that have arrived and are not read, and for a timer that
-- was started the time at which it fires.
pub record SerialPort : Type 0 where
  pub idle_timeout : ℕ
  pub port : Option Bytes
  pub last_activity : ℕ
  pub close_timer : Option ℕ

pub data ConnectError : Type 0 where
  context_done could_not_open : ConnectError

-- What `connect` meets: whether the context is done, and whether the port can be opened.
pub record Access : Type 0 where
  pub is_done : Bool
  pub opens : Bool

-- `connect` behind the check of the context.
abbrev pub opened : SerialPort → Bool → Option Bytes → SerialPort × Option ConnectError
opened p opens (some unread) = (p, none)
opened p opens none =
    if opens then (record p { port = some [] }, none) else (p, some could_not_open)

-- `connect`, with the port after it and the error there may be. `Connect` is its call under the
-- lock.
unfoldable pub connect : SerialPort → Access → SerialPort × Option ConnectError
connect p access = if access.is_done then (p, some context_done) else opened p access.opens p.port

-- `close`, and `Close`, its call under the lock. The error of the port's own `Close` is not modelled.
unfoldable pub close : SerialPort → SerialPort
close p = record p { port = none }

-- `startCloseTimer`: a timer that was started is set again.
unfoldable pub start_close_timer : SerialPort → ℕ → SerialPort
start_close_timer p now =
    if p.idle_timeout == 0 then p else record p { close_timer = some (now + p.idle_timeout) }

-- `closeIdle`, which the timer calls.
unfoldable pub close_idle : SerialPort → ℕ → SerialPort
unfolding close
close_idle p now =
    if p.idle_timeout == 0
    then p
    else if leb p.idle_timeout (now - p.last_activity)
    then close p
    else p
