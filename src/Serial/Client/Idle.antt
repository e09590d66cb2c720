-- ===== src/Serial/Client/Idle.antt =====
-- transport/rtu/serial.go: the idle timer of the port, over the calls that are made.
use modbus_gateway.Base.{
  ==_iff, ℕ, ◌+◌, ◌-◌, ◌≤◌, ◌<◌, ◌≡◌, ◌⊎◌, inl, inr, refl, Bool, true, false, Bytes, Bool-cases,
  leb, ◌==◌, if◌then◌else◌, arith, Outcome, ok, err, panic, Option, some, none,
}
use modbus_gateway.Pdu.{Pdu}
use modbus_gateway.Rtu.Adu.{ApplicationDataUnit, AduError, encode}
use modbus_gateway.Rtu.Framer.{FrameError, Reading, calculate_response_length}
use modbus_gateway.RtuOverTcp.Client.{request_adu}
use modbus_gateway.Serial.Port.{
  context_done, SerialPort, Access, ConnectError, opened, connect, close, start_close_timer,
  close_idle,
}
use modbus_gateway.Serial.Client.{
  Line, finish, after_delay, after_write, on_port, connected, transport, exchange, send,
}

-- The calls on the port, each of which holds the lock. The timer's call comes at any time, since it
-- may wait for the lock.
pub data Call (p : SerialPort) : SerialPort → Type 0 where
  sends : (line : Line) (id : ℕ) (req : Pdu) → Call p (send p line id req).after
  connects : (access : Access) → Call p (connect p access).0
  closes : Call p (close p)
  idles : (now : ℕ) → Call p (close_idle p now)

-- The ports that calls lead to, from one that was never used.
pub data Reached (idle_timeout : ℕ) : SerialPort → Type 0 where
  unused :
      Reached idle_timeout
        (record { idle_timeout = idle_timeout; port = none; last_activity = 0; close_timer = none })
  call : (p p' : SerialPort) → Reached idle_timeout p → Call p p' → Reached idle_timeout p'

-- A timer is set for the idle timeout after the last activity.
abbrev Timed : SerialPort → Type 0
Timed p =
    (p.close_timer ≡ none)
    ⊎ ((1 ≤ p.idle_timeout) × (p.close_timer ≡ some (p.last_activity + p.idle_timeout)))

finish-Timed : (p : SerialPort) (r : Reading) → Timed p → Timed (finish p r).after
finish-Timed p (ok raw, rest) t = t
finish-Timed p (err e, rest) t = t
finish-Timed p (panic, rest) t = t

after_delay-Timed :
    (p : SerialPort) (line : Line) (unread adu : Bytes) (d : Bool)
    → Timed p
    → Timed (after_delay p line unread adu d).after
after_delay-Timed p line unread adu true t = t
after_delay-Timed p line unread adu false t = finish-Timed p _ t

after_write-Timed :
    (p : SerialPort) (line : Line) (unread adu : Bytes) (o : Outcome FrameError ℕ)
    → Timed p
    → Timed (after_write p line unread adu o).after
after_write-Timed p line unread adu (ok n) t =
    after_delay-Timed p line unread adu line.done_waiting t
after_write-Timed p line unread adu (err e) t =
    after_delay-Timed p line unread adu line.done_waiting t
after_write-Timed p line unread adu panic t = t

either-Timed :
    (b : Bool) (x y : SerialPort)
    → (b ≡ true → Timed x)
    → (b ≡ false → Timed y)
    → Timed (if b then x else y)
either-Timed true x y h k = h refl
either-Timed false x y h k = k refl

on_port-Timed :
    (p : SerialPort) (line : Line) (adu : Bytes) (port : Option Bytes)
    → Timed p
    → Timed (on_port p line adu port).after
on_port-Timed p line adu none t = t
on_port-Timed p line adu (some unread) t = elim (Bool-cases line.writes) [
  | inl w ↦ simp (w) (after_write-Timed p line unread adu (calculate_response_length adu) t)
  | inr f ↦ simp (f) t
]

start_close_timer-Timed :
    (p : SerialPort) (now : ℕ)
    → Timed p
    → Timed (start_close_timer (record p { last_activity = now }) now)
unfolding start_close_timer
start_close_timer-Timed p now t =
    either-Timed (p.idle_timeout == 0) (record p { last_activity = now })
      (record p { last_activity = now; close_timer = some (now + p.idle_timeout) })
      (λ z. never t ((==_iff p.idle_timeout 0).0 z)) (λ n. inr (ground arith, refl))
  where
    never : Timed p → p.idle_timeout ≡ 0 → Timed (record p { last_activity = now })
    never (inl e) z = inl e
    never (inr (l, e)) z = absurd (omega arith)

opened-Timed : (p : SerialPort) (o : Bool) (x : Option Bytes) → Timed p → Timed (opened p o x).0
opened-Timed p o (some unread) t = t
opened-Timed p true none t = t
opened-Timed p false none t = t

connect-Timed : (p : SerialPort) (access : Access) → Timed p → Timed (connect p access).0
unfolding connect
connect-Timed p access t = go access.is_done
  where
    go : (d : Bool) → Timed (if d then (p, some context_done) else opened p access.opens p.port).0
    go true = t
    go false = opened-Timed p access.opens p.port t

connected-Timed :
    (line : Line) (adu : Bytes) (r : SerialPort × Option ConnectError)
    → Timed r.0
    → Timed (connected line adu r).after
connected-Timed line adu (p, some e) t = t
connected-Timed line adu (p, none) t =
    on_port-Timed (start_close_timer (record p { last_activity = line.now }) line.now) line adu _
      (start_close_timer-Timed p line.now t)

exchange-Timed :
    (p : SerialPort) (line : Line) (adu : ApplicationDataUnit) (o : Outcome AduError Bytes)
    → Timed p
    → Timed (exchange p line adu o).after
unfolding transport
exchange-Timed p line adu (err e) t = t
exchange-Timed p line adu panic t = t
exchange-Timed p line adu (ok raw) t =
    connected-Timed line raw (connect p line.access) (connect-Timed p line.access t)

close_idle-Timed : (p : SerialPort) (now : ℕ) → Timed p → Timed (close_idle p now)
unfolding close_idle close
close_idle-Timed p now t =
    either-Timed (p.idle_timeout == 0) p _ (λ z. t)
      (λ n. either-Timed (leb p.idle_timeout (now - p.last_activity)) _ p (λ l. t) (λ l. t))

Call-Timed : (p p' : SerialPort) → Call p p' → Timed p → Timed p'
unfolding send close
Call-Timed p p' (sends line id req) t =
    exchange-Timed p line (request_adu id req) (encode (request_adu id req)) t
Call-Timed p p' (connects access) t = connect-Timed p access t
Call-Timed p p' closes t = t
Call-Timed p p' (idles now) t = close_idle-Timed p now t

Reached-Timed : (timeout : ℕ) (p : SerialPort) → Reached timeout p → Timed p
Reached-Timed timeout p unused = inl refl
Reached-Timed timeout p (call p1 _ r c) = Call-Timed p1 p c (Reached-Timed timeout p1 r)

due_at :
    (p : SerialPort) (due : ℕ)
    → Timed p
    → p.close_timer ≡ some due
    → (1 ≤ p.idle_timeout) × (due ≡ p.last_activity + p.idle_timeout)
due_at p due (inl e) h = cc
due_at p due (inr (l, e)) h = (l, cc)

-- After any calls on a port that was never used, if its timer was started for a time, then the
-- timer's call closes the port at that time or later, and before it the call changes nothing: the
-- timer runs out behind the last activity and never earlier or in vain.
pub close_idle-due :
    (timeout due now : ℕ) (p : SerialPort)
    → Reached timeout p
    → p.close_timer ≡ some due
    → (due ≤ now → close_idle p now ≡ close p) × (now < due → close_idle p now ≡ p)
unfolding close_idle
close_idle-due timeout due now p r e =
    let (some_time, at) = due_at p due (Reached-Timed timeout p r) e in
    let on : (p.idle_timeout == 0) ≡ false = ground arith in
    (
      (λ l.
          (let idle : leb p.idle_timeout (now - p.last_activity) ≡ true = ground arith in
            simp (on, idle) refl)),
      λ l.
          (let busy : leb p.idle_timeout (now - p.last_activity) ≡ false = ground arith in
            simp (on, busy) refl),
    )
