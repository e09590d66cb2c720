-- ===== src/Transport.antt =====
-- transport/transport.go: requests and their handler, and the errors that travel with them.
use modbus_gateway.Base.{ℕ, Bool, Outcome}
use modbus_gateway.Pdu.{Pdu}
use Prim.Native.String.{String}

-- A Go error, as the program looks at it: whether `errors.Is` finds `context.DeadlineExceeded` in
-- it, and its text.
pub record GoError : Type 0 where
  pub is_deadline_exceeded : Bool
  pub text : String

-- `RequestHandler`, on a state `S` of what lies behind it: the slave, the request, and the response
-- or error with the state after it.
abbrev pub RequestHandler : Type 0 → Type 0
RequestHandler S = S → ℕ → Pdu → Outcome GoError Pdu × S
