-- ===== src/Tcp/Server/Accepting.antt =====
-- transport/tcp/server.go: `Start`, and the connections that it serves side by side.
pub mod Answers
pub mod Progress
pub mod Alone
use modbus_gateway.Base.{
  ℕ, ◌≡◌, Bool, true, false, not, List, [], ◌∷◌, ◌++◌, if◌then◌else◌, Bytes, Outcome, ok, err,
  Option, some, none,
}
use modbus_gateway.Transport.{RequestHandler}
use modbus_gateway.Tcp.Server.{
  Arrival, cancelled, read_failed, chunk, Ending, waiting, closed, Reaction, ignore, close, crash,
  reply, react,
}

-- A connection: all that arrives on it, what of that is still to come, the responses written, and
-- how it stands.
pub record Connection : Type 0 where
  pub arrivals : List Arrival
  pub to_come : List Arrival
  pub sent : List Bytes
  pub ending : Ending

-- What `Accept` returns: a connection, or an error and whether the context is done.
pub data Accepted : Type 0 where
  connection : List Arrival → Accepted
  accept_failed : Bool → Accepted

-- The server: whether `Start` is still accepting, the connections that it accepted, and the state
-- behind the handler.
pub record Live (S : Type 0) : Type 0 where
  pub accepting : Bool
  pub connections : List Connection
  pub state : S

-- `Start` up to its loop, by whether `net.Listen` succeeds.
abbrev pub start : {S : Type 0} → Bool → S → Outcome (Unit {0}) (Live S)
start true s = ok (record { accepting = true; connections = []; state = s })
start false s = err tt

-- One round of the loop in `Start`.
unfoldable pub accept_round : {S : Type 0} → Live S → Accepted → Live S
accept_round live (connection arrivals) = record live {
  connections =
      live.connections
      ++ (record { arrivals = arrivals; to_come = arrivals; sent = []; ending = waiting } ∷ []);
}
accept_round live (accept_failed done) = record live { accepting = not done }

-- What a reaction makes of a connection, or that the process has panicked.
abbrev pub reacted : Connection → List Arrival → Bool → Reaction → Option Connection
reacted c rest writable ignore = some (record c { to_come = rest })
reacted c rest writable close = some (record c { to_come = rest; ending = closed })
reacted c rest writable crash = none
reacted c rest writable (reply raw) = some (
    if writable
    then record c { to_come = rest; sent = c.sent ++ (raw ∷ []) }
    else record c { to_come = rest; ending = closed })

module _ {S : Type 0} (handler : Option (RequestHandler S)) where
  -- One round of the loop of a connection, on what arrives next.
  unfoldable pub connection_round : Connection → List Arrival → S → Arrival → Option Connection × S
  connection_round c rest s cancelled = (some (record c { to_come = rest; ending = closed }), s)
  connection_round c rest s read_failed = (some (record c { to_come = rest; ending = closed }), s)
  connection_round c rest s (chunk buf writable) =
      let (reaction, s') = react handler s buf in (reacted c rest writable reaction, s')

  -- The server with a connection after a round.
  abbrev pub replaced :
      Live S → List Connection → List Connection → Option Connection × S → Option (Live S)
  replaced live front back (some c, s) =
      some (record live { connections = front ++ (c ∷ back); state = s })
  replaced live front back (none, s) = none

  -- One step of the process: the loop in `Start` goes on, or some open connection does. None is the
  -- end of the process by a panic.
  pub data Step (live : Live S) : Option (Live S) → Type 0 where
    accepts :
        (accepted : Accepted)
        → live.accepting ≡ true
        → Step live (some (accept_round live accepted))
    serves :
        (front back : List Connection) (c : Connection) (arrival : Arrival) (rest : List Arrival)
        → live.connections ≡ front ++ (c ∷ back)
        → c.ending ≡ waiting
        → c.to_come ≡ arrival ∷ rest
        → Step live (replaced live front back (connection_round c rest live.state arrival))

  -- What steps lead to, from the start of the server.
  pub data Reached (s : S) : Live S → Type 0 where
    started : (live : Live S) → start true s ≡ ok live → Reached s live
    next : (live later : Live S) → Reached s live → Step live (some later) → Reached s later
