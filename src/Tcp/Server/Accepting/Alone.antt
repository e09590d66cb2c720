-- ===== src/Tcp/Server/Accepting/Alone.antt =====
-- transport/tcp/server.go: the rounds of a connection that is served alone, against `handleConnection`.
use modbus_gateway.Base.{
  subst, if◌then◌else◌, ◌≡◌, refl, sym, ap, ◌∙◌, Bool, true, false, List, [], ◌∷◌, ◌++◌, append-nil,
  append_assoc, Bytes, Option, some, none,
}
use modbus_gateway.Transport.{RequestHandler}
use modbus_gateway.Tcp.Server.{
  Arrival, cancelled, read_failed, chunk, Ending, waiting, closed, crashed, Reaction, ignore, close,
  crash, reply, react, Served, handle_connection,
}
use modbus_gateway.Tcp.Server.Accepting.{Connection, reacted, connection_round}

module _ {S : Type 0} (handler : Option (RequestHandler S)) where
  -- All rounds of a connection, none of another in between, until it is closed.
  abbrev pub then_round :
      (Connection → S → Option Connection × S) → Ending → Connection → S → Option Connection × S
  then_round later waiting c s = later c s
  then_round later closed c s = (some c, s)
  then_round later crashed c s = (some c, s)

  abbrev pub then_rounds :
      (Connection → S → Option Connection × S) → Option Connection × S → Option Connection × S
  then_rounds later (some c, s) = then_round later c.ending c s
  then_rounds later (none, s) = (none, s)

  unfoldable pub rounds_alone : List Arrival → Connection → S → Option Connection × S
  unfolding connection_round
  rounds_alone [] c s = (some c, s)
  rounds_alone (arrival ∷ rest) c s =
      then_rounds (rounds_alone rest) (connection_round handler c rest s arrival)

  -- A connection and a state, as what `handleConnection` comes to.
  abbrev pub Comes : Connection → Served S → Option Connection × S → Type 0
  Comes c served (none, s) = (served.ending ≡ crashed) × (s ≡ served.state)
  Comes c served (some c', s) =
      (c'.sent ≡ c.sent ++ served.sent) × (c'.ending ≡ served.ending) × (s ≡ served.state)

  goes_on :
      (later : Connection → S → Option Connection × S) (c : Connection) (s : S)
      → c.ending ≡ waiting
      → then_round later c.ending c s ≡ later c s
  goes_on later c s w = ap (λ e. then_round later e c s) w

  shifted :
      (c : Connection) (sent : List Bytes) (raw : Bytes) (served : Served S)
      (o : Option Connection × S) (rest : List Arrival)
      → sent ≡ c.sent ++ (raw ∷ [])
      → Comes (record c { to_come = rest; sent = sent }) served o
      → Comes c (record served { sent = raw ∷ served.sent }) o
  shifted c sent raw served (none, t) rest e h = h
  shifted c sent raw served (some c', t) rest e (all, how, state) =
      (all ∙ ap (λ l. l ++ served.sent) e ∙ append_assoc c.sent (raw ∷ []) served.sent, how, state)

  -- The rounds of a connection that is served alone come to what `handleConnection` comes to: the
  -- same responses, the same state behind the handler, and the same end, a panic included.
  pub rounds_alone-handle_connection :
      (arrivals : List Arrival) (c : Connection) (s : S)
      → c.ending ≡ waiting
      → Comes c (handle_connection handler s arrivals) (rounds_alone arrivals c s)
  unfolding rounds_alone connection_round handle_connection
  rounds_alone-handle_connection [] c s w = (sym (append-nil c.sent), w, refl)
  rounds_alone-handle_connection (cancelled ∷ rest) c s w = (sym (append-nil c.sent), refl, refl)
  rounds_alone-handle_connection (read_failed ∷ rest) c s w = (sym (append-nil c.sent), refl, refl)
  rounds_alone-handle_connection (chunk buf writable ∷ rest) c s w =
      go (react handler s buf) writable (λ d t. rounds_alone-handle_connection rest d t)
    where
      go :
          (o : Reaction × S) (writable : Bool)
          → ((d : Connection) (t : S)
              → d.ending ≡ waiting
              → Comes d (handle_connection handler t rest) (rounds_alone rest d t))
          → Comes c
              (let later = handle_connection handler o.1 rest in
                elim o.0 [
                  | ignore ↦ later
                  | close ↦ record { sent = []; state = o.1; ending = closed }
                  | crash ↦ record { sent = []; state = o.1; ending = crashed }
                  | reply raw ↦
                      if writable
                      then record later { sent = raw ∷ later.sent }
                      else record { sent = []; state = o.1; ending = closed }
                ])
              (then_rounds (rounds_alone rest) (reacted c rest writable o.0, o.1))
      go (ignore, t) writable later =
          let next = record c { to_come = rest } in
          subst (Comes c (handle_connection handler t rest))
            (sym (goes_on (rounds_alone rest) next t w)) (later next t w)
      go (close, t) writable later = (sym (append-nil c.sent), refl, refl)
      go (crash, t) writable later = (refl, refl)
      go (reply raw, t) true later =
          let next = record c { to_come = rest; sent = c.sent ++ (raw ∷ []) } in
          let served = handle_connection handler t rest in
          subst (Comes c (record served { sent = raw ∷ served.sent }))
            (sym (goes_on (rounds_alone rest) next t w))
            (shifted c (c.sent ++ (raw ∷ [])) raw served (rounds_alone rest next t) rest refl
              (later next t w))
      go (reply raw, t) false later = (sym (append-nil c.sent), refl, refl)
