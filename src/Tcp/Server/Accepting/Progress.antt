-- ===== src/Tcp/Server/Accepting/Progress.antt =====
-- transport/tcp/server.go: the next round of a connection, whatever the other connections do.
use modbus_gateway.Base.{
  ◌≡◌, refl, sym, ap, subst, ◌⊎◌, inl, inr, true, ℕ, List, [], ◌∷◌, ◌++◌, map, Bytes, IsByte, All,
  some,
}
use modbus_gateway.Pdu.{Pdu, IsPdu}
use modbus_gateway.Transport.{RequestHandler}
use modbus_gateway.Gateway.Routing.Routed.{In}
use modbus_gateway.Tcp.Server.{Arrival, Reaction, waiting}
use modbus_gateway.Tcp.Server.Replies.{Sendable, IsFrame, react-IsAnswer}
use modbus_gateway.Tcp.Server.Accepting.{
  Connection, Live, reacted, connection_round, replaced, Step, serves, Reached,
}
use modbus_gateway.Tcp.Server.Accepting.Answers.{All-middle, request, Reached-Answering}

In-split :
    {A : Type 0} (x : A) (xs : List A)
    → In x xs
    → (front : List A) × (back : List A) × (xs ≡ front ++ (x ∷ back))
In-split x [] m = absurd m
In-split x (y ∷ xs) (inl e) = ([], xs, ap (λ z. z ∷ xs) (sym e))
In-split x (y ∷ xs) (inr m) =
    let (front, back, e) = In-split x xs m in (y ∷ front, back, ap (◌∷◌ y) e)

In-middle : {A : Type 0} (x : A) (front back : List A) → In x (front ++ (x ∷ back))
In-middle x [] back = inl refl
In-middle x (y ∷ front) back = inr (In-middle x front back)

module _ {S : Type 0} (h : RequestHandler S) where
  -- A step of the server that leaves the connection with one response more.
  abbrev pub GoesOn : Live S → Connection → Type 0
  GoesOn live c =
      (later : Live S) × (c' : Connection) × Step (some h) live (some later)
      × In c' later.connections
      × (c'.arrivals ≡ c.arrivals)
      × (raw : Bytes) × (c'.sent ≡ c.sent ++ (raw ∷ []))

  module _
      (good : (t : S) (id : ℕ) (req : Pdu) → IsByte id → IsPdu req → Sendable (h t id req).0) where
    serves_next :
        (live : Live S) (c : Connection) (buf : Bytes) (rest : List Arrival)
        → In c live.connections
        → IsFrame h buf
        → c.ending ≡ waiting
        → c.to_come ≡ request buf ∷ rest
        → GoesOn live c
    serves_next live c buf rest m (b, l, u) w e =
        let (front, back, at) = In-split c live.connections m in
        let (_, _, raw, _, _, reacts, _) =
          react-IsAnswer h live.state buf b l u (good live.state) in
        let now : Connection = record c { to_come = rest; sent = c.sent ++ (raw ∷ []) } in
        let result =
          ap
            (λ (p : Reaction × S). replaced (some h) live front back (reacted c rest true p.0, p.1))
            reacts in
        (
          _,
          now,
          subst (Step (some h) live) result
              (unfold connection_round in serves front back c (request buf) rest at w e),
          In-middle now front back,
          refl,
          raw,
          refl,
        )

    -- In a server that serves any number of connections, a connection on which requests arrive, one
    -- to a chunk and with responses that can be written, has nothing to come, or there is a step of
    -- the server that answers its next request.
    pub Reached-GoesOn :
        (s : S) (live : Live S) (c : Connection) (bufs : List Bytes)
        → Reached (some h) s live
        → In c live.connections
        → c.arrivals ≡ map request bufs
        → All (IsFrame h) bufs
        → (c.to_come ≡ []) ⊎ GoesOn live c
    Reached-GoesOn s live c bufs r m e frames =
        let (handled, later, split, coming, _, w) =
          Reached-Answering h good s live c bufs r m e frames in
        go handled later split coming w
      where
        go :
            (handled later : List Bytes)
            → bufs ≡ handled ++ later
            → c.to_come ≡ map request later
            → c.ending ≡ waiting
            → (c.to_come ≡ []) ⊎ GoesOn live c
        go handled [] split coming w = inl coming
        go handled (buf ∷ later) split coming w =
            let (_, frame, _) =
              All-middle (IsFrame h) handled later buf (subst (All (IsFrame h)) split frames) in
            inr (serves_next live c buf (map request later) m frame w coming)
