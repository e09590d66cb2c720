-- ===== src/Tcp/Server/Accepting/Answers.antt =====
-- transport/tcp/server.go: the responses on a connection, whatever the other connections do.
use modbus_gateway.Base.{
  inl, inr, ℕ, ◌≡◌, refl, sym, ap, subst, ◌∙◌, Bool, true, false, List, [], ◌∷◌, ◌++◌, map,
  append_assoc, Bytes, IsByte, All, All-append, Outcome, ok, Option, some, none,
}
use modbus_gateway.Pdu.{Pdu, IsPdu}
use modbus_gateway.Transport.{RequestHandler}
use modbus_gateway.Gateway.Routing.Routed.{In}
use modbus_gateway.Tcp.Adu.{ApplicationDataUnit, decode}
use modbus_gateway.Tcp.Server.{
  Arrival, cancelled, read_failed, chunk, waiting, Reaction, ignore, close, crash, reply, react,
}
use modbus_gateway.Tcp.Server.Replies.{Sendable, IsAnswer, AnswersInOrder, IsFrame, react-IsAnswer}
use modbus_gateway.Tcp.Server.Accepting.{
  Connection, Accepted, connection, accept_failed, Live, accept_round, reacted, connection_round,
  replaced, Step, accepts, serves, Reached, started, next,
}

module _ {ℓ κ} {A : Type ℓ} (P : A → Type κ) where
  pub All-middle :
      (front back : List A) (x : A) → All P (front ++ (x ∷ back)) → All P front × P x × All P back
  All-middle [] back x (h, hs) = (tt, h, hs)
  All-middle (y ∷ front) back x (h, hs) =
      let (a, b, c) = All-middle front back x hs in ((h, a), b, c)

  replace_middle :
      (front back : List A) (x y : A)
      → All P (front ++ (x ∷ back))
      → P y
      → All P (front ++ (y ∷ back))
  replace_middle front back x y h k =
      let (a, _, c) = All-middle front back x h in All-append P front (y ∷ back) a (k, c)

-- A chunk whose response can be written.
abbrev pub request : Bytes → Arrival
request b = chunk b true

module _ {S : Type 0} (h : RequestHandler S) where
  AnswersInOrder-snoc :
      (qs rs : List Bytes) (q r : Bytes)
      → AnswersInOrder h qs rs
      → ((adu : ApplicationDataUnit) × (resp : Pdu) × (decode q ≡ ok adu) × IsAnswer adu resp r)
      → AnswersInOrder h (qs ++ (q ∷ [])) (rs ++ (r ∷ []))
  AnswersInOrder-snoc [] [] q r a k = (k, tt)
  AnswersInOrder-snoc [] (x ∷ rs) q r a k = absurd a
  AnswersInOrder-snoc (y ∷ qs) [] q r a k = absurd a
  AnswersInOrder-snoc (y ∷ qs) (x ∷ rs) q r (a, as_well) k =
      (a, AnswersInOrder-snoc qs rs q r as_well k)

  -- A connection on which the requests `bufs` arrive has answered some of them, the others are still
  -- to come, and it is open.
  abbrev pub Answering : List Bytes → Connection → Type 0
  Answering bufs c =
      (handled : List Bytes) × (later : List Bytes) × (bufs ≡ handled ++ later)
      × (c.to_come ≡ map request later)
      × AnswersInOrder h handled c.sent
      × (c.ending ≡ waiting)

  abbrev Kept : Connection → Type 0
  Kept c =
      (bufs : List Bytes) → c.arrivals ≡ map request bufs → All (IsFrame h) bufs → Answering bufs c

  arrivals_of : {c c' : Connection} → some c' ≡ some c → c'.arrivals ≡ c.arrivals
  arrivals_of {c} e =
      ap (λ (o : Option Connection). elim o [ some x ↦ x.arrivals | none ↦ c.arrivals ]) e

  module _
      (good : (t : S) (id : ℕ) (req : Pdu) → IsByte id → IsPdu req → Sendable (h t id req).0) where
    answered :
        (c c' : Connection) (buf : Bytes) (rest : List Arrival) (s s' : S)
        (bufs handled later : List Bytes)
        → IsFrame h buf
        → bufs ≡ handled ++ (buf ∷ later)
        → rest ≡ map request later
        → AnswersInOrder h handled c.sent
        → c.ending ≡ waiting
        → connection_round (some h) c rest s (request buf) ≡ (some c', s')
        → Answering bufs c'
    unfolding connection_round
    answered c c' buf rest s s' bufs handled later (b, l, u) e r a w k =
        let (adu, resp, raw, d, _, reacts, is_answer) = react-IsAnswer h s buf b l u (good s) in
        let now : Connection = record c { to_come = rest; sent = c.sent ++ (raw ∷ []) } in
        let same : some now ≡ some c' =
          sym (ap (λ (p : Reaction × S). reacted c rest true p.0) reacts)
          ∙ ap (λ (p : Option Connection × S). p.0) k in
        let it : now ≡ c' = cc in
        subst (Answering bufs) it (
          handled ++ (buf ∷ []),
          later,
          e ∙ sym (append_assoc handled (buf ∷ []) later),
          r,
          AnswersInOrder-snoc handled c.sent buf raw a (adu, resp, d, is_answer),
          w,
        )

    reacted-arrivals :
        (c c' : Connection) (rest : List Arrival) (writable : Bool) (reaction : Reaction)
        → reacted c rest writable reaction ≡ some c'
        → c'.arrivals ≡ c.arrivals
    reacted-arrivals c c' rest writable ignore e = arrivals_of (sym e)
    reacted-arrivals c c' rest writable close e = arrivals_of (sym e)
    reacted-arrivals c c' rest writable crash e = cc
    reacted-arrivals c c' rest true (reply raw) e = arrivals_of (sym e)
    reacted-arrivals c c' rest false (reply raw) e = arrivals_of (sym e)

    connection_round-arrivals :
        (c c' : Connection) (arrival : Arrival) (rest : List Arrival) (s s' : S)
        → connection_round (some h) c rest s arrival ≡ (some c', s')
        → c'.arrivals ≡ c.arrivals
    unfolding connection_round
    connection_round-arrivals c c' cancelled rest s s' e = arrivals_of (sym (ap (λ x. x.0) e))
    connection_round-arrivals c c' read_failed rest s s' e = arrivals_of (sym (ap (λ x. x.0) e))
    connection_round-arrivals c c' (chunk buf writable) rest s s' e =
        reacted-arrivals c c' rest writable (react (some h) s buf).0 (ap (λ x. x.0) e)

    connection_round-Kept :
        (c c' : Connection) (arrival : Arrival) (rest : List Arrival) (s s' : S)
        → Kept c
        → c.to_come ≡ arrival ∷ rest
        → connection_round (some h) c rest s arrival ≡ (some c', s')
        → Kept c'
    connection_round-Kept c c' arrival rest s s' k e r bufs f frames =
        let (handled, later, split, coming, a, w) =
          k bufs (sym (connection_round-arrivals c c' arrival rest s s' r) ∙ f) frames in
        go handled later split (sym e ∙ coming) a w
      where
        go :
            (handled later : List Bytes)
            → bufs ≡ handled ++ later
            → arrival ∷ rest ≡ map request later
            → AnswersInOrder h handled c.sent
            → c.ending ≡ waiting
            → Answering bufs c'
        go handled [] split coming a w = cc
        go handled (buf ∷ later) split coming a w =
            let is_request : arrival ≡ request buf = cc in
            let others : rest ≡ map request later = cc in
            let (_, frame, _) =
              All-middle (IsFrame h) handled later buf (subst (All (IsFrame h)) split frames) in
            answered c c' buf rest s s' bufs handled later frame split others a w
              (ap (λ x. connection_round (some h) c rest s x) (sym is_request) ∙ r)

    replaced-Kept :
        (live later : Live S) (front back : List Connection) (c : Connection) (arrival : Arrival)
        (rest : List Arrival) (o : Option Connection × S)
        → connection_round (some h) c rest live.state arrival ≡ o
        → c.to_come ≡ arrival ∷ rest
        → All Kept (front ++ (c ∷ back))
        → replaced (some h) live front back o ≡ some later
        → All Kept later.connections
    replaced-Kept live later front back c arrival rest (none, s') r e k q = cc
    replaced-Kept live later front back c arrival rest (some c', s') r e k q =
        let (_, it, _) = All-middle Kept front back c k in
        subst (λ (o : Option (Live S)). All Kept (elim o [ some l ↦ l.connections | none ↦ [] ])) q
          (replace_middle Kept front back c c' k
            (connection_round-Kept c c' arrival rest live.state s' it e r))

    accept_round-Kept :
        (live : Live S) (accepted : Accepted)
        → All Kept live.connections
        → All Kept (accept_round live accepted).connections
    unfolding accept_round
    accept_round-Kept live (accept_failed done) k = k
    accept_round-Kept live (connection arrivals) k =
        All-append Kept live.connections _ k ((λ bufs e frames. ([], bufs, refl, e, tt, refl)), tt)

    Step-Kept :
        (live : Live S) (o : Option (Live S)) (later : Live S)
        → Step (some h) live o
        → o ≡ some later
        → All Kept live.connections
        → All Kept later.connections
    Step-Kept live o later (accepts accepted listens) e k =
        subst (λ (o : Option (Live S)). All Kept (elim o [ some l ↦ l.connections | none ↦ [] ])) e
          (accept_round-Kept live accepted k)
    Step-Kept live o later (serves front back c arrival rest at w t) e k =
        replaced-Kept live later front back c arrival rest _ refl t (subst (All Kept) at k) e

    Reached-Kept : (s : S) (live : Live S) → Reached (some h) s live → All Kept live.connections
    Reached-Kept s live (started _ e) =
        subst
          (λ (o : Outcome (Unit {0}) (Live S)). All Kept (elim o [ ok l ↦ l.connections | _ ↦ [] ]))
          e tt
    Reached-Kept s live (next before _ r step) =
        Step-Kept before (some live) live step refl (Reached-Kept s before r)

    All-In : (cs : List Connection) (c : Connection) → All Kept cs → In c cs → Kept c
    All-In (x ∷ cs) c k (inl e) = subst Kept (sym e) k.0
    All-In (x ∷ cs) c k (inr m) = All-In cs c k.1 m
    All-In [] c k m = absurd m

    -- In a server that serves any number of connections, whose rounds take turns in any way and share
    -- the state behind the handler, a connection on which requests arrive, one to a chunk and with
    -- responses that can be written, has at any time answered the first of them, each once, in order
    -- and under its transaction, the others are still to come, and it is open, whatever
    -- arrives on the others.
    pub Reached-Answering :
        (s : S) (live : Live S) (c : Connection) (bufs : List Bytes)
        → Reached (some h) s live
        → In c live.connections
        → c.arrivals ≡ map request bufs
        → All (IsFrame h) bufs
        → Answering bufs c
    Reached-Answering s live c bufs r m e frames =
        All-In live.connections c (Reached-Kept s live r) m bufs e frames
