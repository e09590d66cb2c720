-- ===== src/RtuOverTcp/Server/Overflow.antt =====
-- transport/rtu-over-tcp/server.go: a header that announces more than the buffer holds.
use modbus_gateway.Base.{
  ℕ, zero, suc, ◌+◌, ◌<◌, ◌≡◌, refl, sym, ap, ◌∙◌, List, [], ◌∷◌, ◌++◌, length, leb, Bytes, false,
  arith, ok, Bool,
}
use modbus_gateway.Transport.{RequestHandler}
use modbus_gateway.Reads.{Incoming, First, idle, failed, nothing, one, read_first, full, fill}
use modbus_gateway.Reads.Contents.{Flows, contents, reads, fill-Takes, FirstOf, read_first-FirstOf}
use modbus_gateway.Rtu.Adu.{max_size}
use modbus_gateway.Rtu.Framer.{calculate_request_length}
use modbus_gateway.Rtu.Framer.Lengths.{IsMultiple}
use modbus_gateway.Rtu.Round.{Round, pending, stopped, crashed, again, request}
use modbus_gateway.RtuOverTcp.Server.{
  round, with_first, with_header, with_length, panicked, handle_connection,
}

-- What a round comes to on such a header: a panic, or only an empty `Read`.
abbrev OnOverflow : List Incoming → Round → Type 0
OnOverflow incoming crashed = Unit
OnOverflow incoming (again rest) =
    Flows rest × (contents rest ≡ contents incoming) × (reads rest < reads incoming)
OnOverflow incoming _ = ⊥

module _ (id code : ℕ) (header more : Bytes) (n : ℕ) (size : length header ≡ 5)
    (computed : calculate_request_length code (id ∷ code ∷ header) ≡ ok n) (large : 256 < n) where
  with_first-OnOverflow :
      (incoming : List Incoming) (first : First)
      → contents incoming ≡ id ∷ code ∷ (header ++ more)
      → FirstOf incoming first
      → OnOverflow incoming (with_first first)
  unfolding with_first with_header with_length
  with_first-OnOverflow incoming idle e h = let c = sym h ∙ e in cc
  with_first-OnOverflow incoming (failed rest) e h = h
  with_first-OnOverflow incoming (nothing rest) e h = h
  with_first-OnOverflow incoming (one b rest) e (flows, c, fewer) =
      let whole : b ∷ contents rest ≡ id ∷ code ∷ (header ++ more) = c ∙ e in
      let same : b ≡ id = cc in
      let tail : contents rest ≡ (code ∷ header) ++ more = cc in
      let t = fill-Takes rest (code ∷ header) more flows tail in
      let fills : fill 6 rest ≡ full (code ∷ header) t.rest =
        ap (λ k. fill k rest) (omega arith) ∙ t.fills in
      let beyond : leb n max_size ≡ false = ground arith in
      rw (same, fills) (rw computed (rw beyond tt))

  round-OnOverflow :
      (incoming : List Incoming)
      → Flows incoming
      → contents incoming ≡ id ∷ code ∷ (header ++ more)
      → OnOverflow incoming (round incoming)
  unfolding round
  round-OnOverflow incoming flows e =
      with_first-OnOverflow incoming (read_first incoming) e (read_first-FirstOf incoming flows)

  module _ {S : Type 0} (h : RequestHandler S) (writes : ℕ → Bool) where
    overflow_in :
        (rounds : ℕ) (s : S) (incoming : List Incoming)
        → Flows incoming
        → contents incoming ≡ id ∷ code ∷ (header ++ more)
        → reads incoming < rounds
        → handle_connection h writes rounds s incoming
          ≡ record { sent = []; state = s; ending = panicked }
    unfolding handle_connection
    overflow_in zero s incoming flows e enough = absurd (omega arith)
    overflow_in (suc rounds) s incoming flows e enough =
        go (round incoming) (overflow_in rounds s) refl (round-OnOverflow incoming flows e)
      where
        go :
            (o : Round)
            → ((rest : List Incoming)
                → Flows rest
                → contents rest ≡ id ∷ code ∷ (header ++ more)
                → reads rest < rounds
                → handle_connection h writes rounds s rest
                  ≡ record { sent = []; state = s; ending = panicked })
            → round incoming ≡ o
            → OnOverflow incoming o
            → handle_connection h writes (suc rounds) s incoming
              ≡ record { sent = []; state = s; ending = panicked }
        go crashed ih r o = rw (r, handle_connection) refl
        go (again rest) ih r (f, c, fewer) =
            rw (r, handle_connection) (ih rest f (c ∙ e) (omega arith))
        go pending ih r o = absurd o
        go stopped ih r o = absurd o
        go (request adu rest) ih r o = absurd o

long_length :
    (id code q0 q1 q2 q3 n : ℕ)
    → IsMultiple code
    → calculate_request_length code (id ∷ code ∷ q0 ∷ q1 ∷ q2 ∷ q3 ∷ n ∷ []) ≡ ok (7 + n + 2)
unfolding calculate_request_length
long_length id code q0 q1 q2 q3 n m = ground arith

-- A connection on which a multiple write begins whose count of bytes is above 247 makes the process
-- panic, whatever its checksum, with the bytes grouped in any way, if no `Read` fails and the context
-- is not done first.
pub handle_connection-panicked :
    {S : Type 0} (h : RequestHandler S) (writes : ℕ → Bool) (rounds : ℕ) (s : S)
    (incoming : List Incoming) (id code q0 q1 q2 q3 n : ℕ) (more : Bytes)
    → IsMultiple code
    → 247 < n
    → Flows incoming
    → contents incoming ≡ id ∷ code ∷ q0 ∷ q1 ∷ q2 ∷ q3 ∷ n ∷ more
    → reads incoming < rounds
    → handle_connection h writes rounds s incoming
      ≡ record { sent = []; state = s; ending = panicked }
handle_connection-panicked h writes rounds s incoming id code q0 q1 q2 q3 n more m large =
    overflow_in id code (q0 ∷ q1 ∷ q2 ∷ q3 ∷ n ∷ []) more (7 + n + 2) refl
      (long_length id code q0 q1 q2 q3 n m) (omega arith) h writes rounds s incoming
