-- ===== src/RtuOverTcp/Server/Rounds.antt =====
-- transport/rtu-over-tcp/server.go: one round of the loop on the frame of a request.
use modbus_gateway.Base.{
  true, suc, ◌-◌, ◌<◌, ◌≡◌, refl, sym, ap, ◌∙◌, [], ◌∷◌, ◌++◌, append_assoc, length, leb, Bytes,
  arith, List,
}
use modbus_gateway.Reads.{Incoming, First, idle, failed, nothing, one, read_first, full, fill}
use modbus_gateway.Reads.Contents.{Flows, contents, reads, fill-Takes, FirstOf, read_first-FirstOf}
use modbus_gateway.Rtu.Adu.{ApplicationDataUnit, decode, max_size}
use modbus_gateway.Rtu.Adu.RoundTrip.{frame}
use modbus_gateway.Rtu.Framed.{IsSent, IsSent-Framed, Framed, OnFrame}
use modbus_gateway.Rtu.Round.{Round, pending, stopped, crashed, again, request}
use modbus_gateway.RtuOverTcp.Server.{
  round, with_first, with_header, with_length, with_body, decoded,
}

with_first-OnFrame :
    (a : ApplicationDataUnit) (ys : Bytes) (incoming : List Incoming) (first : First)
    → Framed a
    → contents incoming ≡ frame a ++ ys
    → FirstOf incoming first
    → OnFrame a ys incoming (with_first first)
unfolding with_first with_header with_length with_body decoded
with_first-OnFrame a ys incoming idle f e h =
    let none_left = sym h ∙ e ∙ ap (λ (z : Bytes). z ++ ys) f.splits in cc
with_first-OnFrame a ys incoming (failed rest) f e h = h
with_first-OnFrame a ys incoming (nothing rest) f e h = h
with_first-OnFrame a ys incoming (one b rest) f e (flows, c, fewer) =
    let whole : b ∷ contents rest ≡ f.first ∷ (f.header ++ (f.rest ++ ys)) =
      c
      ∙ e
      ∙ ap (λ (z : Bytes). z ++ ys) f.splits
      ∙ ap (◌∷◌ f.first) (append_assoc f.header f.rest ys) in
    let same : b ≡ f.first = cc in
    let tail : contents rest ≡ f.header ++ (f.rest ++ ys) = cc in
    let t = fill-Takes rest f.header (f.rest ++ ys) flows tail in
    let u = fill-Takes t.rest f.rest ys t.flows t.leaves in
    let t_fills : fill 6 rest ≡ full f.header t.rest =
      ap (λ n. fill n rest) (sym f.header_size) ∙ t.fills in
    let u_fills : fill (length (frame a) - suc (length f.header)) t.rest ≡ full f.rest u.rest =
      ap (λ n. fill n t.rest) (omega (arith, f.size, f.header_size)) ∙ u.fills in
    let fits : leb (length (frame a)) max_size ≡ true = ground (arith, f.small) in
    let d = ap decode (sym f.splits) ∙ f.decodes in
    rw (same, t_fills)
      (rw f.computed
        (rw fits (rw u_fills (rw d (refl, u.flows, u.leaves, omega (arith, t.fewer, u.fewer))))))

-- On bytes that begin with the frame of a request a round has the request, or reads nothing.
pub round-OnFrame :
    (a : ApplicationDataUnit) (ys : Bytes) (incoming : List Incoming)
    → IsSent a
    → Flows incoming
    → contents incoming ≡ frame a ++ ys
    → OnFrame a ys incoming (round incoming)
unfolding round
round-OnFrame a ys incoming h flows e =
    with_first-OnFrame a ys incoming (read_first incoming) (IsSent-Framed a h) e
      (read_first-FirstOf incoming flows)

-- What a round comes to when no byte arrives: it waits, or only has had an empty `Read`.
abbrev pub OnNothing : List Incoming → Round → Type 0
OnNothing incoming pending = Unit
OnNothing incoming stopped = ⊥
OnNothing incoming crashed = ⊥
OnNothing incoming (again rest) =
    Flows rest × (contents rest ≡ contents incoming) × (reads rest < reads incoming)
OnNothing incoming (request adu rest) = ⊥

with_first-OnNothing :
    (incoming : List Incoming) (first : First)
    → contents incoming ≡ []
    → FirstOf incoming first
    → OnNothing incoming (with_first first)
unfolding with_first
with_first-OnNothing incoming idle e h = tt
with_first-OnNothing incoming (failed rest) e h = h
with_first-OnNothing incoming (nothing rest) e h = h
with_first-OnNothing incoming (one b rest) e h =
    let c : b ∷ contents rest ≡ [] = h.1 ∙ e in absurd (cc c)

pub round-OnNothing :
    (incoming : List Incoming)
    → Flows incoming
    → contents incoming ≡ []
    → OnNothing incoming (round incoming)
unfolding round
round-OnNothing incoming flows e =
    with_first-OnNothing incoming (read_first incoming) e (read_first-FirstOf incoming flows)
