-- ===== src/Serial/Server/Rounds.antt =====
-- transport/rtu/server.go: one round of the loop on the frame of a request, with anything behind it.
use modbus_gateway.Base.{
  ℕ, suc, ◌-◌, ◌<◌, ◌≡◌, refl, sym, ap, ◌∙◌, ◌∷◌, ◌++◌, append_assoc, length, length-append, leb,
  ltb, ◌==◌, true, false, Bytes, arith, List,
}
use modbus_gateway.Crc.{checksum}
use modbus_gateway.Reads.{Incoming, First, idle, failed, nothing, one, read_first, full, fill}
use modbus_gateway.Reads.Contents.{Flows, contents, reads, fill-Takes, FirstOf, read_first-FirstOf}
use modbus_gateway.Reads.Gaps.{fill-append, read_first-append, read_first_nothing-append}
use modbus_gateway.Rtu.Adu.{ApplicationDataUnit, decode, max_size}
use modbus_gateway.Rtu.Adu.RoundTrip.{frame, body}
use modbus_gateway.Rtu.Framed.{IsSent, IsSent-Framed, Framed}
use modbus_gateway.Rtu.Round.{Round, pending, stopped, crashed, again, request}
use modbus_gateway.Serial.Server.{
  round, with_first, header_read, with_header, with_length, with_body, with_frame, decoded,
}

-- What is left of a burst in front of what follows it.
pub record LeftOf (ys : Bytes) (burst tail rest : List Incoming) : Type 0 where
  pub left : List Incoming
  pub splits : rest ≡ left ++ tail
  pub flows : Flows left
  pub leaves : contents left ≡ ys
  pub fewer : reads left < reads burst

-- What a round comes to on a burst that begins with the frame: it has the request, or only an empty
-- `Read`.
abbrev pub OnBurst : ApplicationDataUnit → Bytes → List Incoming → List Incoming → Round → Type 0
OnBurst a ys burst tail (request adu rest) =
    (adu ≡ record a { crc = checksum (body a) }) × LeftOf ys burst tail rest
OnBurst a ys burst tail (again rest) = LeftOf (contents burst) burst tail rest
OnBurst a ys burst tail pending = ⊥
OnBurst a ys burst tail stopped = ⊥
OnBurst a ys burst tail crashed = ⊥

on_first :
    (a : ApplicationDataUnit) (ys : Bytes) (burst tail : List Incoming) (b : ℕ)
    (rest : List Incoming)
    → Framed a
    → contents burst ≡ frame a ++ ys
    → FirstOf burst (one b rest)
    → OnBurst a ys burst tail (with_first (one b (rest ++ tail)))
unfolding with_first header_read with_header with_length with_body with_frame decoded
on_first a ys burst tail b rest f e (flows, c, fewer) =
    let whole : b ∷ contents rest ≡ f.first ∷ (f.header ++ (f.rest ++ ys)) =
      c
      ∙ e
      ∙ ap (λ (z : Bytes). z ++ ys) f.splits
      ∙ ap (◌∷◌ f.first) (append_assoc f.header f.rest ys) in
    let same : b ≡ f.first = cc in
    let after : contents rest ≡ f.header ++ (f.rest ++ ys) = cc in
    let t = fill-Takes rest f.header (f.rest ++ ys) flows after in
    let u = fill-Takes t.rest f.rest ys t.flows t.leaves in
    let t_fills : fill 6 (rest ++ tail) ≡ full f.header (t.rest ++ tail) =
      ap (λ n. fill n (rest ++ tail)) (sym f.header_size)
      ∙ fill-append rest tail (length f.header) f.header t.rest t.fills in
    let u_fills : fill (length (frame a) - suc (length f.header)) (t.rest ++ tail)
        ≡ full f.rest (u.rest ++ tail) =
      ap (λ n. fill n (t.rest ++ tail)) (omega (arith, f.size, f.header_size))
      ∙ fill-append t.rest tail (length f.rest) f.rest u.rest u.fills in
    let long : ltb (suc (length f.header)) 2 ≡ false = ground (arith, f.header_size) in
    let fits : leb (length (frame a)) max_size ≡ true = ground (arith, f.small) in
    let exact : (suc (length (f.header ++ f.rest)) == length (frame a)) ≡ true =
      ground (arith, length-append f.header f.rest, f.header_size, f.size) in
    let d = ap decode (sym f.splits) ∙ f.decodes in
    rw (same, t_fills)
      (rw long (
        rw f.computed (
          rw fits (
            rw u_fills (
              rw exact (
                rw d (
                  refl,
                  record {
                    left = u.rest;
                    splits = refl;
                    flows = u.flows;
                    leaves = u.leaves;
                    fewer = omega (arith, t.fewer, u.fewer);
                  },
                )))))))

nothing_read :
    (burst tail rest : List Incoming)
    → Flows rest
    → contents rest ≡ contents burst
    → reads rest < reads burst
    → LeftOf (contents burst) burst tail (rest ++ tail)
nothing_read burst tail rest f c l = record {
  left = rest;
  splits = refl;
  flows = f;
  leaves = c;
  fewer = l;
}

-- On a burst that begins with the frame of a request a round has the request, or reads nothing.
pub round-OnBurst :
    (a : ApplicationDataUnit) (ys : Bytes) (burst tail : List Incoming)
    → IsSent a
    → Flows burst
    → contents burst ≡ frame a ++ ys
    → OnBurst a ys burst tail (round (burst ++ tail))
unfolding round
round-OnBurst a ys burst tail h flows e =
    go (read_first burst) refl (read_first-FirstOf burst flows)
  where
    go :
        (o : First)
        → read_first burst ≡ o
        → FirstOf burst o
        → OnBurst a ys burst tail (with_first (read_first (burst ++ tail)))
    go (one b rest) r f =
        rw (read_first-append burst tail b rest r)
          (on_first a ys burst tail b rest (IsSent-Framed a h) e f)
    go (nothing rest) r (fl, c, fewer) =
        rw (read_first_nothing-append burst tail rest r)
          (unfold with_first in nothing_read burst tail rest fl c fewer)
    go idle r f =
        absurd (let c = sym f ∙ e ∙ ap (λ (z : Bytes). z ++ ys) (IsSent-Framed a h).splits in cc)
    go (failed rest) r f = absurd f
