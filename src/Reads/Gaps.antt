-- ===== src/Reads/Gaps.antt =====
-- Reads on what arrives before a gap.
use modbus_gateway.Base.{
  ℕ, zero, suc, ◌+◌, ◌-◌, ◌≡◌, refl, sym, ap, ◌∙◌, List, [], ◌∷◌, ◌++◌, length, take, drop, Bytes,
  leb, Bool-cases, inl, inr, arith,
}
use modbus_gateway.Reads.{
  Incoming, received, fault, nothing, one, read_first, Filled, blocked, faulted, full, behind, fill,
}
use modbus_gateway.Reads.Contents.{reads, fill_some}

behind-append :
    (bs xs : Bytes) (rest tail : List Incoming) (o o' : Filled)
    → ((ys : Bytes) (r : List Incoming) → o ≡ full ys r → o' ≡ full ys (r ++ tail))
    → behind bs o ≡ full xs rest
    → behind bs o' ≡ full xs (rest ++ tail)
behind-append bs xs rest tail (full ys r) o' ih h =
    let same : bs ++ ys ≡ xs = cc in
    let left : r ≡ rest = cc in ap (behind bs) (ih ys r refl) ∙ cc (same, left)
behind-append bs xs rest tail blocked o' ih h = cc
behind-append bs xs rest tail (faulted ys r) o' ih h = cc

-- What fills a buffer fills it also with more behind it.
pub fill-append :
    (incoming tail : List Incoming) (n : ℕ) (xs : Bytes) (rest : List Incoming)
    → fill n incoming ≡ full xs rest
    → fill n (incoming ++ tail) ≡ full xs (rest ++ tail)
fill-append incoming tail zero xs rest h = unfold fill in cc
fill-append [] tail (suc n) xs rest h = unfold fill in cc
fill-append (fault ∷ incoming) tail (suc n) xs rest h = unfold fill in cc
fill-append (received bs ∷ incoming) tail (suc n) xs rest h =
    elim (Bool-cases (leb (length bs) (suc n))) [
      | inl short ↦
          let h' : behind bs (fill (suc n - length bs) incoming) ≡ full xs rest =
            sym (rw (fill_some (suc n) bs incoming (omega arith)) (rw short refl)) ∙ h in
          rw (fill_some (suc n) bs (incoming ++ tail) (omega arith)) (
            rw short (
              behind-append bs xs rest tail (fill (suc n - length bs) incoming)
                (fill (suc n - length bs) (incoming ++ tail))
                (fill-append incoming tail (suc n - length bs)) h'))
      | inr long ↦
          let h' : full (take (suc n) bs) (received (drop (suc n) bs) ∷ incoming) ≡ full xs rest =
            sym (rw (fill_some (suc n) bs incoming (omega arith)) (rw long refl)) ∙ h in
          rw (fill_some (suc n) bs (incoming ++ tail) (omega arith)) (rw long (ground (arith, h')))
    ]

pub read_first-append :
    (incoming tail : List Incoming) (b : ℕ) (rest : List Incoming)
    → read_first incoming ≡ one b rest
    → read_first (incoming ++ tail) ≡ one b (rest ++ tail)
unfolding read_first
read_first-append [] tail b rest h = cc
read_first-append (fault ∷ incoming) tail b rest h = cc
read_first-append (received [] ∷ incoming) tail b rest h = cc
read_first-append (received (c ∷ []) ∷ incoming) tail b rest h = cc
read_first-append (received (c ∷ d ∷ bs) ∷ incoming) tail b rest h =
    let left : received (d ∷ bs) ∷ incoming ≡ rest = cc in let head : c ≡ b = cc in cc (left, head)

pub read_first_nothing-append :
    (incoming tail : List Incoming) (rest : List Incoming)
    → read_first incoming ≡ nothing rest
    → read_first (incoming ++ tail) ≡ nothing (rest ++ tail)
unfolding read_first
read_first_nothing-append [] tail rest h = cc
read_first_nothing-append (fault ∷ incoming) tail rest h = cc
read_first_nothing-append (received [] ∷ incoming) tail rest h = cc
read_first_nothing-append (received (c ∷ bs) ∷ incoming) tail rest h = cc

pub reads-append :
    (incoming tail : List Incoming) → reads (incoming ++ tail) ≡ reads incoming + reads tail
reads-append [] tail = omega arith
reads-append (received bs ∷ incoming) tail = omega (arith, reads-append incoming tail)
reads-append (fault ∷ incoming) tail = omega (arith, reads-append incoming tail)
