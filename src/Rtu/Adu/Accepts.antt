-- ===== src/Rtu/Adu/Accepts.antt =====
-- modbus/rtu/adu.go: which byte strings `Decode` accepts.
use modbus_gateway.Base.{
  All-append, if-eq-ok, ltb→lt, ℕ, ◌+◌, ◌*◌, ◌≤◌, ◌<◌, ◌≡◌, ◌≢◌, inl, inr, refl, sym, ap, ◌∙◌,
  subst, [], ◌∷◌, ◌++◌, length, Bytes, IsByte, All, arith, ◌==◌, ==_iff, ok, err, Bool-cases, ltb,
  lt→ltb,
}
use modbus_gateway.Crc.{Crc, value, checksum, IsRegister, push_bytes-append}
use modbus_gateway.Crc.Reference.{checksum-IsRegister}
use modbus_gateway.Crc.Detection.{push_bytes-residue, checksum_one_byte}
use modbus_gateway.Base.Bits.{or-word}
use modbus_gateway.Rtu.Adu.{ApplicationDataUnit, encode, decode, too_short}
use modbus_gateway.Rtu.Adu.RoundTrip.{
  length-frame, body-IsByte, IsAdu, body, frame, encode-frame, decode_frame, frame_parts,
}

decode_short : (raw : Bytes) → length raw < 4 → decode raw ≡ err (too_short (length raw))
unfolding decode
decode_short raw h = rw (lt→ltb (length raw) 4 h)

-- The halves of a register with a given value.
register_of_value :
    (c : Crc) (hi lo : ℕ)
    → IsRegister c
    → IsByte hi
    → IsByte lo
    → hi * 256 + lo ≡ value c
    → (c.high ≡ hi) × (c.low ≡ lo)
unfolding value
register_of_value c hi lo r hh hl e =
    let e' : hi * 256 + lo ≡ c.high * 256 + c.low = e ∙ or-word c.high c.low r.0 r.1 in
    (omega arith, omega arith)

-- What is accepted is the frame of what is returned.
accepted_is_frame :
    (s c : ℕ) (d : Bytes) (lo hi : ℕ) (a : ApplicationDataUnit)
    → IsByte lo
    → IsByte hi
    → IsByte s
    → IsByte c
    → All IsByte d
    → decode (s ∷ c ∷ (d ++ (lo ∷ hi ∷ []))) ≡ ok a
    → (s ∷ c ∷ (d ++ (lo ∷ hi ∷ [])) ≡ frame a) × IsAdu a × (a.crc ≡ checksum (body a))
unfolding frame
accepted_is_frame s c d lo hi a bl bh bs bc bd e =
    let k = checksum (s ∷ c ∷ d) in
    let found : ApplicationDataUnit = record {
      slave_id = s;
      pdu = record { function_code = c; payload = d };
      crc = k;
    } in
    let (same, is) =
      if-eq-ok (hi * 256 + lo == value k) found a _ (sym (decode_frame s c d lo hi bl bh) ∙ e) in
    let (high, low) =
      register_of_value k hi lo (checksum-IsRegister (s ∷ c ∷ d) (bs, (bc, bd))) bh bl
        ((==_iff _ _).0 same) in
    subst
      (λ (x : ApplicationDataUnit).
        (s ∷ c ∷ (d ++ (lo ∷ hi ∷ [])) ≡ frame x) × IsAdu x × (x.crc ≡ checksum (body x)))
      is
      (
        rw (high, low) refl,
        record { slave_byte = bs; pdu_bytes = record { code_byte = bc; payload_bytes = bd } },
        refl,
      )

pub decode-eq-ok :
    (raw : Bytes) (a : ApplicationDataUnit)
    → All IsByte raw
    → decode raw ≡ ok a
    → (raw ≡ frame a) × IsAdu a × (a.crc ≡ checksum (body a))
decode-eq-ok raw a b e = elim (Bool-cases (ltb (length raw) 4)) [
  | inl short ↦ cc (decode_short raw (ltb→lt _ _ short))
  | inr long ↦
      let (s, c, d, lo, hi, split, bl, bh, bs, bc, bd) = frame_parts raw (ground arith) b in
      subst (λ (x : Bytes). (x ≡ frame a) × IsAdu a × (a.crc ≡ checksum (body a))) (sym split)
        (accepted_is_frame s c d lo hi a bl bh bs bc bd (ap decode (sym split) ∙ e))
]

-- Whatever `Decode` accepts, up to the size of a frame, `Encode` writes again byte for byte.
pub encode-decode :
    (raw : Bytes) (a : ApplicationDataUnit)
    → All IsByte raw
    → length raw ≤ 256
    → decode raw ≡ ok a
    → encode a ≡ ok raw
encode-decode raw a b h e =
    let (is, bytes, _) = decode-eq-ok raw a b e in
    let size : length raw ≡ length a.pdu.payload + 4 = ap length is ∙ length-frame a in
    encode-frame a bytes (omega arith) ∙ ap ok (sym is)

-- An accepted frame leaves the checksum's register at zero.
decode-residue :
    (raw : Bytes) (a : ApplicationDataUnit)
    → All IsByte raw
    → decode raw ≡ ok a
    → checksum raw ≡ record { high = 0; low = 0 }
unfolding frame
decode-residue raw a b e =
    let (is, bytes, _) = decode-eq-ok raw a b e in
    let k = checksum (body a) in
    ap checksum is
    ∙ push_bytes-append _ (body a) (k.low ∷ k.high ∷ [])
    ∙ push_bytes-residue k (checksum-IsRegister (body a) (body-IsByte bytes))

-- A frame that `Decode` accepts is refused once one of its bytes is changed, the checksum's own
-- bytes included.
pub decode_one_byte :
    (front back : Bytes) (x y : ℕ) (a b : ApplicationDataUnit)
    → All IsByte front
    → All IsByte back
    → IsByte x
    → IsByte y
    → x ≢ y
    → decode (front ++ (x ∷ back)) ≡ ok a
    → decode (front ++ (y ∷ back)) ≢ ok b
decode_one_byte front back x y a b hf hk hx hy ne e e' =
    checksum_one_byte front back x y hf hk hx hy ne (
      decode-residue (front ++ (x ∷ back)) a (All-append IsByte front (x ∷ back) hf (hx, hk)) e
      ∙ sym (
          decode-residue (front ++ (y ∷ back)) b (All-append IsByte front (y ∷ back) hf (hy, hk))
            e'))
