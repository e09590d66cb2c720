-- ===== src/Rtu/Adu/RoundTrip.antt =====
-- modbus/rtu/adu.go: `Encode` and `Decode` one behind the other.
use modbus_gateway.Base.{
  take-IsByte, get_or-IsByte, split_last_two, get_or-append_next, get_or-append, ℕ, suc, ◌+◌, ◌-◌,
  ◌*◌, ◌/◌, ◌%◌, ◌≤◌, ◌≡◌, refl, ap, ◌∙◌, [], ◌∷◌, ◌++◌, get_or, length, take, Bytes, IsByte, All,
  arith, ◌==◌, if◌then◌else◌, ok, err, length-append, take-append, le→ltb, ==_refl,
}
use modbus_gateway.Base.Bits.{or-word}
use modbus_gateway.Crc.{Crc, value, checksum, IsRegister}
use modbus_gateway.Crc.Reference.{checksum-IsRegister}
use modbus_gateway.Pdu.{IsPdu, Fits}
use modbus_gateway.Rtu.Adu.{ApplicationDataUnit, encode, decode, crc_mismatch}

-- An ADU of bytes.
pub record IsAdu (a : ApplicationDataUnit) : Type 0 where
  pub slave_byte : IsByte a.slave_id
  pub pdu_bytes : IsPdu a.pdu

-- The frame before its checksum.
abbrev pub body : ApplicationDataUnit → Bytes
body a = a.slave_id ∷ a.pdu.function_code ∷ a.pdu.payload

pub body-IsByte : {a : ApplicationDataUnit} → IsAdu a → All IsByte (body a)
body-IsByte h = (h.slave_byte, (h.pdu_bytes.code_byte, h.pdu_bytes.payload_bytes))

value_halves : (c : Crc) → IsRegister c → (value c % 256 ≡ c.low) × (value c / 256 % 256 ≡ c.high)
unfolding value
value_halves c r = rw (or-word c.high c.low r.0 r.1) (omega arith)

-- The frame that `Encode` writes: the body, then the checksum, low half first.
unfoldable pub frame : ApplicationDataUnit → Bytes
frame a = body a ++ ((checksum (body a)).low ∷ (checksum (body a)).high ∷ [])

pub length-frame : (a : ApplicationDataUnit) → length (frame a) ≡ length a.pdu.payload + 4
unfolding frame
length-frame a = rw length-append (omega arith)

pub encode-frame : (a : ApplicationDataUnit) → IsAdu a → Fits a.pdu → encode a ≡ ok (frame a)
unfolding encode frame
encode-frame a h f =
    let r = value_halves (checksum (body a)) (checksum-IsRegister (body a) (body-IsByte h)) in
    rw (le→ltb 256 (length a.pdu.payload + 4) (omega arith)) (rw (r.0, r.1))

-- What `Decode` computes for the sizes of a frame with `n` bytes of data.
frame_sizes :
    (n : ℕ)
    → (suc (suc (suc (suc n))) - 1 ≡ suc (suc (suc n)))
      × (suc (suc (suc (suc n))) - 2 ≡ suc (suc n))
      × (suc (suc (suc (suc n))) - 4 ≡ n)
frame_sizes n = omega arith

pub length_behind : (d : Bytes) (x y : ℕ) → length (d ++ (x ∷ y ∷ [])) ≡ suc (suc (length d))
length_behind d x y = rw length-append (omega arith)

-- `Decode` on a frame: it is accepted exactly if the two bytes behind the body are its checksum.
pub decode_frame :
    (s c : ℕ) (d : Bytes) (lo hi : ℕ)
    → IsByte lo
    → IsByte hi
    → decode (s ∷ c ∷ (d ++ (lo ∷ hi ∷ []))) ≡ (
        if hi * 256 + lo == value (checksum (s ∷ c ∷ d))
        then ok (record {
          slave_id = s;
          pdu = record { function_code = c; payload = d };
          crc = checksum (s ∷ c ∷ d);
        })
        else err (crc_mismatch (hi * 256 + lo) (value (checksum (s ∷ c ∷ d)))))
unfolding decode
decode_frame s c d lo hi hl hh =
    let (e1, e2, e4) = frame_sizes (length d) in
    rw (length_behind d lo hi) (
      rw (e1, e2, e4)
        (rw (le→ltb (suc (suc (suc (suc (length d))))) 4 (omega arith)) (
          rw
            (
              get_or-append d (hi ∷ []) lo,
              get_or-append_next d [] lo hi,
              take-append d (lo ∷ hi ∷ []) (length d) refl,
              or-word hi lo hh hl,
            )
            (ground arith))))

-- An ADU of bytes that fits is encoded, and the frame decodes to it, with the checksum computed.
pub decode-encode :
    (a : ApplicationDataUnit)
    → IsAdu a
    → Fits a.pdu
    → (raw : Bytes) × (encode a ≡ ok raw)
      × (length raw ≡ length a.pdu.payload + 4)
      × (decode raw ≡ ok (record a { crc = checksum (body a) }))
unfolding frame value
decode-encode a h f =
    let c = checksum (body a) in
    let r = checksum-IsRegister (body a) (body-IsByte h) in
    (
      frame a,
      encode-frame a h f,
      rw length_behind (omega arith),
      decode_frame a.slave_id a.pdu.function_code a.pdu.payload c.low c.high r.1 r.0
          ∙ rw (or-word c.high c.low r.0 r.1) (rw ==_refl),
    )

-- A frame of four bytes or more: its first two bytes, the data and the last two.
pub frame_parts :
    (raw : Bytes)
    → 4 ≤ length raw
    → All IsByte raw
    → (s c : ℕ) × (d : Bytes) × (lo hi : ℕ) × (raw ≡ s ∷ c ∷ (d ++ (lo ∷ hi ∷ [])))
      × IsByte lo
      × IsByte hi
      × IsByte s
      × IsByte c
      × All IsByte d
frame_parts [] h b = absurd (omega arith)
frame_parts (s ∷ []) h b = absurd (omega arith)
frame_parts (s ∷ c ∷ raw) h b =
    let n = length raw - 2 in
    (
      s,
      c,
      take n raw,
      get_or raw n 0,
      get_or raw (suc n) 0,
      ap (λ (t : Bytes). s ∷ c ∷ t) (split_last_two raw n (omega arith)),
      get_or-IsByte raw n (b.1).1,
      get_or-IsByte raw (suc n) (b.1).1,
      b.0,
      (b.1).0,
      take-IsByte n raw (b.1).1,
    )
