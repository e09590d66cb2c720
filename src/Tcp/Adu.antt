-- ===== src/Tcp/Adu.antt =====
-- transport/tcp/adu.go: the MBAP frame.
use modbus_gateway.Base.{
  ℕ, ◌+◌, ◌*◌, ◌/◌, ◌%◌, ◌≤◌, ◌≡◌, bit_or, ◌∷◌, get_or, length, drop, Bytes, IsByte, IsWord, All,
  arith, ltb, ◌==◌, not, Outcome, ok, ◌>>◌, fail_if,
}
use modbus_gateway.Base.Word.{or-halves, halves-or, halves-IsWord}
use modbus_gateway.Pdu.{Pdu, IsPdu, Fits}

abbrev pub tcp_min_size : ℕ
tcp_min_size = 8

abbrev pub tcp_max_size : ℕ
tcp_max_size = 260

-- `ApplicationDataUnit`.
pub record ApplicationDataUnit : Type 0 where
  pub transaction_id : ℕ
  pub protocol_id : ℕ
  pub size : ℕ
  pub slave_id : ℕ
  pub pdu : Pdu

pub data AduError : Type 0 where
  too_short : ℕ → AduError
  too_long : ℕ → AduError
  transaction_mismatch : ℕ → ℕ → AduError

-- `uint16(raw[i])<<8 | uint16(raw[i+1])`.
abbrev word_of : Bytes → ℕ → ℕ
word_of raw i = bit_or (get_or raw i 0 * 256) (get_or raw (i + 1) 0)

-- `Decode`. The indices lie in `raw`, since its length is at least 8.
unfoldable pub decode : Bytes → Outcome AduError ApplicationDataUnit
decode raw = do
  fail_if (ltb (length raw) tcp_min_size) (too_short (length raw))
  ok (record {
    transaction_id = word_of raw 0;
    protocol_id = word_of raw 2;
    size = word_of raw 4;
    slave_id = get_or raw 6 0;
    pdu = record { function_code = get_or raw 7 0; payload = drop 8 raw };
  })

-- `Encode`.
unfoldable pub encode : ApplicationDataUnit → Outcome AduError Bytes
encode adu = do
  let total = length adu.pdu.payload + 8
  fail_if (ltb tcp_max_size total) (too_long total)
  ok (
      adu.transaction_id / 256 % 256
      ∷ adu.transaction_id % 256
      ∷ adu.protocol_id / 256 % 256
      ∷ adu.protocol_id % 256
      ∷ adu.size / 256 % 256
      ∷ adu.size % 256
      ∷ adu.slave_id
      ∷ adu.pdu.function_code
      ∷ adu.pdu.payload)

-- `Verify`: of a response against the request.
unfoldable pub verify : ApplicationDataUnit → ApplicationDataUnit → Outcome AduError (Unit {0})
verify req resp = do
  fail_if (not (resp.transaction_id == req.transaction_id))
      (transaction_mismatch resp.transaction_id req.transaction_id)
  ok tt

-- The widths of the fields.
pub record IsAdu (a : ApplicationDataUnit) : Type 0 where
  pub transaction_word : IsWord a.transaction_id
  pub protocol_word : IsWord a.protocol_id
  pub size_word : IsWord a.size
  pub slave_byte : IsByte a.slave_id
  pub pdu_bytes : IsPdu a.pdu

-- An ADU whose PDU fits is encoded in its data's length and eight bytes, and the bytes decode to it.
pub decode-encode_mbap :
    (a : ApplicationDataUnit)
    → IsAdu a
    → Fits a.pdu
    → (raw : Bytes) × (encode a ≡ ok raw)
      × (length raw ≡ length a.pdu.payload + 8)
      × All IsByte raw
      × (decode raw ≡ ok a)
unfolding decode encode
decode-encode_mbap a h f =
    let raw : Bytes =
      a.transaction_id / 256 % 256
      ∷ a.transaction_id % 256
      ∷ a.protocol_id / 256 % 256
      ∷ a.protocol_id % 256
      ∷ a.size / 256 % 256
      ∷ a.size % 256
      ∷ a.slave_id
      ∷ a.pdu.function_code
      ∷ a.pdu.payload in
    (
      raw,
      ground arith,
      omega arith,
      (
        omega arith,
        (
          omega arith,
          (
            omega arith,
            (
              omega arith,
              (
                omega arith,
                (omega arith, (h.slave_byte, (h.pdu_bytes.code_byte, h.pdu_bytes.payload_bytes))),
              ),
            ),
          ),
        ),
      ),
      ground (arith, or-halves a.transaction_id, or-halves a.protocol_id, or-halves a.size),
    )

decode_cons :
    (b0 b1 b2 b3 b4 b5 b6 b7 : ℕ) (d : Bytes)
    → let raw = b0 ∷ b1 ∷ b2 ∷ b3 ∷ b4 ∷ b5 ∷ b6 ∷ b7 ∷ d in
      All IsByte raw
      → length d ≤ 252
      → (a : ApplicationDataUnit) × (decode raw ≡ ok a) × IsAdu a × (encode a ≡ ok raw)
unfolding decode encode
decode_cons b0 b1 b2 b3 b4 b5 b6 b7 d (h0, (h1, (h2, (h3, (h4, (h5, (h6, (h7, hd)))))))) u = (
  record {
    transaction_id = bit_or (b0 * 256) b1;
    protocol_id = bit_or (b2 * 256) b3;
    size = bit_or (b4 * 256) b5;
    slave_id = b6;
    pdu = record { function_code = b7; payload = d };
  },
  ground arith,
  record {
    transaction_word = halves-IsWord b0 b1 h0 h1;
    protocol_word = halves-IsWord b2 b3 h2 h3;
    size_word = halves-IsWord b4 b5 h4 h5;
    slave_byte = h6;
    pdu_bytes = record { code_byte = h7; payload_bytes = hd };
  },
  ground (arith, halves-or b0 b1 h0 h1, halves-or b2 b3 h2 h3, halves-or b4 b5 h4 h5),
)

-- Any byte string of 8 to 260 bytes decodes, and encodes again to itself.
pub encode-decode_mbap :
    (raw : Bytes)
    → All IsByte raw
    → 8 ≤ length raw
    → length raw ≤ 260
    → (a : ApplicationDataUnit) × (decode raw ≡ ok a) × IsAdu a × (encode a ≡ ok raw)
encode-decode_mbap (b0 ∷ b1 ∷ b2 ∷ b3 ∷ b4 ∷ b5 ∷ b6 ∷ b7 ∷ d) b l u =
    decode_cons b0 b1 b2 b3 b4 b5 b6 b7 d b (omega arith)
encode-decode_mbap _ b l u = absurd (omega arith)
