-- ===== src/Crc/Reference.antt =====
-- modbus/crc/crc.go against CRC-16/MODBUS as its standard defines it: a 16-bit register, one bit at
-- a time, with the reflected polynomial 0xA001.
use modbus_gateway.Base.{
  get_or-IsByte, ℕ, zero, suc, ◌+◌, ◌*◌, ◌/◌, ◌%◌, bit_xor, Bool, true, ◌≡◌, refl, sym, ◌∙◌, [],
  ◌∷◌, get_or, Bytes, IsByte, All, arith, ◌==◌, ==_iff, if◌then◌else◌,
}
use modbus_gateway.Base.Bits.{all_below, all_below_at, xor-IsByte, or-word}
use modbus_gateway.Crc.{Crc, IsRegister, reset, push_byte, push_bytes, value, checksum}
use modbus_gateway.Crc.Tables.{crc_high_bytes, crc_low_bytes}

-- One shift of the register.
shift_bit : ℕ → ℕ
shift_bit r = if r % 2 == 1 then bit_xor (r / 2) 0xa001 else r / 2

shift_bits : ℕ → ℕ → ℕ
unfolding shift_bit
shift_bits zero r = r
shift_bits (suc n) r = shift_bits n (shift_bit r)

-- The register after one byte: the byte goes into the low half, and eight bits are shifted out.
pub crc16_byte : ℕ → ℕ → ℕ
unfolding shift_bits
crc16_byte r b = shift_bits 8 (r / 256 * 256 + bit_xor (r % 256) b)

-- The standard's checksum of a message, from the register `r`.
pub crc16 : ℕ → Bytes → ℕ
unfolding crc16_byte
crc16 r [] = r
crc16 r (b ∷ bs) = crc16 (crc16_byte r b) bs

-- The register as a number.
abbrev register : Crc → ℕ
register c = c.high * 256 + c.low

-- For one index the two entries are bytes, and agree with eight shifts at every high half.
entry_agrees : ℕ → ℕ → ℕ → Bool
unfolding all_below shift_bits
entry_agrees idx hi lo =
    all_below 256 (λ high. shift_bits 8 (high * 256 + idx) == lo * 256 + bit_xor high hi)

index_agrees : ℕ → Bool
unfolding entry_agrees crc_high_bytes crc_low_bytes
index_agrees idx = entry_agrees idx (get_or crc_high_bytes idx 0) (get_or crc_low_bytes idx 0)

tables_agree : all_below 256 index_agrees ≡ true
unfolding index_agrees
tables_agree = refl

pub crc_high_bytes-IsByte : All IsByte crc_high_bytes
unfolding crc_high_bytes
crc_high_bytes-IsByte = omega arith

pub crc_low_bytes-IsByte : All IsByte crc_low_bytes
unfolding crc_low_bytes
crc_low_bytes-IsByte = omega arith

shift_bits-entry :
    (idx high : ℕ)
    → IsByte idx
    → IsByte high
    → shift_bits 8 (high * 256 + idx)
      ≡ get_or crc_low_bytes idx 0 * 256 + bit_xor high (get_or crc_high_bytes idx 0)
shift_bits-entry idx high hi hh = (==_iff _ _).0 (
    all_below_at 256
      (λ h.
        shift_bits 8 (h * 256 + idx)
        == get_or crc_low_bytes idx 0 * 256 + bit_xor h (get_or crc_high_bytes idx 0))
      high hh
      (unfold index_agrees entry_agrees in all_below_at 256 index_agrees idx hi tables_agree))

pub push_byte-IsRegister : (c : Crc) (b : ℕ) → IsRegister c → IsByte b → IsRegister (push_byte c b)
unfolding push_byte
push_byte-IsRegister c b r hb = (
  get_or-IsByte crc_low_bytes (bit_xor c.low b) crc_low_bytes-IsByte,
  xor-IsByte _ _ r.0 (get_or-IsByte crc_high_bytes (bit_xor c.low b) crc_high_bytes-IsByte),
)

-- The register halves are recovered from the number.
register_halves : (h l : ℕ) → IsByte l → ((h * 256 + l) / 256 ≡ h) × ((h * 256 + l) % 256 ≡ l)
register_halves h l hl = omega arith

push_byte-crc16_byte :
    (c : Crc) (b : ℕ)
    → IsRegister c
    → IsByte b
    → register (push_byte c b) ≡ crc16_byte (register c) b
unfolding push_byte crc16_byte
push_byte-crc16_byte c b r hb =
    let (e, f) = register_halves c.high c.low r.1 in
    rw (e, f) (sym (shift_bits-entry _ c.high (xor-IsByte _ _ r.1 hb) r.0))

push_bytes-crc16 :
    (bs : Bytes) (c : Crc)
    → IsRegister c
    → All IsByte bs
    → IsRegister (push_bytes c bs) × (register (push_bytes c bs) ≡ crc16 (register c) bs)
unfolding push_bytes crc16
push_bytes-crc16 [] c r h = (r, refl)
push_bytes-crc16 (b ∷ bs) c r h =
    rw (← push_byte-crc16_byte c b r h.0)
      (push_bytes-crc16 bs (push_byte c b) (push_byte-IsRegister c b r h.0) h.1)

pub push_bytes-IsRegister :
    (bs : Bytes) (c : Crc) → IsRegister c → All IsByte bs → IsRegister (push_bytes c bs)
push_bytes-IsRegister bs c r h = (push_bytes-crc16 bs c r h).0

pub reset-IsRegister : (c : Crc) → IsRegister (reset c)
unfolding reset
reset-IsRegister c = omega arith

pub checksum-IsRegister : (bs : Bytes) → All IsByte bs → IsRegister (checksum bs)
checksum-IsRegister bs h = push_bytes-IsRegister bs _ (reset-IsRegister _) h

-- On any bytes the table-driven checksum, read as a uint16, is the standard's CRC-16 from 0xFFFF.
pub value-crc16 :
    (c : Crc) (bs : Bytes) → All IsByte bs → value (push_bytes (reset c) bs) ≡ crc16 0xffff bs
unfolding value reset
value-crc16 c bs h =
    let (r, e) = push_bytes-crc16 bs (reset c) (reset-IsRegister c) h in or-word _ _ r.0 r.1 ∙ e
