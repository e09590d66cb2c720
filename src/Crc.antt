-- ===== src/Crc.antt =====
-- modbus/crc/crc.go: the checksum of an RTU frame, computed by table.
mod Tables
pub mod Reference
pub mod Detection
use modbus_gateway.Base.{
  ℕ, suc, ◌*◌, bit_or, bit_xor, ◌≡◌, refl, List, [], ◌∷◌, ◌++◌, get_or, length, Bytes, IsByte,
  arith, ◌<◌,
}
use Tables.{crc_high_bytes, crc_low_bytes}

pub record Crc : Type 0 where
  pub high : ℕ
  pub low : ℕ

-- `Reset`.
unfoldable pub reset : Crc → Crc
reset crc = record { high = 0xff; low = 0xff }

-- One round of the loop of `PushBytes`. `idx` is a byte, so that it is an index of both tables.
unfoldable pub push_byte : Crc → ℕ → Crc
unfolding crc_high_bytes crc_low_bytes
push_byte crc b =
    let idx = bit_xor crc.low b in
    record {
      high = get_or crc_low_bytes idx 0;
      low = bit_xor crc.high (get_or crc_high_bytes idx 0);
    }

-- `PushBytes`.
unfoldable pub push_bytes : Crc → Bytes → Crc
unfolding push_byte
push_bytes crc [] = crc
push_bytes crc (b ∷ bs) = push_bytes (push_byte crc b) bs

-- `Value`: `uint16(crc.high)<<8 | uint16(crc.low)`.
unfoldable pub value : Crc → ℕ
value crc = bit_or (crc.high * 256) crc.low

-- A fresh checksum of `bs`: `crc.Reset().PushBytes(bs)`.
abbrev pub checksum : Bytes → Crc
checksum bs = push_bytes (reset (record { high = 0; low = 0 })) bs

pub push_bytes-append :
    (c : Crc) (xs ys : Bytes) → push_bytes c (xs ++ ys) ≡ push_bytes (push_bytes c xs) ys
unfolding push_bytes
push_bytes-append c [] ys = refl
push_bytes-append c (x ∷ xs) ys = push_bytes-append (push_byte c x) xs ys

-- Both halves of the register are bytes.
abbrev pub IsRegister : Crc → Type 0
IsRegister c = IsByte c.high × IsByte c.low
