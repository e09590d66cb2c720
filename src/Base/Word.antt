-- ===== src/Base/Word.antt =====
-- encoding/binary as the program uses it: 16-bit words, high byte first.
use modbus_gateway.Base.{
  All, ◌++◌, ap, ℕ, ◌*◌, ◌/◌, ◌%◌, bit_or, ◌≡◌, [], ◌∷◌, Bytes, IsByte, IsWord, arith, Outcome, ok,
  panic,
}
use modbus_gateway.Base.Bits.{or-word}

-- `binary.BigEndian.Uint16`: a run-time panic on fewer than two bytes.
unfoldable pub uint16 : {E : Type 0} → Bytes → Outcome E ℕ
uint16 [] = panic
uint16 (h ∷ []) = panic
uint16 (h ∷ l ∷ bs) = ok (bit_or (h * 256) l)

-- What `binary.BigEndian.PutUint16` writes.
unfoldable pub put_uint16 : ℕ → Bytes
put_uint16 w = w / 256 % 256 ∷ w % 256 ∷ []

pub put_uint16-IsByte : (v w : ℕ) → All IsByte (put_uint16 v ++ put_uint16 w)
unfolding put_uint16
put_uint16-IsByte v w = omega arith

pub uint16-put_uint16 :
    {E : Type 0} (w : ℕ) (bs : Bytes)
    → IsWord w
    → uint16 {E = E} (w / 256 % 256 ∷ w % 256 ∷ bs) ≡ ok w
unfolding uint16
uint16-put_uint16 w bs h =
    rw (or-word (w / 256 % 256) (w % 256) (omega arith) (omega arith)) (ap ok (omega arith))

pub or-halves : (w : ℕ) → IsWord w → bit_or (w / 256 % 256 * 256) (w % 256) ≡ w
or-halves w h = rw (or-word (w / 256 % 256) (w % 256) (omega arith) (omega arith)) (omega arith)

pub halves-or :
    (h l : ℕ)
    → IsByte h
    → IsByte l
    → (bit_or (h * 256) l / 256 % 256 ≡ h) × (bit_or (h * 256) l % 256 ≡ l)
halves-or h l hh hl = rw (or-word h l hh hl) (omega arith)

-- Two bytes are a word.
pub halves-IsWord : (h l : ℕ) → IsByte h → IsByte l → IsWord (bit_or (h * 256) l)
halves-IsWord h l hh hl = rw (or-word h l hh hl) (omega arith)
