-- ===== src/Crc/Detection.antt =====
-- modbus/crc/crc.go: what the checksum detects, and the value it leaves on a whole frame.
use modbus_gateway.Base.{
  get_or-IsByte, ◌+◌, suc, if◌then◌else◌, ℕ, ◌*◌, bit_xor, ◌≡◌, ◌≢◌, refl, sym, ap, ◌∙◌, [], ◌∷◌,
  ◌++◌, get_or, Bytes, IsByte, All, arith, ◌==◌, ==_iff,
}
use modbus_gateway.Base.Bits.{
  xor-zero, xor_comm, all_below, all_below_at, xor-IsByte, xor-cancel, xor_self, or-word,
}
use modbus_gateway.Crc.{Crc, IsRegister, push_byte, push_bytes, push_bytes-append, value, checksum}
use modbus_gateway.Crc.Tables.{crc_high_bytes, crc_low_bytes}
use modbus_gateway.Crc.Reference.{crc_high_bytes-IsByte, push_byte-IsRegister, checksum-IsRegister}

-- The inverse of the low table: where a byte stands in it.
find_index : Bytes → ℕ → ℕ
find_index [] b = 0
find_index (x ∷ xs) b = let rest = find_index xs b in if x == b then 0 else suc rest

low_table_inverse :
    (idx : ℕ) → IsByte idx → find_index crc_low_bytes (get_or crc_low_bytes idx 0) ≡ idx
unfolding all_below find_index crc_low_bytes
low_table_inverse idx h =
    (==_iff _ _).0
      (all_below_at 256 (λ i. find_index crc_low_bytes (get_or crc_low_bytes i 0) == i) idx h refl)

-- One step, from the same register, tells two bytes apart; and on the same byte, two registers.
push_byte-index :
    (c d : Crc) (a b : ℕ)
    → IsRegister c
    → IsRegister d
    → IsByte a
    → IsByte b
    → push_byte c a ≡ push_byte d b
    → bit_xor c.low a ≡ bit_xor d.low b
unfolding push_byte
push_byte-index c d a b rc rd ha hb e =
    sym (low_table_inverse _ (xor-IsByte _ _ rc.1 ha))
    ∙ ap (λ (x : Crc). find_index crc_low_bytes x.high) e
    ∙ low_table_inverse _ (xor-IsByte _ _ rd.1 hb)

push_byte-injective_byte :
    (c : Crc) (a b : ℕ) → IsRegister c → IsByte a → IsByte b → push_byte c a ≡ push_byte c b → a ≡ b
push_byte-injective_byte c a b r ha hb e =
    sym (xor-cancel c.low a r.1 ha)
    ∙ ap (bit_xor c.low) (push_byte-index c c a b r r ha hb e)
    ∙ xor-cancel c.low b r.1 hb

xor-injective : (k a b : ℕ) → IsByte k → IsByte a → IsByte b → bit_xor k a ≡ bit_xor k b → a ≡ b
xor-injective k a b hk ha hb e =
    sym (xor-cancel k a hk ha) ∙ ap (bit_xor k) e ∙ xor-cancel k b hk hb

Crc-path : (c d : Crc) → c.high ≡ d.high → c.low ≡ d.low → c ≡ d
Crc-path c d p q = λ i. record { high = p i; low = q i }

push_byte-injective_register :
    (c d : Crc) (b : ℕ)
    → IsRegister c
    → IsRegister d
    → IsByte b
    → push_byte c b ≡ push_byte d b
    → c ≡ d
unfolding push_byte
push_byte-injective_register c d b rc rd hb e =
    let same = push_byte-index c d b b rc rd hb hb e in
    let low : c.low ≡ d.low =
      xor-injective b c.low d.low hb rc.1 rd.1
        (xor_comm b c.low hb rc.1 ∙ same ∙ xor_comm d.low b rd.1 hb) in
    let hi = get_or crc_high_bytes (bit_xor c.low b) 0 in
    let hi' = get_or-IsByte crc_high_bytes (bit_xor c.low b) crc_high_bytes-IsByte in
    let lows : bit_xor c.high hi ≡ bit_xor d.high hi =
      ap (λ (x : Crc). x.low) e
      ∙ ap (λ (x : ℕ). bit_xor d.high (get_or crc_high_bytes x 0)) (sym same) in
    Crc-path c d
      (xor-injective hi c.high d.high hi' rc.0 rd.0
        (xor_comm hi c.high hi' rc.0 ∙ lows ∙ xor_comm d.high hi rd.0 hi'))
      low

push_bytes-injective :
    (bs : Bytes) (c d : Crc)
    → IsRegister c
    → IsRegister d
    → All IsByte bs
    → push_bytes c bs ≡ push_bytes d bs
    → c ≡ d
unfolding push_bytes
push_bytes-injective [] c d rc rd h e = e
push_bytes-injective (b ∷ bs) c d rc rd h e = push_byte-injective_register c d b rc rd h.0 (
    push_bytes-injective bs (push_byte c b) (push_byte d b) (push_byte-IsRegister c b rc h.0)
      (push_byte-IsRegister d b rd h.0) h.1 e)

-- Two messages that differ in one byte have different checksums, wherever the byte stands.
pub checksum_one_byte :
    (front back : Bytes) (a b : ℕ)
    → All IsByte front
    → All IsByte back
    → IsByte a
    → IsByte b
    → a ≢ b
    → checksum (front ++ (a ∷ back)) ≢ checksum (front ++ (b ∷ back))
unfolding push_bytes
checksum_one_byte front back a b hf hk ha hb ne e =
    let c = checksum front in
    let r = checksum-IsRegister front hf in
    let e' : push_bytes (push_byte c a) back ≡ push_bytes (push_byte c b) back =
      sym (push_bytes-append _ front (a ∷ back)) ∙ e ∙ push_bytes-append _ front (b ∷ back) in
    ne (
      push_byte-injective_byte c a b r ha hb (
        push_bytes-injective back (push_byte c a) (push_byte c b) (push_byte-IsRegister c a r ha)
          (push_byte-IsRegister c b r hb) hk e'))

-- A register is read off its value.
pub value-injective : (c d : Crc) → IsRegister c → IsRegister d → value c ≡ value d → c ≡ d
unfolding value
value-injective c d rc rd e =
    let e' : c.high * 256 + c.low ≡ d.high * 256 + d.low =
      sym (or-word _ _ rc.0 rc.1) ∙ e ∙ or-word _ _ rd.0 rd.1 in
    Crc-path c d (omega arith) (omega arith)

zero_entry : (get_or crc_low_bytes 0 0 ≡ 0) × (get_or crc_high_bytes 0 0 ≡ 0)
unfolding crc_low_bytes crc_high_bytes
zero_entry = (refl, refl)

-- A register that takes in its own two halves, low half first, ends at zero.
pub push_bytes-residue :
    (c : Crc) → IsRegister c → push_bytes c (c.low ∷ c.high ∷ []) ≡ record { high = 0; low = 0 }
unfolding push_bytes push_byte
push_bytes-residue c r =
    Crc-path _ _ (simp (xor_self c.low r.1, zero_entry.0, xor-zero c.high r.0, xor_self c.high r.0))
      (simp (xor_self c.low r.1, zero_entry.0, xor-zero c.high r.0, xor_self c.high r.0))
