-- ===== src/Base/Bits.antt =====
-- The bit operations over bytes, in arithmetic, by tables over all values.
use modbus_gateway.Base.{
  ℕ, zero, suc, ◌+◌, ◌*◌, ◌/◌, ◌%◌, ◌^◌, ◌<◌, bit_and, bit_or, bit_xor, ◌≡◌, refl, Bool, true, ◌&&◌,
  arith, ◌==◌, ltb, ltb→lt, ==_iff, if◌then◌else◌, IsByte,
}

unfoldable pub all_below : ℕ → (ℕ → Bool) → Bool
all_below zero p = true
all_below (suc n) p = p n && all_below n p

pub all_below_at : (n : ℕ) (p : ℕ → Bool) (x : ℕ) → x < n → all_below n p ≡ true → p x ≡ true
unfolding all_below
all_below_at zero p x lt h = absurd (omega arith)
all_below_at (suc n) p x lt h = ground (arith, all_below_at n p x)

-- A test that holds for all pairs of bytes holds at one.
unfoldable pub all_pairs : (n m : ℕ) → (ℕ → ℕ → Bool) → Bool
unfolding all_below
all_pairs n m p = all_below n (λ x. all_below m (p x))

pub all_pairs_at :
    (n m : ℕ) (p : ℕ → ℕ → Bool) (x y : ℕ) → x < n → y < m → all_pairs n m p ≡ true → p x y ≡ true
unfolding all_pairs
all_pairs_at n m p x y hx hy h = all_below_at m (p x) y hy (all_below_at n _ x hx h)

module _ (f g : ℕ → ℕ → ℕ) (n m : ℕ) where
  pub eq_of_table :
      all_pairs n m (λ x y. f x y == g x y) ≡ true → (x y : ℕ) → x < n → y < m → f x y ≡ g x y
  eq_of_table t x y hx hy = (==_iff _ _).0 (all_pairs_at n m (λ x y. f x y == g x y) x y hx hy t)

-- `uint16(h)<<8 | uint16(l)`.
pub or-word : (h l : ℕ) → IsByte h → IsByte l → bit_or (h * 256) l ≡ h * 256 + l
unfolding all_pairs
or-word = eq_of_table _ _ 256 256 refl

pub or_top_bit : (b : ℕ) → IsByte b → bit_or b 0x80 ≡ b % 128 + 128
unfolding all_pairs
or_top_bit b h =
    eq_of_table (λ b _. bit_or b 0x80) (λ b _. b % 128 + 128) 256 1 refl b 0 h (omega arith)

pub xor-cancel : (a b : ℕ) → IsByte a → IsByte b → bit_xor a (bit_xor a b) ≡ b
unfolding all_pairs
xor-cancel = eq_of_table _ (λ a b. b) 256 256 refl

pub xor_comm : (a b : ℕ) → IsByte a → IsByte b → bit_xor a b ≡ bit_xor b a
unfolding all_pairs
xor_comm = eq_of_table _ _ 256 256 refl

pub xor_self : (a : ℕ) → IsByte a → bit_xor a a ≡ 0
unfolding all_pairs
xor_self a h = eq_of_table (λ a _. bit_xor a a) (λ _ _. 0) 256 1 refl a 0 h (omega arith)

pub xor-zero : (a : ℕ) → IsByte a → bit_xor a 0 ≡ a
unfolding all_pairs
xor-zero a h = eq_of_table (λ a _. bit_xor a 0) (λ a _. a) 256 1 refl a 0 h (omega arith)

pub xor-IsByte : (a b : ℕ) → IsByte a → IsByte b → IsByte (bit_xor a b)
unfolding all_pairs
xor-IsByte a b ha hb =
    ltb→lt _ _ (all_pairs_at 256 256 (λ a b. ltb (bit_xor a b) 256) a b ha hb refl)

-- Bit `k` of the byte `b`.
abbrev pub bit : ℕ → ℕ → ℕ
bit b k = b / 2 ^ k % 2

-- `(b >> k) & 1`.
pub and_one-bit : (b k : ℕ) → IsByte b → k < 8 → bit_and (b / 2 ^ k) 1 ≡ bit b k
unfolding all_pairs
and_one-bit = eq_of_table _ bit 256 8 refl

-- Setting bit `j` changes that bit alone.
pub bit-or_bit :
    (b j k : ℕ)
    → IsByte b
    → j < 8
    → k < 8
    → bit (bit_or b (2 ^ j)) k ≡ (if k == j then 1 else bit b k)
unfolding all_pairs all_below
bit-or_bit b j k hb hj hk = (==_iff _ _).0 (
    all_below_at 8 (λ k. bit (bit_or b (2 ^ j)) k == (if k == j then 1 else bit b k)) k hk
      (all_pairs_at 256 8
        (λ b j. all_below 8 (λ k. bit (bit_or b (2 ^ j)) k == (if k == j then 1 else bit b k))) b j
        hb hj refl))

pub or_bit-IsByte : (b j : ℕ) → IsByte b → j < 8 → IsByte (bit_or b (2 ^ j))
unfolding all_pairs
or_bit-IsByte b j hb hj =
    ltb→lt _ _ (all_pairs_at 256 8 (λ b j. ltb (bit_or b (2 ^ j)) 256) b j hb hj refl)

pub shifted_one : (j : ℕ) → j < 8 → 2 ^ j % 256 ≡ 2 ^ j
unfolding all_pairs
shifted_one j h = eq_of_table (λ j _. 2 ^ j % 256) (λ j _. 2 ^ j) 8 1 refl j 0 h (omega arith)
