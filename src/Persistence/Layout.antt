-- ===== src/Persistence/Layout.antt =====
-- internal/local-slave/persistence/layout.go: the layout of the four tables in one block of bytes.
-- The order in which the host stores the two bytes of a word is a parameter.
pub mod RoundTrip
use modbus_gateway.Base.{
  ℕ, ◌+◌, ◌-◌, ◌*◌, ◌/◌, ◌%◌, ◌≡◌, ltb, leb, ◌==◌, if◌then◌else◌, IsByte, IsWord, Outcome, ok,
  ◌>>=◌, ◌>>◌, in_range,
}
use modbus_gateway.DataModel.{max_address, DataModel, Table}

-- `sizeCoils` and `sizeDiscrete`, `sizeHolding` and `sizeInput`.
abbrev pub size_bits : ℕ
size_bits = max_address + 1

abbrev pub size_words : ℕ
size_words = (max_address + 1) * 2

abbrev pub total_size : ℕ
total_size = size_bits + size_bits + size_words + size_words

abbrev pub offset_coils : ℕ
offset_coils = 0

abbrev pub offset_discrete : ℕ
offset_discrete = offset_coils + size_bits

abbrev pub offset_holding : ℕ
offset_holding = offset_discrete + size_bits

abbrev pub offset_input : ℕ
offset_input = offset_holding + size_words

-- A block of bytes. What stands past its size is not read.
pub record Image : Type 0 where
  pub size : ℕ
  pub byte : ℕ → ℕ

-- A word in memory: of its two bytes, and the first and the second of them.
pub record HostOrder : Type 0 where
  pub join : ℕ → ℕ → ℕ
  pub first : ℕ → ℕ
  pub second : ℕ → ℕ

-- Words and pairs of bytes correspond.
pub record IsOrder (host : HostOrder) : Type 0 where
  pub join_word : (a b : ℕ) → IsByte a → IsByte b → IsWord (host.join a b)
  pub first_byte : (w : ℕ) → IsWord w → IsByte (host.first w)
  pub second_byte : (w : ℕ) → IsWord w → IsByte (host.second w)
  pub first_join : (a b : ℕ) → IsByte a → IsByte b → host.first (host.join a b) ≡ a
  pub second_join : (a b : ℕ) → IsByte a → IsByte b → host.second (host.join a b) ≡ b
  pub join_parts : (w : ℕ) → IsWord w → host.join (host.first w) (host.second w) ≡ w

-- `data[offset : offset+size]`.
abbrev pub slice : {E : Type 0} → Image → ℕ → ℕ → Outcome E Table
slice image offset size = do
  in_range (leb (offset + size) image.size)
  ok (λ i. image.byte (offset + i))

module _ (host : HostOrder) where
  -- `unsafe.Slice((*uint16)(unsafe.Pointer(&bytes[0])), ...)`.
  abbrev pub as_words : Table → Table
  as_words bytes i = host.join (bytes (i * 2)) (bytes (i * 2 + 1))

  -- `mapBytesToModel`.
  unfoldable pub map_bytes_to_model : {E : Type 0} → Image → Outcome E DataModel
  map_bytes_to_model image = do
    coils' ← slice image offset_coils size_bits
    discrete ← slice image offset_discrete size_bits
    holding ← slice image offset_holding size_words
    input ← slice image offset_input size_words
    ok (record {
      coils = coils';
      discrete_inputs = discrete;
      holding_registers = as_words holding;
      input_registers = as_words input;
    })

  -- A byte of words in memory.
  abbrev pub word_byte : Table → ℕ → ℕ
  word_byte t i = if i % 2 == 0 then host.first (t (i / 2)) else host.second (t (i / 2))

  -- The block that the slices of a model are views of.
  unfoldable pub image_of : DataModel → Image
  image_of m = record {
    size = total_size;
    byte = λ i.
        if ltb i offset_discrete
        then m.coils i
        else if ltb i offset_holding
        then m.discrete_inputs (i - offset_discrete)
        else if ltb i offset_input
        then word_byte m.holding_registers (i - offset_holding)
        else word_byte m.input_registers (i - offset_input);
  }
