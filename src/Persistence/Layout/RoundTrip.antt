-- ===== src/Persistence/Layout/RoundTrip.antt =====
-- internal/local-slave/persistence/layout.go: the model of a block and the block of a model.
use modbus_gateway.Base.{
  ap₂, false, true, ℕ, ◌+◌, ◌-◌, ◌*◌, ◌/◌, ◌%◌, ◌≤◌, ◌<◌, ◌≡◌, refl, arith, ltb, leb, ◌==◌, IsByte,
  IsWord, ok, Bool-cases, inl, inr, ap, ◌∙◌,
}
use modbus_gateway.DataModel.{DataModel, Table}
use modbus_gateway.Slave.Steps.{IsModel}
use modbus_gateway.Persistence.Layout.{
  Image, HostOrder, IsOrder, as_words, map_bytes_to_model, image_of, word_byte, total_size,
}

-- Two models that no address of the tables tells apart.
pub record Agree (m m' : DataModel) : Type 0 where
  pub coils_agree : (i : ℕ) → i ≤ 65535 → m.coils i ≡ m'.coils i
  pub discrete_inputs_agree : (i : ℕ) → i ≤ 65535 → m.discrete_inputs i ≡ m'.discrete_inputs i
  pub holding_registers_agree : (i : ℕ) → i ≤ 65535 → m.holding_registers i ≡ m'.holding_registers i
  pub input_registers_agree : (i : ℕ) → i ≤ 65535 → m.input_registers i ≡ m'.input_registers i

-- Two blocks with the same bytes where the tables lie.
abbrev pub Equal : Image → Image → Type 0
Equal a b = (i : ℕ) → i < total_size → a.byte i ≡ b.byte i

module _ (host : HostOrder) (order : IsOrder host) where
  word_byte-even : (t : Table) (i : ℕ) → word_byte host t (i * 2) ≡ host.first (t i)
  word_byte-even t i =
      let even : (i * 2 % 2 == 0) ≡ true = ground arith in
      rw even (ap (λ j. host.first (t j)) (omega arith))

  word_byte-odd : (t : Table) (i : ℕ) → word_byte host t (i * 2 + 1) ≡ host.second (t i)
  word_byte-odd t i =
      let odd : ((i * 2 + 1) % 2 == 0) ≡ false = ground arith in
      rw odd (ap (λ j. host.second (t j)) (omega arith))

  pub image_of-size : (m : DataModel) (i : ℕ) → i < total_size → i < (image_of host m).size
  unfolding image_of
  image_of-size m i h = h

  image_of-coil : (m : DataModel) (i : ℕ) → i ≤ 65535 → (image_of host m).byte (0 + i) ≡ m.coils i
  unfolding image_of
  image_of-coil m i h =
      let inside : ltb (0 + i) 65536 ≡ true = ground arith in rw inside (ap m.coils (omega arith))

  image_of-discrete_input :
      (m : DataModel) (i : ℕ) → i ≤ 65535 → (image_of host m).byte (65536 + i) ≡ m.discrete_inputs i
  unfolding image_of
  image_of-discrete_input m i h =
      let past : ltb (65536 + i) 65536 ≡ false = ground arith in
      let inside : ltb (65536 + i) 131072 ≡ true = ground arith in
      rw past (rw inside (ap m.discrete_inputs (omega arith)))

  image_of-holding :
      (m : DataModel) (i : ℕ)
      → i ≤ 131071
      → (image_of host m).byte (131072 + i) ≡ word_byte host m.holding_registers i
  unfolding image_of
  image_of-holding m i h =
      let past : ltb (131072 + i) 65536 ≡ false = ground arith in
      let past' : ltb (131072 + i) 131072 ≡ false = ground arith in
      let inside : ltb (131072 + i) 262144 ≡ true = ground arith in
      rw (past, past', inside) (ap (word_byte host m.holding_registers) (omega arith))

  image_of-input :
      (m : DataModel) (i : ℕ)
      → i ≤ 131071
      → (image_of host m).byte (262144 + i) ≡ word_byte host m.input_registers i
  unfolding image_of
  image_of-input m i h =
      let past : ltb (262144 + i) 65536 ≡ false = ground arith in
      let past' : ltb (262144 + i) 131072 ≡ false = ground arith in
      let past'' : ltb (262144 + i) 262144 ≡ false = ground arith in
      rw (past, past', past'') (ap (word_byte host m.input_registers) (omega arith))

  as_words-word_byte :
      (t : Table) (bytes : Table) (i : ℕ)
      → i ≤ 65535
      → IsWord (t i)
      → ((j : ℕ) → j ≤ 131071 → bytes j ≡ word_byte host t j)
      → as_words host bytes i ≡ t i
  as_words-word_byte t bytes i h w e =
      ap₂ host.join (e (i * 2) (omega arith) ∙ word_byte-even t i)
        (e (i * 2 + 1) (omega arith) ∙ word_byte-odd t i)
      ∙ order.join_parts (t i) w

  word_byte-as_words :
      (bytes : Table)
      → ((i : ℕ) → IsByte (bytes i))
      → (k : ℕ) → word_byte host (as_words host bytes) k ≡ bytes k
  word_byte-as_words bytes b k = elim (Bool-cases (k % 2 == 0)) [
    | inl even ↦
        rw even (order.first_join _ _ (b (k / 2 * 2)) (b (k / 2 * 2 + 1)) ∙ ap bytes (ground arith))
    | inr odd ↦
        rw odd (order.second_join _ _ (b (k / 2 * 2)) (b (k / 2 * 2 + 1)) ∙ ap bytes (ground arith))
  ]

  -- The model whose slices are views of a block.
  abbrev pub model_of : Image → DataModel
  model_of image = record {
    coils = λ i. image.byte (0 + i);
    discrete_inputs = λ i. image.byte (65536 + i);
    holding_registers = as_words host (λ i. image.byte (131072 + i));
    input_registers = as_words host (λ i. image.byte (262144 + i));
  }

  pub map_bytes_to_model-ok :
      {E : Type 0} (image : Image)
      → total_size ≤ image.size
      → map_bytes_to_model host {E = E} image ≡ ok (model_of image)
  unfolding map_bytes_to_model
  map_bytes_to_model-ok image l =
      let h1 : leb 65536 image.size ≡ true = ground arith in
      let h2 : leb 131072 image.size ≡ true = ground arith in
      let h3 : leb 262144 image.size ≡ true = ground arith in
      let h4 : leb 393216 image.size ≡ true = ground arith in rw (h1, h2, h3, h4) refl

  -- The model of a block that holds the bytes of a model, whatever lies past them.
  pub model_of-Agree :
      (image : Image) (m : DataModel)
      → IsModel m
      → Equal image (image_of host m)
      → Agree (model_of image) m
  model_of-Agree image m i e = record {
    coils_agree = λ j g. e (0 + j) (omega arith) ∙ image_of-coil m j g;
    discrete_inputs_agree = λ j g. e (65536 + j) (omega arith) ∙ image_of-discrete_input m j g;
    holding_registers_agree = λ j g.
        as_words-word_byte m.holding_registers (λ k. image.byte (131072 + k)) j g
          (i.holding_registers_words j)
          (λ k b. e (131072 + k) (omega arith) ∙ image_of-holding m k b);
    input_registers_agree = λ j g.
        as_words-word_byte m.input_registers (λ k. image.byte (262144 + k)) j g
          (i.input_registers_words j) (λ k b. e (262144 + k) (omega arith) ∙ image_of-input m k b);
  }

  pub model_of-IsModel :
      (image : Image) → ((i : ℕ) → IsByte (image.byte i)) → IsModel (model_of image)
  model_of-IsModel image b = record {
    coils_bytes = λ i. b (0 + i);
    discrete_inputs_bytes = λ i. b (65536 + i);
    holding_registers_words =
        λ i. order.join_word _ _ (b (131072 + i * 2)) (b (131072 + (i * 2 + 1)));
    input_registers_words =
        λ i. order.join_word _ _ (b (262144 + i * 2)) (b (262144 + (i * 2 + 1)));
  }

  -- The block of the model of a block.
  pub image_of-model_of :
      (image : Image)
      → ((i : ℕ) → IsByte (image.byte i))
      → Equal (image_of host (model_of image)) image
  unfolding image_of
  image_of-model_of image b i h = elim (Bool-cases (ltb i 65536)) [
    | inl in_coils ↦ rw in_coils (ap image.byte (omega arith))
    | inr past ↦ rw past (elim (Bool-cases (ltb i 131072)) [
      | inl in_discrete ↦ rw in_discrete (ap image.byte (ground arith))
      | inr past' ↦ rw past' (elim (Bool-cases (ltb i 262144)) [
        | inl in_holding ↦ rw in_holding (
            word_byte-as_words (λ k. image.byte (131072 + k)) (λ k. b (131072 + k)) (i - 131072)
            ∙ ap image.byte (ground arith))
        | inr past'' ↦ rw past'' (
            word_byte-as_words (λ k. image.byte (262144 + k)) (λ k. b (262144 + k)) (i - 262144)
            ∙ ap image.byte (ground arith))
      ])
    ])
  ]

  word_byte-IsByte : (t : Table) (k : ℕ) → ((i : ℕ) → IsWord (t i)) → IsByte (word_byte host t k)
  word_byte-IsByte t k w = elim (Bool-cases (k % 2 == 0)) [
    | inl even ↦ rw even (order.first_byte (t (k / 2)) (w (k / 2)))
    | inr odd ↦ rw odd (order.second_byte (t (k / 2)) (w (k / 2)))
  ]

  pub image_of-IsByte : (m : DataModel) (i : ℕ) → IsModel m → IsByte ((image_of host m).byte i)
  unfolding image_of
  image_of-IsByte m i w = elim (Bool-cases (ltb i 65536)) [
    | inl in_coils ↦ rw in_coils (w.coils_bytes i)
    | inr past ↦ rw past (elim (Bool-cases (ltb i 131072)) [
      | inl in_discrete ↦ rw in_discrete (w.discrete_inputs_bytes (i - 65536))
      | inr past' ↦ rw past' (elim (Bool-cases (ltb i 262144)) [
        | inl in_holding ↦
            rw in_holding
              (word_byte-IsByte m.holding_registers (i - 131072) w.holding_registers_words)
        | inr past'' ↦
            rw past'' (word_byte-IsByte m.input_registers (i - 262144) w.input_registers_words)
      ])
    ])
  ]
