-- ===== src/Rtu/Framer/Finds.antt =====
-- modbus/rtu/framer.go: `ReadResponse` on streams that hold an answer.
use modbus_gateway.Base.{
  ℕ, ◌+◌, ◌%◌, ◌≤◌, ◌≡◌, ◌≢◌, ◌⊎◌, refl, ap, ◌∙◌, [], ◌∷◌, ◌++◌, length, Bytes, IsByte, All, arith,
  true, ok, some, length-append, append_assoc,
}
use modbus_gateway.Pdu.{func_code_mask_write_register}
use modbus_gateway.Rtu.Framer.{
  expect_payload, State, state_slave_id, state_function_code, state_read_length, state_read_payload,
  state_crc, Reader, FrameError, step_in, store, is_counted, is_echoed, read_loop, read_loop_round,
  start, read_response,
}

-- The codes whose answer begins with one byte that counts the rest, by the Modbus specification: the
-- reads of coils, inputs and registers, and the read and write of registers.
abbrev pub CountedCode : ℕ → Type 0
CountedCode code = (code ≡ 1) ⊎ (code ≡ 2) ⊎ (code ≡ 3) ⊎ (code ≡ 4) ⊎ (code ≡ 23)

-- The codes whose answer repeats an address and a value or a quantity: the writes of coils and
-- registers.
abbrev pub EchoedCode : ℕ → Type 0
EchoedCode code = (code ≡ 5) ⊎ (code ≡ 6) ⊎ (code ≡ 15) ⊎ (code ≡ 16)

CountedCode-is_counted : (code : ℕ) → CountedCode code → is_counted code ≡ true
unfolding is_counted
CountedCode-is_counted code h = ground arith

EchoedCode-is_echoed : (code : ℕ) → EchoedCode code → is_echoed code ≡ true
unfolding is_echoed
EchoedCode-is_echoed code h = ground arith

-- The answers to a request with function code `code`, by the specification: a count and as many
-- bytes, an echo, the address and the two masks of a mask write, or an exception. `c` is the answer's
-- code, `d` its data. The answers to the read of a FIFO queue, whose count has two bytes, are none.
pub data Answers (code c : ℕ) (d : Bytes) : Type 0 where
  counted :
      (n : ℕ) (rest : Bytes)
      → CountedCode code
      → c ≡ code
      → d ≡ n ∷ rest
      → length rest ≡ n
      → 1 ≤ n
      → n ≤ 251
      → Answers code c d
  echoed : EchoedCode code → c ≡ code → length d ≡ 4 → Answers code c d
  masked : code ≡ 22 → c ≡ code → length d ≡ 6 → Answers code c d
  refused : c ≡ (code + 128) % 256 → length d ≡ 1 → Answers code c d

module _ (slave_id code : ℕ) (stop : FrameError) where
  -- Bytes other than the slave's are skipped.
  skip_noise :
      (noise bs : Bytes) (r : Reader)
      → All (λ b. b ≢ slave_id) noise
      → r.state ≡ state_slave_id
      → read_loop slave_id code stop r (noise ++ bs) ≡ read_loop slave_id code stop r bs
  unfolding step_in
  skip_noise [] bs r h e = refl
  skip_noise (b ∷ noise) bs r h e = rw read_loop_round (ground (arith, skip_noise noise bs r h.1 e))

  -- In the payload state the bytes still due are stored.
  take_payload :
      (d bs : Bytes) (r : Reader)
      → r.state ≡ state_read_payload
      → 1 ≤ length d
      → r.to_read ≡ length d
      → length r.buffer + length d ≤ 254
      → read_loop slave_id code stop r (d ++ bs)
        ≡ read_loop slave_id code stop
            (record r { state = state_crc; buffer = r.buffer ++ d; to_read = 0 })
            bs
  unfolding step_in store
  take_payload [] bs r e h t f = absurd (omega arith)
  take_payload (b ∷ []) bs r e h t f = rw read_loop_round (ground arith)
  take_payload (b ∷ b' ∷ d) bs r e h t f = rw read_loop_round (
      ground (
        arith,
        length-append r.buffer (b ∷ []),
        append_assoc r.buffer (b ∷ []) (b' ∷ d),
        take_payload (b' ∷ d) bs (record r {
          buffer = r.buffer ++ (b ∷ []);
          to_read = (r.to_read + 255) % 256;
          state = state_read_payload;
        }),
      ))

  take_crc :
      (lo hi : ℕ) (bs : Bytes) (r : Reader)
      → r.state ≡ state_crc
      → r.crc_count ≡ 0
      → length r.buffer ≤ 254
      → read_loop slave_id code stop r (lo ∷ hi ∷ bs) ≡ (ok (r.buffer ++ (lo ∷ hi ∷ [])), bs)
  unfolding step_in store
  take_crc lo hi bs r e k f = rw read_loop_round (
      ground (
        arith,
        length-append r.buffer (lo ∷ []),
        append_assoc r.buffer (lo ∷ []) (hi ∷ []),
        read_loop_round slave_id code stop
            (record r { buffer = r.buffer ++ (lo ∷ []); crc_count = r.crc_count + 1 }) hi bs,
      ))

  -- From the payload state to the end of the frame.
  finish :
      (d : Bytes) (lo hi : ℕ) (bs : Bytes) (r : Reader)
      → r.state ≡ state_read_payload
      → 1 ≤ length d
      → r.to_read ≡ length d
      → r.crc_count ≡ 0
      → length r.buffer + length d ≤ 254
      → read_loop slave_id code stop r (d ++ (lo ∷ hi ∷ bs))
        ≡ (ok (r.buffer ++ (d ++ (lo ∷ hi ∷ []))), bs)
  finish d lo hi bs r e h t k f =
      take_payload d (lo ∷ hi ∷ bs) r e h t f
      ∙ take_crc lo hi bs (record r { state = state_crc; buffer = r.buffer ++ d; to_read = 0 }) refl
          k (omega (arith, length-append r.buffer d))
      ∙ ap (λ (x : Bytes). (ok x, bs)) (append_assoc r.buffer d (lo ∷ hi ∷ []))

  -- The slave's byte has been read.
  abbrev opened : Reader
  opened = record start { state = state_function_code; buffer = slave_id ∷ [] }

  -- The code has been read as well.
  abbrev coded : ℕ → State → ℕ → Reader
  coded c s k = record opened { state = s; buffer = slave_id ∷ c ∷ []; to_read = k }

  read_slave :
      (bs : Bytes)
      → read_loop slave_id code stop start (slave_id ∷ bs) ≡ read_loop slave_id code stop opened bs
  unfolding step_in store
  read_slave bs = rw read_loop_round (ground arith)

  read_counted :
      (n : ℕ) (bs : Bytes)
      → is_counted code ≡ true
      → 1 ≤ n
      → n ≤ 251
      → read_loop slave_id code stop opened (code ∷ n ∷ bs)
        ≡ read_loop slave_id code stop
            (record opened {
              state = state_read_payload;
              buffer = slave_id ∷ code ∷ n ∷ [];
              to_read = n;
            })
            bs
  unfolding step_in expect_payload store
  read_counted n bs c l h =
      rw read_loop_round (
        ground (arith, c, read_loop_round slave_id code stop (coded code state_read_length 0) n bs))

  read_echoed :
      (bs : Bytes)
      → is_echoed code ≡ true
      → read_loop slave_id code stop opened (code ∷ bs)
        ≡ read_loop slave_id code stop (coded code state_read_payload 4) bs
  unfolding step_in expect_payload store is_counted is_echoed
  read_echoed bs c = rw read_loop_round (ground arith)

  read_masked :
      (bs : Bytes)
      → code ≡ func_code_mask_write_register
      → read_loop slave_id code stop opened (code ∷ bs)
        ≡ read_loop slave_id code stop (coded code state_read_payload 6) bs
  unfolding step_in expect_payload store is_counted is_echoed
  read_masked bs c = rw read_loop_round (ground arith)

  read_refused :
      (bs : Bytes)
      → IsByte code
      → read_loop slave_id code stop opened ((code + 128) % 256 ∷ bs)
        ≡ read_loop slave_id code stop (coded ((code + 128) % 256) state_read_payload 1) bs
  unfolding step_in store
  read_refused bs h = rw read_loop_round (ground arith)

  read_answer :
      (c lo hi : ℕ) (d bs : Bytes)
      → IsByte code
      → Answers code c d
      → read_loop slave_id code stop opened (c ∷ (d ++ (lo ∷ hi ∷ bs)))
        ≡ (ok (slave_id ∷ c ∷ (d ++ (lo ∷ hi ∷ []))), bs)
  read_answer c lo hi d bs h (counted n rest k ec ed el l u) =
      rw (ec, ed)
        (read_counted n (rest ++ (lo ∷ hi ∷ bs)) (CountedCode-is_counted code k) l u
          ∙ finish rest lo hi bs
              (record opened {
                state = state_read_payload;
                buffer = slave_id ∷ code ∷ n ∷ [];
                to_read = n;
              })
              refl (omega arith) (omega arith) refl (omega arith))
  read_answer c lo hi d bs h (echoed k ec el) = rw ec (
      read_echoed (d ++ (lo ∷ hi ∷ bs)) (EchoedCode-is_echoed code k)
      ∙ finish d lo hi bs (coded code state_read_payload 4) refl (omega arith) (omega arith) refl
          (omega arith))
  read_answer c lo hi d bs h (masked k ec el) = rw ec (
      read_masked (d ++ (lo ∷ hi ∷ bs)) k
      ∙ finish d lo hi bs (coded code state_read_payload 6) refl (omega arith) (omega arith) refl
          (omega arith))
  read_answer c lo hi d bs h (refused ec el) = rw ec (
      read_refused (d ++ (lo ∷ hi ∷ bs)) h
      ∙ finish d lo hi bs (coded ((code + 128) % 256) state_read_payload 1) refl (omega arith)
          (omega arith) refl (omega arith))

-- After any bytes other than the slave's, an answer of that slave is returned whole, with the two
-- bytes behind it for its checksum, and what follows is left unread. The answers are those of the
-- Modbus specification to a read of coils, inputs or registers, to a write, a mask write, or a read
-- and write of registers, and the exception to any function code.
pub read_response-answer :
    (slave_id code c lo hi : ℕ) (noise d bs : Bytes) (stop : FrameError)
    → IsByte code
    → All (λ b. b ≢ slave_id) noise
    → Answers code c d
    → read_response slave_id code
        (some (record { bytes = noise ++ (slave_id ∷ c ∷ (d ++ (lo ∷ hi ∷ bs))); stop = stop }))
      ≡ (ok (slave_id ∷ c ∷ (d ++ (lo ∷ hi ∷ []))), bs)
unfolding read_response
read_response-answer slave_id code c lo hi noise d bs stop h n a =
    skip_noise slave_id code stop noise (slave_id ∷ c ∷ (d ++ (lo ∷ hi ∷ bs))) start n refl
    ∙ read_slave slave_id code stop (c ∷ (d ++ (lo ∷ hi ∷ bs)))
    ∙ read_answer slave_id code stop c lo hi d bs h a
