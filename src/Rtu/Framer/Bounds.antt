-- ===== src/Rtu/Framer/Bounds.antt =====
-- modbus/rtu/framer.go: the buffer of `ReadResponse`, and the form of what it returns.
use modbus_gateway.Base.{
  ℕ, ◌+◌, ◌%◌, ◌≤◌, ◌<◌, ◌≡◌, ◌⊎◌, refl, [], ◌∷◌, length, get_or, Bytes, IsByte, All, arith,
  Outcome, ok, err, panic, some, length-append, get_or-append_left, get_or-append_end,
}
use modbus_gateway.Rtu.Framer.{
  read_loop_round, after, State, state_slave_id, state_function_code, state_read_length,
  state_read_payload, state_crc, Reader, Progress, more, done, FrameError, step_in, Stream,
  read_loop, start, read_response,
}

-- The first two bytes of an answer: the slave, and the function code, plain or with the top bit.
abbrev pub Answered : ℕ → ℕ → Bytes → Type 0
Answered slave_id code f =
    (get_or f 0 0 ≡ slave_id) × ((get_or f 1 0 ≡ code) ⊎ (get_or f 1 0 ≡ (code + 128) % 256))

-- What each state knows of the variables.
abbrev StateInv : ℕ → ℕ → State → Reader → Type 0
StateInv slave_id code state_slave_id r = (length r.buffer ≡ 0) × (r.crc_count ≡ 0)
StateInv slave_id code state_function_code r =
    (length r.buffer ≡ 1) × (r.crc_count ≡ 0) × (get_or r.buffer 0 0 ≡ slave_id)
StateInv slave_id code state_read_length r =
    (length r.buffer ≡ 2) × (r.crc_count ≡ 0) × Answered slave_id code r.buffer
StateInv slave_id code state_read_payload r =
    (2 ≤ length r.buffer)
    × (r.crc_count ≡ 0)
    × (1 ≤ r.to_read)
    × (length r.buffer + r.to_read ≤ 254)
    × Answered slave_id code r.buffer
StateInv slave_id code state_crc r =
    (r.crc_count < 2)
    × (3 + r.crc_count ≤ length r.buffer)
    × (length r.buffer ≤ 254 + r.crc_count)
    × Answered slave_id code r.buffer

-- What a step may come to: no panic, and a frame of an answer's form.
abbrev Keeps : ℕ → ℕ → Outcome FrameError Progress → Type 0
Keeps slave_id code (ok (more r)) = StateInv slave_id code r.state r
Keeps slave_id code (ok (done f)) = (5 ≤ length f) × (length f ≤ 256) × Answered slave_id code f
Keeps slave_id code (err e) = Unit
Keeps slave_id code panic = ⊥

step_in-Keeps :
    (s : State) (slave_id code : ℕ) (r : Reader) (b : ℕ)
    → IsByte b
    → r.state ≡ s
    → StateInv slave_id code s r
    → Keeps slave_id code (step_in s slave_id code r b)
unfolding step_in
step_in-Keeps state_slave_id slave_id code r b hb e inv =
    ground (arith, length-append r.buffer (b ∷ []), get_or-append_end r.buffer [] 0 b)
step_in-Keeps state_function_code slave_id code r b hb e inv = ground (
  arith,
  length-append r.buffer (b ∷ []),
  get_or-append_left r.buffer (b ∷ []) 0,
  get_or-append_end r.buffer [] 1 b,
)
step_in-Keeps _ slave_id code r b hb e inv = ground (
  arith,
  length-append r.buffer (b ∷ []),
  get_or-append_left r.buffer (b ∷ []) 0,
  get_or-append_left r.buffer (b ∷ []) 1,
)

-- What the loop may come to.
abbrev pub Bounded : ℕ → ℕ → Outcome FrameError Bytes → Type 0
Bounded slave_id code (ok f) = (5 ≤ length f) × (length f ≤ 256) × Answered slave_id code f
Bounded slave_id code (err e) = Unit
Bounded slave_id code panic = ⊥

read_loop-Bounded :
    (bs : Bytes) (slave_id code : ℕ) (stop : FrameError) (r : Reader)
    → All IsByte bs
    → StateInv slave_id code r.state r
    → Bounded slave_id code (read_loop slave_id code stop r bs).0
read_loop-Bounded [] slave_id code stop r h inv = unfold read_loop in tt
read_loop-Bounded (b ∷ bs) slave_id code stop r h inv = rw read_loop_round (
    next (step_in r.state slave_id code r b) (step_in-Keeps r.state slave_id code r b h.0 refl inv)
      (λ r'. read_loop-Bounded bs slave_id code stop r' h.1))
  where
    next :
        (o : Outcome FrameError Progress)
        → Keeps slave_id code o
        → ((r' : Reader)
            → StateInv slave_id code r'.state r'
            → Bounded slave_id code (read_loop slave_id code stop r' bs).0)
        → Bounded slave_id code (after slave_id code stop bs o).0
    next (ok (more r')) k ih = ih r' k
    next (ok (done f)) k ih = k
    next (err e) k ih = tt
    next panic k ih = k

-- On every stream `ReadResponse` stays in its buffer, and a frame that it returns has 5 to 256
-- bytes, begins with the slave asked, and has the code asked, plain or with 0x80 added.
pub read_response-Bounded :
    (slave_id code : ℕ) (s : Stream)
    → All IsByte s.bytes
    → Bounded slave_id code (read_response slave_id code (some s)).0
unfolding read_response
read_response-Bounded slave_id code s h =
    read_loop-Bounded s.bytes slave_id code s.stop start h (refl, refl)
