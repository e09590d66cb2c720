-- ===== src/Rtu/Framer/Taken.antt =====
-- modbus/rtu/framer.go: where in the stream a frame that `ReadResponse` returns stands.
use modbus_gateway.Base.{
  IsByte, All, subst, ℕ, ◌≡◌, ◌⊎◌, inl, inr, refl, sym, ap, ◌∙◌, [], ◌∷◌, ◌++◌, Bytes, arith,
  Outcome, ok, err, panic, some, append_assoc,
}
use modbus_gateway.Rtu.Framer.{
  read_loop_round, after, State, state_slave_id, state_function_code, state_read_length,
  state_read_payload, state_crc, Reader, Progress, more, done, FrameError, step_in, store,
  expect_payload, Stream, read_loop, start, read_response, Reading,
}

-- A frame in a stream: the slave's byte, and, after bytes that are skipped, all the others one behind
-- the other.
pub record Taken (slave_id : ℕ) (stream frame : Bytes) : Type 0 where
  pub front : Bytes
  pub skipped : Bytes
  pub tail : Bytes
  pub unread : Bytes
  pub stands : stream ≡ front ++ (slave_id ∷ (skipped ++ (tail ++ unread)))
  pub whole : frame ≡ slave_id ∷ tail

-- The states behind the function code.
abbrev InFrame : State → Type 0
InFrame state_slave_id = ⊥
InFrame state_function_code = ⊥
InFrame state_read_length = Unit
InFrame state_read_payload = Unit
InFrame state_crc = Unit

-- A step that stores its byte.
abbrev Stores : Reader → ℕ → Outcome FrameError Progress → Type 0
Stores r b (ok (more r')) = (r'.buffer ≡ r.buffer ++ (b ∷ [])) × InFrame r'.state
Stores r b (ok (done f)) = f ≡ r.buffer ++ (b ∷ [])
Stores r b (err e) = Unit
Stores r b panic = Unit

step_in-Stores :
    (s : State) (slave_id code : ℕ) (r : Reader) (b : ℕ)
    → InFrame s
    → r.state ≡ s
    → Stores r b (step_in s slave_id code r b)
unfolding step_in store
step_in-Stores state_slave_id slave_id code r b i e = absurd i
step_in-Stores state_function_code slave_id code r b i e = absurd i
step_in-Stores state_read_length slave_id code r b i e = ground arith
step_in-Stores state_read_payload slave_id code r b i e = ground arith
step_in-Stores state_crc slave_id code r b i e = ground arith

-- A step that skips its byte, or stores it.
abbrev Skips : Reader → ℕ → Outcome FrameError Progress → Type 0
Skips r b (ok (more r')) = (r' ≡ r) ⊎ Stores r b (ok (more r'))
Skips r b (ok (done f)) = ⊥
Skips r b (err e) = Unit
Skips r b panic = Unit

step_in-Skips :
    (slave_id code : ℕ) (r : Reader) (b : ℕ)
    → Skips r b (step_in state_function_code slave_id code r b)
unfolding step_in store expect_payload
step_in-Skips slave_id code r b = ground arith

-- A step that looks for the slave.
abbrev Seeks : ℕ → Reader → ℕ → Outcome FrameError Progress → Type 0
Seeks slave_id r b (ok (more r')) =
    (r' ≡ r)
    ⊎ ((b ≡ slave_id) × (r'.buffer ≡ r.buffer ++ (b ∷ [])) × (r'.state ≡ state_function_code))
Seeks slave_id r b (ok (done f)) = ⊥
Seeks slave_id r b (err e) = Unit
Seeks slave_id r b panic = Unit

step_in-Seeks :
    (slave_id code : ℕ) (r : Reader) (b : ℕ)
    → Seeks slave_id r b (step_in state_slave_id slave_id code r b)
unfolding step_in store
step_in-Seeks slave_id code r b = ground arith

-- What is stored of the bytes from here on: all of them up to the end of the frame.
abbrev Stored : Bytes → Bytes → Reading → Type 0
Stored buffer bs (ok f, rest) = (tail : Bytes) × (bs ≡ tail ++ rest) × (f ≡ buffer ++ tail)
Stored buffer bs (err e, rest) = Unit
Stored buffer bs (panic, rest) = Unit

-- The same, behind bytes that are skipped.
abbrev StoredLater : Bytes → Bytes → Reading → Type 0
StoredLater buffer bs (ok f, rest) =
    (skipped : Bytes) × (tail : Bytes) × (bs ≡ skipped ++ (tail ++ rest)) × (f ≡ buffer ++ tail)
StoredLater buffer bs (err e, rest) = Unit
StoredLater buffer bs (panic, rest) = Unit

Stored-cons :
    (b : ℕ) (bs buffer buffer' : Bytes) (reading : Reading)
    → buffer' ≡ buffer ++ (b ∷ [])
    → Stored buffer' bs reading
    → Stored buffer (b ∷ bs) reading
Stored-cons b bs buffer buffer' (ok f, rest) e (tail, split, whole) = (
  b ∷ tail,
  ap (λ (l : Bytes). b ∷ l) split,
  whole ∙ ap (λ (l : Bytes). l ++ tail) e ∙ append_assoc buffer (b ∷ []) tail,
)
Stored-cons b bs buffer buffer' (err x, rest) e s = tt
Stored-cons b bs buffer buffer' (panic, rest) e s = tt

Stored-StoredLater :
    (bs buffer : Bytes) (reading : Reading)
    → Stored buffer bs reading
    → StoredLater buffer bs reading
Stored-StoredLater bs buffer (ok f, rest) (tail, split, whole) = ([], tail, split, whole)
Stored-StoredLater bs buffer (err x, rest) s = tt
Stored-StoredLater bs buffer (panic, rest) s = tt

StoredLater-cons :
    (b : ℕ) (bs buffer : Bytes) (reading : Reading)
    → StoredLater buffer bs reading
    → StoredLater buffer (b ∷ bs) reading
StoredLater-cons b bs buffer (ok f, rest) (skipped, tail, split, whole) =
    (b ∷ skipped, tail, ap (λ (l : Bytes). b ∷ l) split, whole)
StoredLater-cons b bs buffer (err x, rest) s = tt
StoredLater-cons b bs buffer (panic, rest) s = tt

module _ (slave_id code : ℕ) (stop : FrameError) where
  -- Behind the function code nothing is skipped.
  read_loop-Stored :
      (bs : Bytes) (r : Reader)
      → InFrame r.state
      → Stored r.buffer bs (read_loop slave_id code stop r bs)
  read_loop-Stored [] r i = unfold read_loop in tt
  read_loop-Stored (b ∷ bs) r i = rw read_loop_round (
      next (step_in r.state slave_id code r b) (step_in-Stores r.state slave_id code r b i refl)
        (read_loop-Stored bs))
    where
      next :
          (o : Outcome FrameError Progress)
          → Stores r b o
          → ((r' : Reader)
              → InFrame r'.state
              → Stored r'.buffer bs (read_loop slave_id code stop r' bs))
          → Stored r.buffer (b ∷ bs) (after slave_id code stop bs o)
      next (ok (more r')) (e, j) ih = Stored-cons b bs r.buffer r'.buffer _ e (ih r' j)
      next (ok (done f)) e ih = (b ∷ [], refl, e)
      next (err e) s ih = tt
      next panic s ih = tt

  -- In front of the function code bytes may be skipped.
  read_loop-StoredLater :
      (bs : Bytes) (r : Reader)
      → r.state ≡ state_function_code
      → StoredLater r.buffer bs (read_loop slave_id code stop r bs)
  read_loop-StoredLater [] r e = unfold read_loop in tt
  read_loop-StoredLater (b ∷ bs) r e = rw read_loop_round (
      next (step_in r.state slave_id code r b)
        (subst (λ s. Skips r b (step_in s slave_id code r b)) (sym e)
          (step_in-Skips slave_id code r b))
        (read_loop-StoredLater bs r e))
    where
      next :
          (o : Outcome FrameError Progress)
          → Skips r b o
          → StoredLater r.buffer bs (read_loop slave_id code stop r bs)
          → StoredLater r.buffer (b ∷ bs) (after slave_id code stop bs o)
      next (ok (more r')) (inl same) ih = rw same (StoredLater-cons b bs r.buffer _ ih)
      next (ok (more r')) (inr (h, j)) ih =
          Stored-StoredLater (b ∷ bs) r.buffer _
            (Stored-cons b bs r.buffer r'.buffer _ h (read_loop-Stored bs r' j))
      next (ok (done f)) s ih = absurd s
      next (err x) s ih = tt
      next panic s ih = tt

-- What the whole loop returns.
abbrev pub Found : ℕ → Bytes → Outcome FrameError Bytes → Type 0
Found slave_id bs (ok f) = Taken slave_id bs f
Found slave_id bs (err e) = Unit
Found slave_id bs panic = Unit

Found-cons :
    (slave_id b : ℕ) (bs : Bytes) (o : Outcome FrameError Bytes)
    → Found slave_id bs o
    → Found slave_id (b ∷ bs) o
Found-cons slave_id b bs (ok f) t = record {
  front = b ∷ t.front;
  skipped = t.skipped;
  tail = t.tail;
  unread = t.unread;
  stands = ap (λ (l : Bytes). b ∷ l) t.stands;
  whole = t.whole;
}
Found-cons slave_id b bs (err e) t = tt
Found-cons slave_id b bs panic t = tt

StoredLater-Found :
    (slave_id : ℕ) (bs : Bytes) (reading : Reading)
    → StoredLater (slave_id ∷ []) bs reading
    → Found slave_id (slave_id ∷ bs) reading.0
StoredLater-Found slave_id bs (ok f, rest) (skipped, tail, split, whole) = record {
  front = [];
  skipped = skipped;
  tail = tail;
  unread = rest;
  stands = ap (λ (l : Bytes). slave_id ∷ l) split;
  whole = whole;
}
StoredLater-Found slave_id bs (err e, rest) s = tt
StoredLater-Found slave_id bs (panic, rest) s = tt

read_loop-Found :
    (slave_id code : ℕ) (stop : FrameError) (bs : Bytes) (r : Reader)
    → r.state ≡ state_slave_id
    → r.buffer ≡ []
    → Found slave_id bs (read_loop slave_id code stop r bs).0
read_loop-Found slave_id code stop [] r e n = unfold read_loop in tt
read_loop-Found slave_id code stop (b ∷ bs) r e n = rw read_loop_round (
    next (step_in r.state slave_id code r b)
      (subst (λ s. Seeks slave_id r b (step_in s slave_id code r b)) (sym e)
        (step_in-Seeks slave_id code r b))
      (read_loop-Found slave_id code stop bs r e n))
  where
    next :
        (o : Outcome FrameError Progress)
        → Seeks slave_id r b o
        → Found slave_id bs (read_loop slave_id code stop r bs).0
        → Found slave_id (b ∷ bs) (after slave_id code stop bs o).0
    next (ok (more r')) (inl same) ih = rw same (Found-cons slave_id b bs _ ih)
    next (ok (more r')) (inr (at, stored, coded)) ih =
        let opened : r'.buffer ≡ slave_id ∷ [] =
          stored ∙ ap (λ (l : Bytes). l ++ (b ∷ [])) n ∙ ap (λ (x : ℕ). x ∷ []) at in
        let later = read_loop-StoredLater slave_id code stop bs r' coded in
        let reading = read_loop slave_id code stop r' bs in
        subst (λ x. Found slave_id (x ∷ bs) reading.0) (sym at)
          (StoredLater-Found slave_id bs reading
            (subst (λ l. StoredLater l bs reading) opened later))
    next (ok (done f)) s ih = absurd s
    next (err x) s ih = tt
    next panic s ih = tt

-- A frame that `ReadResponse` returns stands in the stream: the slave's byte, and, after bytes that
-- are skipped, all the others one behind the other.
pub read_response-Found :
    (slave_id code : ℕ) (s : Stream)
    → Found slave_id s.bytes (read_response slave_id code (some s)).0
unfolding read_response
read_response-Found slave_id code s = read_loop-Found slave_id code s.stop s.bytes start refl refl

All-parts : (front back : Bytes) → All IsByte (front ++ back) → All IsByte front × All IsByte back
All-parts [] back h = (tt, h)
All-parts (b ∷ front) back (h, hs) = let (f, k) = All-parts front back hs in ((h, f), k)

-- A frame taken from bytes consists of bytes.
pub Taken-IsByte :
    (slave_id : ℕ) (stream frame : Bytes)
    → Taken slave_id stream frame
    → All IsByte stream
    → All IsByte frame
Taken-IsByte slave_id stream frame t h =
    let all = subst (All IsByte) t.stands h in
    let (id, behind) = (All-parts t.front _ all).1 in
    let tail = (All-parts t.tail t.unread (All-parts t.skipped _ behind).1).0 in
    subst (All IsByte) (sym t.whole) (id, tail)
