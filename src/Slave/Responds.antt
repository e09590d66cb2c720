-- ===== src/Slave/Responds.antt =====
-- internal/local-slave/slave.go: the responses of `Process`.
use modbus_gateway.Base.{
  false, ℕ, suc, ◌*◌, ◌%◌, ◌≤◌, ◌≡◌, ◌⊎◌, inl, inr, refl, [], ◌∷◌, length, Bytes, IsByte, All,
  arith, ltb, ◌==◌, ◌||◌, bit_or, Bool-cases, Outcome, ok, err, panic,
}
use modbus_gateway.Base.Bits.{or_top_bit}
use modbus_gateway.Pdu.{Pdu, IsPdu, Fits}
use modbus_gateway.DataModel.{DataModel, ModelError}
use modbus_gateway.Slave.{LocalSlave, Handled, exception, refuse, or_refuse, handle_read}
use modbus_gateway.Slave.Returns.{ReadReturns}

module _ {S : Type 0} where
  -- A refusal: an exception response, and the slave as it was.
  pub record Refused (s : LocalSlave S) (req resp : Pdu) (s' : LocalSlave S) : Type 0 where
    pub code : ℕ
    pub code_bounds : (1 ≤ code) × (code ≤ 3)
    pub is_exception : resp ≡ exception req.function_code code
    pub unchanged : s' ≡ s

  -- A response: it fits an ADU, the tables that a master may only read are unchanged, and it is a
  -- refusal or carries the request's function code.
  pub record IsResponse (s : LocalSlave S) (req resp : Pdu) (s' : LocalSlave S) : Type 0 where
    pub bytes : IsPdu resp
    pub fits : Fits resp
    pub discrete_inputs_kept : s'.model.discrete_inputs ≡ s.model.discrete_inputs
    pub input_registers_kept : s'.model.input_registers ≡ s.model.input_registers
    pub kind : Refused s req resp s' ⊎ (resp.function_code ≡ req.function_code)

  abbrev pub Responds : LocalSlave S → Pdu → Handled S → Type 0
  Responds s req (ok (resp, s')) = IsResponse s req resp s'
  Responds s req (err e) = ⊥
  Responds s req panic = ⊥

  pub refuse-Responds :
      (s : LocalSlave S) (req : Pdu) (code : ℕ)
      → IsByte req.function_code
      → 1 ≤ code
      → code ≤ 3
      → Responds s req (refuse s req code)
  unfolding exception
  refuse-Responds s req code h l u = record {
    bytes = record {
      code_byte = omega (arith, or_top_bit req.function_code h);
      payload_bytes = (omega arith, tt);
    };
    fits = omega arith;
    discrete_inputs_kept = refl;
    input_registers_kept = refl;
    kind =
        inl (record { code = code; code_bounds = (l, u); is_exception = refl; unchanged = refl });
  }

  pub handle_read-Responds :
      (most : ℕ) (read : DataModel → ℕ → ℕ → Outcome ModelError Bytes) (s : LocalSlave S) (c : ℕ)
      (p : Bytes)
      → IsByte c
      → All IsByte p
      → ((a q : ℕ) → 1 ≤ q → q ≤ most → ReadReturns (read s.model a q))
      → let req : Pdu = record { function_code = c; payload = p } in
        Responds s req (handle_read most read s req)
  unfolding handle_read
  handle_read-Responds most read s c [] hc hp h =
      refuse-Responds s _ 3 hc (omega arith) (omega arith)
  handle_read-Responds most read s c (x ∷ []) hc hp h =
      refuse-Responds s _ 3 hc (omega arith) (omega arith)
  handle_read-Responds most read s c (x ∷ y ∷ []) hc hp h =
      refuse-Responds s _ 3 hc (omega arith) (omega arith)
  handle_read-Responds most read s c (x ∷ y ∷ z ∷ []) hc hp h =
      refuse-Responds s _ 3 hc (omega arith) (omega arith)
  handle_read-Responds most read s c (x ∷ y ∷ z ∷ w ∷ []) hc hp h =
      let a = bit_or (x * 256) y in
      let q = bit_or (z * 256) w in
      let req : Pdu = record { function_code = c; payload = x ∷ y ∷ z ∷ w ∷ [] } in
      elim (Bool-cases (ltb q 1 || ltb most q)) [
        | inl bad ↦ rw bad (refuse-Responds s req 3 hc (omega arith) (omega arith))
        | inr good ↦ rw good (next (read s.model a q) (h a q (ground arith) (ground arith)))
      ]
    where
      next :
          (o : Outcome ModelError Bytes)
          → ReadReturns o
          → let req : Pdu = record { function_code = c; payload = x ∷ y ∷ z ∷ w ∷ [] } in
            Responds s req (
              or_refuse s req o
                (λ bs. ok (record { function_code = c; payload = length bs % 256 ∷ bs }, s)))
      next (ok bs) k = record {
        bytes = record { code_byte = hc; payload_bytes = (omega arith, k.0) };
        fits = omega arith;
        discrete_inputs_kept = refl;
        input_registers_kept = refl;
        kind = inr refl;
      }
      next (err e) k =
          refuse-Responds s (record { function_code = c; payload = x ∷ y ∷ z ∷ w ∷ [] }) 2 hc
            (omega arith) (omega arith)
      next panic k = k
  handle_read-Responds most read s c (x ∷ y ∷ z ∷ w ∷ v ∷ p) hc hp h =
      let long : (suc (suc (suc (suc (suc (length p))))) == 4) ≡ false = ground arith in
      rw long (
        refuse-Responds s (record { function_code = c; payload = x ∷ y ∷ z ∷ w ∷ v ∷ p }) 3 hc
          (omega arith) (omega arith))
