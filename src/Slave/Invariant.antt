-- ===== src/Slave/Invariant.antt =====
-- internal/local-slave/slave.go: a slave over a run of requests.
use modbus_gateway.Base.{◌-◌, ◌>>=◌, [], ◌∷◌, subst, Outcome, All, List, ok, arith, ℕ, ◌≡◌, refl}
use modbus_gateway.Pdu.{Pdu, IsPdu}
use modbus_gateway.DataModel.{ModelError, DataModel, TableType}
use modbus_gateway.Storage.{Storage}
use modbus_gateway.DataModel.Coils.{InRange}
use modbus_gateway.Slave.{LocalSlave, process}
use modbus_gateway.Slave.Writes.{process-Responds}
use modbus_gateway.Slave.Steps.{
  IsModel, Changed, in_coils, in_registers, Step, same, wrote, Steps, process-Steps,
}

pub Changed-IsModel :
    (t : TableType) (a q : ℕ) (m m' : DataModel) → Changed t a q m m' → IsModel m → IsModel m'
Changed-IsModel t a q m m' (in_coils new _ r b e f) i = rw e (record {
  coils_bytes = λ j. ground (arith, f j, b (j - a), i.coils_bytes j);
  discrete_inputs_bytes = i.discrete_inputs_bytes;
  holding_registers_words = i.holding_registers_words;
  input_registers_words = i.input_registers_words;
})
Changed-IsModel t a q m m' (in_registers new _ r b e f) i = rw e (record {
  coils_bytes = i.coils_bytes;
  discrete_inputs_bytes = i.discrete_inputs_bytes;
  holding_registers_words = λ j. ground (arith, f j, b (j - a), i.holding_registers_words j);
  input_registers_words = i.input_registers_words;
})

pub Changed-InRange :
    (t : TableType) (a q : ℕ) (m m' : DataModel) → Changed t a q m m' → InRange a q
Changed-InRange t a q m m' (in_coils new _ r b e f) = r
Changed-InRange t a q m m' (in_registers new _ r b e f) = r

module _ {S : Type 0} (ops : Storage S) where
  -- `Process` on a request of bytes, on a slave whose tables hold bytes and words, returns a
  -- response and does one of two things: it leaves the model and the storage as they were, or it
  -- replaces the values of one range within the coils or the holding registers by bytes or words
  -- and tells the storage once, of that table and that range, with the model as it is after the
  -- write.
  pub process-Step :
      (s : LocalSlave S) (req : Pdu)
      → IsPdu req
      → IsModel s.model
      → (resp : Pdu) × (s' : LocalSlave S) × (process ops s req ≡ ok (resp, s')) × Step ops s s'
  process-Step s req h i =
      let (resp, s', e, _) = process-Responds ops s req h in
      (resp, s', e, subst (Steps ops s) e (process-Steps ops s req h i))

  -- The slave after `Process` of the requests in turn.
  unfoldable pub processed : LocalSlave S → List Pdu → Outcome ModelError (LocalSlave S)
  processed s [] = ok s
  processed s (req ∷ reqs) = do (resp, s') ← process ops s req; processed s' reqs

  -- A relation between storage and model that the storage's hook keeps.
  abbrev pub IsKept : (S → DataModel → Type 0) → Type 0
  IsKept R =
      (st st' : S) (m m' : DataModel) (t : TableType) (a q : ℕ)
      → R st m
      → IsModel m
      → Changed t a q m m'
      → ops.on_write st m' t a q ≡ ok st'
      → R st' m'

  Step-kept :
      (R : S → DataModel → Type 0) (s s' : LocalSlave S)
      → IsKept R
      → IsModel s.model
      → R s.storage s.model
      → Step ops s s'
      → IsModel s'.model × R s'.storage s'.model
  Step-kept R s s' k i r (same e) = rw e (i, r)
  Step-kept R s s' k i r (wrote t a q c e) = (
    Changed-IsModel t a q s.model s'.model c i,
    k s.storage s'.storage s.model s'.model t a q r i c e,
  )

  -- A relation between storage and model that the storage's hook keeps holds after any requests.
  pub processed-kept :
      (R : S → DataModel → Type 0) (s : LocalSlave S) (reqs : List Pdu)
      → IsKept R
      → All IsPdu reqs
      → IsModel s.model
      → R s.storage s.model
      → (s' : LocalSlave S) × (processed s reqs ≡ ok s') × IsModel s'.model × R s'.storage s'.model
  unfolding processed
  processed-kept R s [] k h i r = (s, refl, i, r)
  processed-kept R s (req ∷ reqs) k h i r =
      let (resp, s1, e, st) = process-Step s req h.0 i in
      let (i1, r1) = Step-kept R s s1 k i r st in
      let (s2, e2, i2, r2) = processed-kept R s1 reqs k h.1 i1 r1 in (s2, rw e e2, i2, r2)
