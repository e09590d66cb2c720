-- ===== src/Persistence/Sql/Cells.antt =====
-- internal/local-slave/persistence/sql.go: the cells of a model and the keys of the table.
use modbus_gateway.Base.{
  true, subst, sym, ==_refl, false, ==_iff, Bool, ℕ, zero, suc, ◌+◌, ◌≡◌, refl, sym, ◌∙◌, ap,
  Outcome, ok, err, panic, if◌then◌else◌, ltb, leb, ◌==◌, ◌&&◌, arith, Bool-cases, inl, inr,
}
use modbus_gateway.DataModel.{
  DataModel, new_data_model, TableType, table_coils, table_discrete_inputs, table_holding_registers,
  table_input_registers,
}
use modbus_gateway.Slave.Steps.{IsModel, Changed, in_coils, in_registers}
use modbus_gateway.Persistence.Sql.{SqlError, number, cells, wrapped}
use modbus_gateway.Persistence.Sql.Calls.{pos}
use modbus_gateway.Persistence.Sql.Rows.{width}

-- A range of one more address, from its first.
pub first_and_rest :
    {A : Type 0} (b : Bool) (f : ℕ → A) (a left l : ℕ) (old : A)
    → (if b && (leb (a + 1) l && ltb l (a + 1 + left))
        then f l
        else (if b && (l == a) then f a else old))
      ≡ (if b && (leb a l && ltb l (a + suc left)) then f l else old)
first_and_rest false f a left l old = refl
first_and_rest true f a left l old = elim (Bool-cases (l == a)) [
  | inl at ↦ rw ((==_iff l a).0 at) (
      let past : leb (a + 1) a ≡ false = ground arith in
      let first : leb a a ≡ true = ground arith in
      let before : ltb a (a + suc left) ≡ true = ground arith in
      rw (past, first, before, ==_refl a) refl)
  | inr away ↦ ground arith
]

pub and-left : (x y : Bool) → (x && y) ≡ true → x ≡ true
and-left true y h = refl
and-left false y h = h

pub no_key : {A : Type 0} (b : Bool) (x y : A) → (if b && false then x else y) ≡ y
no_key true x y = refl
no_key false x y = refl

unfoldable pub loaded_model : DataModel → Outcome SqlError DataModel → DataModel
loaded_model m (ok m1) = m1
loaded_model m (err e) = m
loaded_model m panic = m

pub new-zero : (t : TableType) (i : ℕ) → cells t new_data_model i ≡ 0
new-zero table_coils i = refl
new-zero table_discrete_inputs i = refl
new-zero table_holding_registers i = refl
new-zero table_input_registers i = refl

unfoldable pub table_of : ℕ → TableType
table_of zero = table_coils
table_of (suc zero) = table_discrete_inputs
table_of (suc (suc zero)) = table_holding_registers
table_of (suc (suc (suc n))) = table_input_registers

pub table_of-number : (t : TableType) → table_of (number t) ≡ t
unfolding table_of
table_of-number table_coils = refl
table_of-number table_discrete_inputs = refl
table_of-number table_holding_registers = refl
table_of-number table_input_registers = refl

-- A value of the model, written to the database and loaded.
pub wrapped-cells :
    (t : TableType) (m : DataModel) (i : ℕ)
    → IsModel m
    → wrapped (width t) (pos (cells t m i)) ≡ cells t m i
wrapped-cells table_coils m i w = omega (arith, w.coils_bytes i)
wrapped-cells table_discrete_inputs m i w = omega (arith, w.discrete_inputs_bytes i)
wrapped-cells table_holding_registers m i w = omega (arith, w.holding_registers_words i)
wrapped-cells table_input_registers m i w = omega (arith, w.input_registers_words i)

-- The test for a key that a write of a range of a table persists.
abbrev pub persists : TableType → ℕ → ℕ → TableType → ℕ → Bool
persists t a q u i = (number u == number t) && (leb a i && ltb i (a + q))

-- The other cells are those before the write.
pub Changed-cells :
    (t : TableType) (a q : ℕ) (m m' : DataModel) (u : TableType) (i : ℕ)
    → Changed t a q m m'
    → persists t a q u i ≡ false
    → cells u m i ≡ cells u m' i
Changed-cells t a q m m' table_coils i (in_coils new ty r b e f) h =
    let h' : persists table_coils a q table_coils i ≡ false =
      subst (λ x. persists x a q table_coils i ≡ false) ty h in
    sym (f i ∙ (rw h' refl))
Changed-cells t a q m m' table_discrete_inputs i (in_coils new ty r b e f) h =
    sym (ap (λ x. x.discrete_inputs i) e)
Changed-cells t a q m m' table_holding_registers i (in_coils new ty r b e f) h =
    sym (ap (λ x. x.holding_registers i) e)
Changed-cells t a q m m' table_input_registers i (in_coils new ty r b e f) h =
    sym (ap (λ x. x.input_registers i) e)
Changed-cells t a q m m' table_coils i (in_registers new ty r b e f) h = sym (ap (λ x. x.coils i) e)
Changed-cells t a q m m' table_discrete_inputs i (in_registers new ty r b e f) h =
    sym (ap (λ x. x.discrete_inputs i) e)
Changed-cells t a q m m' table_holding_registers i (in_registers new ty r b e f) h =
    let h' : persists table_holding_registers a q table_holding_registers i ≡ false =
      subst (λ x. persists x a q table_holding_registers i ≡ false) ty h in
    sym (f i ∙ (rw h' refl))
Changed-cells t a q m m' table_input_registers i (in_registers new ty r b e f) h =
    sym (ap (λ x. x.input_registers i) e)
