-- ===== src/Persistence/Sql/Rows.antt =====
-- internal/local-slave/persistence/sql.go: the model that the rows of the table stand for.
use modbus_gateway.Base.{
  IsByte, ==_refl, IsWord, ltb→lt, true, ◌&&◌, Bool, false, ℕ, zero, suc, ◌≤◌, ◌<◌, ◌≡◌, refl, sym,
  ◌∙◌, ap, Outcome, ok, err, panic, ◌>>=◌, if◌then◌else◌, ltb, ◌==◌, List, [], ◌∷◌, Option, none,
  some, arith, Bool-cases, inl, inr,
}
use modbus_gateway.DataModel.{
  DataModel, TableType, table_coils, table_discrete_inputs, table_holding_registers,
  table_input_registers,
}
use modbus_gateway.Slave.Steps.{IsModel}
use modbus_gateway.Persistence.Sql.{
  SqlError, number, cells, wrapped, store_row, load_row, load_rows,
}
use modbus_gateway.Persistence.Sql.Calls.{
  ℤ, pos, negsuc, Row, unreadable, row, or_else, row_value, value_at,
}

abbrev pub width : TableType → ℕ
width table_coils = 256
width table_discrete_inputs = 256
width table_holding_registers = 65536
width table_input_registers = 65536

-- A cell after the load of a value, if there is one.
abbrev pub loaded : TableType → Option ℤ → ℕ → ℕ
loaded t none old = old
loaded t (some v) old = wrapped (width t) v

loaded-or_else :
    (t : TableType) (x y : Option ℤ) (old : ℕ)
    → loaded t x (loaded t y old) ≡ loaded t (or_else x y) old
loaded-or_else t none y old = refl
loaded-or_else t (some v) y old = refl

-- No value at a negative address of a table.
abbrev pub NoNegative : List Row → Type 0
NoNegative rs = (t a : ℕ) → t < 4 → value_at rs (pos t) (negsuc a) ≡ none

-- The model that the loop leaves: each cell has the value of its key in the rows, or its own.
abbrev pub Loads : List Row → DataModel → Outcome SqlError DataModel → Type 0
Loads rs m (ok m') =
    NoNegative rs
    × ((t : TableType) (i : ℕ)
        → i ≤ 65535
        → cells t m' i ≡ loaded t (value_at rs (pos (number t)) (pos i)) (cells t m i))
Loads rs m (err e) = ⊥
Loads rs m panic = ¬ NoNegative rs

store_row-cells :
    (m : DataModel) (n a : ℕ) (v : ℤ) (t : TableType) (i : ℕ)
    → cells t (store_row m n a v) i
      ≡ loaded t (row_value (row (pos n) (pos a) v) (pos (number t)) (pos i)) (cells t m i)
store_row-cells m zero a v table_coils i = ground arith
store_row-cells m zero a v table_discrete_inputs i = refl
store_row-cells m zero a v table_holding_registers i = refl
store_row-cells m zero a v table_input_registers i = refl
store_row-cells m (suc zero) a v table_coils i = refl
store_row-cells m (suc zero) a v table_discrete_inputs i = ground arith
store_row-cells m (suc zero) a v table_holding_registers i = refl
store_row-cells m (suc zero) a v table_input_registers i = refl
store_row-cells m (suc (suc zero)) a v table_coils i = refl
store_row-cells m (suc (suc zero)) a v table_discrete_inputs i = refl
store_row-cells m (suc (suc zero)) a v table_holding_registers i = ground arith
store_row-cells m (suc (suc zero)) a v table_input_registers i = refl
store_row-cells m (suc (suc (suc zero))) a v table_coils i = refl
store_row-cells m (suc (suc (suc zero))) a v table_discrete_inputs i = refl
store_row-cells m (suc (suc (suc zero))) a v table_holding_registers i = refl
store_row-cells m (suc (suc (suc zero))) a v table_input_registers i = ground arith
store_row-cells m (suc (suc (suc (suc n)))) a v table_coils i = ground arith
store_row-cells m (suc (suc (suc (suc n)))) a v table_discrete_inputs i = ground arith
store_row-cells m (suc (suc (suc (suc n)))) a v table_holding_registers i = ground arith
store_row-cells m (suc (suc (suc (suc n)))) a v table_input_registers i = ground arith

by_false : (b : Bool) (v : ℤ) → (if b && false then some v else none) ≡ none
by_false true v = refl
by_false false v = refl

here : (n a : ℕ) (v : ℤ) → row_value (row (pos n) (negsuc a) v) (pos n) (negsuc a) ≡ some v
here n a v = rw (==_refl n, ==_refl a) refl

load_row-Loads : (m : DataModel) (r : Row) → Loads (r ∷ []) m (load_row m r)
unfolding load_row
load_row-Loads m unreadable = ((λ t a h. refl), λ t i h. refl)
load_row-Loads m (row (pos n) (pos a) v) = elim (Bool-cases (ltb 65535 a)) [
  | inl far ↦ rw far (
    (λ t b h. by_false (t == n) v),
    λ t i h.
        (let other : (i == a) ≡ false = ground arith in
          rw other (ap (λ b. loaded t b (cells t m i)) (sym (by_false (number t == n) v)))),
  )
  | inr near ↦ rw near ((λ t b h. by_false (t == n) v), λ t i h. store_row-cells m n a v t i)
]
load_row-Loads m (row (pos n) (negsuc a) v) = elim (Bool-cases (ltb n 4)) [
  | inl bad ↦
      rw bad (λ g. (let none_is : some v ≡ none = sym (here n a v) ∙ g n a (ltb→lt n 4 bad) in cc))
  | inr fine ↦ rw fine (
    (λ t b h. (let other : (t == n) ≡ false = ground arith in rw other refl)),
    λ t i h. ap (λ b. loaded t b (cells t m i)) (sym (by_false (number t == n) v)),
  )
]
load_row-Loads m (row (negsuc n) a v) = ((λ t b h. refl), λ t i h. refl)

or_else-none : (x y : Option ℤ) → or_else x y ≡ none → (x ≡ none) × (y ≡ none)
or_else-none none y h = (refl, h)
or_else-none (some v) y h = cc

rest-Loads :
    (r : Row) (rs : List Row) (m m1 : DataModel) (o : Outcome SqlError DataModel)
    → Loads (r ∷ []) m (ok m1)
    → Loads rs m1 o
    → Loads (r ∷ rs) m o
rest-Loads r rs m m1 (ok m2) (f, c) (g, d) = (
  (λ t a l. rw (g t a l) (f t a l)),
  (λ t i l.
      let key = pos (number t) in
      d t i l
      ∙ ap (loaded t (value_at rs key (pos i))) (c t i l)
      ∙ loaded-or_else t (value_at rs key (pos i)) (row_value r key (pos i)) (cells t m i)),
)
rest-Loads r rs m m1 (err e) h k = k
rest-Loads r rs m m1 panic h k = λ g. k (λ t a l. (or_else-none _ _ (g t a l)).0)

then-Loads :
    (r : Row) (rs : List Row) (m : DataModel) (o : Outcome SqlError DataModel)
    → Loads (r ∷ []) m o
    → ((m1 : DataModel) → Loads rs m1 (load_rows m1 rs))
    → Loads (r ∷ rs) m (o >>= λ m1. load_rows m1 rs)
then-Loads r rs m (ok m1) h k = rest-Loads r rs m m1 (load_rows m1 rs) h (k m1)
then-Loads r rs m (err e) h k = h
then-Loads r rs m panic h k = λ g. h (λ t a l. (or_else-none _ _ (g t a l)).1)

pub load_rows-Loads : (rs : List Row) (m : DataModel) → Loads rs m (load_rows m rs)
unfolding load_rows
load_rows-Loads [] m = ((λ t a l. refl), (λ t i l. refl))
load_rows-Loads (r ∷ rs) m =
    then-Loads r rs m (load_row m r) (load_row-Loads m r) (load_rows-Loads rs)

wrapped-IsByte : (v : ℤ) → IsByte (wrapped 256 v)
wrapped-IsByte (pos n) = omega arith
wrapped-IsByte (negsuc n) = omega arith

wrapped-IsWord : (v : ℤ) → IsWord (wrapped 65536 v)
wrapped-IsWord (pos n) = omega arith
wrapped-IsWord (negsuc n) = omega arith

store_row-IsModel : (m : DataModel) (n a : ℕ) (v : ℤ) → IsModel m → IsModel (store_row m n a v)
store_row-IsModel m zero a v i = record {
  coils_bytes = λ j. ground (arith, wrapped-IsByte v, i.coils_bytes j);
  discrete_inputs_bytes = i.discrete_inputs_bytes;
  holding_registers_words = i.holding_registers_words;
  input_registers_words = i.input_registers_words;
}
store_row-IsModel m (suc zero) a v i = record {
  coils_bytes = i.coils_bytes;
  discrete_inputs_bytes = λ j. ground (arith, wrapped-IsByte v, i.discrete_inputs_bytes j);
  holding_registers_words = i.holding_registers_words;
  input_registers_words = i.input_registers_words;
}
store_row-IsModel m (suc (suc zero)) a v i = record {
  coils_bytes = i.coils_bytes;
  discrete_inputs_bytes = i.discrete_inputs_bytes;
  holding_registers_words = λ j. ground (arith, wrapped-IsWord v, i.holding_registers_words j);
  input_registers_words = i.input_registers_words;
}
store_row-IsModel m (suc (suc (suc zero))) a v i = record {
  coils_bytes = i.coils_bytes;
  discrete_inputs_bytes = i.discrete_inputs_bytes;
  holding_registers_words = i.holding_registers_words;
  input_registers_words = λ j. ground (arith, wrapped-IsWord v, i.input_registers_words j);
}
store_row-IsModel m (suc (suc (suc (suc n)))) a v i = i

-- The widths of the tables after a load.
abbrev pub IsModelIf : Outcome SqlError DataModel → Type 0
IsModelIf (ok m) = IsModel m
IsModelIf (err e) = Unit
IsModelIf panic = Unit

either-IsModelIf :
    (b : Bool) (x y : Outcome SqlError DataModel)
    → IsModelIf x
    → IsModelIf y
    → IsModelIf (if b then x else y)
either-IsModelIf true x y h k = h
either-IsModelIf false x y h k = k

load_row-IsModelIf : (m : DataModel) (r : Row) → IsModel m → IsModelIf (load_row m r)
unfolding load_row
load_row-IsModelIf m unreadable i = i
load_row-IsModelIf m (row (pos n) (pos a) v) i =
    either-IsModelIf (ltb 65535 a) (ok m) (ok (store_row m n a v)) i (store_row-IsModel m n a v i)
load_row-IsModelIf m (row (pos n) (negsuc a) v) i = either-IsModelIf (ltb n 4) panic (ok m) tt i
load_row-IsModelIf m (row (negsuc n) a v) i = i

then-IsModelIf :
    (rs : List Row) (o : Outcome SqlError DataModel)
    → IsModelIf o
    → ((m : DataModel) → IsModel m → IsModelIf (load_rows m rs))
    → IsModelIf (o >>= λ m. load_rows m rs)
then-IsModelIf rs (ok m) h k = k m h
then-IsModelIf rs (err e) h k = tt
then-IsModelIf rs panic h k = tt

pub load_rows-IsModelIf : (rs : List Row) (m : DataModel) → IsModel m → IsModelIf (load_rows m rs)
unfolding load_rows
load_rows-IsModelIf [] m i = i
load_rows-IsModelIf (r ∷ rs) m i =
    then-IsModelIf rs (load_row m r) (load_row-IsModelIf m r i) (load_rows-IsModelIf rs)
