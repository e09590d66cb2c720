-- ===== src/Persistence/Sql.antt =====
-- internal/local-slave/persistence/sql.go: a storage in a table of a SQL database. The database is
-- a parameter. The storage's reference to the model is the slave's own model.
pub mod Calls
pub mod Rows
pub mod Cells
pub mod Mirrors
pub mod Recovers
use modbus_gateway.Base.{
  inr, inl, ℕ, zero, suc, ◌+◌, ◌-◌, ◌%◌, ◌≤◌, ◌≡◌, refl, Outcome, ok, err, panic, ◌>>=◌,
  if◌then◌else◌, ltb, List, [], ◌∷◌, Option, none, some, arith, lt→ltb,
}
use modbus_gateway.DataModel.{
  DataModel, new_data_model, TableType, table_coils, table_discrete_inputs, table_holding_registers,
  table_input_registers, ModelError, Table, index, put, max_address,
}
use modbus_gateway.DataModel.Coils.{InRange}
use modbus_gateway.Storage.{Storage}
use modbus_gateway.Persistence.Sql.Calls.{
  Option-cases, ℤ, pos, negsuc, Row, unreadable, row, Database,
}

pub data SqlError : Type 0 where
  failed_to_open failed_to_init failed_to_query : SqlError

abbrev pub or_fail : {A : Type 0} → SqlError → Option A → Outcome SqlError A
or_fail e (some a) = ok a
or_fail e none = err e

-- The table types by their numbers.
abbrev pub number : TableType → ℕ
number table_coils = 0
number table_discrete_inputs = 1
number table_holding_registers = 2
number table_input_registers = 3

abbrev pub cells : TableType → DataModel → Table
cells table_coils m = m.coils
cells table_discrete_inputs m = m.discrete_inputs
cells table_holding_registers m = m.holding_registers
cells table_input_registers m = m.input_registers

-- `byte(val)` and `uint16(val)`: what is left of a number, modulo `w`.
abbrev pub wrapped : ℕ → ℤ → ℕ
wrapped w (pos n) = n % w
wrapped w (negsuc n) = w - 1 - n % w

-- The switch of `Load`, for an address within the tables.
abbrev pub store_row : DataModel → ℕ → ℕ → ℤ → DataModel
store_row m zero addr val = record m { coils = put m.coils addr (wrapped 256 val) }
store_row m (suc zero) addr val = record m {
  discrete_inputs = put m.discrete_inputs addr (wrapped 256 val);
}
store_row m (suc (suc zero)) addr val = record m {
  holding_registers = put m.holding_registers addr (wrapped 65536 val);
}
store_row m (suc (suc (suc zero))) addr val = record m {
  input_registers = put m.input_registers addr (wrapped 65536 val);
}
store_row m (suc (suc (suc (suc t)))) addr val = m

-- The body of the loop of `Load`. A negative address passes the test and the index panics.
unfoldable pub load_row : DataModel → Row → Outcome SqlError DataModel
load_row m unreadable = ok m
load_row m (row (pos t) (pos addr) val) =
    if ltb max_address addr then ok m else ok (store_row m t addr val)
load_row m (row (pos t) (negsuc addr) val) = if ltb t 4 then panic else ok m
load_row m (row (negsuc t) addr val) = ok m

-- The loop of `Load`.
unfoldable pub load_rows : DataModel → List Row → Outcome SqlError DataModel
unfolding load_row
load_rows m [] = ok m
load_rows m (r ∷ rs) = do m' ← load_row m r; load_rows m' rs

-- The database of a `SQLStorage`, `none` before a `Load` has returned a model.
pub record SqlStorage (D : Type 0) : Type 0 where
  pub db : Option D

module _ {D : Type 0} (database : Database D) where
  -- `Load` from the database `d`, with the storage after it.
  unfoldable pub load : D → Outcome SqlError (DataModel × SqlStorage D)
  unfolding load_rows
  load d = do
    opened ← or_fail failed_to_open (database.connect d)
    created ← or_fail failed_to_init (database.create_table opened)
    rows ← or_fail failed_to_query (database.query created)
    m ← load_rows new_data_model rows
    ok (m, record { db = some created })

  abbrev pub or_logged : D → Option D → D
  or_logged d (some d') = d'
  or_logged d none = d

  -- The loop of `OnWrite`: the rounds left, and `int(address) + i`. An error is only logged.
  unfoldable pub persist_loop : ℕ → D → DataModel → TableType → ℕ → Outcome ModelError D
  persist_loop zero d m table addr = ok d
  persist_loop (suc left) d m table addr = do
    val ← index (cells table m) addr
    persist_loop left (or_logged d (database.upsert d (number table) addr val)) m table (addr + 1)

  -- `OnWrite`.
  unfoldable pub on_write :
      SqlStorage D → DataModel → TableType → ℕ → ℕ → Outcome ModelError (SqlStorage D)
  unfolding persist_loop
  on_write s m table address quantity = told s.db
    where
      told : Option D → Outcome ModelError (SqlStorage D)
      told none = ok s
      told (some d) = do d' ← persist_loop quantity d m table address; ok (record { db = some d' })

  -- `Save`.
  unfoldable pub save : SqlStorage D → DataModel → Outcome SqlError (SqlStorage D)
  save s m = ok s

  -- `Close`, where there is a database. The storage keeps it.
  abbrev pub close : SqlStorage D → Outcome (Unit {0}) (SqlStorage D)
  close s = elim s.db [
    | none ↦ ok s
    | some d ↦ elim (database.close_database d) [
      | some d' ↦ ok (record { db = some d' })
      | none ↦ err tt
    ]
  ]

  persist_loop-ok :
      (left : ℕ) (d : D) (m : DataModel) (t : TableType) (a : ℕ)
      → a + left ≤ 65536
      → (d' : D) × (persist_loop left d m t a ≡ ok d')
  unfolding persist_loop
  persist_loop-ok zero d m t a h = (d, refl)
  persist_loop-ok (suc left) d m t a h =
      let inside = lt→ltb a 65536 (omega arith) in
      let (d', e) =
        persist_loop-ok left (or_logged d (database.upsert d (number t) a (cells t m a))) m t
          (a + 1) (omega arith) in
      (d', rw inside e)

  pub on_write-ok :
      (s : SqlStorage D) (m : DataModel) (t : TableType) (a q : ℕ)
      → InRange a q
      → (s' : SqlStorage D) × (on_write s m t a q ≡ ok s')
  unfolding on_write
  on_write-ok s m t a q h = elim (Option-cases s.db) [
    | inl e ↦ (s, rw e refl)
    | inr (d, e) ↦
        let (d', r) = persist_loop-ok q d m t a h.1 in (record { db = some d' }, rw e (rw r refl))
  ]

  -- `SQLStorage` as a storage.
  abbrev pub sql_storage : Storage (SqlStorage D)
  sql_storage = record { on_write = on_write; on_write_returns = on_write-ok }
