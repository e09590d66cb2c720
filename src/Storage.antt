-- ===== src/Storage.antt =====
-- internal/local-slave/persistence/storage.go: the interface behind which a local slave keeps its
-- data.
use modbus_gateway.Base.{ℕ, ◌≡◌, Outcome, ok}
use modbus_gateway.DataModel.{new_data_model, DataModel, TableType, ModelError}
use modbus_gateway.DataModel.Coils.{InRange}

-- The hook that `Storage` calls after a write, over a storage of state `S`. The storage sees the
-- model as the write left it. On a range within the tables the hook returns.
pub record Storage (S : Type 0) : Type 0 where
  pub on_write : S → DataModel → TableType → ℕ → ℕ → Outcome ModelError S
  pub on_write_returns :
      (s : S) (m : DataModel) (t : TableType) (a q : ℕ)
      → InRange a q
      → (s' : S) × (on_write s m t a q ≡ ok s')

-- internal/local-slave/persistence/memory.go: nothing is kept.
abbrev pub memory_storage : Storage (Unit {0})
memory_storage = record {
  on_write = λ s m t a q. ok s;
  on_write_returns = λ s m t a q h. (s, λ i. ok s);
}

-- Its `Load`, and its `Save`, which keeps nothing.
abbrev pub memory_load : Outcome (Unit {0}) DataModel
memory_load = ok new_data_model

abbrev pub memory_save : DataModel → Outcome (Unit {0}) (Unit {0})
memory_save m = ok tt
