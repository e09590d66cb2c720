-- ===== src/Local/Startup.antt =====
-- transport/local/client.go: `NewClient`, which chooses a storage and loads the model from it.
pub mod Starts
use modbus_gateway.Base.{
  ℕ, ◌≡◌, ◌≢◌, ◌≤◌, refl, sym, ◌∙◌, ap, Bool, true, false, ◌==◌, ◌&&◌, if◌then◌else◌, List, [], ◌∷◌,
  All, Outcome, ok, err, panic, ◌>>=◌, Option, some, none, arith,
}
use modbus_gateway.Pdu.{Pdu, IsPdu}
use modbus_gateway.DataModel.{DataModel, new_data_model, TableType, ModelError}
use modbus_gateway.DataModel.Coils.{InRange}
use modbus_gateway.Storage.{memory_load, Storage}
use modbus_gateway.Gateway.SlaveIds.{Text}
use modbus_gateway.Slave.{LocalSlave, process}
use modbus_gateway.Slave.Writes.{process-Responds}
use modbus_gateway.Slave.Invariant.{processed}
use modbus_gateway.Persistence.Layout.{HostOrder}
use modbus_gateway.Persistence.Disk.{Disk}
use modbus_gateway.Persistence.FileStorage.{FileStorage}
use modbus_gateway.Persistence.MmapStorage.{MmapStorage}
use modbus_gateway.Persistence.Sql.{SqlStorage}
use modbus_gateway.Persistence.Sql.Calls.{Database}

-- The types of storage in the configuration: "file", "mmap" and "sql".
abbrev pub file_type : Text
file_type = 102 ∷ 105 ∷ 108 ∷ 101 ∷ []

abbrev pub mmap_type : Text
mmap_type = 109 ∷ 109 ∷ 97 ∷ 112 ∷ []

abbrev pub sql_type : Text
sql_type = 115 ∷ 113 ∷ 108 ∷ []

abbrev pub is_text : Text → Text → Bool
is_text [] [] = true
is_text [] (b ∷ bs) = false
is_text (a ∷ rest) [] = false
is_text (a ∷ rest) (b ∷ bs) = (a == b) && is_text rest bs

-- The storages, over disks of type `D` and databases of type `B`.
pub data AnyStorage (D B : Type 0) : Type 0 where
  in_file : FileStorage D → AnyStorage D B
  in_mapping : MmapStorage D → AnyStorage D B
  in_database : SqlStorage B → AnyStorage D B
  in_memory : AnyStorage D B

-- A storage in the interface; what is wrong with its load is only logged.
abbrev pub loaded_as :
    {E S A : Type 0} → (S → A) → Outcome E (DataModel × S) → Outcome (Unit {0}) (DataModel × A)
loaded_as f (ok (m, s)) = ok (m, f s)
loaded_as f (err e) = err tt
loaded_as f panic = panic

abbrev pub told_as : {S A : Type 0} → (S → A) → Outcome ModelError S → Outcome ModelError A
told_as f (ok s) = ok (f s)
told_as f (err e) = err e
told_as f panic = panic

told_as-ok :
    {S A : Type 0} (f : S → A) (o : Outcome ModelError S)
    → ((s : S) × (o ≡ ok s))
    → (a : A) × (told_as f o ≡ ok a)
told_as-ok f o (s, e) = (f s, ap (told_as f) e)

module _ {D B : Type 0} (host : HostOrder) (disk : Disk D) (database : Database B) where
  -- `Load` of the storage that the configuration names, on the file and the database of its path.
  unfoldable pub load_storage : Text → D → B → Outcome (Unit {0}) (DataModel × AnyStorage D B)
  load_storage kind d b =
      if is_text kind file_type
      then loaded_as in_file (modbus_gateway.Persistence.FileStorage.load host disk d)
      else if is_text kind mmap_type
      then loaded_as in_mapping (modbus_gateway.Persistence.MmapStorage.load host disk d)
      else if is_text kind sql_type
      then loaded_as in_database (modbus_gateway.Persistence.Sql.load database b)
      else loaded_as (λ (u : Unit {0}). in_memory) (memory_load >>= λ m. ok (m, tt))

  -- The slave, on the memory storage where the load failed: a load that fails returns no model.
  abbrev pub or_memory :
      Outcome (Unit {0}) (DataModel × AnyStorage D B)
      → Outcome (Unit {0}) (LocalSlave (AnyStorage D B))
  or_memory (ok (m, s)) = ok (record { model = m; storage = s })
  or_memory (err e) = ok (record { model = new_data_model; storage = in_memory })
  or_memory panic = panic

  -- `NewClient`.
  unfoldable pub new_client : Text → D → B → Outcome (Unit {0}) (LocalSlave (AnyStorage D B))
  unfolding load_storage
  new_client kind d b = or_memory (load_storage kind d b)

  abbrev pub any_on_write :
      AnyStorage D B → DataModel → TableType → ℕ → ℕ → Outcome ModelError (AnyStorage D B)
  any_on_write (in_file s) m t a q =
      told_as in_file (modbus_gateway.Persistence.FileStorage.on_write host disk s m t a q)
  any_on_write (in_mapping s) m t a q =
      told_as in_mapping (modbus_gateway.Persistence.MmapStorage.on_write host disk s m t a q)
  any_on_write (in_database s) m t a q =
      told_as in_database (modbus_gateway.Persistence.Sql.on_write database s m t a q)
  any_on_write in_memory m t a q = ok in_memory

  pub any_on_write-ok :
      (s : AnyStorage D B) (m : DataModel) (t : TableType) (a q : ℕ)
      → InRange a q
      → (s' : AnyStorage D B) × (any_on_write s m t a q ≡ ok s')
  any_on_write-ok (in_file s) m t a q h =
      told_as-ok in_file _
        (modbus_gateway.Persistence.FileStorage.on_write-ok host disk s m t a q h)
  any_on_write-ok (in_mapping s) m t a q h =
      told_as-ok in_mapping _
        (modbus_gateway.Persistence.MmapStorage.on_write-ok host disk s m t a q h)
  any_on_write-ok (in_database s) m t a q h =
      told_as-ok in_database _ (modbus_gateway.Persistence.Sql.on_write-ok database s m t a q h)
  any_on_write-ok in_memory m t a q h = (in_memory, refl)

  -- The storage of a client.
  abbrev pub any_storage : Storage (AnyStorage D B)
  any_storage = record { on_write = any_on_write; on_write_returns = any_on_write-ok }
