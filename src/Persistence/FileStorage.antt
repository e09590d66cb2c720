-- ===== src/Persistence/FileStorage.antt =====
-- internal/local-slave/persistence/file.go: a storage in a file. The block of bytes that it writes
-- is the one that the tables of the slave's model are views of.
pub mod Recovers
use modbus_gateway.Base.{
  inl, inl, if◌then◌else◌, inl, ℕ, ◌≡◌, refl, Bool, true, false, Outcome, ok, err, ◌>>=◌,
}
use modbus_gateway.DataModel.{DataModel, TableType, ModelError}
use modbus_gateway.DataModel.Coils.{InRange}
use modbus_gateway.Storage.{Storage}
use modbus_gateway.Persistence.Layout.{HostOrder, Image, image_of, map_bytes_to_model}
use modbus_gateway.Persistence.Disk.{
  Disk, FileError, failed_to_read, failed_to_write, failed_to_sync, or_fail, resized,
}

-- `FileStorage`: the disk, and whether `data` and `file` are set.
pub record FileStorage (D : Type 0) : Type 0 where
  pub disk_state : D
  pub is_loaded : Bool

module _ {D : Type 0} (host : HostOrder) (disk : Disk D) where
  -- `Load`, with the storage after it.
  unfoldable pub load : D → Outcome FileError (DataModel × FileStorage D)
  unfolding resized map_bytes_to_model
  load d = do
    d' ← resized disk d
    bytes ← or_fail failed_to_read (disk.read_all d')
    m ← map_bytes_to_model host bytes
    ok (m, record { disk_state = d'; is_loaded = true })

  abbrev pub synced_or_not : D × Bool → D × Outcome FileError (Unit {0})
  synced_or_not (d, true) = (d, ok tt)
  synced_or_not (d, false) = (d, err failed_to_sync)

  abbrev pub then_sync : D × Bool → D × Outcome FileError (Unit {0})
  then_sync (d, true) = synced_or_not (disk.sync_file d)
  then_sync (d, false) = (d, err failed_to_write)

  -- `sync`, with the disk after it.
  unfoldable pub sync : FileStorage D → Image → D × Outcome FileError (Unit {0})
  sync s bytes =
      if s.is_loaded then then_sync (disk.write_at s.disk_state bytes) else (s.disk_state, ok tt)

  -- `Save`.
  unfoldable pub save : FileStorage D → DataModel → D × Outcome FileError (Unit {0})
  unfolding sync
  save s m = sync s (image_of host m)

  -- `OnWrite`; an error is only logged.
  unfoldable pub on_write :
      FileStorage D → DataModel → TableType → ℕ → ℕ → Outcome ModelError (FileStorage D)
  unfolding sync
  on_write s m table address quantity =
      let (d, _) = sync s (image_of host m) in ok (record s { disk_state = d })

  -- `Close`. The error of the file is dropped, and the storage still counts as loaded.
  unfoldable pub close : FileStorage D → FileStorage D × Outcome FileError (Unit {0})
  close s = let (d, _) = disk.close_file s.disk_state in (record s { disk_state = d }, ok tt)

  pub on_write-ok :
      (s : FileStorage D) (m : DataModel) (t : TableType) (a q : ℕ)
      → InRange a q
      → (s' : FileStorage D) × (on_write s m t a q ≡ ok s')
  unfolding on_write
  on_write-ok s m t a q h = (record s { disk_state = (sync s (image_of host m)).0 }, refl)

  -- `FileStorage` as a storage.
  abbrev pub file_storage : Storage (FileStorage D)
  file_storage = record { on_write = on_write; on_write_returns = on_write-ok }
