-- ===== src/Persistence/MmapStorage.antt =====
-- internal/local-slave/persistence/mmap.go: a storage in a memory-mapped file. The mapping is the
-- block that the tables of the slave's model are views of.
pub mod Recovers
use modbus_gateway.Base.{
  panic, inl, inr, Bool-cases, ℕ, ◌≡◌, refl, Bool, true, false, if◌then◌else◌, Outcome, ok, err,
  ◌>>=◌,
}
use modbus_gateway.DataModel.{DataModel, TableType, ModelError}
use modbus_gateway.DataModel.Coils.{InRange}
use modbus_gateway.Storage.{Storage}
use modbus_gateway.Persistence.Layout.{HostOrder, image_of, map_bytes_to_model}
use modbus_gateway.Persistence.Disk.{
  Disk, FileError, failed_to_map, data_is_nil, failed_to_flush, failed_to_unmap, failed_to_close,
  or_fail, resized,
}

-- `MmapStorage`: the disk, and whether `data` and whether `file` is set.
pub record MmapStorage (D : Type 0) : Type 0 where
  pub mapped_disk : D
  pub has_data : Bool
  pub has_file : Bool

module _ {D : Type 0} (host : HostOrder) (disk : Disk D) where
  -- `Load`, with the storage after it.
  unfoldable pub load : D → Outcome FileError (DataModel × MmapStorage D)
  unfolding resized map_bytes_to_model
  load d = do
    d' ← resized disk d
    bytes ← or_fail failed_to_map (disk.map_file d')
    m ← map_bytes_to_model host bytes
    ok (m, record { mapped_disk = d'; has_data = true; has_file = true })

  -- A call's disk in a storage, and its error.
  abbrev pub called :
      FileError → MmapStorage D → D × Bool → MmapStorage D × Outcome FileError (Unit {0})
  called e s (d, true) = (record s { mapped_disk = d }, ok tt)
  called e s (d, false) = (record s { mapped_disk = d }, err e)

  -- `Save`, with the storage after it.
  unfoldable pub save : MmapStorage D → DataModel → MmapStorage D × Outcome FileError (Unit {0})
  save s m =
      if s.has_data
      then called failed_to_flush s (disk.flush s.mapped_disk (image_of host m))
      else (s, err data_is_nil)

  -- `OnWrite`; an error is only logged.
  unfoldable pub on_write :
      MmapStorage D → DataModel → TableType → ℕ → ℕ → Outcome ModelError (MmapStorage D)
  on_write s m table address quantity =
      if s.has_data
      then ok (called failed_to_flush s (disk.flush s.mapped_disk (image_of host m))).0
      else ok s

  -- The later error.
  abbrev pub or_earlier :
      Outcome FileError (Unit {0})
      → MmapStorage D × Outcome FileError (Unit {0})
      → MmapStorage D × Outcome FileError (Unit {0})
  or_earlier e (s, ok _) = (s, e)
  or_earlier e (s, err later) = (s, err later)
  or_earlier e (s, panic) = (s, panic)

  abbrev pub close_data : MmapStorage D → MmapStorage D × Outcome FileError (Unit {0})
  close_data s =
      if s.has_data
      then called failed_to_unmap (record s { has_data = false }) (disk.unmap s.mapped_disk)
      else (s, ok tt)

  abbrev pub close_file : MmapStorage D → MmapStorage D × Outcome FileError (Unit {0})
  close_file s =
      if s.has_file
      then called failed_to_close (record s { has_file = false }) (disk.close_file s.mapped_disk)
      else (s, ok tt)

  -- `Close`.
  unfoldable pub close : MmapStorage D → MmapStorage D × Outcome FileError (Unit {0})
  close s = let (s', e) = close_data s in or_earlier e (close_file s')

  pub on_write-ok :
      (s : MmapStorage D) (m : DataModel) (t : TableType) (a q : ℕ)
      → InRange a q
      → (s' : MmapStorage D) × (on_write s m t a q ≡ ok s')
  unfolding on_write
  on_write-ok s m t a q h =
      either s.has_data (called failed_to_flush s (disk.flush s.mapped_disk (image_of host m))).0 s
    where
      either :
          (b : Bool) (x y : MmapStorage D)
          → (s' : MmapStorage D) × (◌≡◌ {A = Outcome ModelError (MmapStorage D)}
              (if b then ok x else ok y)
              (ok s'))
      either true x y = (x, refl)
      either false x y = (y, refl)

  -- `MmapStorage` as a storage.
  abbrev pub mmap_storage : Storage (MmapStorage D)
  mmap_storage = record { on_write = on_write; on_write_returns = on_write-ok }
