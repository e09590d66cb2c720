-- ===== src/Persistence/MmapStorage/Recovers.antt =====
-- internal/local-slave/persistence/mmap.go: what a load finds after a power failure.
use modbus_gateway.Base.{refl, ◌≡◌, sym, ◌∙◌, true, List, All, ok, subst}
use modbus_gateway.Pdu.{Pdu, IsPdu}
use modbus_gateway.DataModel.{DataModel}
use modbus_gateway.Slave.{LocalSlave}
use modbus_gateway.Slave.Invariant.{processed}
use modbus_gateway.Persistence.Layout.{HostOrder, IsOrder, image_of}
use modbus_gateway.Persistence.Layout.RoundTrip.{image_of-IsByte, image_of-size, Equal}
use modbus_gateway.Persistence.Disk.{Disk, Stores, Works}
use modbus_gateway.Persistence.Recovers.{
  resized-LoadsBytes, LoadsBytes, MakesDurable, IsRecoverable, processed-IsRecoverable,
}
use modbus_gateway.Persistence.MmapStorage.{MmapStorage, load, on_write, mmap_storage}

module _ {D : Type 0} (host : HostOrder) (order : IsOrder host) (disk : Disk D)
    (stores : Stores disk) (works : Works disk) where
  abbrev IsLoaded : MmapStorage D → Type 0
  IsLoaded s = s.has_data ≡ true

  abbrev disk_of : MmapStorage D → D
  disk_of s = s.mapped_disk

  on_write-MakesDurable :
      MakesDurable host order disk stores (mmap_storage host disk) IsLoaded disk_of (load host disk)
  unfolding on_write
  on_write-MakesDurable s s' m t a q l w told =
      let (d1, e1) = works.flushes s.mapped_disk (image_of host m) in
      let flushed : on_write host disk s m t a q ≡ ok (record s { mapped_disk = d1 }) =
        rw l (rw e1 refl) in
      let both = sym flushed ∙ told in
      let after : record s { mapped_disk = d1 } ≡ s' = cc in
      subst (λ x. IsLoaded x × Equal (stores.durable (disk_of x)) (image_of host m)) after
        (
          l,
          λ i h.
              stores.flushed s.mapped_disk d1 (image_of host m) e1 i
                (image_of-size host order m i h) (image_of-IsByte host order m i w),
        )

  load-LoadsBytes :
      (d : D)
      → LoadsBytes host order disk stores
          (mmap_storage host disk)
          IsLoaded
          disk_of
          (load host disk)
          d
  unfolding load
  load-LoadsBytes =
      resized-LoadsBytes host order disk stores (mmap_storage host disk) IsLoaded disk_of
        (load host disk) works (λ d. record { mapped_disk = d; has_data = true; has_file = true })
        disk.map_file (λ d. (let (bytes, e) = works.maps d in (bytes, e, stores.mapped d bytes e)))
        (λ d. refl) (λ d. refl) (λ d d1 bytes e1 e2. rw e1 (rw e2 refl))

  -- A slave whose model was loaded from a mapped file of which nothing waits to be made durable
  -- answers any requests of bytes, no call of the operating system failing. A power failure leaves
  -- the file as far as it is durable: another load from it succeeds and finds, at every address of
  -- the four tables, what the slave's model held.
  pub load-processed_mapping :
      (d : D) (m : DataModel) (s : MmapStorage D) (reqs : List Pdu)
      → load host disk d ≡ ok (m, s)
      → Equal (stores.durable d) (stores.contents d)
      → All IsPdu reqs
      → (s1 : LocalSlave (MmapStorage D)) × (processed
            (mmap_storage host disk)
            (record { model = m; storage = s })
            reqs
          ≡ ok s1)
        × IsRecoverable host order disk stores
            (mmap_storage host disk)
            IsLoaded
            disk_of
            (load host disk)
            s1.storage
            s1.model
  load-processed_mapping d m s reqs =
      processed-IsRecoverable host order disk stores (mmap_storage host disk) IsLoaded disk_of
        (load host disk) d m s reqs load-LoadsBytes on_write-MakesDurable
