-- ===== src/Persistence/FileStorage/Recovers.antt =====
-- internal/local-slave/persistence/file.go: what a load finds after a power failure.
use modbus_gateway.Base.{refl, ◌≡◌, ◌∙◌, ap, true, List, All, ok, subst}
use modbus_gateway.Pdu.{Pdu, IsPdu}
use modbus_gateway.DataModel.{DataModel}
use modbus_gateway.Slave.{LocalSlave}
use modbus_gateway.Slave.Steps.{IsModel}
use modbus_gateway.Slave.Invariant.{processed}
use modbus_gateway.Persistence.Layout.{HostOrder, IsOrder, image_of}
use modbus_gateway.Persistence.Layout.RoundTrip.{image_of-IsByte, image_of-size, Equal}
use modbus_gateway.Persistence.Disk.{Disk, Stores, Works}
use modbus_gateway.Persistence.Recovers.{
  resized-LoadsBytes, LoadsBytes, MakesDurable, IsRecoverable, processed-IsRecoverable,
}
use modbus_gateway.Persistence.FileStorage.{FileStorage, load, sync, on_write, file_storage}

module _ {D : Type 0} (host : HostOrder) (order : IsOrder host) (disk : Disk D)
    (stores : Stores disk) (works : Works disk) where
  abbrev IsLoaded : FileStorage D → Type 0
  IsLoaded s = s.is_loaded ≡ true

  abbrev disk_of : FileStorage D → D
  disk_of s = s.disk_state

  -- `sync` makes the block durable.
  sync-durable :
      (s : FileStorage D) (m : DataModel)
      → IsLoaded s
      → IsModel m
      → Equal (stores.durable (sync host disk s (image_of host m)).0) (image_of host m)
  unfolding sync
  sync-durable s m l w i h =
      let (d1, e1) = works.writes s.disk_state (image_of host m) in
      let (d2, e2) = works.syncs d1 in
      let (_, k) = stores.synced d1 d2 e2 in
      rw l (
        rw e1 (
          rw e2 (
            ap (λ x. x.byte i) k
            ∙ stores.written s.disk_state d1 (image_of host m) e1 i (image_of-size host order m i h)
                (image_of-IsByte host order m i w))))

  on_write-MakesDurable :
      MakesDurable host order disk stores (file_storage host disk) IsLoaded disk_of (load host disk)
  unfolding on_write
  on_write-MakesDurable s s' m t a q l w told =
      let after : record s { disk_state = (sync host disk s (image_of host m)).0 } ≡ s' = cc in
      subst (λ x. IsLoaded x × Equal (stores.durable (disk_of x)) (image_of host m)) after
        (l, sync-durable s m l w)

  load-LoadsBytes :
      (d : D)
      → LoadsBytes host order disk stores
          (file_storage host disk)
          IsLoaded
          disk_of
          (load host disk)
          d
  unfolding load
  load-LoadsBytes =
      resized-LoadsBytes host order disk stores (file_storage host disk) IsLoaded disk_of
        (load host disk) works (λ d. record { disk_state = d; is_loaded = true }) disk.read_all
        (λ d. (let (bytes, e) = works.reads_all d in (bytes, e, stores.read d bytes e))) (λ d. refl)
        (λ d. refl) (λ d d1 bytes e1 e2. rw e1 (rw e2 refl))

  -- A slave whose model was loaded from a file of which nothing waits to be made durable answers
  -- any requests of bytes, no call of the operating system failing. A power failure leaves the file
  -- as far as it is durable: another load from it succeeds and finds, at every address of the four
  -- tables, what the slave's model held.
  pub load-processed_file :
      (d : D) (m : DataModel) (s : FileStorage D) (reqs : List Pdu)
      → load host disk d ≡ ok (m, s)
      → Equal (stores.durable d) (stores.contents d)
      → All IsPdu reqs
      → (s1 : LocalSlave (FileStorage D)) × (processed
            (file_storage host disk)
            (record { model = m; storage = s })
            reqs
          ≡ ok s1)
        × IsRecoverable host order disk stores
            (file_storage host disk)
            IsLoaded
            disk_of
            (load host disk)
            s1.storage
            s1.model
  load-processed_file d m s reqs =
      processed-IsRecoverable host order disk stores (file_storage host disk) IsLoaded disk_of
        (load host disk) d m s reqs load-LoadsBytes on_write-MakesDurable
