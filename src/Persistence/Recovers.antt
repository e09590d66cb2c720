-- ===== src/Persistence/Recovers.antt =====
-- internal/local-slave/persistence: what a load finds after a power failure, for a storage that
-- makes the block of the model durable at each write.
use modbus_gateway.Base.{
  ap, ◌>>=◌, ◌≤◌, Option, some, arith, ℕ, ◌≡◌, sym, ◌∙◌, subst, IsByte, List, All, Outcome, ok,
}
use modbus_gateway.Pdu.{Pdu, IsPdu}
use modbus_gateway.DataModel.{DataModel, TableType}
use modbus_gateway.Storage.{Storage}
use modbus_gateway.Slave.{LocalSlave}
use modbus_gateway.Slave.Steps.{IsModel}
use modbus_gateway.Slave.Invariant.{processed, IsKept, processed-kept, Changed-IsModel}
use modbus_gateway.Persistence.Layout.{
  map_bytes_to_model, total_size, HostOrder, IsOrder, Image, image_of,
}
use modbus_gateway.Persistence.Layout.RoundTrip.{
  map_bytes_to_model-ok, Equal, Agree, model_of, model_of-Agree, model_of-IsModel,
  image_of-model_of,
}
use modbus_gateway.Persistence.Disk.{Works, resized, resized-ok, Disk, Stores, FileError}

module _ {D S : Type 0} (host : HostOrder) (order : IsOrder host) (disk : Disk D)
    (stores : Stores disk) (ops : Storage S) (IsLoaded : S → Type 0) (disk_of : S → D)
    (load : D → Outcome FileError (DataModel × S)) where
  -- A load, by the bytes of the file.
  pub record LoadsBytes (d : D) : Type 0 where
    pub after : S
    pub bytes : Image
    pub loads : load d ≡ ok (model_of host order bytes, after)
    pub is_loaded_after : IsLoaded after
    pub from_contents : Equal bytes (stores.contents d)
    pub are_bytes : (i : ℕ) → IsByte (bytes.byte i)
    pub durable_kept : Equal (stores.durable (disk_of after)) (stores.durable d)

  -- A load that takes the bytes of the file once it has its size.
  pub resized-LoadsBytes :
      (works : Works disk) (after : D → S) (acquire : D → Option Image)
      → ((d : D) → (bytes : Image) × (acquire d ≡ some bytes) × (bytes ≡ stores.contents d))
      → ((d : D) → IsLoaded (after d))
      → ((d : D) → disk_of (after d) ≡ d)
      → ((d d1 : D) (bytes : Image)
          → resized disk d ≡ ok d1
          → acquire d1 ≡ some bytes
          → load d ≡ (map_bytes_to_model host bytes >>= λ m. ok (m, after d1)))
      → (d : D) → LoadsBytes d
  resized-LoadsBytes works after acquire acquires loaded on_disk loads d =
      let (d1, e1, s1, c1, k1) = resized-ok disk stores works d in
      let (bytes, e2, same) = acquires d1 in
      let long : total_size ≤ bytes.size = rw (ap (λ x. x.size) same ∙ s1) (omega arith) in
      record {
        after = after d1;
        bytes = bytes;
        loads =
            loads d d1 bytes e1 e2
            ∙ ap (λ o. o >>= λ m. ok (m, after d1)) (map_bytes_to_model-ok host order bytes long);
        is_loaded_after = loaded d1;
        from_contents = λ i h. ap (λ x. x.byte i) same ∙ c1 i h;
        are_bytes = λ i. subst (λ x. IsByte (x.byte i)) (sym same) (stores.contents_bytes d1 i);
        durable_kept = λ i h. ap (λ x. (stores.durable x).byte i) (on_disk d1) ∙ k1 i h;
      }

  -- What the hook of a loaded storage does.
  abbrev pub MakesDurable : Type 0
  MakesDurable =
      (s s' : S) (m : DataModel) (t : TableType) (a q : ℕ)
      → IsLoaded s
      → IsModel m
      → ops.on_write s m t a q ≡ ok s'
      → IsLoaded s' × Equal (stores.durable (disk_of s')) (image_of host m)

  abbrev IsDurable : S → DataModel → Type 0
  IsDurable s m = IsLoaded s × Equal (stores.durable (disk_of s)) (image_of host m)

  -- A load from what a power failure leaves succeeds and finds the model.
  abbrev pub IsRecoverable : S → DataModel → Type 0
  IsRecoverable s m =
      (m2 : DataModel) × (s2 : S) × (load (stores.after_failure (disk_of s)) ≡ ok (m2, s2))
      × Agree m2 m

  pub processed-IsRecoverable :
      (d : D) (m : DataModel) (s : S) (reqs : List Pdu)
      → ((d : D) → LoadsBytes d)
      → MakesDurable
      → load d ≡ ok (m, s)
      → Equal (stores.durable d) (stores.contents d)
      → All IsPdu reqs
      → (s1 : LocalSlave S) × (processed ops (record { model = m; storage = s }) reqs ≡ ok s1)
        × IsRecoverable s1.storage s1.model
  processed-IsRecoverable d m s reqs loads makes e all_durable h =
      let l = loads d in
      let both = sym l.loads ∙ e in
      let is_m : model_of host order l.bytes ≡ m = cc in
      let is_s : l.after ≡ s = cc in
      let start : IsDurable l.after (model_of host order l.bytes) = (
        l.is_loaded_after,
        λ i b.
            l.durable_kept i b
            ∙ all_durable i b
            ∙ sym (l.from_contents i b)
            ∙ sym (image_of-model_of host order l.bytes l.are_bytes i b),
      ) in
      let durable : IsDurable s m =
        subst (λ x. IsDurable x m) is_s (subst (IsDurable l.after) is_m start) in
      let kept : IsKept ops IsDurable = λ st st' x x' t a q r i c told.
        makes st st' x' t a q r.0 (Changed-IsModel t a q x x' c i) told in
      let (s1, p, i1, (_, r1)) =
        processed-kept ops IsDurable (record { model = m; storage = s }) reqs kept h
          (subst IsModel is_m (model_of-IsModel host order l.bytes l.are_bytes)) durable in
      let l1 = loads (stores.after_failure (disk_of s1.storage)) in
      (
        s1,
        p,
        (
          _,
          _,
          l1.loads,
          model_of-Agree host order l1.bytes s1.model i1
              (λ i b. l1.from_contents i b ∙ stores.failed (disk_of s1.storage) i ∙ r1 i b),
        ),
      )
