-- ===== src/Local/Startup/Starts.antt =====
-- transport/local/client.go: `NewClient` whatever fails while it loads.
use modbus_gateway.Base.{
  ◌≡◌, ◌≢◌, ◌≤◌, refl, sym, ◌∙◌, ap, subst, Bool, true, false, if◌then◌else◌, List, [], ◌∷◌, All,
  Outcome, ok, err, panic, ◌>>=◌, Option, some, none, arith,
}
use modbus_gateway.Pdu.{Pdu, IsPdu}
use modbus_gateway.DataModel.{DataModel, new_data_model}
use modbus_gateway.Storage.{Storage}
use modbus_gateway.Gateway.SlaveIds.{Text}
use modbus_gateway.Slave.{LocalSlave}
use modbus_gateway.Slave.Writes.{process-Responds}
use modbus_gateway.Slave.Invariant.{processed}
use modbus_gateway.Persistence.Layout.{HostOrder, IsOrder, Image, map_bytes_to_model, total_size}
use modbus_gateway.Persistence.Layout.RoundTrip.{map_bytes_to_model-ok}
use modbus_gateway.Persistence.Disk.{
  failed_to_read, failed_to_map, Disk, Stores, FileError, or_fail, resized, resized-returns,
  resized-eq-ok,
}
use modbus_gateway.Persistence.Sql.{
  or_fail as or_sql_error, SqlError, failed_to_open, failed_to_init, failed_to_query, load_rows,
  SqlStorage,
}
use modbus_gateway.Persistence.Sql.Calls.{Row, Database, Keeps}
use modbus_gateway.Persistence.Sql.Rows.{NoNegative, Loads, load_rows-Loads}
use modbus_gateway.Local.Startup.{
  in_file, in_mapping, in_database, in_memory, AnyStorage, is_text, file_type, mmap_type, sql_type,
  loaded_as, or_memory, load_storage, new_client, any_storage,
}

-- The hook of a storage returns, so requests are answered one after the other.
processed-ok :
    {S : Type 0} (ops : Storage S) (s : LocalSlave S) (reqs : List Pdu)
    → All IsPdu reqs
    → (s' : LocalSlave S) × (processed ops s reqs ≡ ok s')
unfolding processed
processed-ok ops s [] h = (s, refl)
processed-ok ops s (req ∷ reqs) h =
    let (resp, s1, e, _) = process-Responds ops s req h.0 in
    let (s2, e2) = processed-ok ops s1 reqs h.1 in (s2, rw e e2)

loaded_as-returns :
    {E S A : Type 0} (f : S → A) (o : Outcome E (DataModel × S)) → o ≢ panic → loaded_as f o ≢ panic
loaded_as-returns f (ok (m, s)) h = λ e. cc
loaded_as-returns f (err e) h = λ e. cc
loaded_as-returns f panic h = λ e. h refl

module _ {D S : Type 0} (host : HostOrder) (disk : Disk D) (acquire : D → Option Image)
    (e : FileError) (after : D → S) where
  -- The steps of a load behind the check of the size.
  abbrev with_bytes : D → Image → Outcome FileError (DataModel × S)
  with_bytes d bytes = map_bytes_to_model host bytes >>= λ m. ok (m, after d)

  abbrev acquired : D → Option Image → Outcome FileError (DataModel × S)
  acquired d x = or_fail e x >>= with_bytes d

  abbrev with_size : Outcome FileError D → Outcome FileError (DataModel × S)
  with_size o = o >>= λ d. acquired d (acquire d)

  load_from-returns :
      (order : IsOrder host) (stores : Stores disk)
      → ((d : D) (bytes : Image) → acquire d ≡ some bytes → bytes ≡ stores.contents d)
      → (d : D) → with_size (resized disk d) ≢ panic
  load_from-returns order stores law d = go (resized disk d) refl
    where
      full :
          (d' : D) (bytes : Image)
          → resized disk d ≡ ok d'
          → acquire d' ≡ some bytes
          → total_size ≤ bytes.size
      full d' bytes r a =
          rw (ap (λ x. x.size) (law d' bytes a) ∙ resized-eq-ok disk stores d d' r) (omega arith)

      mapped :
          (d' : D) (x : Option Image)
          → resized disk d ≡ ok d'
          → acquire d' ≡ x
          → acquired d' x ≢ panic
      mapped d' (some bytes) r a h =
          let mapping =
            map_bytes_to_model-ok host order {E = FileError} bytes (full d' bytes r a) in
          let done = sym (ap (λ o. o >>= λ m. ok (m, after d')) mapping) ∙ h in cc
      mapped d' none r a h = cc

      go : (o : Outcome FileError D) → resized disk d ≡ o → with_size o ≢ panic
      go (ok d') r h = mapped d' (acquire d') r refl h
      go (err x) r h = cc
      go panic r h = resized-returns disk d r

module _ {B : Type 0} (database : Database B) (keeps : Keeps database) where
  -- The steps of a load from a database, from the last one.
  abbrev from_model : B → Outcome SqlError DataModel → Outcome SqlError (DataModel × SqlStorage B)
  from_model b o = o >>= λ m. ok (m, record { db = some b })

  abbrev from_query : B → Option (List Row) → Outcome SqlError (DataModel × SqlStorage B)
  from_query b x =
      or_sql_error failed_to_query x >>= λ rs. from_model b (load_rows new_data_model rs)

  abbrev from_created : Option B → Outcome SqlError (DataModel × SqlStorage B)
  from_created x = or_sql_error failed_to_init x >>= λ b. from_query b (database.query b)

  from_model-returns :
      (b : B) (rs : List Row) (o : Outcome SqlError DataModel)
      → NoNegative rs
      → Loads rs new_data_model o
      → from_model b o ≢ panic
  from_model-returns b rs (ok m) n l h = cc
  from_model-returns b rs (err x) n l h = l
  from_model-returns b rs panic n l h = l n

  from_query-returns :
      (b : B) (x : Option (List Row))
      → ((rs : List Row) → x ≡ some rs → NoNegative rs)
      → from_query b x ≢ panic
  from_query-returns b none n h = cc
  from_query-returns b (some rs) n h =
      from_model-returns b rs (load_rows new_data_model rs) (n rs refl)
        (load_rows-Loads rs new_data_model) h

  from_created-returns :
      (x : Option B) → ((b : B) → x ≡ some b → NoNegative (keeps.rows b)) → from_created x ≢ panic
  from_created-returns none n h = cc
  from_created-returns (some b) n h =
      from_query-returns b (database.query b)
        (λ rs q. subst NoNegative (sym (keeps.query_rows b rs q)) (n b refl)) h

  -- The load from a database without negative addresses.
  sql-returns :
      (b : B) → NoNegative (keeps.rows b) → modbus_gateway.Persistence.Sql.load database b ≢ panic
  unfolding modbus_gateway.Persistence.Sql.load
  sql-returns b n = opened (database.connect b) refl
    where
      opened :
          (x : Option B)
          → database.connect b ≡ x
          → (or_sql_error failed_to_open x >>= λ b1. from_created (database.create_table b1))
            ≢ panic
      opened none c h = cc
      opened (some b1) c h =
          from_created-returns (database.create_table b1)
            (λ b2 d.
              subst NoNegative (sym (keeps.create_rows b1 b2 d ∙ keeps.connect_rows b b1 c)) n)
            h

module _ {D B : Type 0} (host : HostOrder) (order : IsOrder host) (disk : Disk D)
    (stores : Stores disk) (database : Database B) (keeps : Keeps database) where
  load_storage-returns :
      (kind : Text) (d : D) (b : B)
      → NoNegative (keeps.rows b)
      → load_storage host disk database kind d b ≢ panic
  unfolding load_storage modbus_gateway.Persistence.FileStorage.load
      modbus_gateway.Persistence.MmapStorage.load
  load_storage-returns kind d b n =
      either (is_text kind file_type) _ _
        (loaded_as-returns in_file _ (
          load_from-returns host disk disk.read_all failed_to_read
            (λ x. record { disk_state = x; is_loaded = true }) order stores stores.read d))
        (either (is_text kind mmap_type) _ _
          (loaded_as-returns in_mapping _ (
            load_from-returns host disk disk.map_file failed_to_map
              (λ x. record { mapped_disk = x; has_data = true; has_file = true }) order stores
              stores.mapped d))
          (either (is_text kind sql_type) _ _
            (loaded_as-returns in_database _ (sql-returns database keeps b n)) (λ h. cc)))
    where
      either :
          {A : Type 0} (c : Bool) (x y : Outcome (Unit {0}) A)
          → x ≢ panic
          → y ≢ panic
          → (if c then x else y) ≢ panic
      either true x y h k = h
      either false x y h k = k

  -- Whatever storage the configuration names, and whatever calls of the operating system and the
  -- database fail, `NewClient` returns a slave, unless the database has a negative address; and the
  -- slave answers any requests of bytes, one after the other.
  pub new_client-processed :
      (kind : Text) (d : D) (b : B) (reqs : List Pdu)
      → NoNegative (keeps.rows b)
      → All IsPdu reqs
      → (client : LocalSlave (AnyStorage D B)) × (after : LocalSlave (AnyStorage D B)) × (new_client
            host disk database kind d b
          ≡ ok client)
        × (processed (any_storage host disk database) client reqs ≡ ok after)
  unfolding new_client
  new_client-processed kind d b reqs n h =
      started (load_storage host disk database kind d b) (load_storage-returns kind d b n)
    where
      started :
          (o : Outcome (Unit {0}) (DataModel × AnyStorage D B))
          → o ≢ panic
          → (client : LocalSlave (AnyStorage D B)) × (after : LocalSlave (AnyStorage D B))
            × (or_memory host disk database o ≡ ok client)
            × (processed (any_storage host disk database) client reqs ≡ ok after)
      started (ok (m, s)) r =
          let (after, e) =
            processed-ok (any_storage host disk database) (record { model = m; storage = s }) reqs
              h in
          (_, after, refl, e)
      started (err x) r =
          let (after, e) =
            processed-ok (any_storage host disk database)
              (record { model = new_data_model; storage = in_memory }) reqs h in
          (_, after, refl, e)
      started panic r = absurd (r refl)
