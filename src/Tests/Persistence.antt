-- ===== src/Tests/Persistence.antt =====
-- internal/local-slave/persistence on a concrete database and a concrete disk.
use modbus_gateway.Base.{
  refl, sym, ap, ◌≡◌, ◌∙◌, ◌+◌, ◌*◌, ◌/◌, ◌%◌, ◌≤◌, ◌&&◌, if◌then◌else◌, ℕ, Bool, List, [], ◌∷◌,
  ◌++◌, true, false, arith, ok, none, some, Option,
}
use modbus_gateway.Pdu.{Pdu, IsPdu}
use modbus_gateway.DataModel.{DataModel, TableType, new_data_model}
use modbus_gateway.Slave.{LocalSlave, process}
use modbus_gateway.Slave.Steps.{IsModel, Step}
use modbus_gateway.Slave.Invariant.{processed, process-Step}
use modbus_gateway.Storage.{memory_storage}
use modbus_gateway.Persistence.Sql.Rows.{NoNegative}
use modbus_gateway.Local.Startup.{AnyStorage, new_client, any_storage}
use modbus_gateway.Local.Startup.Starts.{new_client-processed}
use modbus_gateway.Persistence.Layout.{HostOrder, IsOrder, Image, map_bytes_to_model}
use modbus_gateway.Persistence.Layout.RoundTrip.{model_of}
use modbus_gateway.Persistence.Disk.{Disk, Stores, Works, resized}
use modbus_gateway.Persistence.Recovers.{IsRecoverable}
use modbus_gateway.Persistence.FileStorage.{FileStorage, file_storage}
use modbus_gateway.Persistence.FileStorage.Recovers.{load-processed_file}
use modbus_gateway.Persistence.MmapStorage.{MmapStorage, mmap_storage}
use modbus_gateway.Persistence.MmapStorage.Recovers.{load-processed_mapping}
use modbus_gateway.Persistence.Sql.{SqlStorage, cells, sql_storage, load_rows, load_row, store_row}
use modbus_gateway.Persistence.Sql.Calls.{
  ℤ, pos, Row, row, row_value, or_else, value_at, equals, Database, Keeps, Succeeds,
}
use modbus_gateway.Persistence.Sql.Recovers.{load-processed}

-- A write of 9 to the holding register 2.
abbrev write_nine : Pdu
write_nine = record { function_code = 6; payload = 0 ∷ 2 ∷ 0 ∷ 9 ∷ [] }

write_nine-IsPdu : IsPdu write_nine
write_nine-IsPdu = record {
  code_byte = omega arith;
  payload_bytes = (omega arith, (omega arith, (omega arith, (omega arith, tt))));
}

abbrev fresh : LocalSlave (Unit {0})
fresh = record { model = new_data_model; storage = tt }

new-IsModel : IsModel new_data_model
new-IsModel = record {
  coils_bytes = λ i. omega arith;
  discrete_inputs_bytes = λ i. omega arith;
  holding_registers_words = λ i. omega arith;
  input_registers_words = λ i. omega arith;
}

process-Step_example :
    (resp : Pdu) × (s' : LocalSlave (Unit {0})) × (process memory_storage fresh write_nine
      ≡ ok (resp, s'))
    × Step memory_storage fresh s'
process-Step_example = process-Step memory_storage fresh write_nine write_nine-IsPdu new-IsModel

-- A database by the list of its writes, of which the last one of a key counts.
abbrev writes_list : Database (List Row)
writes_list = record {
  connect = λ d. some d;
  create_table = λ d. some d;
  query = λ d. some d;
  upsert = λ d t a v. some (d ++ (row (pos t) (pos a) (pos v) ∷ []));
  close_database = λ d. some d;
}

or_else-none : (x : Option ℤ) → or_else x none ≡ x
or_else-none none = refl
or_else-none (some v) = refl

or_else_assoc : (x y z : Option ℤ) → or_else (or_else x y) z ≡ or_else x (or_else y z)
or_else_assoc none y z = refl
or_else_assoc (some v) y z = refl

value_at-append :
    (d : List Row) (r : Row) (k l : ℤ)
    → value_at (d ++ (r ∷ [])) k l ≡ or_else (row_value r k l) (value_at d k l)
value_at-append [] r k l = sym (or_else-none (row_value r k l))
value_at-append (x ∷ d) r k l =
    ap (λ y. or_else y (row_value x k l)) (value_at-append d r k l)
    ∙ or_else_assoc (row_value r k l) (value_at d k l) (row_value x k l)

or_else-if :
    (b : Bool) (v : ℤ) (y : Option ℤ)
    → or_else (if b then some v else none) y ≡ (if b then some v else y)
or_else-if true v y = refl
or_else-if false v y = refl

value_eq : {A : Type 0} {x y : A} → some x ≡ some y → x ≡ y
value_eq e = cc

abbrev writes_list_keeps : Keeps writes_list
writes_list_keeps = record {
  rows = λ d. d;
  connect_rows = λ d d' e. sym (value_eq e);
  create_rows = λ d d' e. sym (value_eq e);
  query_rows = λ d rs e. sym (value_eq e);
  upsert_rows = λ d d' t a v e k l.
      (let r : Row = row (pos t) (pos a) (pos v) in
        let same : d ++ (r ∷ []) ≡ d' = value_eq e in
        ap (λ x. value_at x k l) (sym same)
        ∙ value_at-append d r k l
        ∙ or_else-if (equals k (pos t) && equals l (pos a)) (pos v) (value_at d k l));
}

writes_list-Succeeds : Succeeds writes_list
writes_list-Succeeds = record {
  connects = λ d. (d, refl);
  creates = λ d. (d, refl);
  answers = λ d. (d, refl);
  upserts = λ d t a v. (_, refl);
}

-- Register 5 holds 7.
abbrev one_row : List Row
one_row = row (pos 2) (pos 5) (pos 7) ∷ []

abbrev one_register : DataModel
one_register = store_row new_data_model 2 5 (pos 7)

one_row-loads :
    modbus_gateway.Persistence.Sql.load writes_list one_row
    ≡ ok (one_register, record { db = some one_row })
unfolding modbus_gateway.Persistence.Sql.load load_rows load_row
one_row-loads = refl

load-processed_example :
    (s1 : LocalSlave (SqlStorage (List Row))) × (d1 : List Row) × (m2 : DataModel)
    × (s2 : SqlStorage (List Row)) × (processed
          (sql_storage writes_list)
          (record { model = one_register; storage = record { db = some one_row } })
          (write_nine ∷ [])
        ≡ ok s1)
    × (s1.storage.db ≡ some d1)
    × (modbus_gateway.Persistence.Sql.load writes_list d1 ≡ ok (m2, s2))
    × ((t : TableType) (i : ℕ) → i ≤ 65535 → cells t m2 i ≡ cells t s1.model i)
load-processed_example =
    load-processed writes_list writes_list_keeps writes_list-Succeeds one_row one_register
      (record { db = some one_row }) (write_nine ∷ []) one_row-loads (write_nine-IsPdu, tt)

-- A host that stores the low byte first.
abbrev low_first : HostOrder
low_first = record { join = λ a b. a + b * 256; first = λ w. w % 256; second = λ w. w / 256 }

low_first-IsOrder : IsOrder low_first
low_first-IsOrder = record {
  join_word = λ a b ha hb. omega arith;
  first_byte = λ w h. omega arith;
  second_byte = λ w h. omega arith;
  first_join = λ a b ha hb. omega arith;
  second_join = λ a b ha hb. omega arith;
  join_parts = λ w h. omega arith;
}

-- A disk: the file, and what of it is durable.
record TwoImages : Type 0 where
  kept : Image
  safe : Image

abbrev in_bytes : Image → Image
in_bytes image = record { size = image.size; byte = λ i. image.byte i % 256 }

abbrev two_images : Disk TwoImages
two_images = record {
  open_file = λ d. some d;
  size_of = λ d. some d.kept.size;
  truncate = λ d n. some (record {
    kept = record { size = n; byte = d.kept.byte };
    safe = record { size = n; byte = d.safe.byte };
  });
  read_all = λ d. some (in_bytes d.kept);
  map_file = λ d. some (in_bytes d.kept);
  write_at = λ d image. (record { kept = image; safe = d.safe }, true);
  sync_file = λ d. (record { kept = d.kept; safe = d.kept }, true);
  flush = λ d image. (record { kept = image; safe = image }, true);
  unmap = λ d. (d, true);
  close_file = λ d. (d, true);
}

abbrev two_images_stores : Stores two_images
two_images_stores = record {
  contents = λ d. in_bytes d.kept;
  durable = λ d. in_bytes d.safe;
  after_failure = λ d. record { kept = d.safe; safe = d.safe };
  failed = λ d i. refl;
  contents_bytes = λ d i. omega arith;
  opened = λ d d' e.
      (let same : d ≡ d' = value_eq e in
        (ap (λ x. in_bytes x.kept) (sym same), ap (λ x. in_bytes x.safe) (sym same)));
  sized = λ d n e. sym (value_eq e);
  truncated = λ d d' n e.
      (let same : record {
        kept = record { size = n; byte = d.kept.byte };
        safe = record { size = n; byte = d.safe.byte };
      }
            ≡ d' =
          value_eq e in
        (
          ap (λ x. x.kept.size) (sym same),
          (λ i h. ap (λ x. x.kept.byte i % 256) (sym same)),
          λ i h. ap (λ x. x.safe.byte i % 256) (sym same),
        ));
  read = λ d image e. sym (value_eq e);
  mapped = λ d image e. sym (value_eq e);
  written = λ d d' image e i h b. ap (λ x. x.0.kept.byte i % 256) (sym e) ∙ omega arith;
  synced = λ d d' e. (ap (λ x. in_bytes x.0.kept) (sym e), ap (λ x. in_bytes x.0.safe) (sym e));
  flushed = λ d d' image e i h b. ap (λ x. x.0.safe.byte i % 256) (sym e) ∙ omega arith;
}

two_images-Works : Works two_images
two_images-Works = record {
  opens = λ d. (d, refl);
  stats = λ d. (d.kept.size, refl);
  truncates = λ d n. (_, refl);
  reads_all = λ d. (_, refl);
  maps = λ d. (_, refl);
  writes = λ d image. (_, refl);
  syncs = λ d. (_, refl);
  flushes = λ d image. (_, refl);
}

-- A file that was just created, and as `Load` leaves it.
abbrev created : TwoImages
created = record {
  kept = record { size = 0; byte = λ i. 0 };
  safe = record { size = 0; byte = λ i. 0 };
}

abbrev zeros : Image
zeros = record { size = 393216; byte = λ i. 0 }

abbrev grown : TwoImages
grown = record { kept = zeros; safe = zeros }

abbrev zero_model : DataModel
zero_model = model_of low_first low_first-IsOrder (in_bytes zeros)

created-loads :
    modbus_gateway.Persistence.FileStorage.load low_first two_images created
    ≡ ok (zero_model, record { disk_state = grown; is_loaded = true })
unfolding modbus_gateway.Persistence.FileStorage.load resized map_bytes_to_model
created-loads = refl

load-processed_file_example :
    (s1 : LocalSlave (FileStorage TwoImages)) × (processed
        (file_storage low_first two_images)
        (record { model = zero_model; storage = record { disk_state = grown; is_loaded = true } })
        (write_nine ∷ [])
      ≡ ok s1)
    × IsRecoverable low_first low_first-IsOrder two_images two_images_stores
        (file_storage low_first two_images)
        (λ s. s.is_loaded ≡ true)
        (λ s. s.disk_state)
        (modbus_gateway.Persistence.FileStorage.load low_first two_images)
        s1.storage
        s1.model
load-processed_file_example =
    load-processed_file low_first low_first-IsOrder two_images two_images_stores two_images-Works
      created zero_model (record { disk_state = grown; is_loaded = true }) (write_nine ∷ [])
      created-loads (λ i h. refl) (write_nine-IsPdu, tt)

created-maps :
    modbus_gateway.Persistence.MmapStorage.load low_first two_images created
    ≡ ok (zero_model, record { mapped_disk = grown; has_data = true; has_file = true })
unfolding modbus_gateway.Persistence.MmapStorage.load resized map_bytes_to_model
created-maps = refl

load-processed_mapping_example :
    (s1 : LocalSlave (MmapStorage TwoImages)) × (processed
        (mmap_storage low_first two_images)
        (record {
          model = zero_model;
          storage = record { mapped_disk = grown; has_data = true; has_file = true };
        })
        (write_nine ∷ [])
      ≡ ok s1)
    × IsRecoverable low_first low_first-IsOrder two_images two_images_stores
        (mmap_storage low_first two_images)
        (λ s. s.has_data ≡ true)
        (λ s. s.mapped_disk)
        (modbus_gateway.Persistence.MmapStorage.load low_first two_images)
        s1.storage
        s1.model
load-processed_mapping_example =
    load-processed_mapping low_first low_first-IsOrder two_images two_images_stores two_images-Works
      created zero_model (record { mapped_disk = grown; has_data = true; has_file = true })
      (write_nine ∷ []) created-maps (λ i h. refl) (write_nine-IsPdu, tt)

-- "file".
abbrev named_file : List ℕ
named_file = 102 ∷ 105 ∷ 108 ∷ 101 ∷ []

one_row-NoNegative : NoNegative one_row
one_row-NoNegative t a h = no_key (equals (pos t) (pos 2))
  where
    no_key : (b : Bool) → (if b && false then some (pos 7) else none) ≡ none
    no_key true = refl
    no_key false = refl

new_client-processed_example :
    (client : LocalSlave (AnyStorage TwoImages (List Row))) × (after : LocalSlave
      (AnyStorage TwoImages (List Row)))
    × (new_client low_first two_images writes_list named_file created one_row ≡ ok client)
    × (processed (any_storage low_first two_images writes_list) client (write_nine ∷ []) ≡ ok after)
new_client-processed_example =
    new_client-processed low_first low_first-IsOrder two_images two_images_stores writes_list
      writes_list_keeps named_file created one_row (write_nine ∷ []) one_row-NoNegative
      (write_nine-IsPdu, tt)
