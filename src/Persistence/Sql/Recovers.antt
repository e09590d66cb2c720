-- ===== src/Persistence/Sql/Recovers.antt =====
-- internal/local-slave/persistence/sql.go: what a load finds after the requests of a slave.
use modbus_gateway.Base.{
  subst, sym, ℕ, ◌≤◌, ◌≡◌, sym, ◌∙◌, ap, Outcome, ok, err, panic, ◌>>=◌, List, some, arith, All,
}
use modbus_gateway.Pdu.{Pdu, IsPdu}
use modbus_gateway.DataModel.{DataModel, new_data_model, TableType}
use modbus_gateway.Slave.{LocalSlave}
use modbus_gateway.Slave.Steps.{IsModel}
use modbus_gateway.Slave.Invariant.{processed, processed-kept}
use modbus_gateway.Persistence.Sql.{
  SqlError, number, cells, load_rows, SqlStorage, load, sql_storage,
}
use modbus_gateway.Persistence.Sql.Calls.{pos, value_at, Database, Keeps, Succeeds}
use modbus_gateway.Persistence.Sql.Rows.{
  loaded, Loads, load_rows-Loads, IsModelIf, load_rows-IsModelIf,
}
use modbus_gateway.Persistence.Sql.Cells.{new-zero}
use modbus_gateway.Persistence.Sql.Mirrors.{Mirrors, IsMirror, on_write-IsMirror, Loads-Mirrors}

module _ {D : Type 0} (database : Database D) (keeps : Keeps database)
    (works : Succeeds database) where
  -- The end of a load.
  abbrev with_db : D → Outcome SqlError DataModel → Outcome SqlError (DataModel × SqlStorage D)
  with_db d o = o >>= λ m. ok (m, record { db = some d })

  -- A load, by the rows as they are before it.
  load_lem :
      (d : D)
      → (d1 : D) × (keeps.rows d1 ≡ keeps.rows d)
        × (load database d ≡ with_db d1 (load_rows new_data_model (keeps.rows d)))
  unfolding load
  load_lem d =
      let (d1, e1) = works.connects d in
      let (d2, e2) = works.creates d1 in
      let (rs, e3) = works.answers d2 in
      let kept = keeps.create_rows d1 d2 e2 ∙ keeps.connect_rows d d1 e1 in
      let as_before : rs ≡ keeps.rows d = keeps.query_rows d2 rs e3 ∙ kept in
      (
        d2,
        kept,
        rw e1 (rw e2 (rw e3 (ap (λ x. with_db d2 (load_rows new_data_model x)) as_before))),
      )

  -- A load of a database whose rows stand for a model finds that model.
  load-Mirrors :
      (d : D) (m : DataModel)
      → Mirrors database keeps works d m
      → (m2 : DataModel) × (s2 : SqlStorage D) × (load database d ≡ ok (m2, s2))
        × ((t : TableType) (i : ℕ) → i ≤ 65535 → cells t m2 i ≡ cells t m i)
  load-Mirrors d m h =
      let (d2, _, e) = load_lem d in
      found d2 (load_rows new_data_model (keeps.rows d)) e
        (load_rows-Loads (keeps.rows d) new_data_model)
    where
      found :
          (d2 : D) (o : Outcome SqlError DataModel)
          → load database d ≡ with_db d2 o
          → Loads (keeps.rows d) new_data_model o
          → (m2 : DataModel) × (s2 : SqlStorage D) × (load database d ≡ ok (m2, s2))
            × ((t : TableType) (i : ℕ) → i ≤ 65535 → cells t m2 i ≡ cells t m i)
      found d2 (ok m2) e (f, c) = (
        m2,
        record { db = some d2 },
        e,
        λ t i l.
            c t i l
            ∙ ap (λ old. loaded t (value_at (keeps.rows d) (pos (number t)) (pos i)) old)
                (new-zero t i)
            ∙ h.agrees t i l,
      )
      found d2 (err e) p g = absurd g
      found d2 panic p g = absurd (g h.no_negative)

  new-IsModel : IsModel new_data_model
  new-IsModel = record {
    coils_bytes = λ i. omega arith;
    discrete_inputs_bytes = λ i. omega arith;
    holding_registers_words = λ i. omega arith;
    input_registers_words = λ i. omega arith;
  }

  rows-Mirrors :
      (d d' : D) (m : DataModel)
      → keeps.rows d' ≡ keeps.rows d
      → Mirrors database keeps works d m
      → Mirrors database keeps works d' m
  rows-Mirrors d d' m e h = record {
    no_negative = λ t a l. rw e (h.no_negative t a l);
    agrees = λ t i l. rw e (h.agrees t i l);
  }

  -- What a load that succeeds has found.
  load-IsMirror :
      (d : D) (m : DataModel) (s : SqlStorage D)
      → load database d ≡ ok (m, s)
      → IsModel m × IsMirror database keeps works s m
  load-IsMirror d m s e =
      let (d2, kept, p) = load_lem d in
      found d2 kept (load_rows new_data_model (keeps.rows d)) (sym p ∙ e)
        (load_rows-Loads (keeps.rows d) new_data_model)
        (load_rows-IsModelIf (keeps.rows d) new_data_model new-IsModel)
    where
      found :
          (d2 : D)
          → keeps.rows d2 ≡ keeps.rows d
          → (o : Outcome SqlError DataModel) → with_db d2 o ≡ ok (m, s)
          → Loads (keeps.rows d) new_data_model o
          → IsModelIf o
          → IsModel m × IsMirror database keeps works s m
      found d2 kept (ok m2) q l i =
          let same : m2 ≡ m = cc in
          let stored : record { db = some d2 } ≡ s = cc in
          (
            subst IsModel same i,
            (
              d2,
              sym (ap (λ x. x.db) stored),
              rows-Mirrors d d2 m kept
                  (Loads-Mirrors database keeps works d (ok m2) m (ap ok same) l),
            ),
          )
      found d2 kept (err x) q l i = absurd l
      found d2 kept panic q l i = cc

  -- After any requests of bytes to a slave that has loaded its model from a database no call of
  -- which fails, another load from the database as it is then succeeds and finds, at every address
  -- of the four tables, what the slave's model holds.
  pub load-processed :
      (d : D) (m : DataModel) (s : SqlStorage D) (reqs : List Pdu)
      → load database d ≡ ok (m, s)
      → All IsPdu reqs
      → (s1 : LocalSlave (SqlStorage D)) × (d1 : D) × (m2 : DataModel) × (s2 : SqlStorage D)
        × (processed (sql_storage database) (record { model = m; storage = s }) reqs ≡ ok s1)
        × (s1.storage.db ≡ some d1)
        × (load database d1 ≡ ok (m2, s2))
        × ((t : TableType) (i : ℕ) → i ≤ 65535 → cells t m2 i ≡ cells t s1.model i)
  load-processed d m s reqs e h =
      let (i, r) = load-IsMirror d m s e in
      let (s1, p, _, (d1, at, mirror)) =
        processed-kept (sql_storage database) (IsMirror database keeps works)
          (record { model = m; storage = s }) reqs (on_write-IsMirror database keeps works) h i r in
      let (m2, s2, again, same) = load-Mirrors d1 s1.model mirror in
      (s1, d1, m2, s2, p, at, again, same)
