-- ===== src/Persistence/Sql/Mirrors.antt =====
-- internal/local-slave/persistence/sql.go: rows that stand for the model, and what `OnWrite` does to
-- them.
use modbus_gateway.Base.{
  subst, sym, ==_iff, ℕ, zero, suc, ◌+◌, ◌≤◌, ◌≡◌, refl, sym, ◌∙◌, ap, Outcome, ok, err, panic,
  if◌then◌else◌, ltb, leb, ◌==◌, ◌&&◌, some, arith, Bool-cases, inl, inr, lt→ltb,
}
use modbus_gateway.DataModel.{DataModel, new_data_model, TableType}
use modbus_gateway.Slave.Steps.{IsModel, Changed}
use modbus_gateway.Slave.Invariant.{IsKept, Changed-InRange, Changed-IsModel}
use modbus_gateway.Persistence.Sql.{
  SqlError, number, cells, wrapped, SqlStorage, persist_loop, on_write, sql_storage,
}
use modbus_gateway.Persistence.Sql.Calls.{pos, negsuc, value_at, Database, Keeps, Succeeds}
use modbus_gateway.Persistence.Sql.Rows.{width, loaded, NoNegative, Loads}
use modbus_gateway.Persistence.Sql.Cells.{
  first_and_rest, and-left, no_key, loaded_model, new-zero, table_of, table_of-number,
  wrapped-cells, persists, Changed-cells,
}

module _ {D : Type 0} (database : Database D) (keeps : Keeps database)
    (works : Succeeds database) where
  -- The value of a key after the loop of `OnWrite`.
  persist_loop-value_at :
      (left : ℕ) (d : D) (m : DataModel) (t : TableType) (a : ℕ)
      → a + left ≤ 65536
      → (d' : D) × (persist_loop database left d m t a ≡ ok d')
        × ((k l : ℕ)
            → value_at (keeps.rows d') (pos k) (pos l) ≡ (
                if (k == number t) && (leb a l && ltb l (a + left))
                then some (pos (cells t m l))
                else value_at (keeps.rows d) (pos k) (pos l)))
        × ((k l : ℕ)
            → value_at (keeps.rows d') (pos k) (negsuc l)
              ≡ value_at (keeps.rows d) (pos k) (negsuc l))
  unfolding persist_loop
  persist_loop-value_at zero d m t a h = (d, refl, (λ k l. ground arith), λ k l. refl)
  persist_loop-value_at (suc left) d m t a h =
      let v = cells t m a in
      let (d1, e1) = works.upserts d (number t) a v in
      let changed = keeps.upsert_rows d d1 (number t) a v e1 in
      let (d2, e2, same, below) = persist_loop-value_at left d1 m t (a + 1) (omega arith) in
      let inside = lt→ltb a 65536 (omega arith) in
      (
        d2,
        rw inside (rw e1 e2),
        (λ k l.
            same k l
            ∙ ap
                (λ old.
                  if (k == number t) && (leb (a + 1) l && ltb l (a + 1 + left))
                  then some (pos (cells t m l))
                  else old)
                (changed (pos k) (pos l))
            ∙ first_and_rest (k == number t) (λ j. some (pos (cells t m j))) a left l _),
        (λ k l. below k l ∙ changed (pos k) (negsuc l) ∙ no_key (k == number t) (some (pos v)) _),
      )

  -- The rows stand for the model.
  pub record Mirrors (d : D) (m : DataModel) : Type 0 where
    pub no_negative : NoNegative (keeps.rows d)
    pub agrees :
        (t : TableType) (i : ℕ)
        → i ≤ 65535
        → loaded t (value_at (keeps.rows d) (pos (number t)) (pos i)) 0 ≡ cells t m i

  -- As do those of a storage's database.
  abbrev pub IsMirror : SqlStorage D → DataModel → Type 0
  IsMirror s m = (d : D) × (s.db ≡ some d) × Mirrors d m

  -- A load of rows.
  pub Loads-Mirrors :
      (d : D) (o : Outcome SqlError DataModel) (m : DataModel)
      → o ≡ ok m
      → Loads (keeps.rows d) new_data_model o
      → Mirrors d m
  unfolding loaded_model
  Loads-Mirrors d (ok m1) m e (f, c) = record {
    no_negative = f;
    agrees = λ t i h.
        sym (
          ap (λ old. loaded t (value_at (keeps.rows d) (pos (number t)) (pos i)) old)
            (new-zero t i))
        ∙ sym (c t i h)
        ∙ ap (λ o. cells t (loaded_model m o) i) e;
  }
  Loads-Mirrors d (err x) m e h = absurd h
  Loads-Mirrors d panic m e h = cc

  persisted-Mirrors :
      (d d' : D) (m m' : DataModel) (t : TableType) (a q : ℕ)
      → Mirrors d m
      → IsModel m'
      → Changed t a q m m'
      → ((k l : ℕ)
          → value_at (keeps.rows d') (pos k) (pos l) ≡ (
              if (k == number t) && (leb a l && ltb l (a + q))
              then some (pos (cells t m' l))
              else value_at (keeps.rows d) (pos k) (pos l)))
      → ((k l : ℕ)
          → value_at (keeps.rows d') (pos k) (negsuc l)
            ≡ value_at (keeps.rows d) (pos k) (negsuc l))
      → Mirrors d' m'
  persisted-Mirrors d d' m m' t a q h w c same below = record {
    no_negative = λ k l b. below k l ∙ h.no_negative k l b;
    agrees = λ u i b. elim (Bool-cases (persists t a q u i)) [
      | inl at ↦
          let n : number u ≡ number t = (==_iff (number u) (number t)).0 (and-left _ _ at) in
          let ut : u ≡ t = sym (table_of-number u) ∙ ap table_of n ∙ table_of-number t in
          rw (same (number u) i) (
            rw at (
              subst (λ x. wrapped (width u) (pos (cells x m' i)) ≡ cells u m' i) ut
                (wrapped-cells u m' i w)))
      | inr away ↦
          rw (same (number u) i) (rw away (h.agrees u i b ∙ Changed-cells t a q m m' u i c away))
    ];
  }

  on_write-ok_db :
      (s : SqlStorage D) (d d' : D) (m : DataModel) (t : TableType) (a q : ℕ)
      → s.db ≡ some d
      → persist_loop database q d m t a ≡ ok d'
      → on_write database s m t a q ≡ ok (record { db = some d' })
  unfolding on_write
  on_write-ok_db s d d' m t a q e p = rw e (rw p refl)

  pub on_write-IsMirror : IsKept (sql_storage database) IsMirror
  on_write-IsMirror s s' m m' t a q (d, e, h) i c told =
      let r = Changed-InRange t a q m m' c in
      let (d', p, same, below) = persist_loop-value_at q d m' t a r.1 in
      let after = sym (on_write-ok_db s d d' m' t a q e p) ∙ told in
      let stored : record { db = some d' } ≡ s' = cc in
      (
        d',
        sym (ap (λ x. x.db) stored),
        persisted-Mirrors d d' m m' t a q h (Changed-IsModel t a q m m' c i) c same below,
      )
