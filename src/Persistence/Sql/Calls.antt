-- ===== src/Persistence/Sql/Calls.antt =====
-- internal/local-slave/persistence/sql.go: the database behind database/sql, a parameter, and what
-- the storage relies on.
use modbus_gateway.Base.{
  refl, inr, inl, ◌⊎◌, ℕ, ◌≡◌, Bool, false, ◌==◌, ◌&&◌, if◌then◌else◌, List, [], ◌∷◌, Option, none,
  some,
}

-- A Go `int`, which the columns are scanned into.
pub data ℤ : Type 0 where
  pos negsuc : ℕ → ℤ

-- A row of the query; `unreadable` is one that `Scan` refuses.
pub data Row : Type 0 where
  unreadable : Row
  row : (table_type address value : ℤ) → Row

abbrev pub equals : ℤ → ℤ → Bool
equals (pos a) (pos b) = a == b
equals (negsuc a) (negsuc b) = a == b
equals (pos a) (negsuc b) = false
equals (negsuc a) (pos b) = false

abbrev pub row_value : Row → ℤ → ℤ → Option ℤ
row_value unreadable t a = none
row_value (row t' a' v) t a = if equals t t' && equals a a' then some v else none

abbrev pub or_else : {A : Type 0} → Option A → Option A → Option A
or_else (some a) b = some a
or_else none b = b

-- The value of a key of the table, by the last row that has it.
abbrev pub value_at : List Row → ℤ → ℤ → Option ℤ
value_at [] t a = none
value_at (r ∷ rs) t a = or_else (value_at rs t a) (row_value r t a)

-- The calls that the storage makes, over databases of type `D`; `none` is an error, after which
-- the database is as it was.
pub record Database (D : Type 0) : Type 0 where
  pub connect : D → Option D
  pub create_table : D → Option D
  pub query : D → Option (List Row)
  pub upsert : D → ℕ → ℕ → ℕ → Option D
  pub close_database : D → Option D

-- What they do to the rows of the table, which has none before it is created: the upsert changes
-- the value of one key, the others leave the rows as they are.
pub record Keeps {D : Type 0} (database : Database D) : Type 0 where
  pub rows : D → List Row
  pub connect_rows : (d d' : D) → database.connect d ≡ some d' → rows d' ≡ rows d
  pub create_rows : (d d' : D) → database.create_table d ≡ some d' → rows d' ≡ rows d
  pub query_rows : (d : D) (rs : List Row) → database.query d ≡ some rs → rs ≡ rows d
  pub upsert_rows :
      (d d' : D) (t a v : ℕ)
      → database.upsert d t a v ≡ some d'
      → (k l : ℤ)
      → value_at (rows d') k l
        ≡ (if equals k (pos t) && equals l (pos a) then some (pos v) else value_at (rows d) k l)

-- No call fails.
pub record Succeeds {D : Type 0} (database : Database D) : Type 0 where
  pub connects : (d : D) → (d' : D) × (database.connect d ≡ some d')
  pub creates : (d : D) → (d' : D) × (database.create_table d ≡ some d')
  pub answers : (d : D) → (rs : List Row) × (database.query d ≡ some rs)
  pub upserts : (d : D) (t a v : ℕ) → (d' : D) × (database.upsert d t a v ≡ some d')

pub Option-cases : {A : Type 0} (o : Option A) → (o ≡ none) ⊎ ((a : A) × (o ≡ some a))
Option-cases none = inl refl
Option-cases (some a) = inr (a, refl)
