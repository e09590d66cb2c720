-- ===== src/Persistence/Disk.antt =====
-- internal/local-slave/persistence/file.go and mmap.go: the calls of the operating system that the
-- storages in a file make, a parameter, and what the storages rely on.
use modbus_gateway.Base.{
  false, panic, ◌≢◌, >>=-eq-ok, refl, inl, inr, sym, ◌∙◌, ap, ==_iff, Bool-cases, ℕ, ◌<◌, ◌≡◌, Bool,
  true, IsByte, Option, none, some, Outcome, ok, err, ◌>>=◌, ◌==◌, if◌then◌else◌,
}
use modbus_gateway.Persistence.Layout.{Image, total_size}

pub data FileError : Type 0 where
  failed_to_open failed_to_stat failed_to_resize failed_to_read failed_to_map : FileError
  failed_to_write failed_to_sync data_is_nil failed_to_flush failed_to_unmap failed_to_close :
      FileError

-- The calls, over disks of type `D` that hold the file; `none` is an error, after which the disk is
-- as it was. A write and a flush may fail with part of their work done: they return the disk
-- after it, and whether they succeeded.
pub record Disk (D : Type 0) : Type 0 where
  pub open_file : D → Option D
  pub size_of : D → Option ℕ
  pub truncate : D → ℕ → Option D
  pub read_all : D → Option Image
  pub map_file : D → Option Image
  pub write_at : D → Image → D × Bool
  pub sync_file : D → D × Bool
  pub flush : D → Image → D × Bool
  pub unmap : D → D × Bool
  pub close_file : D → D × Bool

-- What they do: to the file as it is read, and to what of it is left after a power failure, the
-- durable file, with which `after_failure` starts. A byte past the end of either is 0.
pub record Stores {D : Type 0} (disk : Disk D) : Type 0 where
  pub contents : D → Image
  pub durable : D → Image
  pub after_failure : D → D
  pub failed : (d : D) (i : ℕ) → (contents (after_failure d)).byte i ≡ (durable d).byte i
  pub contents_bytes : (d : D) (i : ℕ) → IsByte ((contents d).byte i)
  pub opened :
      (d d' : D)
      → disk.open_file d ≡ some d'
      → (contents d' ≡ contents d) × (durable d' ≡ durable d)
  pub sized : (d : D) (n : ℕ) → disk.size_of d ≡ some n → n ≡ (contents d).size
  pub truncated :
      (d d' : D) (n : ℕ)
      → disk.truncate d n ≡ some d'
      → ((contents d').size ≡ n)
        × ((i : ℕ) → i < n → (contents d').byte i ≡ (contents d).byte i)
        × ((i : ℕ) → i < n → (durable d').byte i ≡ (durable d).byte i)
  pub read : (d : D) (image : Image) → disk.read_all d ≡ some image → image ≡ contents d
  pub mapped : (d : D) (image : Image) → disk.map_file d ≡ some image → image ≡ contents d
  pub written :
      (d d' : D) (image : Image)
      → disk.write_at d image ≡ (d', true)
      → (i : ℕ) → i < image.size
      → IsByte (image.byte i)
      → (contents d').byte i ≡ image.byte i
  pub synced :
      (d d' : D)
      → disk.sync_file d ≡ (d', true)
      → (contents d' ≡ contents d) × (durable d' ≡ contents d)
  pub flushed :
      (d d' : D) (image : Image)
      → disk.flush d image ≡ (d', true)
      → (i : ℕ) → i < image.size
      → IsByte (image.byte i)
      → (durable d').byte i ≡ image.byte i

-- No call fails.
pub record Works {D : Type 0} (disk : Disk D) : Type 0 where
  pub opens : (d : D) → (d' : D) × (disk.open_file d ≡ some d')
  pub stats : (d : D) → (n : ℕ) × (disk.size_of d ≡ some n)
  pub truncates : (d : D) (n : ℕ) → (d' : D) × (disk.truncate d n ≡ some d')
  pub reads_all : (d : D) → (image : Image) × (disk.read_all d ≡ some image)
  pub maps : (d : D) → (image : Image) × (disk.map_file d ≡ some image)
  pub writes : (d : D) (image : Image) → (d' : D) × (disk.write_at d image ≡ (d', true))
  pub syncs : (d : D) → (d' : D) × (disk.sync_file d ≡ (d', true))
  pub flushes : (d : D) (image : Image) → (d' : D) × (disk.flush d image ≡ (d', true))

abbrev pub or_fail : {A : Type 0} → FileError → Option A → Outcome FileError A
or_fail e (some a) = ok a
or_fail e none = err e

module _ {D : Type 0} (disk : Disk D) where
  -- The first part of `Load`, to the check of the size.
  unfoldable pub resized : D → Outcome FileError D
  resized d = do
    opened ← or_fail failed_to_open (disk.open_file d)
    size ← or_fail failed_to_stat (disk.size_of opened)
    if size == total_size
        then ok opened
        else or_fail failed_to_resize (disk.truncate opened total_size)

  module _ (stores : Stores disk) (works : Works disk) where
    pub resized-ok :
        (d : D)
        → (d' : D) × (resized d ≡ ok d')
          × ((stores.contents d').size ≡ total_size)
          × ((i : ℕ) → i < total_size → (stores.contents d').byte i ≡ (stores.contents d).byte i)
          × ((i : ℕ) → i < total_size → (stores.durable d').byte i ≡ (stores.durable d).byte i)
    unfolding resized
    resized-ok d =
        let (d1, e1) = works.opens d in
        let (c1, k1) = stores.opened d d1 e1 in
        let (n, e2) = works.stats d1 in
        let s = stores.sized d1 n e2 in
        elim (Bool-cases (n == total_size)) [
          | inl right ↦ (
            d1,
            rw e1 (rw e2 (rw right refl)),
            sym s ∙ (==_iff n total_size).0 right,
            (λ i h. ap (λ x. x.byte i) c1),
            λ i h. ap (λ x. x.byte i) k1,
          )
          | inr wrong ↦
              let (d2, e3) = works.truncates d1 total_size in
              let (s2, c2, k2) = stores.truncated d1 d2 total_size e3 in
              (
                d2,
                rw e1 (rw e2 (rw wrong (rw e3 refl))),
                s2,
                (λ i h. c2 i h ∙ ap (λ x. x.byte i) c1),
                λ i h. k2 i h ∙ ap (λ x. x.byte i) k1,
              )
        ]

  or_fail-eq-ok :
      {A : Type 0} (e : FileError) (o : Option A) (a : A) → or_fail e o ≡ ok a → o ≡ some a
  or_fail-eq-ok e (some x) a h = cc
  or_fail-eq-ok e none a h = cc

  pub resized-returns : (d : D) → resized d ≢ panic
  unfolding resized
  resized-returns d = go (disk.open_file d)
    where
      last :
          (b : Bool) (d' : D) (x : Option D)
          → (if b then ok d' else or_fail failed_to_resize x) ≢ panic
      last true d' x h = cc
      last false d' (some y) h = cc
      last false d' none h = cc

      sizes :
          (d' : D) (x : Option ℕ)
          → (or_fail failed_to_stat x >>= λ size.
              (if size == total_size
                then ok d'
                else or_fail failed_to_resize (disk.truncate d' total_size)))
            ≢ panic
      sizes d' (some n) h = last (n == total_size) d' (disk.truncate d' total_size) h
      sizes d' none h = cc

      go :
          (x : Option D)
          → (or_fail failed_to_open x >>= λ d'.
              (or_fail failed_to_stat (disk.size_of d') >>= λ size.
              (if size == total_size
                then ok d'
                else or_fail failed_to_resize (disk.truncate d' total_size))))
            ≢ panic
      go (some d') h = sizes d' (disk.size_of d') h
      go none h = cc

  -- Whatever fails, a file that this part has passed has the size of the layout.
  pub resized-eq-ok :
      (stores : Stores disk) (d d' : D) → resized d ≡ ok d' → (stores.contents d').size ≡ total_size
  unfolding resized
  resized-eq-ok stores d d' h =
      let (o, _, q) = >>=-eq-ok (or_fail failed_to_open (disk.open_file d)) _ h in
      let (n, r, k) = >>=-eq-ok (or_fail failed_to_stat (disk.size_of o)) _ q in
      last (n == total_size) o n refl (or_fail-eq-ok failed_to_stat _ n r) k
    where
      last :
          (b : Bool) (o : D) (n : ℕ)
          → (n == total_size) ≡ b
          → disk.size_of o ≡ some n
          → (if b then ok o else or_fail failed_to_resize (disk.truncate o total_size)) ≡ ok d'
          → (stores.contents d').size ≡ total_size
      last true o n e r k =
          let same : o ≡ d' = cc in
          ap (λ x. (stores.contents x).size) (sym same)
          ∙ sym (stores.sized o n r)
          ∙ (==_iff n total_size).0 e
      last false o n e r k =
          (stores.truncated o d' total_size (or_fail-eq-ok failed_to_resize _ d' k)).0
