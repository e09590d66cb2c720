-- ===== src/Reads.antt =====
-- `Read` of an `io.Reader`, as the RTU servers call it: what arrives on a connection or a port, and
-- the loop that reads until a buffer's part is full.
pub mod Contents
pub mod Gaps
use modbus_gateway.Base.{
  ℕ, zero, suc, ◌+◌, ◌-◌, List, [], ◌∷◌, ◌++◌, length, take, drop, Bytes, leb, if◌then◌else◌,
}

-- What is there to be read: bytes that one `Read` returns, as far as its buffer goes, and a `Read`
-- that returns an error.
pub data Incoming : Type 0 where
  received : Bytes → Incoming
  fault : Incoming

-- What `Read` into one byte comes to: no bytes are there and it blocks, an error, nothing, a byte.
pub data First : Type 0 where
  idle : First
  failed nothing : List Incoming → First
  one : ℕ → List Incoming → First

-- The bytes that a `Read` left.
abbrev pub put_back : Bytes → List Incoming → List Incoming
put_back [] rest = rest
put_back (b ∷ bs) rest = received (b ∷ bs) ∷ rest

-- `Read(buf[:1])`.
unfoldable pub read_first : List Incoming → First
read_first [] = idle
read_first (fault ∷ rest) = failed rest
read_first (received [] ∷ rest) = nothing rest
read_first (received (b ∷ bs) ∷ rest) = one b (put_back bs rest)

-- What a loop that fills a buffer comes to: it blocks, a `Read` fails behind these bytes, or it is
-- full.
pub data Filled : Type 0 where
  blocked : Filled
  faulted full : Bytes → List Incoming → Filled

abbrev pub behind : Bytes → Filled → Filled
behind bs blocked = blocked
behind bs (faulted cs rest) = faulted (bs ++ cs) rest
behind bs (full cs rest) = full (bs ++ cs) rest

-- `for current < need { n, err := r.Read(buf[current:need]); ...; current += n }`, by the bytes
-- that are still needed.
unfoldable pub fill : ℕ → List Incoming → Filled
fill zero incoming = full [] incoming
fill (suc n) [] = blocked
fill (suc n) (fault ∷ rest) = faulted [] rest
fill (suc n) (received bs ∷ rest) =
    let later = behind bs (fill (suc n - length bs) rest) in
    if leb (length bs) (suc n)
    then later
    else full (take (suc n) bs) (received (drop (suc n) bs) ∷ rest)
