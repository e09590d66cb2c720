-- ===== src/Gateway/SlaveIds.antt =====
-- internal/gateway/gateway.go: `ParseSlaveIDs`, over the code points of its input.
pub mod InRange
pub mod Render
use modbus_gateway.Base.{
  ℕ, zero, suc, ◌+◌, ◌-◌, ◌*◌, ◌^◌, ◌≤◌, List, [], ◌∷◌, ◌++◌, length, Bool, true, false, ◌&&◌, ◌||◌,
  not, ltb, leb, ◌==◌, if◌then◌else◌, Outcome, ok, err, panic, ◌>>=◌, ◌>>◌, fail_if, Bytes,
}
use mathlib.Core.List.{reverse}

abbrev pub Text : Type 0
Text = List ℕ

-- `strings.Split` by a separator of one character.
abbrev pub cons_head : ℕ → List Text → List Text
cons_head c [] = (c ∷ []) ∷ []
cons_head c (t ∷ ts) = (c ∷ t) ∷ ts

unfoldable pub split : ℕ → Text → List Text
split sep [] = [] ∷ []
split sep (c ∷ cs) = let rest = split sep cs in if c == sep then [] ∷ rest else cons_head c rest

-- `unicode.IsSpace`.
unfoldable pub is_space : ℕ → Bool
is_space c =
    leb 9 c && leb c 13
    || c == 0x20
    || c == 0x85
    || c == 0xa0
    || c == 0x1680
    || leb 0x2000 c && leb c 0x200a
    || c == 0x2028
    || c == 0x2029
    || c == 0x202f
    || c == 0x205f
    || c == 0x3000

-- `strings.TrimSpace`.
unfoldable pub trim_left : Text → Text
unfolding is_space
trim_left [] = []
trim_left (c ∷ cs) = let rest = trim_left cs in if is_space c then rest else c ∷ cs

unfoldable pub trim_space : Text → Text
unfolding trim_left
trim_space t = reverse (trim_left (reverse (trim_left t)))

-- `strings.Contains` with one character.
unfoldable pub contains : ℕ → Text → Bool
contains b [] = false
contains b (c ∷ cs) = c == b || contains b cs

-- A Go int: `negsuc n` is -(n + 1).
pub data ℤ : Type 0 where
  pos : ℕ → ℤ
  negsuc : ℕ → ℤ

pub data ParseError : Type 0 where
  invalid_range invalid_start invalid_end start_after_end invalid_id out_of_range : ParseError

-- The digits of `strconv.Atoi` behind the sign, or an error.
unfoldable pub digits_value : ℕ → Text → Outcome ParseError ℕ
digits_value acc [] = ok acc
digits_value acc (c ∷ cs) =
    let rest = digits_value (acc * 10 + (c - b'0')) cs in
    if leb b'0' c && leb c b'9' then rest else err invalid_id

abbrev unsigned : Text → Outcome ParseError ℕ
unsigned [] = err invalid_id
unsigned (c ∷ cs) = digits_value 0 (c ∷ cs)

abbrev negated : ℕ → ℤ
negated zero = pos 0
negated (suc n) = negsuc n

-- `strconv.Atoi`, whose result is an int of 64 bits.
unfoldable pub atoi : Text → Outcome ParseError ℤ
unfolding digits_value
atoi [] = err invalid_id
atoi (c ∷ cs) =
    if c == b'-'
    then (do n ← unsigned cs; fail_if (ltb (2 ^ 63) n) invalid_id; ok (negated n))
    else (do
      n ← unsigned (if c == b'+' then cs else c ∷ cs)
      fail_if (leb (2 ^ 63) n) invalid_id
      ok (pos n))

-- The error that a caller makes of another.
abbrev or_error : {A : Type 0} → ParseError → Outcome ParseError A → Outcome ParseError A
or_error e (ok a) = ok a
or_error e (err x) = err e
or_error e panic = panic

-- The loop over a range: the rounds left, and `i`.
unfoldable pub range_loop : ℕ → ℕ → Outcome ParseError (List ℕ)
range_loop zero i = ok []
range_loop (suc left) i =
    let rest = range_loop left (i + 1) in
    if ltb 255 i then err out_of_range else (rest >>= λ ids. ok (i ∷ ids))

-- The ids from `start` to `end`. A negative start is out of range in the first round.
unfoldable pub range_ids : ℤ → ℤ → Outcome ParseError (List ℕ)
unfolding range_loop
range_ids (pos start) (pos end) =
    if ltb end start then err start_after_end else range_loop (end + 1 - start) start
range_ids (pos start) (negsuc end) = err start_after_end
range_ids (negsuc start) (pos end) = err out_of_range
range_ids (negsuc start) (negsuc end) =
    if ltb start end then err start_after_end else err out_of_range

-- The branch of a part with a dash.
unfoldable pub range_part : List Text → Outcome ParseError (List ℕ)
unfolding range_ids atoi trim_space
range_part (a ∷ b ∷ []) = do
  start ← or_error invalid_start (atoi (trim_space a))
  end ← or_error invalid_end (atoi (trim_space b))
  range_ids start end
range_part _ = err invalid_range

-- The branch of a part with none.
unfoldable pub single_id : ℤ → Outcome ParseError (List ℕ)
single_id (pos id) = if ltb 255 id then err out_of_range else ok (id ∷ [])
single_id (negsuc id) = err out_of_range

-- One round of the loop over the parts, on a part already trimmed.
unfoldable pub part_ids : Text → Outcome ParseError (List ℕ)
unfolding range_part single_id contains split atoi
part_ids [] = ok []
part_ids (c ∷ cs) =
    if contains b'-' (c ∷ cs)
    then range_part (split b'-' (c ∷ cs))
    else (atoi (c ∷ cs) >>= single_id)

unfoldable pub parts_ids : List Text → Outcome ParseError (List ℕ)
unfolding part_ids trim_space
parts_ids [] = ok []
parts_ids (p ∷ ps) = do ids ← part_ids (trim_space p); rest ← parts_ids ps; ok (ids ++ rest)

-- `ParseSlaveIDs`.
unfoldable pub parse_slave_ids : Text → Outcome ParseError (List ℕ)
unfolding parts_ids split
parse_slave_ids input = parts_ids (split b',' input)
