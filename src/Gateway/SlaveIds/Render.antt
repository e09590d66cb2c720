-- ===== src/Gateway/SlaveIds/Render.antt =====
-- internal/gateway/gateway.go: `ParseSlaveIDs` on the texts of ids and ranges.
use modbus_gateway.Base.{
  ◌||◌, ==_iff, ℕ, zero, suc, ◌+◌, ◌-◌, ◌/◌, ◌%◌, ◌≤◌, ◌≡◌, refl, ap, ◌∙◌, List, [], ◌∷◌, ◌++◌,
  Bool, true, false, ◌&&◌, not, ltb, ◌==◌, if◌then◌else◌, Outcome, ok, All, arith,
}
use modbus_gateway.Base.Bits.{all_pairs_at, all_pairs, all_below, all_below_at}
use modbus_gateway.Gateway.SlaveIds.{
  trim_left, Text, split, trim_space, contains, ℤ, pos, atoi, range_loop, range_ids, range_part,
  single_id, part_ids, parts_ids, parse_slave_ids, ParseError,
}

-- A configuration's list of ids: single ids and ranges.
pub data Item : Type 0 where
  single : ℕ → Item
  range : ℕ → ℕ → Item

-- A number below 1000 in decimal.
pub decimal : ℕ → Text
decimal n =
    if ltb n 10
    then (b'0' + n) ∷ []
    else if ltb n 100
    then (b'0' + n / 10) ∷ (b'0' + n % 10) ∷ []
    else (b'0' + n / 100) ∷ (b'0' + n / 10 % 10) ∷ (b'0' + n % 10) ∷ []

pub item_text : Item → Text
unfolding decimal
item_text (single n) = decimal n
item_text (range lo hi) = decimal lo ++ (b'-' ∷ decimal hi)

pub count_up : ℕ → ℕ → List ℕ
count_up zero i = []
count_up (suc n) i = i ∷ count_up n (i + 1)

pub item_ids : Item → List ℕ
unfolding count_up
item_ids (single n) = n ∷ []
item_ids (range lo hi) = count_up (hi + 1 - lo) lo

abbrev pub IsItem : Item → Type 0
IsItem (single n) = n ≤ 255
IsItem (range lo hi) = (lo ≤ hi) × (hi ≤ 255)

-- The items with commas between them.
pub render : List Item → Text
unfolding item_text
render [] = []
render (i ∷ []) = item_text i
render (i ∷ j ∷ items) = item_text i ++ (b',' ∷ render (j ∷ items))

pub ids_of : List Item → List ℕ
unfolding item_ids
ids_of [] = []
ids_of (i ∷ items) = item_ids i ++ ids_of items

-- Equality of texts.
same : Text → Text → Bool
same [] [] = true
same (x ∷ xs) (y ∷ ys) = x == y && same xs ys
same _ _ = false

same→eq : (xs ys : Text) → same xs ys ≡ true → xs ≡ ys
unfolding same
same→eq [] [] h = refl
same→eq (x ∷ xs) (y ∷ ys) h = ground (arith, same→eq xs ys)
same→eq [] (y ∷ ys) h = cc
same→eq (x ∷ xs) [] h = cc

-- What is read from a decimal: the number, with nothing trimmed, and no separator in it.
reads_decimal : ℕ → Bool
unfolding same decimal trim_space contains atoi
reads_decimal n =
    same (trim_space (decimal n)) (decimal n)
    && (not (contains b'-' (decimal n))
        && (not (contains b',' (decimal n))
            && elim (atoi (decimal n)) [ ok (pos m) ↦ m == n | _ ↦ false ]))

decimals_read : all_below 256 reads_decimal ≡ true
unfolding reads_decimal all_below
decimals_read = refl

ranges_trimmed :
    all_pairs 256 256
      (λ lo hi. same (trim_space (item_text (range lo hi))) (item_text (range lo hi)))
    ≡ true
unfolding all_pairs same item_text trim_space
ranges_trimmed = refl

-- What `reads_decimal` says of a number.
record DecimalFacts (n : ℕ) : Type 0 where
  trimmed : trim_space (decimal n) ≡ decimal n
  no_dash : contains b'-' (decimal n) ≡ false
  no_comma : contains b',' (decimal n) ≡ false
  value : atoi (decimal n) ≡ ok (pos n)

decimal_facts : (n : ℕ) → n ≤ 255 → DecimalFacts n
decimal_facts n h =
    let t : reads_decimal n ≡ true = all_below_at 256 reads_decimal n (omega arith) decimals_read in
    go (same (trim_space (decimal n)) (decimal n)) (contains b'-' (decimal n))
      (contains b',' (decimal n)) (atoi (decimal n)) refl refl refl refl (unfold reads_decimal in t)
  where
    go :
        (s d c : Bool) (o : Outcome ParseError ℤ)
        → same (trim_space (decimal n)) (decimal n) ≡ s
        → contains b'-' (decimal n) ≡ d
        → contains b',' (decimal n) ≡ c
        → atoi (decimal n) ≡ o
        → (s && (not d && (not c && elim o [ ok (pos m) ↦ m == n | _ ↦ false ]))) ≡ true
        → DecimalFacts n
    go true false false (ok (pos m)) es ed ec eo t = record {
      trimmed = same→eq _ _ es;
      no_dash = ed;
      no_comma = ec;
      value = eo ∙ ap (λ (x : ℕ). ok (pos x)) ((==_iff m n).0 t);
    }
    go s d c o es ed ec eo t = cc

contains-append : (b : ℕ) (xs ys : Text) → contains b (xs ++ ys) ≡ (contains b xs || contains b ys)
unfolding contains
contains-append b [] ys = refl
contains-append b (x ∷ xs) ys = ground (arith, contains-append b xs ys)

split-none : (sep : ℕ) (xs : Text) → contains sep xs ≡ false → split sep xs ≡ xs ∷ []
unfolding split contains
split-none sep [] h = refl
split-none sep (x ∷ xs) h = ground (arith, split-none sep xs)

split-append :
    (sep : ℕ) (xs ys : Text)
    → contains sep xs ≡ false
    → split sep (xs ++ (sep ∷ ys)) ≡ xs ∷ split sep ys
unfolding split contains
split-append sep [] ys h = ground arith
split-append sep (x ∷ xs) ys h = ground (arith, split-append sep xs ys)

range_loop-count_up : (left i : ℕ) → left + i ≤ 256 → range_loop left i ≡ ok (count_up left i)
unfolding range_loop count_up
range_loop-count_up zero i h = refl
range_loop-count_up (suc left) i h = ground (arith, range_loop-count_up left (i + 1))

part_ids_dash : (t : Text) → contains b'-' t ≡ true → part_ids t ≡ range_part (split b'-' t)
unfolding part_ids
part_ids_dash [] h = unfold contains in cc
part_ids_dash (c ∷ cs) h = rw h

part_ids_plain :
    (t : Text) (n : ℕ)
    → contains b'-' t ≡ false
    → atoi t ≡ ok (pos n)
    → n ≤ 255
    → part_ids t ≡ ok (n ∷ [])
unfolding part_ids single_id
part_ids_plain [] n h e l = unfold atoi in cc
part_ids_plain (c ∷ cs) n h e l = ground arith

record ItemFacts (i : Item) : Type 0 where
  no_comma : contains b',' (item_text i) ≡ false
  read : part_ids (trim_space (item_text i)) ≡ ok (item_ids i)

contains-head : (b : ℕ) (xs : Text) → contains b (b ∷ xs) ≡ true
unfolding contains
contains-head b xs = ground arith

contains-comma : (xs : Text) → contains b',' xs ≡ false → contains b',' (b'-' ∷ xs) ≡ false
unfolding contains
contains-comma xs h = h

range_part-decimals :
    (lo hi : ℕ)
    → DecimalFacts lo
    → DecimalFacts hi
    → lo ≤ hi
    → hi ≤ 255
    → range_part (decimal lo ∷ decimal hi ∷ []) ≡ ok (count_up (hi + 1 - lo) lo)
unfolding range_part range_ids
range_part-decimals lo hi f g le u =
    let loop = range_loop-count_up (hi + 1 - lo) lo (omega arith) in
    rw f.trimmed (rw g.trimmed (rw f.value (rw g.value (ground arith))))

item_facts : (i : Item) → IsItem i → ItemFacts i
unfolding item_text item_ids
item_facts (single n) h =
    let f = decimal_facts n h in
    record {
      no_comma = f.no_comma;
      read = rw f.trimmed (part_ids_plain (decimal n) n f.no_dash f.value h);
    }
item_facts (range lo hi) (le, u) =
    let f = decimal_facts lo (omega arith) in
    let g = decimal_facts hi u in
    let text = decimal lo ++ (b'-' ∷ decimal hi) in
    let t : trim_space text ≡ text = same→eq (trim_space text) text (
      all_pairs_at 256 256
        (λ lo hi. same (trim_space (item_text (range lo hi))) (item_text (range lo hi))) lo hi
        (omega arith) (omega arith) ranges_trimmed) in
    let dash : contains b'-' text ≡ true =
      contains-append b'-' (decimal lo) (b'-' ∷ decimal hi)
      ∙ rw f.no_dash (contains-head b'-' (decimal hi)) in
    record {
      no_comma =
          contains-append b',' (decimal lo) (b'-' ∷ decimal hi)
          ∙ rw f.no_comma (contains-comma (decimal hi) g.no_comma);
      read = rw t (
          part_ids_dash text dash
          ∙ rw (split-append b'-' (decimal lo) (decimal hi) f.no_dash)
              (rw (split-none b'-' (decimal hi) g.no_dash) (range_part-decimals lo hi f g le u)));
    }

parts_ids-render :
    (items : List Item)
    → All IsItem items
    → parts_ids (split b',' (render items)) ≡ ok (ids_of items)
unfolding parts_ids render ids_of split
parts_ids-render [] h = unfold trim_space trim_left part_ids in refl
parts_ids-render (i ∷ []) (hi, h) =
    let f = item_facts i hi in rw (split-none b',' (item_text i) f.no_comma) (rw f.read refl)
parts_ids-render (i ∷ j ∷ items) (hi, h) =
    let f = item_facts i hi in
    let rest = parts_ids-render (j ∷ items) h in
    rw (split-append b',' (item_text i) (render (j ∷ items)) f.no_comma) (rw f.read (rw rest refl))

-- What is rendered of items whose numbers are ids, and whose ranges do not descend, is read as their
-- ids, in order.
pub parse_slave_ids-render :
    (items : List Item) → All IsItem items → parse_slave_ids (render items) ≡ ok (ids_of items)
unfolding parse_slave_ids render ids_of
parse_slave_ids-render items h = parts_ids-render items h
