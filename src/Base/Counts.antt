-- ===== src/Base/Counts.antt =====
-- Counts of the elements of lists that pass a test, which do not depend on the order.
use modbus_gateway.Base.Tests.{if◌then◌else◌}
use Prim.Native.Nat.{ℕ, suc, ◌+◌}
use mathlib.Core.Path.{◌≡◌, refl, ap₂, ◌∙◌}
use mathlib.Core.Bool.{Bool, false}
use mathlib.Core.List.{List, [], ◌∷◌, ◌++◌, map, foldr, Perm}
use mathlib.Core.List.Perm
use native.Mathlib.Nat.{ℕ_set}
use native.Mathlib.Omega.{arith}

-- The number of elements that pass a test.
abbrev pub count : {A : Type 0} → (A → Bool) → List A → ℕ
count p xs = foldr (λ x n. if p x then suc n else n) 0 xs

count-append :
    {A : Type 0} (p : A → Bool) (xs ys : List A) → count p (xs ++ ys) ≡ count p xs + count p ys
count-append p [] ys = omega arith
count-append p (x ∷ xs) ys = ground (arith, count-append p xs ys)

count-map :
    {A B : Type 0} (p : B → Bool) (f : A → B) (xs : List A)
    → count p (map f xs) ≡ count (λ x. p (f x)) xs
count-map p f [] = refl
count-map p f (x ∷ xs) = ground (arith, count-map p f xs)

pub count-append-map :
    {A B C : Type 0} (p : C → Bool) (f : A → C) (g : B → C) (xs : List A) (ys : List B)
    → count p (map f xs ++ map g ys) ≡ count (λ x. p (f x)) xs + count (λ y. p (g y)) ys
count-append-map p f g xs ys =
    count-append p (map f xs) (map g ys) ∙ ap₂ ◌+◌ (count-map p f xs) (count-map p g ys)

pub count_none : {A : Type 0} (xs : List A) → count (λ x. false) xs ≡ 0
count_none [] = refl
count_none (x ∷ xs) = count_none xs

swap_counted :
    {A : Type 0} (p : A → Bool) (a b : A) (n : ℕ)
    → let count_if : A → ℕ → ℕ = λ x n. if p x then suc n else n in
      count_if a (count_if b n) ≡ count_if b (count_if a n)
swap_counted p a b n = ground arith

pub count-perm : {A : Type 0} (p : A → Bool) (xs ys : List A) → Perm xs ys → count p xs ≡ count p ys
count-perm p xs ys h = Perm.foldr-eq ℕ_set (λ x n. if p x then suc n else n) (swap_counted p) h 0
