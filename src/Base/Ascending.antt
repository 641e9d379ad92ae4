-- ===== src/Base/Ascending.antt =====
-- Strictly ascending lists of numbers, their members, and the removal of one.
use Prim.Native.Nat.{ℕ, suc, ◌≤◌, ◌<◌}
use mathlib.Core.Path.{◌≡◌, refl}
use mathlib.Core.Bool.{Bool, true, false, ◌||◌}
use mathlib.Core.List.{List, [], ◌∷◌, ◌++◌, reverse, reverse_aux}
use native.Mathlib.Omega.{arith}
use timelynotify_server.Base.Tests.{nat_eq, if◌then◌else◌}
use timelynotify_server.Base.Lists.{length, All}

abbrev pub mem : ℕ → List ℕ → Bool
mem a [] = false
mem a (x ∷ xs) = nat_eq x a || mem a xs

-- Every element is above the one before it, the first above `lo`.
abbrev pub Ascending : ℕ → List ℕ → Type 0
Ascending lo [] = Unit
Ascending lo (x ∷ xs) = (lo < x) × Ascending x xs

-- The first occurrence is dropped.
unfoldable pub remove_id : ℕ → List ℕ → List ℕ
remove_id id [] = []
remove_id id (x ∷ xs) = let rest = remove_id id xs in if nat_eq x id then xs else x ∷ rest

pub Ascending-lower : (lo lo' : ℕ) (xs : List ℕ) → lo' ≤ lo → Ascending lo xs → Ascending lo' xs
Ascending-lower lo lo' [] h a = tt
Ascending-lower lo lo' (x ∷ xs) h a = (omega arith, a.1)

pub Ascending-append :
    (lo b y : ℕ) (xs : List ℕ)
    → lo ≤ b
    → b < y
    → Ascending lo xs
    → All (λ x. x ≤ b) xs
    → Ascending lo (xs ++ y ∷ [])
Ascending-append lo b y [] h k a u = (omega arith, tt)
Ascending-append lo b y (x ∷ xs) h k a u = (a.0, Ascending-append x b y xs u.0 k a.1 u.1)

pub Ascending-remove : (id lo : ℕ) (xs : List ℕ) → Ascending lo xs → Ascending lo (remove_id id xs)
unfolding remove_id
Ascending-remove id lo [] a = tt
Ascending-remove id lo (x ∷ xs) a =
    ground (arith, Ascending-lower x lo xs, Ascending-remove id x xs a.1)

-- What is below the lower bound is no member.
pub mem-below : (j lo : ℕ) (xs : List ℕ) → j ≤ lo → Ascending lo xs → mem j xs ≡ false
mem-below j lo [] h a = refl
mem-below j lo (x ∷ xs) h a = ground (arith, mem-below j x xs)

pub mem-remove :
    (id j lo : ℕ) (xs : List ℕ)
    → Ascending lo xs
    → mem j (remove_id id xs) ≡ (if nat_eq id j then false else mem j xs)
unfolding remove_id
mem-remove id j lo [] a = ground arith
mem-remove id j lo (x ∷ xs) a = ground (arith, mem-remove id j x xs a.1, mem-below j x xs)

pub mem-append : (j y : ℕ) (xs : List ℕ) → mem j (xs ++ y ∷ []) ≡ (mem j xs || nat_eq y j)
mem-append j y [] = ground arith
mem-append j y (x ∷ xs) = ground (arith, mem-append j y xs)

mem-reverse_aux : (j : ℕ) (xs ys : List ℕ) → mem j (reverse_aux xs ys) ≡ (mem j xs || mem j ys)
mem-reverse_aux j [] ys = refl
mem-reverse_aux j (x ∷ xs) ys = ground (arith, mem-reverse_aux j xs (x ∷ ys))

pub mem-reverse : (j : ℕ) (xs : List ℕ) → mem j (reverse xs) ≡ mem j xs
mem-reverse j xs = ground (arith, mem-reverse_aux j xs [])

pub length-remove :
    (id : ℕ) (xs : List ℕ) → mem id xs ≡ true → suc (length (remove_id id xs)) ≡ length xs
unfolding remove_id
length-remove id [] h = cc
length-remove id (x ∷ xs) h = ground (arith, length-remove id xs)

pub length-remove-le : (id : ℕ) (xs : List ℕ) → length (remove_id id xs) ≤ length xs
unfolding remove_id
length-remove-le id [] = omega arith
length-remove-le id (x ∷ xs) = ground (arith, length-remove-le id xs)

pub All-remove {ℓ} : (P : ℕ → Type ℓ) (id : ℕ) (xs : List ℕ) → All P xs → All P (remove_id id xs)
unfolding remove_id
All-remove P id [] h = tt
All-remove P id (x ∷ xs) h = ground (arith, All-remove P id xs h.1)

pub All-le_mono : (a b : ℕ) (xs : List ℕ) → a ≤ b → All (λ x. x ≤ a) xs → All (λ x. x ≤ b) xs
All-le_mono a b [] h u = tt
All-le_mono a b (x ∷ xs) h u = (omega arith, All-le_mono a b xs h u.1)

-- A member meets what all elements meet.
pub le_of_mem : (j b : ℕ) (xs : List ℕ) → All (λ x. x ≤ b) xs → mem j xs ≡ true → j ≤ b
le_of_mem j b [] u h = cc
le_of_mem j b (x ∷ xs) u h = ground (arith, le_of_mem j b xs)
