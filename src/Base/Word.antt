-- ===== src/Base/Word.antt =====
-- Machine integers. An unsigned value is a natural below its modulus, and an operation that may
-- overflow keeps its wrap-around (the release profile has no overflow checks). A signed value of
-- the wire format is an integer.
use Prim.Native.Nat.{ℕ, ◌+◌, ◌-◌, ◌*◌, ◌%◌, ◌^◌, ◌<◌}
use mathlib.Core.Path.{◌≡◌}
use mathlib.Core.Bool.{Bool}
use mathlib.Core.List.{List, [], ◌∷◌}
use native.Mathlib.Omega.{arith}
use incident_bench.Base.Tests.{ltb, leb, if◌then◌else◌}
use incident_bench.Base.Lists.{sum}

abbrev pub u64_mod : ℕ
u64_mod = 2 ^ 64

abbrev pub u32_mod : ℕ
u32_mod = 2 ^ 32

unfoldable pub add_u64 : ℕ → ℕ → ℕ
add_u64 a b = (a + b) % u64_mod

unfoldable pub mul_u64 : ℕ → ℕ → ℕ
mul_u64 a b = (a * b) % u64_mod

-- `a - b`: below zero it wraps.
unfoldable pub sub_u64 : ℕ → ℕ → ℕ
sub_u64 a b = (a + u64_mod - b) % u64_mod

unfoldable pub add_u32 : ℕ → ℕ → ℕ
add_u32 a b = (a + b) % u32_mod

-- `Iterator::sum` into a `u64` and into a `u32`: a left fold.
unfoldable pub sum_u64_from : ℕ → List ℕ → ℕ
sum_u64_from acc [] = acc
sum_u64_from acc (x ∷ xs) = sum_u64_from (add_u64 acc x) xs

unfoldable pub sum_u64 : List ℕ → ℕ
sum_u64 xs = sum_u64_from 0 xs

unfoldable pub sum_u32_from : ℕ → List ℕ → ℕ
sum_u32_from acc [] = acc
sum_u32_from acc (x ∷ xs) = sum_u32_from (add_u32 acc x) xs

unfoldable pub sum_u32 : List ℕ → ℕ
sum_u32 xs = sum_u32_from 0 xs

sum_u64_from-eq :
    (acc : ℕ) (xs : List ℕ) → acc < u64_mod → sum_u64_from acc xs ≡ (acc + sum xs) % u64_mod
unfolding sum_u64_from add_u64
sum_u64_from-eq acc [] h = omega arith
sum_u64_from-eq acc (x ∷ xs) h =
    omega (arith, sum_u64_from-eq ((acc + x) % u64_mod) xs (omega arith))

-- The fold loses nothing but a multiple of the modulus, whatever it passes on the way.
pub sum_u64-eq-sum : (xs : List ℕ) → sum_u64 xs ≡ sum xs % u64_mod
unfolding sum_u64
sum_u64-eq-sum xs = omega (arith, sum_u64_from-eq 0 xs (omega arith))

pub sum_u64-lt : (xs : List ℕ) → sum_u64 xs < u64_mod
sum_u64-lt xs = omega (arith, sum_u64-eq-sum xs)

sum_u32_from-eq :
    (acc : ℕ) (xs : List ℕ) → acc < u32_mod → sum_u32_from acc xs ≡ (acc + sum xs) % u32_mod
unfolding sum_u32_from add_u32
sum_u32_from-eq acc [] h = omega arith
sum_u32_from-eq acc (x ∷ xs) h =
    omega (arith, sum_u32_from-eq ((acc + x) % u32_mod) xs (omega arith))

pub sum_u32-eq-sum : (xs : List ℕ) → sum_u32 xs ≡ sum xs % u32_mod
unfolding sum_u32
sum_u32-eq-sum xs = omega (arith, sum_u32_from-eq 0 xs (omega arith))

-- `negsuc n` is -(n + 1).
pub data ℤ : Type 0 where
  pos : ℕ → ℤ
  negsuc : ℕ → ℤ

-- `as u64` and `as u32` of a signed value: the residue.
abbrev pub as_u64 : ℤ → ℕ
as_u64 (pos n) = n % u64_mod
as_u64 (negsuc n) = u64_mod - 1 - n % u64_mod

abbrev pub as_u32 : ℤ → ℕ
as_u32 (pos n) = n % u32_mod
as_u32 (negsuc n) = u32_mod - 1 - n % u32_mod

-- `as i64` of an unsigned value.
abbrev pub as_i64 : ℕ → ℤ
as_i64 n = let m = n % u64_mod in if ltb m (2 ^ 63) then pos m else negsuc (u64_mod - 1 - m)

-- A value below 2^63 is kept.
pub as_i64-small : (n : ℕ) → n < 2 ^ 63 → as_i64 n ≡ pos n
as_i64-small n h = ground arith

abbrev pub as_i32 : ℕ → ℤ
as_i32 n = let m = n % u32_mod in if ltb m (2 ^ 31) then pos m else negsuc (u32_mod - 1 - m)

-- `a + b` on `i64`, with its wrap-around.
unfoldable pub add_i64 : ℤ → ℤ → ℤ
add_i64 a b = as_i64 (add_u64 (as_u64 a) (as_u64 b))

-- `a - b` on `i64`.
unfoldable pub sub_i64 : ℤ → ℤ → ℤ
sub_i64 a b = as_i64 (sub_u64 (as_u64 a) (as_u64 b))

abbrev pub leb_ℤ : ℤ → ℤ → Bool
leb_ℤ (pos a) (pos b) = leb a b
leb_ℤ (pos a) (negsuc b) = Bool.false
leb_ℤ (negsuc a) (pos b) = Bool.true
leb_ℤ (negsuc a) (negsuc b) = leb b a

-- `max(0)` and the like, which end at a natural.
abbrev pub max_zero : ℤ → ℕ
max_zero (pos n) = n
max_zero (negsuc n) = 0
