-- ===== src/Base/Float.antt =====
-- `f64` behind an interface: the operations that the source calls, and those facts of IEEE 754
-- arithmetic and of the `f64` documentation that the proofs use, as named laws.
use Prim.Native.Nat.{ℕ, ◌≤◌, ◌^◌}
use mathlib.Core.Path.{◌≡◌}
use mathlib.Core.Logic.{◌⊎◌}
use mathlib.Core.Bool.{Bool, true, not}
use incident_bench.Base.Word.{ℤ}

pub record F64 {ℓ} (F : Type ℓ) : Type ℓ where
  pub le : F → F → Bool
  pub lt : F → F → Bool
  pub add : F → F → F
  pub sub : F → F → F
  pub mul : F → F → F
  pub div : F → F → F
  pub fmin : F → F → F
  pub fmax : F → F → F
  pub floor : F → F
  pub round : F → F
  pub abs : F → F
  -- `lit m k` is the literal m / 10^k, and `lowest` is `f64::MIN`.
  pub lit : ℕ → ℕ → F
  pub lowest : F
  -- `as f64` of an unsigned and of a signed value, `as u64` and `as i64` of a float.
  pub of_nat : ℕ → F
  pub of_int : ℤ → F
  pub to_u64 : F → ℕ
  pub to_i64 : F → ℤ
  -- `Duration::as_secs_f64` of a span in nanoseconds.
  pub secs : ℕ → F
  pub is_finite : F → Bool

infix 4 ◌≼◌
abbrev pub ◌≼◌ {ℓ} : {F : Type ℓ} ⦃fl : F64 F⦄ → F → F → Type 0
◌≼◌ ⦃fl⦄ x y = fl.le x y ≡ true

abbrev pub zero_f {ℓ} : {F : Type ℓ} ⦃fl : F64 F⦄ → F
zero_f ⦃fl⦄ = fl.lit 0 0

abbrev pub one_f {ℓ} : {F : Type ℓ} ⦃fl : F64 F⦄ → F
one_f ⦃fl⦄ = fl.lit 1 0

-- NaN is the value that is not `<=` itself; away from it the order is total.
abbrev pub IsNumber {ℓ} : {F : Type ℓ} ⦃fl : F64 F⦄ → F → Type 0
IsNumber x = x ≼ x

abbrev pub IsFinite {ℓ} : {F : Type ℓ} ⦃fl : F64 F⦄ → F → Type 0
IsFinite ⦃fl⦄ x = fl.is_finite x ≡ true

pub record IsOrdered {ℓ} (F : Type ℓ) ⦃fl : F64 F⦄ : Type ℓ where
  pub le_trans : (x y z : F) → x ≼ y → y ≼ z → x ≼ z
  pub le_total : (x y : F) → IsNumber x → IsNumber y → (x ≼ y) ⊎ (y ≼ x)
  pub number_of_le : (x y : F) → x ≼ y → IsNumber x × IsNumber y
  pub lt-eq-not-le : (x y : F) → IsNumber x → IsNumber y → fl.lt x y ≡ not (fl.le y x)
  -- Literals are numbers.
  pub lit_number : (m k : ℕ) → IsNumber (fl.lit m k)

-- Rounding is monotone, `min` and `max` drop a NaN operand, and a cast to `u64` rounds down.
pub record IsRounded {ℓ} (F : Type ℓ) ⦃fl : F64 F⦄ : Type ℓ where
  pub min-le_right : (x y : F) → IsNumber y → fl.fmin x y ≼ y
  pub min-ge : (l x y : F) → l ≼ x → l ≼ y → l ≼ fl.fmin x y
  pub max-ge_right : (x y : F) → IsNumber y → y ≼ fl.fmax x y
  pub max_finite : (x y : F) → IsFinite x → IsFinite y → IsFinite (fl.fmax x y)
  pub one_finite : IsFinite {F = F} one_f
  pub number_of_finite : (x : F) → IsFinite x → IsNumber x
  pub zero_le_one : ◌≼◌ {F = F} zero_f one_f
  pub finite_between : (x y : F) → zero_f ≼ x → x ≼ y → IsFinite y → IsFinite x
  pub add_nonneg : (x y : F) → zero_f ≼ x → zero_f ≼ y → zero_f ≼ fl.add x y
  pub mul_nonneg :
      (x y : F) → IsFinite x → IsFinite y → zero_f ≼ x → zero_f ≼ y → zero_f ≼ fl.mul x y
  pub sub_nonneg : (x y : F) → IsFinite x → y ≼ x → zero_f ≼ fl.sub x y
  pub sub-le : (x y : F) → IsFinite x → zero_f ≼ y → y ≼ x → fl.sub x y ≼ x
  pub secs_nonneg : (n : ℕ) → zero_f ≼ fl.secs n
  pub secs_finite : (n : ℕ) → IsFinite (fl.secs n)
  pub of_nat_nonneg : (n : ℕ) → zero_f ≼ fl.of_nat n
  pub of_nat_mono : (m n : ℕ) → m ≤ n → fl.of_nat m ≼ fl.of_nat n
  pub of_nat-to_u64-le : (x : F) → zero_f ≼ x → fl.of_nat (fl.to_u64 (fl.floor x)) ≼ x

-- What is exact: a product by 1, and integers up to 2^53.
pub record IsExact {ℓ} (F : Type ℓ) ⦃fl : F64 F⦄ : Type ℓ where
  pub mul_one : (x : F) → IsNumber x → fl.mul x (fl.lit 1 0) ≡ x
  pub round-of_nat : (n : ℕ) → n ≤ 2 ^ 53 → fl.round (fl.of_nat n) ≡ fl.of_nat n
  pub of_nat_number : (n : ℕ) → IsNumber (fl.of_nat n)
  pub to_u64-of_nat : (n : ℕ) → n ≤ 2 ^ 53 → fl.to_u64 (fl.of_nat n) ≡ n
