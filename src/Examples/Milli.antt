-- ===== src/Examples/Milli.antt =====
-- A model of the floats' interface that has all the laws: fixed-point numbers, zero and up, in
-- thousandths.
use incident_bench.Base.{
  ℕ, ◌+◌, ◌-◌, ◌*◌, ◌/◌, ◌^◌, ◌≤◌, min, max, pos, max_zero, ◌≡◌, refl, true, leb, ltb, arith, F64,
  IsOrdered, IsRounded, IsExact,
}

pub record Milli : Type 0 where
  pub thousandths : ℕ

instance abbrev pub milli : F64 Milli
milli = record {
  le = λ x y. leb x.thousandths y.thousandths;
  lt = λ x y. ltb x.thousandths y.thousandths;
  add = λ x y. record { thousandths = x.thousandths + y.thousandths };
  sub = λ x y. record { thousandths = x.thousandths - y.thousandths };
  mul = λ x y. record { thousandths = x.thousandths * y.thousandths / 1000 };
  div = λ x y. record { thousandths = x.thousandths * 1000 / y.thousandths };
  fmin = λ x y. record { thousandths = min x.thousandths y.thousandths };
  fmax = λ x y. record { thousandths = max x.thousandths y.thousandths };
  floor = λ x. record { thousandths = x.thousandths / 1000 * 1000 };
  round = λ x. record { thousandths = (x.thousandths + 500) / 1000 * 1000 };
  abs = λ x. x;
  lit = λ m k. record { thousandths = m * 1000 / 10 ^ k };
  lowest = record { thousandths = 0 };
  of_nat = λ n. record { thousandths = n * 1000 };
  of_int = λ n. record { thousandths = max_zero n * 1000 };
  to_u64 = λ x. min (x.thousandths / 1000) (2 ^ 64 - 1);
  to_i64 = λ x. pos (min (x.thousandths / 1000) (2 ^ 63 - 1));
  secs = λ n. record { thousandths = n / 1_000_000 };
  is_finite = λ _. true;
}

pub leb_refl : (a : ℕ) → leb a a ≡ true
leb_refl a = ground arith

pub milli-IsOrdered : IsOrdered Milli
milli-IsOrdered = record {
  le_trans = λ x y z h k. ground arith;
  le_total = λ x y h k. ground arith;
  number_of_le = λ x y h. (leb_refl x.thousandths, leb_refl y.thousandths);
  lt-eq-not-le = λ x y h k. ground arith;
  lit_number = λ m k. leb_refl (m * 1000 / 10 ^ k);
}

pub milli-IsRounded : IsRounded Milli
milli-IsRounded = record {
  min-le_right = λ x y h. ground arith;
  min-ge = λ l x y h k. ground arith;
  max-ge_right = λ x y h. ground arith;
  max_finite = λ x y h k. refl;
  one_finite = refl;
  number_of_finite = λ x h. leb_refl x.thousandths;
  zero_le_one = refl;
  finite_between = λ x y h k f. refl;
  add_nonneg = λ x y h k. ground arith;
  mul_nonneg = λ x y f g h k. ground arith;
  sub_nonneg = λ x y f h. ground arith;
  sub-le = λ x y f h k. ground arith;
  secs_nonneg = λ n. ground arith;
  secs_finite = λ n. refl;
  of_nat_nonneg = λ n. ground arith;
  of_nat_mono = λ m n h. ground arith;
  of_nat-to_u64-le = λ x h. ground arith;
}

pub to_u64-exact : (n : ℕ) → n ≤ 2 ^ 53 → min (n * 1000 / 1000) (2 ^ 64 - 1) ≡ n
to_u64-exact n h = omega arith

pub thousandths-eq :
    {a b : ℕ} → a ≡ b → ◌≡◌ {A = Milli} (record { thousandths = a }) (record { thousandths = b })
thousandths-eq e i = record { thousandths = e i }

pub milli-IsExact : IsExact Milli
milli-IsExact = record {
  mul_one = λ x h. thousandths-eq (omega arith);
  round-of_nat = λ n h. thousandths-eq (omega arith);
  of_nat_number = λ n. leb_refl (n * 1000);
  to_u64-of_nat = to_u64-exact;
}
