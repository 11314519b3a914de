-- ===== src/Metrics/Sorting.antt =====
-- The stable sort by a floating-point key: its result is in order and keeps the elements.
use incident_bench.Base.{
  suc, ◌≡◌, refl, ap, ◌∙◌, true, false, List, [], ◌∷◌, All, arith, length, Bool-cases, inl, inr,
  F64, ◌≼◌, IsNumber, IsOrdered,
}
use incident_bench.Metrics.{insert_by, sort_by}

module _ {ℓ κ} {F : Type ℓ} {A : Type κ} ⦃fl : F64 F⦄ (key : A → F) where
  abbrev pub Below : F → List A → Type 0
  Below x ys = All (λ y. x ≼ key y) ys

  abbrev pub Sorted : List A → Type 0
  Sorted [] = Unit
  Sorted (x ∷ xs) = Below (key x) xs × Sorted xs

  abbrev pub Numbers : List A → Type 0
  Numbers xs = All (λ x. IsNumber (key x)) xs

  pub All-insert_by {μ} :
      (P : A → Type μ) (x : A) (ys : List A) → P x → All P ys → All P (insert_by key x ys)
  unfolding insert_by
  All-insert_by P x [] p h = (p, tt)
  All-insert_by P x (y ∷ ys) p h = elim (Bool-cases (fl.lt (key y) (key x))) [
    | inl e ↦ rw e (h.0, All-insert_by P x ys p h.1)
    | inr e ↦ rw e (p, h)
  ]

  pub All-sort_by {μ} : (P : A → Type μ) (xs : List A) → All P xs → All P (sort_by key xs)
  unfolding sort_by
  All-sort_by P [] h = tt
  All-sort_by P (x ∷ xs) h = All-insert_by P x (sort_by key xs) h.0 (All-sort_by P xs h.1)

  length-insert_by : (x : A) (ys : List A) → length (insert_by key x ys) ≡ suc (length ys)
  unfolding insert_by
  length-insert_by x [] = refl
  length-insert_by x (y ∷ ys) = ground (arith, length-insert_by x ys)

  pub length-sort_by : (xs : List A) → length (sort_by key xs) ≡ length xs
  unfolding sort_by
  length-sort_by [] = refl
  length-sort_by (x ∷ xs) = length-insert_by x (sort_by key xs) ∙ ap suc (length-sort_by xs)

  module _ (order : IsOrdered F) where
    Below-trans : (x y : F) (zs : List A) → x ≼ y → Below y zs → Below x zs
    Below-trans x y [] h b = tt
    Below-trans x y (z ∷ zs) h b = (order.le_trans x y (key z) h b.0, Below-trans x y zs h b.1)

    lt-le : (x y : F) → IsNumber x → IsNumber y → fl.lt x y ≡ true → x ≼ y
    lt-le x y h k l = elim (order.le_total x y h k) [
      | inl e ↦ e
      | inr e ↦ absurd (let c = order.lt-eq-not-le x y h k in ground arith)
    ]

    not_lt-le : (x y : F) → IsNumber x → IsNumber y → fl.lt y x ≡ false → x ≼ y
    not_lt-le x y h k l = let c = order.lt-eq-not-le y x k h in ground arith

    insert_by-Sorted :
        (x : A) (ys : List A)
        → IsNumber (key x)
        → Numbers ys
        → Sorted ys
        → Sorted (insert_by key x ys)
    unfolding insert_by
    insert_by-Sorted x [] n h s = (tt, tt)
    insert_by-Sorted x (y ∷ ys) n h s = elim (Bool-cases (fl.lt (key y) (key x))) [
      | inl e ↦ rw e (
        All-insert_by (λ z. key y ≼ key z) x ys (lt-le (key y) (key x) h.0 n e) s.0,
        insert_by-Sorted x ys n h.1 s.1,
      )
      | inr e ↦
          let le = not_lt-le (key x) (key y) n h.0 e in
          rw e ((le, Below-trans (key x) (key y) ys le s.0), s)
    ]

    pub sort_by-Sorted : (xs : List A) → Numbers xs → Sorted (sort_by key xs)
    unfolding sort_by
    sort_by-Sorted [] h = tt
    sort_by-Sorted (x ∷ xs) h =
        insert_by-Sorted x (sort_by key xs) h.0 (All-sort_by (λ y. IsNumber (key y)) xs h.1)
          (sort_by-Sorted xs h.1)
