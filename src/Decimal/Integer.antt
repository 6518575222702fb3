-- ===== src/Decimal/Integer.antt =====
-- Decimals made from integers and turned into them.
use kaiu.Base.{
  zero-cases, ℕ, zero, suc, ◌+◌, ◌-◌, ◌*◌, ◌/◌, ◌%◌, ◌<◌, ◌≤◌, ◌≡◌, refl, sym, ap, ◌∙◌, inl, inr,
  ◌⊎◌, true, false, List, [], ◌∷◌, ◌++◌, ◌==◌, ltb, none, some, arith,
}
use mathlib.Core.List.{reverse, reverse-cons}
use kaiu.Decimal.Digits.{Decimal}
use kaiu.Decimal.Convert.{pos, digits_loop, from_int, int_loop, to_int}
use kaiu.Decimal.Value.{value, Valid, Top, Good, Top-cons, Valid-append}

loop-zero : (n val : ℕ) → (val == 0) ≡ true → digits_loop (suc n) val ≡ []
unfolding digits_loop
loop-zero n val h = rw h refl

loop-more :
    (n val : ℕ)
    → (val == 0) ≡ false
    → digits_loop (suc n) val ≡ (val % 10) ∷ digits_loop n (val / 10)
unfolding digits_loop
loop-more n val h = rw h refl

loop-none : (val : ℕ) → digits_loop zero val ≡ []
unfolding digits_loop
loop-none val = refl

loop-value : (n val : ℕ) → val ≤ n → value (digits_loop n val) ≡ val
loop-value zero val h = rw loop-none (omega arith)
loop-value (suc n) val h = elim (zero-cases val) [
  | inl p ↦ rw (loop-zero n val p.1) (sym p.0)
  | inr p ↦
      rw (loop-more n val p.1) (omega (arith, loop-value n (val / 10) (omega (arith, p.0, h))))
]

loop-Valid : (n val : ℕ) → Valid (digits_loop n val)
loop-Valid zero val = rw loop-none tt
loop-Valid (suc n) val = elim (zero-cases val) [
  | inl p ↦ rw (loop-zero n val p.1) tt
  | inr p ↦ rw (loop-more n val p.1) (omega arith, loop-Valid n (val / 10))
]

loop-Top : (n val : ℕ) → val ≤ n → 0 < val → Top (digits_loop n val)
loop-Top zero val h k = absurd (omega (arith, h, k))
loop-Top (suc n) val h k = elim (zero-cases val) [
  | inl p ↦ absurd (omega (arith, k, p.0))
  | inr p ↦ rw (loop-more n val p.1) (elim (zero-cases (val / 10)) [
    | inl q ↦ rw (last n (val / 10) q.1 q.0) (omega (arith, k, q.0))
    | inr q ↦
        Top-cons (val % 10) (digits_loop n (val / 10))
          (loop-Top n (val / 10) (omega (arith, h, k)) q.0)
  ])
]
  where
    last : (m w : ℕ) → (w == 0) ≡ true → w ≡ 0 → digits_loop m w ≡ []
    last zero w e z = loop-none w
    last (suc m) w e z = loop-zero m w e

abbrev pub horner : ℕ → List ℕ → ℕ
horner r [] = r
horner r (d ∷ ds) = horner (r * 10 + d) ds

horner-append : (xs ys : List ℕ) (r : ℕ) → horner r (xs ++ ys) ≡ horner (horner r xs) ys
horner-append [] ys r = refl
horner-append (x ∷ xs) ys r = horner-append xs ys (r * 10 + x)

horner-value : (a : Decimal) → horner 0 (reverse a) ≡ value a
horner-value [] = refl
horner-value (d ∷ a) =
    rw (reverse-cons d a, horner-append (reverse a) (d ∷ []) 0, horner-value a) (omega arith)

horner-grows : (ds : List ℕ) (r : ℕ) → r ≤ horner r ds
horner-grows [] r = omega arith
horner-grows (d ∷ ds) r = omega (arith, horner-grows ds (r * 10 + d))

module _ (max : ℕ) (h : 9 ≤ max) where
  int_loop-next :
      (d : ℕ) (ds : List ℕ) (r : ℕ)
      → d < 10
      → r * 10 + d ≤ max
      → int_loop max r (d ∷ ds) ≡ int_loop max (r * 10 + d) ds
  unfolding int_loop
  int_loop-next d ds r v k = rw (enough) refl
    where
      enough : ltb ((max - d) / 10) r ≡ false
      enough = ground arith

  int_loop-stop :
      (d : ℕ) (ds : List ℕ) (r : ℕ) → d < 10 → max < r * 10 + d → int_loop max r (d ∷ ds) ≡ none
  unfolding int_loop
  int_loop-stop d ds r v k = rw (too_much) refl
    where
      too_much : ltb ((max - d) / 10) r ≡ true
      too_much = ground arith

  int_loop-end : (r : ℕ) → int_loop max r [] ≡ some r
  unfolding int_loop
  int_loop-end r = refl

  int_loop-fits :
      (ds : List ℕ) (r : ℕ) → Valid ds → horner r ds ≤ max → int_loop max r ds ≡ some (horner r ds)
  int_loop-fits [] r v k = int_loop-end r
  int_loop-fits (d ∷ ds) r v k =
      int_loop-next d ds r v.0 (omega (arith, k, horner-grows ds (r * 10 + d)))
      ∙ int_loop-fits ds (r * 10 + d) v.1 k

  either : (m n : ℕ) → (m ≤ n) ⊎ (n < m)
  either m n = ground arith

  int_loop-over :
      (ds : List ℕ) (r : ℕ) → Valid ds → r ≤ max → max < horner r ds → int_loop max r ds ≡ none
  int_loop-over [] r v k l = absurd (omega (arith, k, l))
  int_loop-over (d ∷ ds) r v k l = elim (either (r * 10 + d) max) [
    | inl e ↦ int_loop-next d ds r v.0 e ∙ int_loop-over ds (r * 10 + d) v.1 e l
    | inr e ↦ int_loop-stop d ds r v.0 e
  ]

Valid-reverse : (a : Decimal) → Valid a → Valid (reverse a)
Valid-reverse [] v = tt
Valid-reverse (d ∷ a) v =
    rw (reverse-cons d a) (Valid-append (reverse a) (d ∷ []) (Valid-reverse a v.1) (v.0, tt))

module _ (max : ℕ) (h : 9 ≤ max) (a : Decimal) (v : Valid a) where
  -- A decimal of valid digits whose value a type can hold is turned into that value.
  pub to_int-value : value a ≤ max → to_int max a ≡ some (value a)
  unfolding to_int
  to_int-value k =
      int_loop-fits max h (reverse a) 0 (Valid-reverse a v) (omega (arith, k, horner-value a))
      ∙ ap some (horner-value a)

  -- A decimal of valid digits whose value a type cannot hold is refused as an overflow.
  pub to_int-overflow : max < value a → to_int max a ≡ none
  unfolding to_int
  to_int-overflow k =
      int_loop-over max h (reverse a) 0 (Valid-reverse a v) (omega arith)
        (omega (arith, k, horner-value a))

-- A decimal made from an integer that is not negative has its value, in valid digits and without
-- leading zeros.
pub from_int-value : (n : ℕ) → (a : Decimal) × (from_int (pos n) ≡ some a) × (value a ≡ n) × Good a
unfolding from_int
from_int-value n = elim (zero-cases n) [
  | inl p ↦ (0 ∷ [], rw p.1 refl, sym p.0, record { valid = (omega arith, tt); trimmed = inl refl })
  | inr p ↦ (
    digits_loop n n,
    rw p.1 refl,
    loop-value n n (omega arith),
    record { valid = loop-Valid n n; trimmed = inr (loop-Top n n (omega arith) p.0) },
  )
]

-- An integer that is not negative and that a type can hold is turned into a decimal and back
-- unchanged.
pub int_roundtrip :
    (max n : ℕ)
    → 9 ≤ max
    → n ≤ max
    → (a : Decimal) × (from_int (pos n) ≡ some a) × (to_int max a ≡ some n)
int_roundtrip max n h k =
    let (a, e, v, g) = from_int-value n in
    (a, e, to_int-value max h a g.valid (omega (arith, v, k)) ∙ ap some v)
