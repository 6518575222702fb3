-- ===== src/Decimal/Compare.antt =====
-- The comparisons of decimals, against those of their values.
use kaiu.Base.{
  ℕ, zero, suc, ◌+◌, ◌*◌, ◌<◌, ◌≤◌, ◌≡◌, refl, sym, ap, ◌∙◌, ◌⊎◌, inl, inr, true, false, [], ◌∷◌,
  ◌==◌, if◌then◌else◌, length, arith, ltb, Bool-cases,
}
use native.Mathlib.Nat.{mul-le-mul_left}
use kaiu.Decimal.Digits.{
  Decimal, at, tail, resize, equals, Relation, less, same, more, relation_loop, relation_to,
}
use kaiu.Decimal.Value.{
  value, scale, Valid, Top, Trimmed, Good, value-small, value-Top, scale-le, value-resize,
  Valid-resize, resize-length,
}

-- How two numbers compare.
abbrev pub order : ℕ → ℕ → Relation
order m n = if ltb n m then more else if ltb m n then less else same

order-more : (m n : ℕ) → n < m → order m n ≡ more
order-more m n h = ground arith

order-less : (m n : ℕ) → m < n → order m n ≡ less
order-less m n h = ground arith

order-shift : (m n k : ℕ) → order (m + k) (n + k) ≡ order m n
order-shift m n k = ground arith

length-resize : (i : ℕ) (a : Decimal) → length (resize i a) ≡ i
length-resize zero a = refl
length-resize (suc i) a = ap suc (length-resize i (tail a))

resize-small : (i : ℕ) (a : Decimal) → Valid a → value (resize i a) < scale i
resize-small i a v =
    omega (arith, value-small (resize i a) (Valid-resize i a v), ap scale (length-resize i a))

-- The digit at the place `i` decides, if the digits there differ.
decides : (s x y u v : ℕ) → u < s → x < y → u + s * x < v + s * y
decides s x y u v h k = omega (arith, mul-le-mul_left {m = suc x} {n = y} s (omega arith))

digits-cases :
    (x y : ℕ)
    → ((y < x) × (ltb y x ≡ true))
      ⊎ (((x < y) × (ltb y x ≡ false) × (ltb x y ≡ true))
          ⊎ ((x ≡ y) × (ltb y x ≡ false) × (ltb x y ≡ false)))
digits-cases x y = ground arith

relation_loop-lem :
    (i : ℕ) (a b : Decimal)
    → Valid a
    → Valid b
    → relation_loop i a b ≡ order (value (resize i a)) (value (resize i b))
relation_loop-lem zero a b u v = refl
relation_loop-lem (suc i) a b u v = elim (digits-cases (at a i) (at b i)) [
  | inl p ↦ rw p.1 (
      sym (
        rw (value-resize i a, value-resize i b)
          (order-more _ _ (decides (scale i) (at b i) (at a i) _ _ (resize-small i b v) p.0))))
  | inr (inl p) ↦
      rw (p.1, p.2)
        (sym (
          rw (value-resize i a, value-resize i b)
            (order-less _ _ (decides (scale i) (at a i) (at b i) _ _ (resize-small i a u) p.0))))
  | inr (inr p) ↦
      rw (p.1, p.2)
        (relation_loop-lem i a b u v
          ∙ sym (rw (value-resize i a, value-resize i b, p.0) (order-shift _ _ (scale i * at b i))))
]

Top-length : (a : Decimal) → Top a → 1 ≤ length a
Top-length [] t = absurd t
Top-length (d ∷ ds) t = omega arith

Trimmed-length : (a : Decimal) → Trimmed a → 1 ≤ length a
Trimmed-length a (inl e) = omega (arith, ap length e)
Trimmed-length a (inr t) = Top-length a t

longer : (a b : Decimal) → Good a → Good b → length b < length a → value b < value a
longer a b g h l = elim g.trimmed [
  | inl e ↦ absurd (omega (arith, l, ap length e, Trimmed-length b h.trimmed))
  | inr t ↦
      omega (arith, value-small b h.valid, value-Top a t, scale-le (suc (length b)) (length a) l)
]

-- `relation_to` on decimals without leading zeros compares their values.
pub relation_to-lem :
    (a b : Decimal) → Good a → Good b → relation_to a b ≡ order (value a) (value b)
unfolding relation_to
relation_to-lem a b g h = elim (digits-cases (length a) (length b)) [
  | inl p ↦ rw p.1 (sym (order-more _ _ (longer a b g h p.0)))
  | inr (inl p) ↦ rw (p.1, p.2) (sym (order-less _ _ (longer b a h g p.0)))
  | inr (inr p) ↦
      rw (p.1, p.2)
        (relation_loop-lem (length a) a b g.valid h.valid
          ∙ (rw (resize-length a, p.0, resize-length b) refl))
]

same_digits : (a b : Decimal) → Valid a → Valid b → length a ≡ length b → value a ≡ value b → a ≡ b
same_digits [] [] u v l e = refl
same_digits [] (d ∷ b) u v l e = absurd (omega (arith, l))
same_digits (d ∷ a) [] u v l e = absurd (omega (arith, l))
same_digits (c ∷ a) (d ∷ b) u v l e =
    ap (λ x. x ∷ a) (first c d (value a) (value b) u.0 v.0 e)
    ∙ ap (λ x. d ∷ x)
        (same_digits a b u.1 v.1 (omega (arith, l))
          (omega (arith, e, first c d (value a) (value b) u.0 v.0 e)))
  where
    first : (x y m n : ℕ) → x < 10 → y < 10 → x + 10 * m ≡ y + 10 * n → x ≡ y
    first x y m n h k q = omega (arith, h, k, q)

-- A number has one decimal without leading zeros.
pub value_unique : (a b : Decimal) → Good a → Good b → value a ≡ value b → a ≡ b
value_unique a b g h e = elim (digits-cases (length a) (length b)) [
  | inl p ↦ absurd (omega (arith, e, longer a b g h p.0))
  | inr (inl p) ↦ absurd (omega (arith, e, longer b a h g p.0))
  | inr (inr p) ↦ same_digits a b g.valid h.valid p.0 e
]

equals_refl : (a : Decimal) → equals a a ≡ true
equals_refl [] = refl
equals_refl (d ∷ a) = ground (arith, equals_refl a)

equals-value : (a b : Decimal) → equals a b ≡ true → value a ≡ value b
equals-value [] [] e = refl
equals-value [] (d ∷ b) e = absurd (cc)
equals-value (d ∷ a) [] e = absurd (cc)
equals-value (c ∷ a) (d ∷ b) e = elim (Bool-cases (equals a b)) [
  | inl k ↦ ground (arith, equals-value a b k)
  | inr k ↦ absurd (ground (arith, k))
]

test_eq : (m n : ℕ) → m ≡ n → (m == n) ≡ true
test_eq m n e = ground arith

test_ne : (m n : ℕ) → (m ≡ n → ⊥) → (m == n) ≡ false
test_ne m n e = ground arith

-- `==` on decimals without leading zeros, which compares digits, tells whether their values are
-- the same.
pub equals-lem : (a b : Decimal) → Good a → Good b → equals a b ≡ (value a == value b)
equals-lem a b g h = elim (Bool-cases (equals a b)) [
  | inl e ↦ e ∙ sym (test_eq (value a) (value b) (equals-value a b e))
  | inr e ↦ e ∙ sym (test_ne (value a) (value b) (λ q. different q e))
]
  where
    different : value a ≡ value b → equals a b ≡ false → ⊥
    different q e = cc (sym e ∙ ap (equals a) (sym (value_unique a b g h q)) ∙ equals_refl a)
