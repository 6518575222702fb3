-- ===== src/Decimal/Product.antt =====
-- `*` of decimals, against the product of their values.
use kaiu.Base.{
  ℕ, zero, suc, ◌+◌, ◌-◌, ◌*◌, ◌/◌, ◌<◌, ◌≤◌, ◌≡◌, refl, ap, ◌∙◌, inl, inr, true, [], ◌∷◌, ◌++◌,
  ◌==◌, if◌then◌else◌, length, replicate, arith, leb, Bool-cases,
}
use native.Mathlib.Nat.{mul-le-mul}
use kaiu.Decimal.Digits.{Decimal, is_zero, is_unity, resize, zero_decimal}
use kaiu.Decimal.Arithmetic.{row_loop, row, multiply_loop, multiply_ordered, multiply, add}
use kaiu.Decimal.Value.{
  value, scale, Valid, Good, is_zero-value, is_unity-value, remove_lz-Good, value-append,
  Valid-append,
}
use kaiu.Decimal.Sum.{add-value, add-Valid}

abbrev closed : Decimal × ℕ → Decimal
closed (ds, carry) = if carry == 0 then ds else ds ++ (carry ∷ [])

abbrev cons : ℕ → Decimal × ℕ → Decimal × ℕ
cons d (ds, carry) = (d ∷ ds, carry)

closed-cons : (d : ℕ) (r : Decimal × ℕ) → closed (cons d r) ≡ d ∷ closed r
closed-cons d (ds, carry) = elim (Bool-cases (carry == 0)) [ inl e ↦ rw e refl | inr e ↦ rw e refl ]

closed-none :
    (carry : ℕ) → carry < 10 → (value (closed ([], carry)) ≡ carry) × Valid (closed ([], carry))
closed-none carry h = elim (Bool-cases (carry == 0)) [
  | inl e ↦ rw e (ground arith, tt)
  | inr e ↦ rw e (omega arith, (h, tt))
]

product-small : (m n : ℕ) → m < 10 → n < 10 → m * n ≤ 81
product-small m n h k =
    omega (arith, mul-le-mul {n₁ = m} {m₁ = n} {n₂ = 9} {m₂ = 9} (omega arith) (omega arith))

row_loop-lem :
    (ad : ℕ) (b : Decimal) (carry : ℕ)
    → ad < 10
    → carry < 10
    → Valid b
    → (value (closed (row_loop ad b carry)) ≡ value b * ad + carry)
      × Valid (closed (row_loop ad b carry))
row_loop-lem ad [] carry h k v = let r = closed-none carry k in (omega (arith, r.0), r.1)
row_loop-lem ad (d ∷ b) carry h k v =
    let n = d * ad + carry in
    let r = row_loop-lem ad b (n / 10) h (omega (arith, k, product-small d ad v.0 h)) v.1 in
    rw (closed-cons (n - (n / 10) * 10) (row_loop ad b (n / 10)))
      (omega (arith, r.0), (omega arith, r.1))

zeros-value : (i : ℕ) → value (replicate i 0) ≡ 0
zeros-value zero = refl
zeros-value (suc i) = omega (arith, zeros-value i)

zeros-Valid : (i : ℕ) → Valid (replicate i 0)
zeros-Valid zero = tt
zeros-Valid (suc i) = (omega arith, zeros-Valid i)

zeros-length : (i : ℕ) → length {A = ℕ} (replicate i 0) ≡ i
zeros-length zero = refl
zeros-length (suc i) = ap suc (zeros-length i)

row-value :
    (i ad : ℕ) (b : Decimal) → ad < 10 → Valid b → value (row i ad b) ≡ scale i * (value b * ad)
row-value i ad b h v =
    value-append (replicate i 0) (closed (row_loop ad b 0))
    ∙ rw (zeros-value i, zeros-length i, (row_loop-lem ad b 0 h (omega arith) v).0) (omega arith)

row-Valid : (i ad : ℕ) (b : Decimal) → ad < 10 → Valid b → Valid (row i ad b)
row-Valid i ad b h v =
    Valid-append (replicate i 0) _ (zeros-Valid i) ((row_loop-lem ad b 0 h (omega arith) v).1)

is_none : (n : ℕ) → (n == 0) ≡ true → n ≡ 0
is_none n e = ground arith

pub skip-lem :
    (ad i : ℕ) (b c : Decimal)
    → ad < 10
    → Valid b
    → Valid c
    → (value (if ad == 0 then c else add c (row i ad b)) ≡ value c + scale i * (value b * ad))
      × Valid (if ad == 0 then c else add c (row i ad b))
skip-lem ad i b c h v u = elim (Bool-cases (ad == 0)) [
  | inl e ↦ rw e (omega (arith, ap (λ n. scale i * (value b * n)) (is_none ad e)), u)
  | inr e ↦ rw e (
    add-value c (row i ad b) ∙ ap (λ n. value c + n) (row-value i ad b h v),
    add-Valid c (row i ad b) u (row-Valid i ad b h v),
  )
]

pub multiply_loop-lem :
    (a b c : Decimal) (i : ℕ)
    → Valid a
    → Valid b
    → Valid c
    → (value (multiply_loop i a b c) ≡ value c + scale i * (value a * value b))
      × Valid (multiply_loop i a b c)
multiply_loop-lem [] b c i u v w = (omega arith, w)
multiply_loop-lem (ad ∷ a) b c i u v w =
    let k = skip-lem ad i b c u.0 v w in
    let r = multiply_loop-lem a b (if ad == 0 then c else add c (row i ad b)) (suc i) u.1 v k.1 in
    (r.0 ∙ (rw k.0 (omega arith)), r.1)

empty-value : (n : ℕ) → value (resize n []) ≡ 0
empty-value zero = refl
empty-value (suc n) = omega (arith, empty-value n)

empty-Valid : (n : ℕ) → Valid (resize n [])
empty-Valid zero = tt
empty-Valid (suc n) = (omega arith, empty-Valid n)

pub cleared-value : (n : ℕ) → value (resize n zero_decimal) ≡ 0
cleared-value zero = refl
cleared-value (suc n) = omega (arith, empty-value n)

pub cleared-Valid : (n : ℕ) → Valid (resize n zero_decimal)
cleared-Valid zero = tt
cleared-Valid (suc n) = (omega arith, empty-Valid n)

ordered-lem :
    (a b : Decimal)
    → Valid a
    → Good b
    → (value (multiply_ordered a b) ≡ value a * value b) × Good (multiply_ordered a b)
unfolding multiply_ordered
ordered-lem a b u g = elim (Bool-cases (is_zero a)) [
  | inl e ↦ rw e (
    omega (arith, ap (λ n. n * value b) (is_zero-value a e)),
    record { valid = (omega arith, tt); trimmed = inl refl },
  )
  | inr e ↦ elim (Bool-cases (is_unity a)) [
    | inl k ↦ rw (e, k) (omega (arith, ap (λ n. n * value b) (is_unity-value a k)), g)
    | inr k ↦
        let c = resize (length a + length b) zero_decimal in
        let l = multiply_loop-lem a b c 0 u g.valid (cleared-Valid (length a + length b)) in
        let r = remove_lz-Good (multiply_loop 0 a b c) l.1 in
        rw (e, k) (r.0 ∙ l.0 ∙ (omega (arith, cleared-value (length a + length b))), r.1)
  ]
]

-- `*` on decimals without leading zeros gives the product of their values, again without leading
-- zeros and in valid digits.
pub multiply-lem :
    (a b : Decimal)
    → Good a
    → Good b
    → (value (multiply a b) ≡ value a * value b) × Good (multiply a b)
unfolding multiply
multiply-lem a b g h = elim (Bool-cases (leb (length a) (length b))) [
  | inl e ↦ rw e (ordered-lem a b g.valid h)
  | inr e ↦ rw e (let r = ordered-lem b a h.valid g in (omega (arith, r.0), r.1))
]
