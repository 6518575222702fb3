-- ===== src/Decimal/Difference.antt =====
-- `-=` and `--` of decimals, against the difference of their values.
use kaiu.Base.{
  ℕ, zero, suc, ◌+◌, ◌-◌, ◌*◌, ◌<◌, ◌≤◌, ◌≡◌, refl, ap, inl, inr, Bool, true, false, [], ◌∷◌,
  if◌then◌else◌, length, arith, ltb, Bool-cases,
}
use kaiu.Base.Action.{done, thrown}
use kaiu.Decimal.Digits.{Decimal, head, tail, is_zero, remove_lz}
use kaiu.Decimal.Arithmetic.{subtract_loop, subtract, bit, underflow}
use kaiu.Decimal.Value.{
  bit-small, value, scale, Valid, Good, value-head, head-small, Valid-tail, length-tail,
  is_zero-value, Trimmed-Top, remove_lz-Good, value-small, value-Top, scale-le,
}

-- One digit of a difference, where `n` is subtracted from the digit `h`.
abbrev digit : ℕ → ℕ → ℕ
digit h n = (if ltb h n then 10 + h else h) - n

module _ (h n : ℕ) where
  digit-difference : n ≤ 10 → digit h n + n ≡ h + 10 * bit (ltb h n)
  digit-difference k = ground arith

  digit-small : h < 10 → digit h n < 10
  digit-small k = ground arith

scale-bit : (w : ℕ) (c : Bool) → scale (suc w) * bit c ≡ 10 * (scale w * bit c)
scale-bit w c = omega arith

loop-value :
    (w : ℕ) (a b : Decimal) (c : Bool)
    → Valid b
    → length a ≤ w
    → length b ≤ w
    → value ((subtract_loop w a b c).0) + value b + bit c
      ≡ value a + scale w * bit ((subtract_loop w a b c).1)
loop-value zero [] [] c v h k = omega arith
loop-value zero (x ∷ a) b c v h k = absurd (omega (arith, h))
loop-value zero [] (y ∷ b) c v h k = absurd (omega (arith, k))
loop-value (suc w) a b c v h k =
    let c' = ltb (head a) (head b + bit c) in
    omega (
      arith,
      value-head a,
      value-head b,
      digit-difference (head a) (head b + bit c) (omega (arith, head-small b v, bit-small c)),
      loop-value w (tail a) (tail b) c' (Valid-tail b v) (length-tail a w h) (length-tail b w k),
      scale-bit w ((subtract_loop w (tail a) (tail b) c').1),
    )

loop-Valid : (w : ℕ) (a b : Decimal) (c : Bool) → Valid a → Valid ((subtract_loop w a b c).0)
loop-Valid zero a b c v = tt
loop-Valid (suc w) a b c v = (
  digit-small (head a) (head b + bit c) (head-small a v),
  loop-Valid w (tail a) (tail b) (ltb (head a) (head b + bit c)) (Valid-tail a v),
)

loop-length : (w : ℕ) (a b : Decimal) (c : Bool) → length ((subtract_loop w a b c).0) ≡ w
loop-length zero a b c = refl
loop-length (suc w) a b c = ap suc (loop-length w (tail a) (tail b) (ltb (head a) (head b + bit c)))

module _ (a b : Decimal) where
  abbrev loop : Decimal × Bool
  loop = subtract_loop (length a) a b false

  subtract-by_zero : is_zero b ≡ true → subtract a b ≡ done tt a
  unfolding subtract
  subtract-by_zero h = rw h

  subtract-short :
      is_zero b ≡ false → ltb (length a) (length b) ≡ true → subtract a b ≡ thrown underflow a
  unfolding subtract
  subtract-short h k = rw (h, k)

  subtract-borrow :
      is_zero b ≡ false
      → ltb (length a) (length b) ≡ false
      → loop.1 ≡ true
      → subtract a b ≡ thrown underflow loop.0
  unfolding subtract
  subtract-borrow h k e = rw (h, k, e)

  subtract-eq :
      is_zero b ≡ false
      → ltb (length a) (length b) ≡ false
      → loop.1 ≡ false
      → subtract a b ≡ done tt (remove_lz loop.0)
  unfolding subtract
  subtract-eq h k e = rw (h, k, e)

  module _ (g : Good a) (h : Good b) where
    not_longer : ltb (length a) (length b) ≡ false → length b ≤ length a
    not_longer k = ground arith

    balance :
        ltb (length a) (length b) ≡ false
        → value loop.0 + value b ≡ value a + scale (length a) * bit loop.1
    balance k = omega (arith, loop-value (length a) a b false h.valid (omega arith) (not_longer k))

    no_borrow :
        ltb (length a) (length b) ≡ false → loop.1 ≡ false → value loop.0 + value b ≡ value a
    no_borrow k e = omega (arith, balance k, ap (λ c. scale (length a) * bit c) e)

    borrowed : ltb (length a) (length b) ≡ false → loop.1 ≡ true → value a < value b
    borrowed k e = omega (
      arith,
      balance k,
      ap (λ c. scale (length a) * bit c) e,
      value-small loop.0 (loop-Valid (length a) a b false g.valid),
      ap scale (loop-length (length a) a b false),
    )

    shorter : is_zero b ≡ false → ltb (length a) (length b) ≡ true → value a < value b
    shorter z k = omega (
      arith,
      value-small a g.valid,
      value-Top b (Trimmed-Top b h.trimmed z),
      scale-le (suc (length a)) (length b) (ground arith),
    )

    -- `-=` on decimals without leading zeros of which the second is not greater gives the
    -- difference of their values, again without leading zeros and in valid digits.
    pub subtract-lem :
        value b ≤ value a
        → (c : Decimal) × (subtract a b ≡ done tt c) × (value c + value b ≡ value a) × Good c
    subtract-lem l = elim (Bool-cases (is_zero b)) [
      | inl z ↦ (a, subtract-by_zero z, omega (arith, is_zero-value b z), g)
      | inr z ↦ elim (Bool-cases (ltb (length a) (length b))) [
        | inl k ↦ absurd (omega (arith, l, shorter z k))
        | inr k ↦ elim (Bool-cases loop.1) [
          | inl e ↦ absurd (omega (arith, l, borrowed k e))
          | inr e ↦
              let r = remove_lz-Good loop.0 (loop-Valid (length a) a b false g.valid) in
              (remove_lz loop.0, subtract-eq z k e, omega (arith, r.0, no_borrow k e), r.1)
        ]
      ]
    ]

    -- `-=` on decimals without leading zeros of which the second is greater throws an underflow
    -- error.
    pub subtract_underflows :
        value a < value b → (c : Decimal) × (subtract a b ≡ thrown underflow c)
    subtract_underflows l = elim (Bool-cases (is_zero b)) [
      | inl z ↦ absurd (omega (arith, l, is_zero-value b z))
      | inr z ↦ elim (Bool-cases (ltb (length a) (length b))) [
        | inl k ↦ (a, subtract-short z k)
        | inr k ↦ elim (Bool-cases loop.1) [
          | inl e ↦ (loop.0, subtract-borrow z k e)
          | inr e ↦ absurd (omega (arith, l, no_borrow k e))
        ]
      ]
    ]
