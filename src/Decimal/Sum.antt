-- ===== src/Decimal/Sum.antt =====
-- `+=` and `++` of decimals, against the sum of their values.
use kaiu.Base.{
  ℕ, zero, suc, ◌+◌, ◌-◌, ◌*◌, ◌<◌, ◌≤◌, ◌≡◌, refl, ap, ◌∙◌, inl, inr, Bool, true, false, [], ◌∷◌,
  ◌++◌, if◌then◌else◌, length, arith, leb, ltb, Bool-cases,
}
use kaiu.Decimal.Digits.{Decimal, head, tail, is_zero}
use kaiu.Decimal.Arithmetic.{add_loop, add, bit, max}
use kaiu.Decimal.Value.{
  bit-small, value, Valid, Top, Trimmed, Good, Top-cons, value-head, head-small, Valid-tail,
  length-tail, is_zero-value, Trimmed-Top,
}

-- The digits of a sum, its last carry included.
abbrev pub close : Decimal × Bool → Decimal
close (ds, true) = ds ++ (1 ∷ [])
close (ds, false) = ds

abbrev cons : ℕ → Decimal × Bool → Decimal × Bool
cons d (ds, carry) = (d ∷ ds, carry)

close-cons : (d : ℕ) (r : Decimal × Bool) → close (cons d r) ≡ d ∷ close r
close-cons d (ds, true) = refl
close-cons d (ds, false) = refl

-- One digit of a sum and its carry.
abbrev digit : ℕ → Bool → ℕ
digit d carry = if carry then d - 10 else d

module _ (d : ℕ) where
  digit-sum : digit d (leb 10 d) + 10 * bit (leb 10 d) ≡ d
  digit-sum = ground arith

  digit-small : d < 20 → digit d (leb 10 d) < 10
  digit-small h = ground arith

step :
    (w : ℕ) (a b : Decimal) (c : Bool)
    → close (add_loop (suc w) a b c)
      ≡ digit (head a + head b + bit c) (leb 10 (head a + head b + bit c))
        ∷ close (add_loop w (tail a) (tail b) (leb 10 (head a + head b + bit c)))
step w a b c = close-cons _ (add_loop w (tail a) (tail b) (leb 10 (head a + head b + bit c)))

pub add_loop-value :
    (w : ℕ) (a b : Decimal) (c : Bool)
    → length a ≤ w
    → length b ≤ w
    → value (close (add_loop w a b c)) ≡ value a + value b + bit c
add_loop-value zero [] [] true h k = refl
add_loop-value zero [] [] false h k = refl
add_loop-value zero (x ∷ a) b c h k = absurd (omega (arith, h))
add_loop-value zero [] (y ∷ b) c h k = absurd (omega (arith, k))
add_loop-value (suc w) a b c h k =
    let d = head a + head b + bit c in
    rw (step w a b c) (
      omega (
        arith,
        value-head a,
        value-head b,
        digit-sum d,
        add_loop-value w (tail a) (tail b) (leb 10 d) (length-tail a w h) (length-tail b w k),
      ))

pub add_loop-Valid :
    (w : ℕ) (a b : Decimal) (c : Bool) → Valid a → Valid b → Valid (close (add_loop w a b c))
add_loop-Valid zero a b true u v = (omega arith, tt)
add_loop-Valid zero a b false u v = tt
add_loop-Valid (suc w) a b c u v =
    let d = head a + head b + bit c in
    rw (step w a b c) (
      digit-small d (omega (arith, head-small a u, head-small b v, bit-small c)),
      add_loop-Valid w (tail a) (tail b) (leb 10 d) (Valid-tail a u) (Valid-tail b v),
    )

add_loop_comm : (w : ℕ) (a b : Decimal) (c : Bool) → add_loop w a b c ≡ add_loop w b a c
add_loop_comm zero a b c = refl
add_loop_comm (suc w) a b c =
    ap
      (λ n.
        cons (digit (n + bit c) (leb 10 (n + bit c)))
          (add_loop w (tail a) (tail b) (leb 10 (n + bit c))))
      (omega arith)
    ∙ ap (cons (digit (head b + head a + bit c) (leb 10 (head b + head a + bit c))))
        (add_loop_comm w (tail a) (tail b) _)

-- The sum does not start with 0 if the longer number does not.
add_loop-Top :
    (w : ℕ) (a b : Decimal) (c : Bool) → Top a → length a ≡ w → Top (close (add_loop w a b c))
add_loop-Top zero [] b c t e = absurd t
add_loop-Top zero (d ∷ a) b c t e = absurd (omega (arith, e))
add_loop-Top (suc w) [] b c t e = absurd t
add_loop-Top (suc zero) (d ∷ []) b c t e = last (d + head b + bit c) (omega (arith, t))
  where
    last : (n : ℕ) → 0 < n → Top (close (cons (digit n (leb 10 n)) ([], leb 10 n)))
    last n h = ground arith
add_loop-Top (suc (suc w)) (d ∷ []) b c t e = absurd (omega (arith, e))
add_loop-Top (suc zero) (d ∷ e' ∷ a) b c t e = absurd (omega (arith, e))
add_loop-Top (suc (suc w)) (d ∷ e' ∷ a) b c t e = rw (step (suc w) (d ∷ e' ∷ a) b c) (
    let carry = leb 10 (d + head b + bit c) in
    Top-cons (digit (d + head b + bit c) carry) (close (add_loop (suc w) (e' ∷ a) (tail b) carry))
      (add_loop-Top (suc w) (e' ∷ a) (tail b) carry t (omega (arith, e))))

abbrev wide : Decimal → Decimal → Decimal
wide a b = close (add_loop (max (length a) (length b)) a b false)

wide-Top : (a b : Decimal) → Top a → Top b → Top (wide a b)
wide-Top a b s t = elim (Bool-cases (ltb (length a) (length b))) [
  | inl h ↦
      rw h (rw (add_loop_comm (length b) a b false) (add_loop-Top (length b) b a false t refl))
  | inr h ↦ rw h (add_loop-Top (length a) a b false s refl)
]

close-if : (r : Decimal × Bool) → (if r.1 then r.0 ++ (1 ∷ []) else r.0) ≡ close r
close-if (ds, true) = refl
close-if (ds, false) = refl

-- The three ways through `+=`.
add-elim :
    (P : Decimal → Type 0) (a b : Decimal)
    → (is_zero a ≡ true → P b)
    → (is_zero a ≡ false → is_zero b ≡ true → P a)
    → (is_zero a ≡ false → is_zero b ≡ false → P (wide a b))
    → P (add a b)
unfolding add
add-elim P a b f g h = elim (Bool-cases (is_zero a)) [
  | inl e ↦ rw e (f e)
  | inr e ↦ elim (Bool-cases (is_zero b)) [
    | inl k ↦ rw (e, k) (g e k)
    | inr k ↦ rw (e, k) (rw (close-if (add_loop (max (length a) (length b)) a b false)) (h e k))
  ]
]

max-left : (m n : ℕ) → m ≤ max m n
max-left m n = ground arith

max-right : (m n : ℕ) → n ≤ max m n
max-right m n = ground arith

pub add-value : (a b : Decimal) → value (add a b) ≡ value a + value b
add-value a b =
    add-elim (λ c. value c ≡ value a + value b) a b (λ h. omega (arith, is_zero-value a h))
      (λ h k. omega (arith, is_zero-value b k))
      (λ h k.
        add_loop-value (max (length a) (length b)) a b false (max-left (length a) (length b))
          (max-right (length a) (length b))
        ∙ (omega arith))

pub add-Valid : (a b : Decimal) → Valid a → Valid b → Valid (add a b)
add-Valid a b u v =
    add-elim Valid a b (λ h. v) (λ h k. u)
      (λ h k. add_loop-Valid (max (length a) (length b)) a b false u v)

add-Trimmed : (a b : Decimal) → Trimmed a → Trimmed b → Trimmed (add a b)
add-Trimmed a b s t =
    add-elim Trimmed a b (λ h. t) (λ h k. s)
      (λ h k. inr (wide-Top a b (Trimmed-Top a s h) (Trimmed-Top b t k)))

-- `+=` on decimals without leading zeros gives the sum of their values, again without leading
-- zeros and in valid digits.
pub add-lem :
    (a b : Decimal) → Good a → Good b → (value (add a b) ≡ value a + value b) × Good (add a b)
add-lem a b g h = (
  add-value a b,
  record { valid = add-Valid a b g.valid h.valid; trimmed = add-Trimmed a b g.trimmed h.trimmed },
)
