-- ===== src/Decimal/Factorial.antt =====
-- `operator !` of decimals, against the factorial of their values.
use kaiu.Base.{
  ℕ, zero, suc, ◌+◌, ◌*◌, ◌≤◌, ◌≡◌, refl, sym, ap, ◌∙◌, inl, inr, Bool, true, false, [], ◌∷◌,
  Option, some, none, length, arith, Bool-cases, if◌then◌else◌,
}
use kaiu.Base.Action.{done, thrown}
use kaiu.Decimal.Digits.{Decimal, is_zero, is_unity}
use kaiu.Decimal.Arithmetic.{decrement, multiply, factorial_loop, factorial}
use kaiu.Decimal.Value.{
  value, Good, Top, is_zero-value, is_unity-value, value-Top, Trimmed-Top, scale-pos,
}
use kaiu.Decimal.Difference.{subtract-lem}
use kaiu.Decimal.Product.{multiply-lem}

abbrev pub fact : ℕ → ℕ
fact zero = 1
fact (suc n) = suc n * fact n

one-Good : Good (1 ∷ [])
one-Good = record { valid = (omega arith, tt); trimmed = inr (omega arith) }

-- A decimal other than 0 and 1 is at least 2.
Top-large : (a : Decimal) → Top a → is_unity a ≡ false → 2 ≤ value a
Top-large [] t h = absurd t
Top-large (d ∷ []) t h = ground arith
Top-large (d ∷ e ∷ a) t h = omega (arith, value-Top (d ∷ e ∷ a) t, scale-pos (length a))

large : (a : Decimal) → Good a → is_zero a ≡ false → is_unity a ≡ false → 2 ≤ value a
large a g h k = Top-large a (Trimmed-Top a g.trimmed h) k

nonzero : (a : Decimal) → 1 ≤ value a → is_zero a ≡ false
nonzero a h = elim (Bool-cases (is_zero a)) [
  | inl e ↦ absurd (omega (arith, h, is_zero-value a e))
  | inr e ↦ e
]

-- `--` on a decimal that is not 0.
pub decrement-lem :
    (a : Decimal)
    → Good a
    → 1 ≤ value a
    → (c : Decimal) × (decrement a ≡ done tt c) × (value c + 1 ≡ value a) × Good c
unfolding decrement
decrement-lem a g h = subtract-lem a (1 ∷ []) g one-Good h

otherwise : (b : Bool) (x y : Option Decimal) → b ≡ false → (if b then x else y) ≡ y
otherwise b x y h = rw h

module _ (n : ℕ) (i r : Decimal) where
  loop-stop : is_unity i ≡ true → factorial_loop (suc n) i r ≡ some r
  unfolding factorial_loop
  loop-stop h = rw h

  loop-go :
      (c : Decimal)
      → is_unity i ≡ false
      → decrement i ≡ done tt c
      → factorial_loop (suc n) i r ≡ factorial_loop n c (multiply r i)
  unfolding factorial_loop
  loop-go c h k =
      otherwise (is_unity i) (some r)
        (elim (decrement i) [ done u i' ↦ factorial_loop n i' (multiply r i) | thrown e i' ↦ none ])
        h
      ∙ (rw k)

suc-value : (u v : ℕ) → u + 1 ≡ v → v ≡ suc u
suc-value u v e = omega (arith, e)

fact-suc : (u v : ℕ) → u + 1 ≡ v → fact v ≡ v * fact u
fact-suc u v e = ap fact (suc-value u v e) ∙ ap (λ x. x * fact u) (sym (suc-value u v e))

fact-step : (u v w : ℕ) → u + 1 ≡ v → w * v * fact u ≡ w * fact v
fact-step u v w e = omega (arith, ap (λ x. w * x) (fact-suc u v e))

factorial_loop-lem :
    (n : ℕ) (i r : Decimal)
    → Good i
    → Good r
    → 1 ≤ value i
    → value i ≤ n
    → (c : Decimal) × (factorial_loop n i r ≡ some c)
      × (value c ≡ value r * fact (value i))
      × Good c
factorial_loop-lem zero i r g h l m = absurd (omega (arith, l, m))
factorial_loop-lem (suc n) i r g h l m = elim (Bool-cases (is_unity i)) [
  | inl e ↦ (r, loop-stop n i r e, rw (is_unity-value i e) (omega arith), h)
  | inr e ↦
      let two = large i g (nonzero i l) e in
      let (i', d, v, k) = decrement-lem i g l in
      let p = multiply-lem r i h g in
      let (c, q, w, t) =
        factorial_loop-lem n i' (multiply r i) k p.1 (omega (arith, two, v))
          (omega (arith, m, v)) in
      (
        c,
        loop-go n i r i' e d ∙ q,
        w ∙ ap (λ x. x * fact (value i')) p.0 ∙ fact-step (value i') (value i) (value r) v,
        t,
      )
]

-- `!` on a decimal without leading zeros ends, in no more rounds than its value, and gives the
-- factorial of the value, again without leading zeros and in valid digits.
pub factorial-lem :
    (x : Decimal)
    → Good x
    → (c : Decimal) × (factorial (value x) x ≡ some c) × (value c ≡ fact (value x)) × Good c
unfolding factorial
factorial-lem x g = elim (Bool-cases (is_zero x)) [
  | inl e ↦ (1 ∷ [], rw e refl, rw (is_zero-value x e) refl, one-Good)
  | inr e ↦ elim (Bool-cases (is_unity x)) [
    | inl k ↦ (1 ∷ [], rw (e, k) refl, rw (is_unity-value x k) refl, one-Good)
    | inr k ↦
        let two = large x g e k in
        let (i, d, v, h) = decrement-lem x g (omega (arith, two)) in
        let (c, q, w, t) =
          factorial_loop-lem (value x) i x h g (omega (arith, two, v)) (omega (arith, v)) in
        (c, rw (e, k, d) q, w ∙ sym (fact-suc (value i) (value x) v), t)
  ]
]
