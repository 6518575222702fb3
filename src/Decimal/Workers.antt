-- ===== src/Decimal/Workers.antt =====
-- `parallel_multiply`, against the product of the values.
use kaiu.Base.{
  zero-cases, ℕ, zero, suc, ◌+◌, ◌-◌, ◌*◌, ◌/◌, ◌<◌, ◌≤◌, ◌≡◌, refl, ap, ◌∙◌, inl, inr, List, [],
  ◌∷◌, ◌==◌, if◌then◌else◌, leb, length, arith, Bool-cases,
}
use mathlib.Core.List.{Permᴰ}
use native.Mathlib.Nat.{le-div_iff_mul-le, div-mul-le_self, mul-div_cancel, zero-div}
use kaiu.Decimal.Digits.{Decimal, at, is_zero, is_unity, resize}
use kaiu.Decimal.Arithmetic.{add, row}
use kaiu.Decimal.Parallel.{
  partial_loop, partial_product, cleared, begin_of, collect, workers_for, parallel_ordered,
  parallel_multiply,
}
use kaiu.Decimal.Value.{
  value, Valid, Good, value-resize, resize-length, is_zero-value, is_unity-value, remove_lz-Good,
}
use kaiu.Decimal.Sum.{add-value, add-Valid}
use kaiu.Decimal.Product.{skip-lem, cleared-value, cleared-Valid, multiply-lem}

at-small : (a : Decimal) (i : ℕ) → Valid a → at a i < 10
at-small [] i v = omega arith
at-small (d ∷ a) zero v = v.0
at-small (d ∷ a) (suc i) v = at-small a i v.1

module _ (a b : Decimal) (u : Valid a) (v : Valid b) where
  loop-zero : (i : ℕ) (c : Decimal) → partial_loop zero i a b c ≡ c
  unfolding partial_loop
  loop-zero i c = refl

  abbrev next : ℕ → Decimal → Decimal
  next i c = if at a i == 0 then c else add c (row i (at a i) b)

  loop-suc :
      (n i : ℕ) (c : Decimal) → partial_loop (suc n) i a b c ≡ partial_loop n (suc i) a b (next i c)
  unfolding partial_loop
  loop-suc n i c = refl

  -- The loop adds the product of its digits of `a`, at their places, and `b`.
  partial_loop-lem :
      (n i j : ℕ) (c : Decimal)
      → j ≡ n + i
      → Valid c
      → (value (partial_loop n i a b c) + value (resize i a) * value b
          ≡ value c + value (resize j a) * value b)
        × Valid (partial_loop n i a b c)
  partial_loop-lem zero i j c e w =
      rw (loop-zero i c) (ap (λ n. value c + value (resize n a) * value b) (omega (arith, e)), w)
  partial_loop-lem (suc n) i j c e w =
      let k = skip-lem (at a i) i b c (at-small a i u) v w in
      let r = partial_loop-lem n (suc i) j (next i c) (omega (arith, e)) k.1 in
      rw (loop-suc n i c) (omega (arith, k.0, r.0, ap (λ n. n * value b) (value-resize i a)), r.1)

  partial_product-lem :
      (i j : ℕ)
      → i ≤ j
      → (value (partial_product i j a b) + value (resize i a) * value b
          ≡ value (resize j a) * value b)
        × Valid (partial_product i j a b)
  unfolding partial_product
  partial_product-lem i j h =
      let r =
        partial_loop-lem (j - i) i j (cleared a b) (omega (arith, h))
          (cleared-Valid (length a + length b)) in
      (omega (arith, r.0, cleared-value (length a + length b)), r.1)

div-grows : (x y k : ℕ) → 0 < k → x ≤ y → x / k ≤ y / k
div-grows x y k h l =
    (le-div_iff_mul-le {k = k} {x = x / k} {y = y} h).1 (omega (arith, div-mul-le_self x k, l))

none_of : (n : ℕ) → n * 0 ≡ 0
none_of n = omega arith

-- The numbers of the workers.
abbrev pub workers_of : ℕ → List ℕ
workers_of zero = []
workers_of (suc n) = n ∷ workers_of n

module _ (a b : Decimal) (u : Valid a) (v : Valid b) (w : ℕ) (pos : 0 < w) where
  abbrev start_of : ℕ → ℕ
  start_of k = begin_of (length a) w k

  abbrev part : ℕ → Decimal
  part k = partial_product (start_of k) (start_of (suc k)) a b

  ordered : (k : ℕ) → start_of k ≤ start_of (suc k)
  ordered k = div-grows (length a * k) (length a * suc k) w pos (omega arith)

  part-Valid : (k : ℕ) → Valid (part k)
  part-Valid k = (partial_product-lem a b u v (start_of k) (start_of (suc k)) (ordered k)).1

  abbrev total : List ℕ → ℕ
  total [] = 0
  total (k ∷ ks) = value (part k) + total ks

  total-perm : (xs ys : List ℕ) → Permᴰ xs ys → total xs ≡ total ys
  total-perm xs ys Permᴰ.nil = refl
  total-perm (x ∷ xs) (y ∷ ys) (Permᴰ.cons e p) =
      omega (arith, ap (λ k. value (part k)) e, total-perm xs ys p)
  total-perm (x ∷ y ∷ xs) (z ∷ t ∷ _) (Permᴰ.swap e f) =
      omega (arith, ap (λ k. value (part k)) e, ap (λ k. value (part k)) f)
  total-perm xs ys (Permᴰ.trans {l₂ = zs} p q) = total-perm xs zs p ∙ total-perm zs ys q

  collect-nil : (r : Decimal) → collect w [] a b r ≡ r
  unfolding collect
  collect-nil r = refl

  collect-cons :
      (k : ℕ) (ks : List ℕ) (r : Decimal)
      → collect w (k ∷ ks) a b r ≡ collect w ks a b (add r (part k))
  unfolding collect
  collect-cons k ks r = refl

  collect-lem :
      (ks : List ℕ) (r : Decimal)
      → Valid r
      → (value (collect w ks a b r) ≡ value r + total ks) × Valid (collect w ks a b r)
  collect-lem [] r g = rw (collect-nil r) (omega arith, g)
  collect-lem (k ∷ ks) r g =
      let s = collect-lem ks (add r (part k)) (add-Valid r (part k) g (part-Valid k)) in
      rw (collect-cons k ks r) (omega (arith, s.0, add-value r (part k)), s.1)

  start-zero : start_of 0 ≡ 0
  start-zero = ap (λ n. n / w) (none_of (length a)) ∙ zero-div w

  total-workers : (n : ℕ) → total (workers_of n) ≡ value (resize (start_of n) a) * value b
  total-workers zero = omega (arith, ap (λ n. value (resize n a) * value b) (start-zero))
  total-workers (suc n) = omega (
    arith,
    total-workers n,
    (partial_product-lem a b u v (start_of n) (start_of (suc n)) (ordered n)).0,
  )

  total-all : total (workers_of w) ≡ value a * value b
  total-all =
      total-workers w
      ∙ ap (λ n. value (resize n a) * value b) (mul-div_cancel (length a) pos)
      ∙ ap (λ c. value c * value b) (resize-length a)

-- The factor with fewer digits, the first if they have as many.
abbrev pub shorter : Decimal → Decimal → Decimal
shorter l r = if leb (length l) (length r) then l else r

ordered-lem :
    (cores : ℕ) (order : List ℕ) (l r a b : Decimal)
    → Good l
    → Good r
    → Valid a
    → Good b
    → value l * value r ≡ value a * value b
    → Permᴰ order (workers_of (workers_for cores a))
    → (value (parallel_ordered cores order l r a b) ≡ value a * value b)
      × Good (parallel_ordered cores order l r a b)
unfolding parallel_ordered
ordered-lem cores order l r a b g h u k q p = elim (Bool-cases (is_zero a)) [
  | inl e ↦ rw e (
    omega (arith, ap (λ n. n * value b) (is_zero-value a e)),
    record { valid = (omega arith, tt); trimmed = inl refl },
  )
  | inr e ↦ elim (Bool-cases (is_unity a)) [
    | inl f ↦ rw (e, f) (omega (arith, ap (λ n. n * value b) (is_unity-value a f)), k)
    | inr f ↦ elim (zero-cases (workers_for cores a)) [
      | inl z ↦ let m = multiply-lem l r g h in rw (e, f, z.1) (m.0 ∙ q, m.1)
      | inr z ↦
          let w = workers_for cores a in
          let c =
            collect-lem a b u k.valid w z.0 order (cleared a b)
              (cleared-Valid (length a + length b)) in
          let t = remove_lz-Good (collect w order a b (cleared a b)) c.1 in
          rw (e, f, z.1)
            (
              omega (
                arith,
                t.0,
                c.0,
                cleared-value (length a + length b),
                total-perm a b u k.valid w z.0 order (workers_of w) p,
                total-all a b u k.valid w z.0,
              ),
              t.1,
            )
    ]
  ]
]

-- `parallel_multiply` on decimals without leading zeros gives the product of their values, again
-- without leading zeros and in valid digits, for any number of cores and in whatever order the
-- workers add their parts to the result, each of them once.
pub parallel_multiply-lem :
    (cores : ℕ) (order : List ℕ) (l r : Decimal)
    → Good l
    → Good r
    → Permᴰ order (workers_of (workers_for cores (shorter l r)))
    → (value (parallel_multiply cores order l r) ≡ value l * value r)
      × Good (parallel_multiply cores order l r)
unfolding parallel_multiply
parallel_multiply-lem cores order l r g h p = elim (Bool-cases (leb (length l) (length r))) [
  | inl e ↦ rw e (ordered-lem cores order l r l r g h g.valid h refl (rw e at p))
  | inr e ↦
      let q = ordered-lem cores order l r r l g h h.valid g (omega arith) (rw e at p) in
      rw e (omega (arith, q.0), q.1)
]
