-- ===== src/Decimal/Value.antt =====
-- The number that a decimal stands for, and decimals without leading zeros.
use kaiu.Base.{
  zero-cases, Bool, true, false, ℕ, zero, suc, ◌+◌, ◌*◌, ◌<◌, ◌≤◌, ◌≡◌, refl, sym, ap, ◌∙◌, ◌⊎◌,
  inl, inr, true, false, [], ◌∷◌, ◌++◌, length, arith,
}
use kaiu.Decimal.Arithmetic.{bit}
use kaiu.Decimal.Digits.{
  Decimal, at, head, tail, is_zero, is_unity, resize, remove_lz, remove_lz_loop,
}

abbrev pub value : Decimal → ℕ
value [] = 0
value (d ∷ ds) = d + 10 * value ds

-- Ten to the power of `n`.
abbrev pub scale : ℕ → ℕ
scale zero = 1
scale (suc n) = 10 * scale n

abbrev pub Valid : Decimal → Type 0
Valid [] = Unit
Valid (d ∷ ds) = (d < 10) × Valid ds

-- The most significant digit is not 0.
abbrev pub Top : Decimal → Type 0
Top [] = ⊥
Top (d ∷ []) = 0 < d
Top (d ∷ e ∷ ds) = Top (e ∷ ds)

-- As `remove_lz` leaves a decimal: it is 0, or does not start with 0.
abbrev pub Trimmed : Decimal → Type 0
Trimmed a = (a ≡ 0 ∷ []) ⊎ Top a

-- What every constructor and operation gives.
pub record Good (a : Decimal) : Type 0 where
  pub valid : Valid a
  pub trimmed : Trimmed a

pub Top-cons : (d : ℕ) (ds : Decimal) → Top ds → Top (d ∷ ds)
Top-cons d (e ∷ ds) t = t
Top-cons d [] t = absurd t

pub value-head : (a : Decimal) → value a ≡ head a + 10 * value (tail a)
value-head [] = refl
value-head (d ∷ ds) = refl

pub head-small : (a : Decimal) → Valid a → head a < 10
head-small [] v = omega arith
head-small (d ∷ ds) v = v.0

pub Valid-tail : (a : Decimal) → Valid a → Valid (tail a)
Valid-tail [] v = tt
Valid-tail (d ∷ ds) v = v.1

pub length-tail : (a : Decimal) (w : ℕ) → length a ≤ suc w → length (tail a) ≤ w
length-tail [] w h = omega arith
length-tail (d ∷ ds) w h = omega (arith, h)

pub is_zero-value : (a : Decimal) → is_zero a ≡ true → value a ≡ 0
is_zero-value [] h = refl
is_zero-value (d ∷ []) h = ground arith
is_zero-value (d ∷ e ∷ ds) h = ground arith

pub is_unity-value : (a : Decimal) → is_unity a ≡ true → value a ≡ 1
is_unity-value [] h = absurd (ground arith)
is_unity-value (d ∷ []) h = ground arith
is_unity-value (d ∷ e ∷ ds) h = absurd (ground arith)

pub Trimmed-Top : (a : Decimal) → Trimmed a → is_zero a ≡ false → Top a
Trimmed-Top a (inr t) h = t
Trimmed-Top a (inl e) h = absurd (cc (sym (ap is_zero e) ∙ h))

pub value-small : (a : Decimal) → Valid a → value a < scale (length a)
value-small [] v = omega arith
value-small (d ∷ ds) v = omega (arith, v.0, value-small ds v.1)

pub scale-pos : (n : ℕ) → 0 < scale n
scale-pos zero = omega arith
scale-pos (suc n) = omega (arith, scale-pos n)

pub scale-le : (m n : ℕ) → m ≤ n → scale m ≤ scale n
scale-le zero n h = omega (arith, scale-pos n)
scale-le (suc m) zero h = absurd (omega (arith, h))
scale-le (suc m) (suc n) h = omega (arith, scale-le m n (omega (arith, h)))

-- A decimal that does not start with 0 is as large as its length says.
pub value-Top : (a : Decimal) → Top a → scale (length a) ≤ 10 * value a
value-Top [] t = absurd t
value-Top (d ∷ []) t = omega (arith, t)
value-Top (d ∷ e ∷ ds) t = omega (arith, value-Top (e ∷ ds) t)

pub value-append : (a b : Decimal) → value (a ++ b) ≡ value a + scale (length a) * value b
value-append [] b = omega arith
value-append (d ∷ ds) b = omega (arith, value-append ds b)

pub Valid-append : (a b : Decimal) → Valid a → Valid b → Valid (a ++ b)
Valid-append [] b u v = v
Valid-append (d ∷ ds) b u v = (u.0, Valid-append ds b u.1 v)

pub value-resize :
    (i : ℕ) (a : Decimal) → value (resize (suc i) a) ≡ value (resize i a) + scale i * at a i
value-resize zero [] = refl
value-resize zero (d ∷ ds) = omega arith
value-resize (suc i) [] = omega (arith, value-resize i [])
value-resize (suc i) (d ∷ ds) = omega (arith, value-resize i ds)

pub resize-length : (a : Decimal) → resize (length a) a ≡ a
resize-length [] = refl
resize-length (d ∷ ds) = ap (λ x. d ∷ x) (resize-length ds)

pub Valid-resize : (i : ℕ) (a : Decimal) → Valid a → Valid (resize i a)
Valid-resize zero a v = tt
Valid-resize (suc i) a v = (head-small a v, Valid-resize i (tail a) (Valid-tail a v))

Top-resize : (i : ℕ) (a : Decimal) → 0 < at a i → Top (resize (suc i) a)
Top-resize zero [] h = absurd (omega (arith, h))
Top-resize zero (d ∷ ds) h = h
Top-resize (suc i) [] h = absurd (omega (arith, h))
Top-resize (suc i) (d ∷ ds) h = Top-resize i ds h

at-head : (a : Decimal) → at a 0 ≡ head a
at-head [] = refl
at-head (d ∷ ds) = refl

remove_lz_loop-Good :
    (i : ℕ) (a : Decimal)
    → (i ≡ 0 → head a ≡ 0)
    → Valid a
    → (value (remove_lz_loop i a) ≡ value (resize i a)) × Good (remove_lz_loop i a)
remove_lz_loop-Good zero a h v = (
  omega (arith, h refl),
  record { valid = (head-small a v, tt); trimmed = inl (ap (λ x. x ∷ []) (h refl)) },
)
remove_lz_loop-Good (suc i) a h v = elim (zero-cases (at a i)) [
  | inl p ↦ rw p.1 (
      let r = remove_lz_loop-Good i a (λ e. first e p.0) v in
      (omega (arith, r.0, value-resize i a, shift p.0), r.1))
  | inr p ↦
      rw p.1 (refl, record { valid = Valid-resize (suc i) a v; trimmed = inr (Top-resize i a p.0) })
]
  where
    first : i ≡ 0 → at a i ≡ 0 → head a ≡ 0
    first e z = sym (at-head a) ∙ ap (at a) (sym e) ∙ z

    shift : at a i ≡ 0 → scale i * at a i ≡ 0
    shift z = ap (λ x. scale i * x) z ∙ (omega arith)

-- Cutting leading zeros keeps the value of a decimal that has digits.
pub remove_lz-Good : (a : Decimal) → Valid a → (value (remove_lz a) ≡ value a) × Good (remove_lz a)
unfolding remove_lz
remove_lz-Good a v =
    let r = remove_lz_loop-Good (length a) a (no_digits a) v in
    (r.0 ∙ ap value (resize-length a), r.1)
  where
    no_digits : (b : Decimal) → length b ≡ 0 → head b ≡ 0
    no_digits [] e = refl
    no_digits (d ∷ ds) e = absurd (omega (arith, e))

pub bit-small : (c : Bool) → bit c ≤ 1
bit-small true = omega arith
bit-small false = omega arith
