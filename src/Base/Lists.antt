-- ===== src/Base/Lists.antt =====
-- Lists measured and indexed by native numbers, under the library's names.
use Prim.Native.Nat.{ℕ, zero, suc, ◌+◌}
use mathlib.Core.Path.{◌≡◌, refl, ap}
use mathlib.Core.Option.{Option, none, some}
use mathlib.Core.List.{List, [], ◌∷◌, ◌++◌}
use native.Mathlib.Omega.{arith}

module _ {ℓ} {A : Type ℓ} where
  abbrev pub length : List A → ℕ
  length [] = 0
  length (x ∷ xs) = suc (length xs)

  pub length-append : (xs ys : List A) → length (xs ++ ys) ≡ length xs + length ys
  length-append [] ys = omega arith
  length-append (x ∷ xs) ys = omega (arith, length-append xs ys)

module _ {ℓ} {A : Type ℓ} where
  abbrev pub get_elem? : List A → ℕ → Option A
  get_elem? [] i = none
  get_elem? (x ∷ xs) zero = some x
  get_elem? (x ∷ xs) (suc i) = get_elem? xs i

  -- A write out of range changes nothing.
  abbrev pub set : List A → ℕ → A → List A
  set [] i a = []
  set (x ∷ xs) zero a = a ∷ xs
  set (x ∷ xs) (suc i) a = x ∷ set xs i a

  abbrev pub replicate : ℕ → A → List A
  replicate zero a = []
  replicate (suc n) a = a ∷ replicate n a

  pub length-set : (xs : List A) (i : ℕ) (x : A) → length (set xs i x) ≡ length xs
  length-set [] i x = refl
  length-set (y ∷ xs) zero x = refl
  length-set (y ∷ xs) (suc i) x = ap suc (length-set xs i x)

  pub length-snoc : (xs : List A) (y : A) → length (xs ++ y ∷ []) ≡ suc (length xs)
  length-snoc [] y = refl
  length-snoc (x ∷ xs) y = ap suc (length-snoc xs y)

  pub get_elem?-append : (xs ys : List A) (y : A) → get_elem? (xs ++ y ∷ ys) (length xs) ≡ some y
  get_elem?-append [] ys y = refl
  get_elem?-append (x ∷ xs) ys y = get_elem?-append xs ys y

  pub set-append : (xs ys : List A) (y z : A) → set (xs ++ y ∷ ys) (length xs) z ≡ xs ++ z ∷ ys
  set-append [] ys y z = refl
  set-append (x ∷ xs) ys y z = ap (λ l. x ∷ l) (set-append xs ys y z)

  pub length-replicate : (n : ℕ) (x : A) → length (replicate n x) ≡ n
  length-replicate zero x = refl
  length-replicate (suc n) x = ap suc (length-replicate n x)
