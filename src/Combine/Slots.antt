-- ===== src/Combine/Slots.antt =====
-- Results, promises and their phases, slot by slot.
use kaiu.Base.{
  ℕ, zero, suc, ◌<◌, ◌≡◌, refl, ap, List, [], ◌∷◌, Option, none, some, arith, length, get_elem?,
  set, replicate, map,
}
use kaiu.Promise.Types.{Settled, value, error}
use kaiu.Combine.State.{Phase, waiting, called, finished}

abbrev pub unfinished : List Phase → ℕ
unfinished [] = 0
unfinished (finished ∷ ps) = unfinished ps
unfinished (waiting ∷ ps) = suc (unfinished ps)
unfinished (called ∷ ps) = suc (unfinished ps)

-- All values, or none if there is an error.
abbrev pub collect : {V E : Type 0} → List (Settled V E) → Option (List V)
collect [] = some []
collect (value v ∷ xs) = elim (collect xs) [ none ↦ none | some vs ↦ some (v ∷ vs) ]
collect (error e ∷ xs) = none

module _ {V E : Type 0} where
  -- While nothing has failed: a slot is empty until its promise calls, and holds its value then.
  abbrev pub Slot : Settled V E → Phase → Option V → Type 0
  Slot x waiting r = r ≡ none
  Slot (value v) called r = r ≡ some v
  Slot (value v) finished r = r ≡ some v
  Slot (error e) called r = ⊥
  Slot (error e) finished r = ⊥

  abbrev pub Filled : List (Settled V E) → List Phase → List (Option V) → Type 0
  Filled [] [] [] = Unit
  Filled (x ∷ xs) (p ∷ ps) (r ∷ rs) = Slot x p r × Filled xs ps rs
  Filled _ _ _ = ⊥

  pub Filled-start :
      (xs : List (Settled V E))
      → Filled xs (replicate (length xs) waiting) (replicate (length xs) none)
  Filled-start [] = tt
  Filled-start (x ∷ xs) = (refl, Filled-start xs)

  pub Filled-call :
      (xs : List (Settled V E)) (ps : List Phase) (rs : List (Option V)) (i : ℕ) (v : V)
      → Filled xs ps rs
      → get_elem? xs i ≡ some (value v)
      → get_elem? ps i ≡ some waiting
      → Filled xs (set ps i called) (set rs i (some v))
  Filled-call [] ps rs i v f a b = absurd (cc)
  Filled-call (x ∷ xs) [] rs i v f a b = absurd (cc)
  Filled-call (x ∷ xs) (p ∷ ps) [] i v f a b = absurd f
  Filled-call (x ∷ xs) (p ∷ ps) (r ∷ rs) zero v f a b = ground arith
  Filled-call (x ∷ xs) (p ∷ ps) (r ∷ rs) (suc i) v f a b = (f.0, Filled-call xs ps rs i v f.1 a b)

  pub Filled-finish :
      (xs : List (Settled V E)) (ps : List Phase) (rs : List (Option V)) (i : ℕ)
      → Filled xs ps rs
      → get_elem? ps i ≡ some called
      → Filled xs (set ps i finished) rs
  Filled-finish [] [] rs i f b = absurd (cc)
  Filled-finish [] (p ∷ ps) rs i f b = absurd f
  Filled-finish (x ∷ xs) [] rs i f b = absurd f
  Filled-finish (x ∷ xs) (p ∷ ps) [] i f b = absurd f
  Filled-finish (x ∷ xs) (p ∷ ps) (r ∷ rs) zero f b = ground arith
  Filled-finish (x ∷ xs) (p ∷ ps) (r ∷ rs) (suc i) f b = (f.0, Filled-finish xs ps rs i f.1 b)

  -- Once all have finished, the results are the values.
  pub Filled-collect :
      (xs : List (Settled V E)) (ps : List Phase) (rs : List (Option V))
      → Filled xs ps rs
      → unfinished ps ≡ 0
      → (vs : List V) × (collect xs ≡ some vs) × (rs ≡ map some vs)
  Filled-collect [] [] [] f u = ([], refl, refl)
  Filled-collect (value v ∷ xs) (finished ∷ ps) (r ∷ rs) f u =
      let (vs, c, e) = Filled-collect xs ps rs f.1 u in (v ∷ vs, rw c, cc (f.0, e))
  Filled-collect (value v ∷ xs) (waiting ∷ ps) (r ∷ rs) f u = absurd (omega arith)
  Filled-collect (value v ∷ xs) (called ∷ ps) (r ∷ rs) f u = absurd (omega arith)
  Filled-collect (error e ∷ xs) (finished ∷ ps) (r ∷ rs) f u = absurd f.0
  Filled-collect (error e ∷ xs) (waiting ∷ ps) (r ∷ rs) f u = absurd (omega arith)
  Filled-collect (error e ∷ xs) (called ∷ ps) (r ∷ rs) f u = absurd f.0
  Filled-collect [] [] (r ∷ rs) f u = absurd f
  Filled-collect [] (p ∷ ps) rs f u = absurd f
  Filled-collect (x ∷ xs) [] rs f u = absurd f
  Filled-collect (x ∷ xs) (p ∷ ps) [] f u = absurd f

  -- A promise that has called with an error leaves no slots that are filled as they should be.
  pub Filled-error :
      (xs : List (Settled V E)) (ps : List Phase) (rs : List (Option V)) (i : ℕ) (e : E) (p : Phase)
      → Filled xs ps rs
      → get_elem? xs i ≡ some (error e)
      → get_elem? ps i ≡ some p
      → p ≡ waiting
  Filled-error [] ps rs i e p f a b = absurd (cc)
  Filled-error (x ∷ xs) [] rs i e p f a b = absurd (cc)
  Filled-error (x ∷ xs) (q ∷ ps) [] i e p f a b = absurd f
  Filled-error (value v ∷ xs) (q ∷ ps) (r ∷ rs) zero e p f a b = absurd (cc)
  Filled-error (error d ∷ xs) (waiting ∷ ps) (r ∷ rs) zero e p f a b = cc
  Filled-error (error d ∷ xs) (called ∷ ps) (r ∷ rs) zero e p f a b = absurd f.0
  Filled-error (error d ∷ xs) (finished ∷ ps) (r ∷ rs) zero e p f a b = absurd f.0
  Filled-error (x ∷ xs) (q ∷ ps) (r ∷ rs) (suc i) e p f a b = Filled-error xs ps rs i e p f.1 a b

  pub collect-error :
      (xs : List (Settled V E)) (i : ℕ) (e : E)
      → get_elem? xs i ≡ some (error e)
      → collect xs ≡ none
  collect-error [] i e a = absurd (cc)
  collect-error (error d ∷ xs) i e a = refl
  collect-error (value v ∷ xs) zero e a = absurd (cc)
  collect-error (value v ∷ xs) (suc i) e a = rw (collect-error xs i e a)

pub unfinished-call :
    (ps : List Phase) (i : ℕ)
    → get_elem? ps i ≡ some waiting
    → unfinished (set ps i called) ≡ unfinished ps
unfinished-call [] i e = absurd (cc)
unfinished-call (p ∷ ps) zero e = ground arith
unfinished-call (p ∷ ps) (suc i) e = ground (arith, unfinished-call ps i e)

pub unfinished-finish :
    (ps : List Phase) (i : ℕ)
    → get_elem? ps i ≡ some called
    → suc (unfinished (set ps i finished)) ≡ unfinished ps
unfinished-finish [] i e = absurd (cc)
unfinished-finish (p ∷ ps) zero e = ground arith
unfinished-finish (p ∷ ps) (suc i) e = ground (arith, unfinished-finish ps i e)

pub unfinished-replicate : (n : ℕ) → unfinished (replicate n waiting) ≡ n
unfinished-replicate zero = refl
unfinished-replicate (suc n) = ap suc (unfinished-replicate n)

pub unfinished-pos : (ps : List Phase) (i : ℕ) → get_elem? ps i ≡ some waiting → 0 < unfinished ps
unfinished-pos [] i e = absurd (cc)
unfinished-pos (p ∷ ps) zero e = ground arith
unfinished-pos (p ∷ ps) (suc i) e = ground (arith, unfinished-pos ps i e)
