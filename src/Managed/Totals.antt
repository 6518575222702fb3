-- ===== src/Managed/Totals.antt =====
-- Threads counted by their phases.
use kaiu.Base.{
  ℕ, zero, suc, ◌+◌, ◌<◌, ◌≤◌, Bool, true, false, ◌≡◌, refl, List, [], ◌∷◌, some, get_elem?, set,
  replicate, arith,
}
use kaiu.Managed.State.{Phase, outside, inside, leaving, bit, total, owning}

abbrev pub locking : Phase → ℕ
locking outside = 0
locking (inside own m) = 1
locking (leaving own m) = 0

abbrev pub marked : Phase → ℕ
marked outside = 0
marked (inside own m) = bit m
marked (leaving own m) = bit m

-- Inside by `this`, without a call of make_mortal.
abbrev pub plain : Phase → ℕ
plain (inside false false) = 1
plain _ = 0

-- What the self reference must keep the object alive for.
abbrev pub relying : Phase → ℕ
relying (inside false m) = 1
relying (leaving false true) = 1
relying _ = 0

pub total-set :
    (w : Phase → ℕ) (ps : List Phase) (t : ℕ) (p q : Phase)
    → get_elem? ps t ≡ some p
    → total w (set ps t q) + w p ≡ total w ps + w q
total-set w [] t p q e = absurd (cc)
total-set w (r ∷ ps) zero p q e = ground arith
total-set w (r ∷ ps) (suc t) p q e = omega (arith, total-set w ps t p q e)

pub total-at :
    (w : Phase → ℕ) (ps : List Phase) (t : ℕ) (p : Phase)
    → get_elem? ps t ≡ some p
    → w p ≤ total w ps
total-at w [] t p e = absurd (cc)
total-at w (r ∷ ps) zero p e = ground arith
total-at w (r ∷ ps) (suc t) p e = omega (arith, total-at w ps t p e)

-- Where one weight is never more than another, a thread's difference is within that of all.
pub total-within :
    (w u : Phase → ℕ) (ps : List Phase) (t : ℕ) (p : Phase)
    → ((q : Phase) → w q ≤ u q)
    → get_elem? ps t ≡ some p
    → total w ps + u p ≤ total u ps + w p
total-within w u [] t p h e = absurd (cc)
total-within w u (r ∷ ps) zero p h e = ground (arith, total-le ps)
  where
    total-le : (qs : List Phase) → total w qs ≤ total u qs
    total-le [] = omega arith
    total-le (q ∷ qs) = omega (arith, h q, total-le qs)
total-within w u (r ∷ ps) (suc t) p h e = omega (arith, h r, total-within w u ps t p h e)

pub plain-le : (p : Phase) → plain p ≤ locking p
plain-le outside = omega arith
plain-le (inside true m) = omega arith
plain-le (inside false true) = omega arith
plain-le (inside false false) = omega arith
plain-le (leaving own m) = omega arith

pub in_call : (own m : Bool) → 0 < owning (inside own m) + relying (inside own m)
in_call true m = omega arith
in_call false m = omega arith

pub on_leaving : (own : Bool) → 0 < owning (leaving own true) + relying (leaving own true)
on_leaving true = omega arith
on_leaving false = omega arith

pub relying-leave : (own m : Bool) → relying (leaving own m) ≤ relying (inside own m)
relying-leave true m = omega arith
relying-leave false true = omega arith
relying-leave false false = omega arith

pub relying-inside : (own m : Bool) → relying (inside own true) ≡ relying (inside own m)
relying-inside true m = refl
relying-inside false m = refl

pub relying-done : (own : Bool) → relying (leaving own false) ≡ 0
relying-done true = refl
relying-done false = refl

pub relying-le : (ps : List Phase) → total relying ps ≤ total plain ps + total marked ps
relying-le [] = omega arith
relying-le (outside ∷ ps) = omega (arith, relying-le ps)
relying-le (inside true m ∷ ps) = omega (arith, relying-le ps)
relying-le (inside false true ∷ ps) = omega (arith, relying-le ps)
relying-le (inside false false ∷ ps) = omega (arith, relying-le ps)
relying-le (leaving true m ∷ ps) = omega (arith, relying-le ps)
relying-le (leaving false true ∷ ps) = omega (arith, relying-le ps)
relying-le (leaving false false ∷ ps) = omega (arith, relying-le ps)

pub locking-le : (ps : List Phase) → total locking ps ≤ total owning ps + total relying ps
locking-le [] = omega arith
locking-le (outside ∷ ps) = omega (arith, locking-le ps)
locking-le (inside true m ∷ ps) = omega (arith, locking-le ps)
locking-le (inside false m ∷ ps) = omega (arith, locking-le ps)
locking-le (leaving true m ∷ ps) = omega (arith, locking-le ps)
locking-le (leaving false true ∷ ps) = omega (arith, locking-le ps)
locking-le (leaving false false ∷ ps) = omega (arith, locking-le ps)

pub total-outside : (w : Phase → ℕ) (n : ℕ) → w outside ≡ 0 → total w (replicate n outside) ≡ 0
total-outside w zero h = refl
total-outside w (suc n) h = omega (arith, h, total-outside w n h)
