-- ===== src/Loop/Locked.antt =====
-- What `lock_many` holds when it ends, and when it ends.
use kaiu.Base.{
  ℕ, zero, suc, ◌+◌, ◌<◌, ◌≡◌, refl, ap, subst, ◌∙◌, ◌⊎◌, inl, inr, Bool, true, false, [], ◌∷◌,
  Option, none, some, ◌==◌, length, replicate, arith,
}
use kaiu.Loop.Locks.{
  Locks, Round, all_locked, failed, lock_loop, unlock_all, after_round, lock_rounds, lock_many,
}
use kaiu.Loop.Rounds.{AllHeld, Good, loop-Good, loop-free, Good-AllHeld}

-- The rounds.
module _ (free : ℕ → ℕ → Bool) (count : ℕ) (pos : 0 < count) where
  abbrev Result : Option Locks → Type 0
  Result none = Unit
  Result (some held) = AllHeld held × (length held ≡ count)

  length-unlock : (locks : Locks) → length (unlock_all locks) ≡ length locks
  length-unlock [] = refl
  length-unlock (b ∷ bs) = ap suc (length-unlock bs)

  abbrev first_round : ℕ → ℕ → Locks → Round
  first_round round start locks = lock_loop (free round) count start count 0 locks

  rounds-none :
      (round start : ℕ) (locks : Locks) → lock_rounds free count zero round start locks ≡ none
  unfolding lock_rounds
  rounds-none round start locks = refl

  module _ (fuel round start : ℕ) (locks : Locks) where
    rounds-done :
        (held : Locks)
        → first_round round start locks ≡ all_locked held
        → lock_rounds free count (suc fuel) round start locks ≡ some held
    unfolding lock_rounds
    rounds-done held e = ap (after_round (lock_rounds free count fuel (suc round))) e

    rounds-again :
        (held : Locks) (i : ℕ)
        → first_round round start locks ≡ failed held i
        → lock_rounds free count (suc fuel) round start locks
          ≡ lock_rounds free count fuel (suc round) i (unlock_all held)
    unfolding lock_rounds
    rounds-again held i e = ap (after_round (lock_rounds free count fuel (suc round))) e

  round-cases :
      (r : Round)
      → ((held : Locks) × (r ≡ all_locked held)) ⊎ ((held : Locks) × (i : ℕ) × (r ≡ failed held i))
  round-cases (all_locked held) = inl (held, refl)
  round-cases (failed held i) = inr (held, i, refl)

  first-Good :
      (round start : ℕ) (locks : Locks)
      → length locks ≡ count
      → Good count start pos (first_round round start locks)
  first-Good round start locks l =
      loop-Good count start pos (free round) count 0 locks (omega arith) l
        (λ j h. absurd (omega (arith, h)))

  rounds-Result :
      (fuel round start : ℕ) (locks : Locks)
      → start < count
      → length locks ≡ count
      → Result (lock_rounds free count fuel round start locks)
  rounds-Result zero round start locks k l = rw (rounds-none round start locks) tt
  rounds-Result (suc fuel) round start locks k l =
      elim (round-cases (first_round round start locks)) [
        | inl p ↦
            let g = subst (Good count start pos) p.1 (first-Good round start locks l) in
            rw (rounds-done fuel round start locks p.0 p.1)
              (Good-AllHeld count start pos p.0 k g, g.0)
        | inr p ↦
            let g = subst (Good count start pos) p.2 (first-Good round start locks l) in
            rw (rounds-again fuel round start locks p.0 p.1 p.2)
              (rounds-Result fuel (suc round) p.1 (unlock_all p.0) g.1 (length-unlock p.0 ∙ g.0))
      ]

  -- A round in which no mutex is taken ends the rounds, if the fuel reaches it.
  rounds-end :
      (n fuel round start : ℕ) (locks : Locks)
      → ((i : ℕ) → free (n + round) i ≡ true)
      → n < fuel
      → (held : Locks) × (lock_rounds free count fuel round start locks ≡ some held)
  rounds-end n zero round start locks f h = absurd (omega (arith, h))
  rounds-end zero (suc fuel) round start locks f h =
      let r =
        loop-free count start pos (free round) count 0 locks
          (λ i. ap (λ m. free m i) (omega arith) ∙ f i) in
      (r.0, rounds-done fuel round start locks r.0 r.1)
  rounds-end (suc n) (suc fuel) round start locks f h =
      elim (round-cases (first_round round start locks)) [
        | inl p ↦ (p.0, rounds-done fuel round start locks p.0 p.1)
        | inr p ↦
            let r =
              rounds-end n fuel (suc round) p.1 (unlock_all p.0)
                (λ i. ap (λ m. free m i) (omega arith) ∙ f i) (omega (arith, h)) in
            (r.0, rounds-again fuel round start locks p.0 p.1 p.2 ∙ r.1)
      ]

  length-replicate : (n : ℕ) → length {A = Bool} (replicate n false) ≡ n
  length-replicate zero = refl
  length-replicate (suc n) = ap suc (length-replicate n)

  many-eq :
      (fuel : ℕ)
      → lock_many free fuel count ≡ lock_rounds free count fuel 0 0 (replicate count false)
  unfolding lock_many
  many-eq fuel = rw (not_zero count pos) refl
    where
      not_zero : (n : ℕ) → 0 < n → (n == 0) ≡ false
      not_zero n p = ground arith

  -- Whatever the other threads hold in each round, if in some round no mutex is taken, then locking
  -- at least one mutex ends with that round at the latest, and this thread holds each of them.
  pub lock_many-lem :
      (last fuel : ℕ)
      → ((i : ℕ) → free last i ≡ true)
      → last < fuel
      → (held : Locks) × (lock_many free fuel count ≡ some held)
        × AllHeld held
        × (length held ≡ count)
  lock_many-lem last fuel f h =
      let (held, e) =
        rounds-end last fuel 0 0 (replicate count false)
          (λ i. ap (λ m. free m i) (omega arith) ∙ f i) h in
      let g =
        subst Result e
          (rounds-Result fuel 0 0 (replicate count false) pos (length-replicate count)) in
      (held, many-eq fuel ∙ e, g.0, g.1)
