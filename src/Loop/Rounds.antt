-- ===== src/Loop/Rounds.antt =====
-- One round of `lock_many`: what it holds, and when it does not fail.
use kaiu.Base.{
  length-set, ℕ, zero, suc, ◌+◌, ◌-◌, ◌%◌, ◌<◌, ◌≤◌, ◌≡◌, refl, ap, subst, ◌∙◌, ◌⊎◌, inl, inr, Bool,
  true, false, [], ◌∷◌, some, ◌==◌, length, get_elem?, set, arith, Bool-cases,
}
use native.Mathlib.Nat.{mod-lt, mod-eq_of_lt, add-mod_right}
use kaiu.Loop.Locks.{Locks, Round, all_locked, failed, index, lock_loop}

-- Every mutex is held.
abbrev pub AllHeld : Locks → Type 0
AllHeld [] = Unit
AllHeld (b ∷ bs) = (b ≡ true) × AllHeld bs

abbrev Held : ℕ → Locks → Type 0
Held i locks = get_elem? locks i ≡ some true

keeps : (locks : Locks) (i j : ℕ) → Held j locks → Held j (set locks i true)
keeps [] i j h = h
keeps (b ∷ bs) zero zero h = refl
keeps (b ∷ bs) zero (suc j) h = h
keeps (b ∷ bs) (suc i) zero h = h
keeps (b ∷ bs) (suc i) (suc j) h = keeps bs i j h

sets : (locks : Locks) (i : ℕ) → i < length locks → Held i (set locks i true)
sets [] i h = absurd (omega (arith, h))
sets (b ∷ bs) zero h = refl
sets (b ∷ bs) (suc i) h = sets bs i (omega (arith, h))

all-held : (locks : Locks) → ((i : ℕ) → i < length locks → Held i locks) → AllHeld locks
all-held [] h = tt
all-held (b ∷ bs) h = (first (h 0 (omega arith)), all-held bs (λ i l. h (suc i) (omega (arith, l))))
  where
    first : some b ≡ some true → b ≡ true
    first e = ground arith

module _ (count start : ℕ) (pos : 0 < count) where
  index-small : (j : ℕ) → index count start j < count
  index-small j = mod-lt (start + j) {m = count} pos

  -- The mutexes before the one at `counter` are held.
  Done : ℕ → Locks → Type 0
  Done counter locks = (j : ℕ) → j < counter → Held (index count start j) locks

  abbrev pub Good : Round → Type 0
  Good (all_locked locks) =
      (length locks ≡ count) × ((j : ℕ) → j < count → Held (index count start j) locks)
  Good (failed locks i) = (length locks ≡ count) × (i < count)

  below-suc : (j n : ℕ) → j < suc n → (j < n) ⊎ (j ≡ n)
  below-suc j n h = ground arith

  module _ (free : ℕ → Bool) where
    loop-end :
        (counter : ℕ) (locks : Locks)
        → lock_loop free count start zero counter locks ≡ all_locked locks
    unfolding lock_loop
    loop-end counter locks = refl

    abbrev next : ℕ → ℕ → Locks → Round
    next n counter locks =
        lock_loop free count start n (suc counter) (set locks (index count start counter) true)

    -- A mutex is locked, or the round fails there.
    loop-cases :
        (n counter : ℕ) (locks : Locks)
        → (lock_loop free count start (suc n) counter locks ≡ next n counter locks)
          ⊎ ((lock_loop free count start (suc n) counter locks
                ≡ failed locks (index count start counter))
              × (free (index count start counter) ≡ false))
    unfolding lock_loop
    loop-cases n counter locks = elim (Bool-cases (counter == 0)) [
      | inl e ↦ inl (rw e refl)
      | inr e ↦ elim (Bool-cases (free (index count start counter))) [
        | inl f ↦ inl (rw (e, f) refl)
        | inr f ↦ inr (rw (e, f) refl, f)
      ]
    ]

    more :
        (counter : ℕ) (locks : Locks)
        → length locks ≡ count
        → ((j : ℕ) → j < counter → Held (index count start j) locks)
        → (j : ℕ) → j < suc counter
        → Held (index count start j) (set locks (index count start counter) true)
    more counter locks l d j h = elim (below-suc j counter h) [
      | inl k ↦ keeps locks (index count start counter) (index count start j) (d j k)
      | inr k ↦
          rw k (sets locks (index count start counter) (omega (arith, l, index-small counter)))
    ]

    pub loop-Good :
        (n counter : ℕ) (locks : Locks)
        → counter + n ≡ count
        → length locks ≡ count
        → ((j : ℕ) → j < counter → Held (index count start j) locks)
        → Good (lock_loop free count start n counter locks)
    loop-Good zero counter locks e l d =
        rw (loop-end counter locks) (l, λ j h. d j (omega (arith, e, h)))
    loop-Good (suc n) counter locks e l d = elim (loop-cases n counter locks) [
      | inl c ↦ rw c (
          loop-Good n (suc counter) (set locks (index count start counter) true) (omega (arith, e))
            (length-set locks (index count start counter) true ∙ l) (more counter locks l d))
      | inr c ↦ rw c.0 (l, index-small counter)
    ]

    -- If no mutex is taken, the round does not fail.
    pub loop-free :
        (n counter : ℕ) (locks : Locks)
        → ((i : ℕ) → free i ≡ true)
        → (held : Locks) × (lock_loop free count start n counter locks ≡ all_locked held)
    loop-free zero counter locks f = (locks, loop-end counter locks)
    loop-free (suc n) counter locks f = elim (loop-cases n counter locks) [
      | inl c ↦
          let r = loop-free n (suc counter) (set locks (index count start counter) true) f in
          (r.0, c ∙ r.1)
      | inr c ↦ absurd (cc (f (index count start counter), c.1))
    ]

  -- Each mutex has its turn in a round.
  turn : (i : ℕ) → i < count → start < count → (j : ℕ) × (j < count) × (index count start j ≡ i)
  turn i h k = elim (start-or i) [
    | inl e ↦ (i - start, omega arith, ap (λ n. n % count) (omega (arith, e)) ∙ mod-eq_of_lt h)
    | inr e ↦ (
      i + count - start,
      omega (arith, e, k),
      ap (λ n. n % count) (omega (arith, e, k)) ∙ add-mod_right i count ∙ mod-eq_of_lt h,
    )
  ]
    where
      start-or : (m : ℕ) → (start ≤ m) ⊎ (m < start)
      start-or m = ground arith

  pub Good-AllHeld : (locks : Locks) → start < count → Good (all_locked locks) → AllHeld locks
  Good-AllHeld locks k g = all-held locks (λ i h.
      let (j, l, e) = turn i (omega (arith, h, g.0)) k in subst (λ n. Held n locks) e (g.1 j l))
