-- ===== src/Combine/Steps.antt =====
-- The invariant of combined promises, and their operations on either side of a failure.
use kaiu.Base.{
  ℕ, ◌-◌, ◌^◌, ◌<◌, ◌≡◌, refl, Bool, true, false, List, [], ◌∷◌, ◌++◌, some, arith, length,
  get_elem?, set,
}
use kaiu.Promise.Types.{Settled, value, error}
use kaiu.Combine.State.{Combine, Combining, start, next, handler, finalizer, decrement}
use kaiu.Combine.Slots.{Filled, Filled-start, unfinished, unfinished-replicate}

module _ {V E : Type 0} where
  -- One settlement, with an error of one of the promises.
  abbrev pub Contains : E → List (Settled V E) → Type 0
  Contains e xs = (i : ℕ) × (get_elem? xs i ≡ some (error e))

  abbrev pub Status : List (Settled V E) → Bool → Combining V E → Type 0
  Status xs true s = (e : E) × (s.combine.settlements ≡ error e ∷ []) × Contains e xs
  Status xs false s =
      Filled xs s.phases s.combine.results
      × (0 < s.combine.remaining → s.combine.settlements ≡ [])
      × (s.combine.remaining ≡ 0 → s.combine.settlements ≡ value s.combine.results ∷ [])

  pub record Inv (xs : List (Settled V E)) (s : Combining V E) : Type 0 where
    pub count : s.combine.remaining ≡ unfinished s.phases
    pub small : s.combine.remaining < 2 ^ 64
    pub status : Status xs s.combine.failed s

  pub start-Inv : (xs : List (Settled V E)) → 0 < length xs → length xs < 2 ^ 64 → Inv xs (start xs)
  start-Inv xs h k = record {
    count = rw unfinished-replicate;
    small = k;
    status = (Filled-start xs, λ z. refl, λ z. absurd (omega arith));
  }

  -- The operations, where nothing has failed and where something has.
  pub next-eq :
      (i : ℕ) (v : V) (c : Combine V E)
      → c.failed ≡ false
      → next i v c ≡ record c { results = set c.results i (some v) }
  unfolding next
  next-eq i v c q = simp q

  pub next-failed : (i : ℕ) (v : V) (c : Combine V E) → c.failed ≡ true → next i v c ≡ c
  unfolding next
  next-failed i v c q = simp q

  pub handler-eq :
      (e : E) (c : Combine V E)
      → c.failed ≡ false
      → handler e c ≡ record c { failed = true; settlements = c.settlements ++ (error e ∷ []) }
  unfolding handler
  handler-eq e c q = simp q

  pub handler-failed : (e : E) (c : Combine V E) → c.failed ≡ true → handler e c ≡ c
  unfolding handler
  handler-failed e c q = simp q

  pub finalizer-failed :
      (c : Combine V E)
      → c.failed ≡ true
      → finalizer c ≡ record c { remaining = decrement c.remaining }
  unfolding finalizer
  finalizer-failed c q = ground arith

  pub finalizer-last :
      (c : Combine V E)
      → c.failed ≡ false
      → c.remaining ≡ 1
      → finalizer c
        ≡ record c { remaining = 0; settlements = c.settlements ++ (value c.results ∷ []) }
  unfolding finalizer
  finalizer-last c q r = ground arith

  pub finalizer-more :
      (c : Combine V E)
      → c.failed ≡ false
      → 1 < c.remaining
      → c.remaining < 2 ^ 64
      → finalizer c ≡ record c { remaining = c.remaining - 1 }
  unfolding finalizer
  finalizer-more c q r k = ground arith
