-- ===== src/Combine/Outcome.antt =====
-- What the promise returned by `combine` is settled with, whatever the order of the callbacks.
use kaiu.Base.{
  ℕ, ◌<◌, ◌≤◌, ◌^◌, ◌≡◌, refl, subst, ◌∙◌, Bool, true, false, List, [], ◌∷◌, Option, none, some,
  arith, length, get_elem?, map, inl, inr, ◌⊎◌, ◌≢◌,
}
use kaiu.Promise.Types.{Settled, value, error}
use kaiu.Combine.State.{Combining, Phase, Event, waiting, start, run}
use kaiu.Combine.Slots.{Filled-collect, unfinished, collect, Filled-error, collect-error}
use kaiu.Combine.Steps.{Contains, Status, Inv, start-Inv}
use kaiu.Combine.Schedule.{run-Inv}

module _ {V E : Type 0} where
  -- What the promise that `combine` returns is settled with.
  abbrev pub Combined : List (Settled V E) → List (Settled (List (Option V)) E) → Type 0
  Combined xs ys = elim (collect xs) [
    | some vs ↦ ys ≡ value (map some vs) ∷ []
    | none ↦ (e : E) × Contains e xs × (ys ≡ error e ∷ [])
  ]

  module _ (xs : List (Settled V E)) (s : Combining V E) (v : Inv xs s) where
    known : {f : Bool} → s.combine.failed ≡ f → Status xs f s
    known q = subst (λ f. Status xs f s) q v.status

    zero_or_more : (n : ℕ) → (n ≡ 0) ⊎ (0 < n)
    zero_or_more n = ground arith

    once : (f : Bool) → s.combine.failed ≡ f → length s.combine.settlements ≤ 1
    once true q = let k = known q in rw k.1 (omega arith)
    once false q =
        let k = known q in
        elim (zero_or_more s.combine.remaining) [
          | inl z ↦ rw (k.2 z) (omega arith)
          | inr z ↦ rw (k.1 z) (omega arith)
        ]

    combined :
        unfinished s.phases ≡ 0
        → (f : Bool) → s.combine.failed ≡ f
        → Combined xs s.combine.settlements
    combined u true q =
        let k = known q in rw (collect-error xs k.2.0 k.0 k.2.1, Combined) (k.0, k.2, k.1)
    combined u false q =
        let k = known q in
        let (vs, c, e) = Filled-collect xs s.phases s.combine.results k.0 u in
        rw (c, Combined) (k.2 (v.count ∙ u) ∙ rw e refl)

    failed_fast :
        (i : ℕ) (e : E) (p : Phase)
        → get_elem? xs i ≡ some (error e)
        → get_elem? s.phases i ≡ some p
        → p ≢ waiting
        → (f : Bool) → s.combine.failed ≡ f
        → (d : E) × Contains d xs × (s.combine.settlements ≡ error d ∷ [])
    failed_fast i e p a b n true q = let k = known q in (k.0, k.2, k.1)
    failed_fast i e p a b n false q =
        let k = known q in absurd (n (Filled-error xs s.phases s.combine.results i e p k.0 a b))

  module _ (outcomes : List (Settled V E)) (h : 0 < length outcomes)
      (k : length outcomes < 2 ^ 64) where
    -- Whatever the order in which the threads of at least one and fewer than 2^64 promises make
    -- their calls, the promise that `combine` returns is settled at most once.
    pub combine_settles_once :
        (events : List Event)
        → length ((run outcomes events (start outcomes)).combine.settlements) ≤ 1
    combine_settles_once events =
        once outcomes _ (run-Inv outcomes events (start outcomes) (start-Inv outcomes h k)) _ refl

    -- Once every one of at least one and fewer than 2^64 promises has called back and run its
    -- finalizer, in whatever order: if all were resolved, then the promise that `combine` returns
    -- is resolved once, with all the values in the order of the promises; otherwise it is rejected
    -- once, with the error of one of them.
    pub combine_outcome :
        (events : List Event)
        → unfinished ((run outcomes events (start outcomes)).phases) ≡ 0
        → Combined outcomes ((run outcomes events (start outcomes)).combine.settlements)
    combine_outcome events u =
        combined outcomes _ (run-Inv outcomes events (start outcomes) (start-Inv outcomes h k)) u _
          refl

    -- As soon as one of at least one and fewer than 2^64 promises has called back with an error,
    -- whatever else has happened, the promise that `combine` returns is rejected, once and with the
    -- error of one of the promises.
    pub combine_fails_fast :
        (events : List Event) (i : ℕ) (e : E) (p : Phase)
        → get_elem? outcomes i ≡ some (error e)
        → get_elem? ((run outcomes events (start outcomes)).phases) i ≡ some p
        → p ≢ waiting
        → (d : E) × Contains d outcomes
          × ((run outcomes events (start outcomes)).combine.settlements ≡ error d ∷ [])
    combine_fails_fast events i e p a b n =
        failed_fast outcomes _ (run-Inv outcomes events (start outcomes) (start-Inv outcomes h k)) i
          e p a b n _ refl
