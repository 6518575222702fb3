-- ===== src/Combine/Tests.antt =====
-- Combined promises under particular schedules.
use kaiu.Base.{ℕ, ◌≡◌, refl, List, [], ◌∷◌, some, arith}
use kaiu.Promise.Types.{Settled, value, error}
use kaiu.Combine.State.{
  Event, called, calls, finishes, start, happen, run, next, handler, finalizer,
}
use kaiu.Combine.Slots.{unfinished}
use kaiu.Combine.Steps.{Contains}
use kaiu.Combine.Outcome.{Combined, combine_outcome, combine_fails_fast}

abbrev good : List (Settled ℕ ℕ)
good = value 5 ∷ value 6 ∷ []

abbrev bad : List (Settled ℕ ℕ)
bad = value 5 ∷ error 8 ∷ []

-- The second promise first, with the finalizers after both.
abbrev crossed : List Event
crossed = calls 1 ∷ calls 0 ∷ finishes 1 ∷ finishes 0 ∷ []

crossed-finished : unfinished ((run good crossed (start good)).phases) ≡ 0
unfolding run happen
crossed-finished = refl

combine_outcome_example : Combined good ((run good crossed (start good)).combine.settlements)
combine_outcome_example = combine_outcome good (omega arith) (omega arith) crossed crossed-finished

collected : (run good crossed (start good)).combine.settlements ≡ value (some 5 ∷ some 6 ∷ []) ∷ []
unfolding run happen next finalizer
collected = refl

failing : (run bad crossed (start bad)).combine.settlements ≡ error 8 ∷ []
unfolding run happen next handler finalizer
failing = refl

abbrev at_once : List Event
at_once = calls 1 ∷ []

combine_fails_fast_example :
    (d : ℕ) × Contains d bad × ((run bad at_once (start bad)).combine.settlements ≡ error d ∷ [])
unfolding run happen
combine_fails_fast_example =
    combine_fails_fast bad (omega arith) (omega arith) at_once 1 8 called refl refl (λ e. cc)
