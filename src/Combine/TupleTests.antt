-- ===== src/Combine/TupleTests.antt =====
-- Combined promises of a tuple under a particular schedule.
use kaiu.Base.{ℕ, Bool, true, ◌≡◌, refl, List, [], ◌∷◌, some, arith}
use kaiu.Promise.Types.{value, error}
use kaiu.Combine.State.{Event, calls, finishes}
use kaiu.Combine.Slots.{unfinished}
use kaiu.Combine.Tuple.{
  Outcomes, start_tuple, tuple_run, tuple_happen, next_at, tuple_handler, finally,
}
use kaiu.Combine.Typed.{Gathered, tuple_outcome}

abbrev types : List (Type 0)
types = ℕ ∷ Bool ∷ []

abbrev good : Outcomes ℕ types
good = (value 5, (value true, tt))

abbrev bad : Outcomes ℕ types
bad = (error 8, (value true, tt))

-- The second promise first, with the finalizers after both.
abbrev crossed : List Event
crossed = calls 1 ∷ calls 0 ∷ finishes 1 ∷ finishes 0 ∷ []

tuple-finished : unfinished ((tuple_run types good crossed (start_tuple types)).phases) ≡ 0
unfolding tuple_run tuple_happen
tuple-finished = refl

tuple_outcome_example :
    Gathered types good ((tuple_run types good crossed (start_tuple types)).combine.settlements)
tuple_outcome_example =
    tuple_outcome ℕ types (omega arith) (omega arith) good crossed tuple-finished

collected :
    (tuple_run types good crossed (start_tuple types)).combine.settlements
    ≡ value (some 5, (some true, tt)) ∷ []
unfolding tuple_run tuple_happen next_at finally
collected = refl

failing : (tuple_run types bad crossed (start_tuple types)).combine.settlements ≡ error 8 ∷ []
unfolding tuple_run tuple_happen next_at tuple_handler finally
failing = refl
