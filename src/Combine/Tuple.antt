-- ===== src/Combine/Tuple.antt =====
-- `HeterogenousCombineState`, and the callbacks that `combine` binds to each promise of a tuple
-- (tuple_iteration.h). A default constructed result is `none`.
use kaiu.Base.{
  ℕ, zero, suc, Bool, true, false, not, ◌&&◌, List, [], ◌∷◌, ◌++◌, Option, none, some, ◌==◌,
  if◌then◌else◌, length, get_elem?, set, replicate,
}
use kaiu.Promise.Types.{Settled, value, error}
use kaiu.Combine.State.{decrement, Phase, waiting, called, finished, Event, calls, finishes}

-- `std::tuple` of one `F T` for each type, and the type at an index of a pack of types.
abbrev pub Tuple : (Type 0 → Type 0) → List (Type 0) → Type 0
Tuple F [] = Unit
Tuple F (T ∷ types) = F T × Tuple F types

abbrev pub Element : List (Type 0) → ℕ → Type 0
Element [] i = Unit
Element (T ∷ types) zero = T
Element (T ∷ types) (suc i) = Element types i

abbrev pub Results : List (Type 0) → Type 0
Results types = Tuple Option types

abbrev pub Outcomes : Type 0 → List (Type 0) → Type 0
Outcomes E types = Tuple (λ T. Settled T E) types

-- A default constructed tuple, and the assignment to `std::get<index>`.
abbrev pub no_results : (types : List (Type 0)) → Results types
no_results [] = tt
no_results (T ∷ types) = (none, no_results types)

abbrev pub put : (types : List (Type 0)) (i : ℕ) → Element types i → Results types → Results types
put [] i v rs = tt
put (T ∷ types) zero v (r, rs) = (some v, rs)
put (T ∷ types) (suc i) v (r, rs) = (r, put types i v rs)

module _ {E : Type 0} where
  -- How the promise at an index of the tuple is settled.
  abbrev pub outcome_at :
      (types : List (Type 0)) → Outcomes E types → (i : ℕ) → Option (Settled (Element types i) E)
  outcome_at [] xs i = none
  outcome_at (T ∷ types) (x, xs) zero = some x
  outcome_at (T ∷ types) (x, xs) (suc i) = outcome_at types xs i

-- `settlements` is how `nextPromise` was settled, oldest first.
pub record TupleCombine (types : List (Type 0)) (E : Type 0) : Type 0 where
  pub results : Results types
  pub remaining : ℕ
  pub failed : Bool
  pub settlements : List (Settled (Results types) E)

pub record TupleCombining (types : List (Type 0)) (E : Type 0) : Type 0 where
  pub combine : TupleCombine types E
  pub phases : List Phase

module _ (types : List (Type 0)) {E : Type 0} where
  abbrev pub new_tuple : TupleCombine types E
  new_tuple = record {
    results = no_results types;
    remaining = length types;
    failed = false;
    settlements = [];
  }

  unfoldable pub next_at : (i : ℕ) → Element types i → TupleCombine types E → TupleCombine types E
  next_at i result s = if s.failed then s else record s { results = put types i result s.results }

  unfoldable pub tuple_handler : E → TupleCombine types E → TupleCombine types E
  tuple_handler e s =
      if s.failed
      then s
      else record s { failed = true; settlements = s.settlements ++ (error e ∷ []) }

  unfoldable pub finally : TupleCombine types E → TupleCombine types E
  finally s =
      let left = decrement s.remaining in
      if left == 0 && not s.failed
      then record s { remaining = left; settlements = s.settlements ++ (value s.results ∷ []) }
      else record s { remaining = left }

  -- `combine`: the callbacks are bound to each promise of the tuple, with its index.
  abbrev pub start_tuple : TupleCombining types E
  start_tuple = record { combine = new_tuple; phases = replicate (length types) waiting }

  abbrev pub call_index :
      (i : ℕ) → Settled (Element types i) E → TupleCombine types E → TupleCombine types E
  call_index i (value v) s = next_at i v s
  call_index i (error e) s = tuple_handler e s

  abbrev pub tuple_call :
      (i : ℕ)
      → Option (Settled (Element types i) E)
      → Option Phase
      → TupleCombining types E
      → TupleCombining types E
  tuple_call i (some x) (some waiting) s = record {
    combine = call_index i x s.combine;
    phases = set s.phases i called;
  }
  tuple_call i _ _ s = s

  abbrev pub tuple_finish : ℕ → Option Phase → TupleCombining types E → TupleCombining types E
  tuple_finish i (some called) s = record {
    combine = finally s.combine;
    phases = set s.phases i finished;
  }
  tuple_finish i _ s = s

  -- The promises of the tuple are settled as `outcomes` says; an event out of turn does not happen.
  unfoldable pub tuple_happen :
      Outcomes E types → Event → TupleCombining types E → TupleCombining types E
  tuple_happen outcomes (calls i) s =
      tuple_call i (outcome_at types outcomes i) (get_elem? s.phases i) s
  tuple_happen outcomes (finishes i) s = tuple_finish i (get_elem? s.phases i) s

  unfoldable pub tuple_run :
      Outcomes E types → List Event → TupleCombining types E → TupleCombining types E
  tuple_run outcomes [] s = s
  tuple_run outcomes (x ∷ xs) s = tuple_run outcomes xs (tuple_happen outcomes x s)
