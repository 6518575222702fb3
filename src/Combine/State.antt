-- ===== src/Combine/State.antt =====
-- `HomogenousCombineState`, and the callbacks that `combine` binds to each promise. A default
-- constructed result is `none`.
use kaiu.Base.{
  ℕ, ◌+◌, ◌-◌, ◌%◌, ◌^◌, Bool, true, false, not, ◌&&◌, List, [], ◌∷◌, ◌++◌, Option, none, some,
  ◌==◌, if◌then◌else◌, length, get_elem?, set, replicate,
}
use kaiu.Promise.Types.{Settled, value, error}

-- `settlements` is how `nextPromise` was settled, oldest first.
pub record Combine (V E : Type 0) : Type 0 where
  pub results : List (Option V)
  pub remaining : ℕ
  pub failed : Bool
  pub settlements : List (Settled (List (Option V)) E)

-- `remaining--` on a size_t.
abbrev pub decrement : ℕ → ℕ
decrement n = (n + (2 ^ 64 - 1)) % 2 ^ 64

module _ {V E : Type 0} where
  abbrev pub new_combine : ℕ → Combine V E
  new_combine count = record {
    results = replicate count none;
    remaining = count;
    failed = false;
    settlements = [];
  }

  unfoldable pub next : ℕ → V → Combine V E → Combine V E
  next index result s =
      if s.failed then s else record s { results = set s.results index (some result) }

  unfoldable pub handler : E → Combine V E → Combine V E
  handler e s =
      if s.failed
      then s
      else record s { failed = true; settlements = s.settlements ++ (error e ∷ []) }

  unfoldable pub finalizer : Combine V E → Combine V E
  finalizer s =
      let left = decrement s.remaining in
      if left == 0 && not s.failed
      then record s { remaining = left; settlements = s.settlements ++ (value s.results ∷ []) }
      else record s { remaining = left }

-- How far a promise has come with its callbacks: the lock is free between the two calls.
pub data Phase : Type 0 where
  waiting called finished : Phase

-- A thread calls `next` or `handler` for the promise with an index, or its finalizer.
pub data Event : Type 0 where
  calls finishes : ℕ → Event

pub record Combining (V E : Type 0) : Type 0 where
  pub combine : Combine V E
  pub phases : List Phase

module _ {V E : Type 0} where
  -- `combine`: the callbacks are bound to each promise, with its index.
  abbrev pub start : List (Settled V E) → Combining V E
  start outcomes = record {
    combine = new_combine (length outcomes);
    phases = replicate (length outcomes) waiting;
  }

  abbrev pub call_with : ℕ → Settled V E → Combine V E → Combine V E
  call_with i (value v) s = next i v s
  call_with i (error e) s = handler e s

  abbrev pub call_at : ℕ → Option (Settled V E) → Option Phase → Combining V E → Combining V E
  call_at i (some x) (some waiting) s = record {
    combine = call_with i x s.combine;
    phases = set s.phases i called;
  }
  call_at i _ _ s = s

  abbrev pub finish_at : ℕ → Option Phase → Combining V E → Combining V E
  finish_at i (some called) s = record {
    combine = finalizer s.combine;
    phases = set s.phases i finished;
  }
  finish_at i _ s = s

  -- The promise with index `i` is settled as `outcomes` says; an event out of turn does not happen.
  unfoldable pub happen : List (Settled V E) → Event → Combining V E → Combining V E
  happen outcomes (calls i) s = call_at i (get_elem? outcomes i) (get_elem? s.phases i) s
  happen outcomes (finishes i) s = finish_at i (get_elem? s.phases i) s

  unfoldable pub run : List (Settled V E) → List Event → Combining V E → Combining V E
  run outcomes [] s = s
  run outcomes (x ∷ xs) s = run outcomes xs (happen outcomes x s)
