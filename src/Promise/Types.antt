-- ===== src/Promise/Types.antt =====
-- promise/state_base.h and state.h: the state of a promise, its callbacks, and the store that shared
-- pointers to promises point into.
use kaiu.Base.{List, [], ℕ, suc, Bool, false, Option, none, ◌==◌, if◌then◌else◌}
use kaiu.Loop.Pools.{EventLoopPool}
use kaiu.Base.Action.{Action, done}

pub data PromiseState : Type 0 where
  pending rejected resolved completed : PromiseState

-- The exceptions that the library itself throws; all but the last two only in a debug build.
pub data Fault : Type 0 where
  double_bind explicitly_pending already_settled not_settled : Fault
  bad_function_call out_of_fuel : Fault

-- What leaves a call by an exception: one of those, or an error that a terminator rethrows.
pub data Raised (E : Type 0) : Type 0 where
  logic : Fault → Raised E
  user : E → Raised E

-- A value to resolve with, or an error to reject with.
pub data Settled (V E : Type 0) : Type 0 where
  value : V → Settled V E
  error : E → Settled V E

-- A finalizer: it may throw.
abbrev pub Finalizer : Type 0 → Type 0
Finalizer E = Option E

-- What a promise-returning callback does: it returns a promise that exists, it returns a new one
-- that is settled at once, it throws, or it returns the last promise of a chain of calls of `then`.
-- In that case, an exception that the library itself throws on the way is an `E` as well, since a
-- callback's exceptions are all caught. Callbacks act on promises in no other way.
mutual
  pub data Reply (V E : Type 0) : Type 0 where
    existing : ℕ → Reply V E
    settled : Settled V E → Reply V E
    raises : E → Reply V E
    chained : (Fault → E) → Links V E → Reply V E

  -- `then` on a new promise that is settled at once, or on the last promise of a chain.
  pub data Links (V E : Type 0) : Type 0 where
    link : Settled V E → (V → Reply V E) → (E → Reply V E) → Finalizer E → Links V E
    more : Links V E → (V → Reply V E) → (E → Reply V E) → Finalizer E → Links V E

-- The pairs of functions that are bound to a promise: by `forward_to`, by `then`, by `finish`, and by
-- a task, whose callbacks push an event that settles the promise of the task.
pub data Callback (V E : Type 0) : Type 0 where
  forwards : ℕ → Callback V E
  chains : ℕ → (V → Reply V E) → (E → Reply V E) → Finalizer E → Callback V E
  terminates : Callback V E
  posts : EventLoopPool → ℕ → Callback V E

-- An event that a callback has pushed: it settles `promise` in the pool `pool`.
pub record Posted (V E : Type 0) : Type 0 where
  pub pool : EventLoopPool
  pub promise : ℕ
  pub settlement : Settled V E

-- One PromiseState; its member `error` is `rejection` here. `on_resolve` and `on_reject` are set and cleared together.
pub record Cell (V E : Type 0) : Type 0 where
  pub state : PromiseState
  pub result : Option V
  pub rejection : Option E
  pub callbacks_assigned : Bool
  pub callbacks : Option (Callback V E)
  pub immortal : Bool

abbrev pub new_cell : {V E : Type 0} → Cell V E
new_cell = record {
  state = pending;
  result = none;
  rejection = none;
  callbacks_assigned = false;
  callbacks = none;
  immortal = false;
}

-- The promises made so far have the numbers below `next_id`; `posted` are the events that callbacks
-- have pushed and that have not reached their event loop.
pub record Heap (V E : Type 0) : Type 0 where
  pub cells : ℕ → Cell V E
  pub next_id : ℕ
  pub posted : List (Posted V E)

abbrev pub empty_heap : {V E : Type 0} → Heap V E
empty_heap = record { cells = λ p. new_cell; next_id = 0; posted = [] }

module _ {V E : Type 0} where
  unfoldable pub put : ℕ → Cell V E → Heap V E → Heap V E
  put p c h = record h { cells = λ q. if q == p then c else h.cells q }

  -- `Promise<Result>()`.
  unfoldable pub new_promise : Action (Heap V E) (Raised E) ℕ
  new_promise h = done h.next_id (record (put h.next_id new_cell h) { next_id = suc h.next_id })
