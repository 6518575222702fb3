-- ===== src/Task/State.antt =====
-- `task`, `dispatchable` and `dispatch` (task.h and task.tcc), over the store of promises and the events
-- that are pushed to the loop. A call of a factory with its arguments is known by what it does, a
-- `Reply`; currying the loop and the arguments is the matter of `Functional`.
use kaiu.Base.{ℕ, Bool, none, some, List, [], ◌∷◌, ◌++◌, if◌then◌else◌}
use kaiu.Base.Action.{Action, Outcome, done, thrown, and_then, on_throw, return, throw, ◌>>=◌, ◌>>◌}
use kaiu.Loop.Pools.{EventLoopPool, number, not_positive, target, invalid_argument, out_of_range}
use kaiu.Loop.Pools
use kaiu.Promise.Types.{
  Raised, Settled, Reply, Posted, Heap, user, existing, settled, raises, chained, posts,
  new_promise,
}
use kaiu.Promise.State.{Run, settle, set_callbacks, settled_promise, follow, update_within}
use kaiu.Promise.Chain.{Called, factory, then}

-- The events that a task pushes: its action, with the promise of the task and the pool to react in; and
-- the proxy that settles the promise.
pub data Work (V E : Type 0) : Type 0 where
  action : ℕ → Reply V E → EventLoopPool → Work V E
  proxy : ℕ → Settled V E → Work V E

pub record Pushed (V E : Type 0) : Type 0 where
  pub pool : EventLoopPool
  pub work : Work V E

-- The promises, and all events pushed so far, in order.
pub record Tasks (V E : Type 0) : Type 0 where
  pub heap : Heap V E
  pub pushed : List (Pushed V E)

-- What leaves an event: an exception of the promises, or a refusal of `push`.
pub data Failed (E : Type 0) : Type 0 where
  promises : Raised E → Failed E
  refused : Pools.Fault → Failed E

module _ {V E A : Type 0} where
  abbrev back : Tasks V E → Outcome (Heap V E) (Raised E) A → Outcome (Tasks V E) (Failed E) A
  back s (done a h) = done a (record s { heap = h })
  back s (thrown f h) = thrown (promises f) (record s { heap = h })

  abbrev pub on_heap : Action (Heap V E) (Raised E) A → Action (Tasks V E) (Failed E) A
  on_heap m s = back s (m s.heap)

module _ {V E : Type 0} (known : EventLoopPool → Bool) where
  -- `loop.push`, in a thread of the pool `current`; `known` are the pools that the loop has.
  unfoldable pub push_event :
      EventLoopPool → EventLoopPool → Work V E → Action (Tasks V E) (Failed E) (Unit {0})
  push_event current pool work s =
      let to = target current pool in
      if not_positive (number to)
      then thrown (refused invalid_argument) s
      else (if known to
          then done tt (record s { pushed = s.pushed ++ (record { pool = to; work = work } ∷ []) })
          else thrown (refused out_of_range) s)

  -- A call of a task, in a thread of the pool `current`.
  unfoldable pub task :
      EventLoopPool → EventLoopPool → EventLoopPool → Reply V E → Action (Tasks V E) (Failed E) ℕ
  task current action_pool reaction_pool reply = do
    promise ← on_heap new_promise
    push_event current action_pool (action promise reply reaction_pool)
    return promise

  -- `dispatchable` and `dispatch`: of a function, with its argument.
  unfoldable pub dispatch :
      {A : Type 0}
      → EventLoopPool
      → (A → Called V E)
      → EventLoopPool
      → EventLoopPool
      → A
      → Action (Tasks V E) (Failed E) ℕ
  unfolding task factory
  dispatch current func action_pool reaction_pool arg =
      task current action_pool reaction_pool (factory func arg)

  -- The events that callbacks have pushed reach the loop from the thread that ran the callbacks.
  unfoldable pub flush_all :
      EventLoopPool → List (Posted V E) → Action (Tasks V E) (Failed E) (Unit {0})
  flush_all current [] = return tt
  flush_all current (p ∷ ps) =
      push_event current p.pool (proxy p.promise p.settlement) >> flush_all current ps

  unfoldable pub flush : EventLoopPool → Action (Tasks V E) (Failed E) (Unit {0})
  unfolding flush_all
  flush current s =
      flush_all current s.heap.posted (record s { heap = record s.heap { posted = [] } })

module _ {V E : Type 0} (safe : Bool) (fuel : ℕ) where
  -- A call of a promise factory.
  unfoldable pub produce : Reply V E → Action (Heap V E) (Raised E) ℕ
  produce (existing r) = return r
  produce (settled x) = settled_promise safe (update_within safe fuel) x
  produce (raises e) = throw (user e)
  produce (chained as_error links) = follow safe (update_within safe fuel) links

  -- The action and the proxy.
  unfoldable pub run_work : Work V E → Run V E
  unfolding produce
  run_work (action promise reply reaction_pool) = do
    r ← produce reply
    set_callbacks safe (update_within safe fuel) r (posts reaction_pool promise)
  run_work (proxy promise x) = settle safe (update_within safe fuel) promise x

  -- An event of a task, in a thread of the pool `current`.
  unfoldable pub execute :
      (EventLoopPool → Bool) → EventLoopPool → Work V E → Action (Tasks V E) (Failed E) (Unit {0})
  execute known current work s =
      and_then (on_throw (flush known current) (on_heap (run_work work) s))
        (λ _. flush known current)

  -- The operators `|`: a factory of no argument, and a promise, before a factory of one.
  unfoldable pub pipe_factory : Reply V E → (V → Reply V E) → Action (Heap V E) (Raised E) ℕ
  unfolding produce
  pipe_factory l r = do p ← produce l; (then) safe fuel p (some r) none none

  unfoldable pub pipe_promise : ℕ → (V → Reply V E) → Action (Heap V E) (Raised E) ℕ
  pipe_promise p r = (then) safe fuel p (some r) none none
