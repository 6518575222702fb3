-- ===== src/Loop/Joining.antt =====
-- `process_exceptions`, `join` and the destructor of `ParallelEventLoop` (event_loop.cpp), among the
-- steps of its threads.
use kaiu.Base.{
  ℕ, Bool, true, false, List, [], ◌∷◌, ◌++◌, Option, none, some, get_elem?, if◌then◌else◌, length,
  zero, suc, ◌==◌,
}
use kaiu.Base.Action.{Action, Outcome, done, thrown, modify, ◌>>◌}
use kaiu.Loop.Counter.{is_zero}
use kaiu.Loop.Parallel.{
  Worker, Loop, Event, working, stopped, sets_nowaiting, throws, happen, join_ends,
}
use kaiu.Loop.Pools.{EventLoopPool, number, unknown}

-- A loop whose exceptions are handled: `raised` and `handled` are the history of all exceptions that
-- left an event and of those that the handler was called with.
pub record Joined (T X : Type 0) : Type 0 where
  pub loop : Loop T X
  pub raised : List X
  pub handled : List X

-- `logic_error`, an exception of the handler, or no exception: the call has not returned.
pub data Fault (F : Type 0) : Type 0 where
  join_called_from_worker : Fault F
  handler_threw : F → Fault F
  not_returned : Fault F

-- One round of the loop in `join`: what happens until the wait for zero looks at the counter for the
-- last time, and what happens then until all queues are locked.
pub record Round (T X : Type 0) : Type 0 where
  pub before_zero : List (Event T X)
  pub before_locked : List (Event T X)

-- The function that is called with each exception, if it is not null; it may throw.
abbrev pub Handler : Type 0 → Type 0 → Type 0
Handler X F = Option (X → Option F)

module _ {T X : Type 0} where
  abbrev pub raised_at : X → Option (Worker T) → List X
  raised_at x none = []
  raised_at x (some w) = elim w.phase [ working y ↦ x ∷ [] | _ ↦ [] ]

  -- The exception that leaves an event, if it does.
  abbrev pub raised_by : Event T X → Loop T X → List X
  raised_by (throws i x) s = raised_at x (get_elem? s.workers i)
  raised_by _ s = []

  abbrev pub step : Event T X → Joined T X → Joined T X
  step e s = record s { loop = happen e s.loop; raised = s.raised ++ raised_by e s.loop }

  unfoldable pub advance : List (Event T X) → Joined T X → Joined T X
  advance [] s = s
  advance (e ∷ es) s = advance es (step e s)

  abbrev pub drop_first : List X → Joined T X → Joined T X
  drop_first xs s = record s { loop = record s.loop { exceptions = xs } }

  abbrev pub handle : X → Joined T X → Joined T X
  handle x s = record s { handled = s.handled ++ (x ∷ []) }

module _ {T X F : Type 0} where
  abbrev checked :
      Option F
      → (Joined T X → Outcome (Joined T X) (Fault F) (Unit {0}))
      → Joined T X
      → Outcome (Joined T X) (Fault F) (Unit {0})
  checked (some f) rest s = thrown (handler_threw f) s
  checked none rest s = rest s

  -- The loop of `process_exceptions`, over the exceptions that are queued.
  unfoldable pub process_loop : Handler X F → List X → Action (Joined T X) (Fault F) (Unit {0})
  process_loop handler [] s = done tt s
  process_loop none (x ∷ xs) s = process_loop none xs (drop_first xs s)
  process_loop (some f) (x ∷ xs) s =
      let rest = process_loop (some f) xs in checked (f x) rest (handle x (drop_first xs s))

  unfoldable pub process_exceptions : Handler X F → Action (Joined T X) (Fault F) (Unit {0})
  unfolding process_loop
  process_exceptions handler s = process_loop handler s.loop.exceptions s

  -- `waitForZero` has not returned while the counter is not zero.
  unfoldable pub wait_for_zero : Action (Joined T X) (Fault F) (Unit {0})
  wait_for_zero s = if is_zero s.loop.not_idle then done tt s else thrown not_returned s

  -- The test of a round, and what follows it.
  abbrev pub tested :
      Handler X F
      → (Joined T X → Outcome (Joined T X) (Fault F) (Unit {0}))
      → Joined T X
      → Outcome (Joined T X) (Fault F) (Unit {0})
  tested handler again s = if join_ends s.loop then process_exceptions handler s else again s

  abbrev pub join_round :
      Handler X F
      → Round T X
      → (Joined T X → Outcome (Joined T X) (Fault F) (Unit {0}))
      → Action (Joined T X) (Fault F) (Unit {0})
  join_round handler r again = do
    process_exceptions handler
    modify (advance r.before_zero)
    wait_for_zero
    modify (advance r.before_locked)
    tested handler again

  -- The loop of `join`.
  unfoldable pub join_loop :
      Handler X F → List (Round T X) → Action (Joined T X) (Fault F) (Unit {0})
  unfolding process_exceptions wait_for_zero advance join_ends
  join_loop handler [] s = thrown not_returned s
  join_loop handler (r ∷ rs) s = let again = join_loop handler rs in join_round handler r again s

  -- `join`, in a thread of the pool `current`.
  unfoldable pub join :
      EventLoopPool → Handler X F → List (Round T X) → Action (Joined T X) (Fault F) (Unit {0})
  unfolding join_loop
  join current handler rounds s =
      if number current == number unknown
      then join_loop handler rounds s
      else thrown join_called_from_worker s

module _ {T X : Type 0} where
  -- The loop of the destructor that ends the waiting in each queue, from a place on, with what
  -- happens before each.
  abbrev pub end_waiting : (ℕ → List (Event T X)) → ℕ → ℕ → List (Event T X)
  end_waiting between place zero = []
  end_waiting between place (suc n) =
      between place ++ (sets_nowaiting place true ∷ end_waiting between (suc place) n)

  abbrev pub stop_queues : (ℕ → List (Event T X)) → Joined T X → Joined T X
  stop_queues between s = advance (end_waiting between 0 (length s.loop.queues)) s

module _ {T : Type 0} where
  abbrev pub all_stopped : List (Worker T) → Bool
  all_stopped [] = true
  all_stopped (w ∷ ws) = elim w.phase [ stopped ↦ all_stopped ws | _ ↦ false ]

module _ {T X F : Type 0} where
  -- `thread.join()` on each thread returns once all have stopped.
  unfoldable pub wait_for_threads : Action (Joined T X) (Fault F) (Unit {0})
  wait_for_threads s = if all_stopped s.loop.workers then done tt s else thrown not_returned s

  -- The destructor: `leaving` is what the threads do after the last queue is in no-waiting mode.
  unfoldable pub destroy :
      EventLoopPool
      → List (Round T X)
      → (ℕ → List (Event T X))
      → List (Event T X)
      → Action (Joined T X) (Fault F) (Unit {0})
  destroy current rounds between leaving = do
    join current none rounds
    modify (stop_queues between)
    modify (advance leaving)
    wait_for_threads
