-- ===== src/Loop/PoolTests.antt =====
-- The constructor, `join` and the destructor of the parallel event loop on particular runs.
use kaiu.Base.{ℕ, ◌≡◌, ◌⊎◌, refl, true, false, none, some, List, [], ◌∷◌, arith, length}
use kaiu.Base.Action.{done, thrown}
use kaiu.Loop.Counter.{enter, leave, adjust}
use kaiu.Loop.Queue.{pop}
use kaiu.Loop.Queue
use kaiu.Loop.Parallel.{Event, seeks, wakes, pushes, throws, happen, join_ends}
use kaiu.Loop.Pools.{
  Pools, PoolLoop, reactor, io_local, same, unknown, construct, push, invalid_argument,
  out_of_range, target,
}
use kaiu.Loop.Joining.{Joined, Round, Handler, advance, destroy, all_stopped}
use kaiu.Loop.Returned.{newly, quiet_round}
use kaiu.Loop.Starting.{Started, all_positive, construct-Started}
use kaiu.Loop.Leaving.{quiet, wake_all}
use kaiu.Loop.Destroyed.{destroy_returns}

abbrev pools : Pools
pools = (reactor, 1) ∷ (io_local, 2) ∷ []

construct-Started_example :
    ((all_positive pools ≡ true)
      × ((s : PoolLoop ℕ ℕ) × (construct pools ≡ some s) × Started pools s))
    ⊎ ((all_positive pools ≡ false) × (construct {T = ℕ} {X = ℕ} pools ≡ none))
construct-Started_example = construct-Started pools (omega arith)

abbrev threads : List ℕ
threads = 0 ∷ []

abbrev handler : Handler ℕ ℕ
handler = some (λ e. none)

-- The only thread takes event 7, which throws 5; the thread then waits.
abbrev rounds : List (Round ℕ ℕ)
rounds =
    record {
      before_zero = seeks 0 ∷ pushes 0 7 ∷ wakes 0 ∷ throws 0 5 ∷ seeks 0 ∷ [];
      before_locked = [];
    }
    ∷ []

-- The same steps before the destructor is called.
abbrev steps : List (Event ℕ ℕ)
steps = seeks 0 ∷ pushes 0 7 ∷ wakes 0 ∷ throws 0 5 ∷ seeks 0 ∷ []

idle : join_ends (advance steps (newly 1 threads (omega arith))).loop ≡ true
unfolding advance happen join_ends pop enter leave adjust Queue.push
idle = refl

destroy_returns_example :
    (t : Joined ℕ ℕ) × (destroy {F = ℕ} unknown
        (quiet_round ∷ [])
        quiet
        (wake_all 0 (length threads))
        (advance steps (newly 1 threads (omega arith)))
      ≡ done tt t)
    × (all_stopped t.loop.workers ≡ true)
destroy_returns_example = destroy_returns 1 threads (omega arith) (omega arith, tt) steps idle

-- `same` is the pool of the calling thread, and none outside of the loop.
refused : (s : PoolLoop ℕ ℕ) → push unknown same 3 s ≡ thrown invalid_argument s
unfolding push target
refused s = refl

no_pool :
    (s : PoolLoop ℕ ℕ)
    → push io_local reactor 3 (record s { keys = io_local ∷ [] })
      ≡ thrown out_of_range (record s { keys = io_local ∷ [] })
unfolding push
no_pool s = refl
