-- ===== src/Loop/Tests.antt =====
-- A parallel event loop of two threads over one pool.
use kaiu.Base.{ℕ, ◌≡◌, refl, true, List, [], ◌∷◌, arith}
use kaiu.Loop.Queue.{pop, push}
use kaiu.Base.{zero, suc, ◌+◌, ◌≤◌, Option, none}
use kaiu.Base.Action.{final, done}
use kaiu.Loop.Synchronous.{Sync, InOrder, construct, construct-InOrder, construct-ends, total}
use kaiu.Base.{get_elem?, some}
use kaiu.Loop.Pistol
use kaiu.Loop.Ready
use kaiu.Loop.Ready.{left, ready_together, ready_releases}
use kaiu.Base.{Bool, false, length}
use kaiu.Loop.Locks.{Locks, lock_many}
use kaiu.Loop.Rounds.{AllHeld}
use kaiu.Loop.Locked.{lock_many-lem}
use kaiu.Loop.Counter.{enter, leave, adjust}
use kaiu.Loop.Parallel.{
  Event, seeks, wakes, returns, runs_push, pushes, throws, happen, run, join_ends,
}
use kaiu.Loop.Balance.{AllFifo}
use kaiu.Loop.Join.{after, after-AllFifo}

abbrev threads : List ℕ
threads = 0 ∷ 0 ∷ []

-- Event 7 pushes event 8, which throws; in the end both threads wait.
abbrev events : List (Event ℕ ℕ)
events =
    seeks 0
    ∷ pushes 0 7
    ∷ seeks 1
    ∷ runs_push 1 0 8
    ∷ wakes 0
    ∷ throws 0 5
    ∷ returns 1
    ∷ seeks 0
    ∷ seeks 1
    ∷ []

ended : join_ends (after {T = ℕ} {X = ℕ} 1 threads (omega arith) events) ≡ true
unfolding run happen pop push enter leave adjust join_ends
ended = refl

after-AllFifo_example : AllFifo ((after {T = ℕ} {X = ℕ} 1 threads (omega arith) events).queues)
after-AllFifo_example = after-AllFifo 1 threads (omega arith) events

-- An event `n + 1` pushes `n` twice.
abbrev halves : ℕ → List ℕ
halves zero = []
halves (suc n) = n ∷ n ∷ []

abbrev never : ℕ → Option ℕ
never n = none

abbrev doubled : ℕ → ℕ
doubled zero = 1
doubled (suc n) = suc (doubled n + (doubled n + 0))

halves-smaller : (n : ℕ) → suc (total halves never doubled (halves n)) ≤ doubled n
halves-smaller zero = omega arith
halves-smaller (suc n) = omega arith

construct-InOrder_example : InOrder halves never 2 (final (construct halves never 3 2))
construct-InOrder_example = construct-InOrder halves never 3 2

construct-ends_example :
    (s : Sync ℕ) × (construct halves never (suc (doubled 2)) 2 ≡ done tt s) × (s.events ≡ [])
construct-ends_example = construct-ends halves never doubled halves-smaller (λ x. refl) 2

-- Two threads: the first waits until the second is ready.
abbrev shots : List Pistol.Event
shots = Pistol.readies 0 ∷ Pistol.wakes 0 ∷ Pistol.readies 1 ∷ []

ready_together_example : left ((Ready.after 2 (omega arith) shots).threads) ≡ 0
unfolding Pistol.run Pistol.happen
ready_together_example = ready_together 2 (omega arith) shots 1 refl

ready_releases_example :
    get_elem? ((Pistol.happen (Pistol.wakes 0) (Ready.after 2 (omega arith) shots)).threads) 0
    ≡ some Pistol.passed
unfolding Pistol.run Pistol.happen
ready_releases_example = ready_releases 2 (omega arith) shots 0 refl refl

-- The second of two mutexes is taken in the first round.
abbrev taken : ℕ → ℕ → Bool
taken zero (suc zero) = false
taken round i = true

lock_many-lem_example :
    (held : Locks) × (lock_many taken 2 2 ≡ some held) × AllHeld held × (length held ≡ 2)
lock_many-lem_example = lock_many-lem taken 2 (omega arith) 1 2 (λ i. refl) (omega arith)
