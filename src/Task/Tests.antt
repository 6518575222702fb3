-- ===== src/Task/Tests.antt =====
-- Tasks in a loop of two pools.
use kaiu.Base.{ℕ, ◌≡◌, refl, Bool, true, false, [], arith}
use kaiu.Loop.Pools.{EventLoopPool, reactor, io_local, unknown, target}
use kaiu.Promise.Types.{value, error, settled, empty_heap, new_cell}
use kaiu.Promise.Outcomes.{chain_outcome, depth}
use kaiu.Promise.Chain.{throws, factory}
use kaiu.Task.State.{Tasks}
use kaiu.Task.Course.{Course, task-Course}

abbrev known : EventLoopPool → Bool
known reactor = true
known io_local = true
known _ = false

abbrev idle : Tasks ℕ ℕ
idle = record { heap = empty_heap; pushed = [] }

abbrev nothing : Tasks ℕ ℕ → Tasks ℕ ℕ
nothing t = t

-- The factory of a function that returns 4, dispatched by a thread of no pool to io_local, with the
-- reaction in the reactor.
task-Course_example :
    Course known true 0 unknown io_local reactor (settled (value 4)) (value 4) idle nothing nothing
unfolding depth chain_outcome target
task-Course_example =
    task-Course known true 0 unknown io_local reactor (settled (value 4)) (value 4) idle nothing
      nothing refl tt (omega arith) refl (refl, refl) (refl, refl) (λ t w. w) (λ t w. w)

-- One promise that waits.
abbrev waiting : Tasks ℕ ℕ
waiting = record { heap = record { cells = λ p. new_cell; next_id = 1; posted = [] }; pushed = [] }

-- A factory that `promise::factory` makes of a function returns whatever the function does.
made_of_throwing : factory {V = ℕ} {E = ℕ} (λ (a : ℕ). throws a) 7 ≡ settled (error 7)
unfolding factory
made_of_throwing = refl
