-- ===== src/Loop/Parallel.antt =====
-- `ParallelEventLoop` (event_loop.h and event_loop.cpp), once its constructor has returned. Queues
-- and threads have numbers; a thread serves the queue of its pool. What a thread does under the lock
-- of its queue is one step, since `join` looks at the queues under all their locks.
use kaiu.Base.{
  ℕ, Bool, true, false, ◌&&◌, List, [], ◌∷◌, ◌++◌, Option, none, some, length, get_elem?, set,
  replicate, map,
}
use kaiu.Loop.Queue.{
  Queue, Popped, waits, gives, ends, push, pop, set_nowaiting, is_empty, new_queue,
}
use kaiu.Loop.Counter.{enter, leave, is_zero}

-- Where a thread is in `do_threaded_loop`: before `next`, waiting in `pop`, in an event, or done.
pub data Phase (T : Type 0) : Type 0 where
  seeking waiting stopped : Phase T
  working : T → Phase T

pub record Worker (T : Type 0) : Type 0 where
  pub pool : ℕ
  pub phase : Phase T

pub record Loop (T X : Type 0) : Type 0 where
  pub queues : List (Queue T)
  pub workers : List (Worker T)
  pub not_idle : ℕ
  pub exceptions : List X

-- What happens: a thread looks for an event, wakes up, pushes an event from within its own, returns
-- from it or throws; or another thread pushes an event or sets a queue's no-waiting mode.
pub data Event (T X : Type 0) : Type 0 where
  seeks wakes returns : ℕ → Event T X
  runs_push : ℕ → ℕ → T → Event T X
  throws : ℕ → X → Event T X
  pushes : ℕ → T → Event T X
  sets_nowaiting : ℕ → Bool → Event T X

abbrev pub all_empty : {T : Type 0} → List (Queue T) → Bool
all_empty [] = true
all_empty (q ∷ qs) = is_empty q && all_empty qs

abbrev pub new_worker : {T : Type 0} → ℕ → Worker T
new_worker pool = record { pool = pool; phase = seeking }

module _ {T X : Type 0} where
  -- All threads have started, and each counts as not idle.
  abbrev pub start : ℕ → List ℕ → Loop T X
  start pools threads = record {
    queues = replicate pools (new_queue false);
    workers = map new_worker threads;
    not_idle = length threads;
    exceptions = [];
  }

  abbrev pub move : ℕ → Worker T → Phase T → Loop T X → Loop T X
  move i w phase s = record s { workers = set s.workers i (record w { phase = phase }) }

  -- `push` to a pool; an unknown pool is refused, and nothing changes.
  abbrev pub push_at : ℕ → T → Option (Queue T) → Loop T X → Loop T X
  push_at pool x none s = s
  push_at pool x (some q) s = record s { queues = set s.queues pool (push x q) }

  -- What `pop` gave decides whether the loop of the thread goes on.
  abbrev pub popped : ℕ → Worker T → Popped T → Loop T X → Loop T X
  popped i w (gives x q) s = record (move i w (working x) s) { queues = set s.queues w.pool q }
  popped i w ends s = record (move i w stopped s) { not_idle = leave 1 s.not_idle }
  popped i w waits s = record (move i w waiting s) { not_idle = leave 1 s.not_idle }

  -- A thread that waits holds an adjustment by -1, which it gives up when its wait ends.
  abbrev pub woken : ℕ → Worker T → Popped T → Loop T X → Loop T X
  woken i w waits s = s
  woken i w p s = popped i w p (record s { not_idle = enter 1 s.not_idle })

  abbrev pub look : ℕ → Worker T → Option (Queue T) → Loop T X → Loop T X
  look i w none s = s
  look i w (some q) s = popped i w (pop q) s

  abbrev pub wake : ℕ → Worker T → Option (Queue T) → Loop T X → Loop T X
  wake i w none s = s
  wake i w (some q) s = woken i w (pop q) s

  abbrev pub seek_at : ℕ → Worker T → Phase T → Loop T X → Loop T X
  seek_at i w seeking s = look i w (get_elem? s.queues w.pool) s
  seek_at i w _ s = s

  abbrev pub wake_at : ℕ → Worker T → Phase T → Loop T X → Loop T X
  wake_at i w waiting s = wake i w (get_elem? s.queues w.pool) s
  wake_at i w _ s = s

  abbrev pub return_at : ℕ → Worker T → Phase T → Loop T X → Loop T X
  return_at i w (working x) s = move i w seeking s
  return_at i w _ s = s

  abbrev pub throw_at : ℕ → X → Worker T → Phase T → Loop T X → Loop T X
  throw_at i e w (working x) s = record (move i w seeking s) {
    exceptions = s.exceptions ++ (e ∷ []);
  }
  throw_at i e w _ s = s

  abbrev pub push_from : ℕ → T → Phase T → Loop T X → Loop T X
  push_from pool y (working x) s = push_at pool y (get_elem? s.queues pool) s
  push_from pool y _ s = s

  abbrev pub nowaiting_at : ℕ → Bool → Option (Queue T) → Loop T X → Loop T X
  nowaiting_at pool b none s = s
  nowaiting_at pool b (some q) s = record s { queues = set s.queues pool (set_nowaiting b q) }

  abbrev pub with_worker :
      Option (Worker T) → (Worker T → Loop T X → Loop T X) → Loop T X → Loop T X
  with_worker none f s = s
  with_worker (some w) f s = f w s

  -- An event out of turn does not happen.
  unfoldable pub happen : Event T X → Loop T X → Loop T X
  happen (seeks i) s = with_worker (get_elem? s.workers i) (λ w. seek_at i w w.phase) s
  happen (wakes i) s = with_worker (get_elem? s.workers i) (λ w. wake_at i w w.phase) s
  happen (returns i) s = with_worker (get_elem? s.workers i) (λ w. return_at i w w.phase) s
  happen (throws i e) s = with_worker (get_elem? s.workers i) (λ w. throw_at i e w w.phase) s
  happen (runs_push i pool y) s =
      with_worker (get_elem? s.workers i) (λ w. push_from pool y w.phase) s
  happen (pushes pool y) s = push_at pool y (get_elem? s.queues pool) s
  happen (sets_nowaiting pool b) s = nowaiting_at pool b (get_elem? s.queues pool) s

  unfoldable pub run : List (Event T X) → Loop T X → Loop T X
  run [] s = s
  run (e ∷ es) s = run es (happen e s)

  -- The test that ends `join`, made under the locks of all queues.
  unfoldable pub join_ends : Loop T X → Bool
  join_ends s = all_empty s.queues && is_zero s.not_idle
