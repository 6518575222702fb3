-- ===== src/Loop/Queue.antt =====
-- `ConcurrentQueue` (concurrent_queue.h and concurrent_queue.tcc). Each function is what a call does
-- while it holds the lock.
use kaiu.Base.{Bool, true, false, not, ◌||◌, List, [], ◌∷◌, ◌++◌, if◌then◌else◌}

-- `pushed` and `popped` are the history of the queue.
pub record Queue (T : Type 0) : Type 0 where
  pub events : List T
  pub nowaiting : Bool
  pub pushed : List T
  pub popped : List T

-- What `pop` does: it waits, it gives an item, or it returns false.
pub data Popped (T : Type 0) : Type 0 where
  waits : Popped T
  gives : T → Queue T → Popped T
  ends : Popped T

module _ {T : Type 0} where
  abbrev pub new_queue : Bool → Queue T
  new_queue nowaiting = record { events = []; nowaiting = nowaiting; pushed = []; popped = [] }

  unfoldable pub push : T → Queue T → Queue T
  push x q = record q { events = q.events ++ (x ∷ []); pushed = q.pushed ++ (x ∷ []) }

  unfoldable pub set_nowaiting : Bool → Queue T → Queue T
  set_nowaiting b q = record q { nowaiting = b }

  abbrev empty : List T → Bool
  empty [] = true
  empty (x ∷ xs) = false

  abbrev pub is_empty : Queue T → Bool
  is_empty q = empty q.events

  abbrev pub end_wait_condition : Queue T → Bool
  end_wait_condition q = q.nowaiting || not (is_empty q)

  -- The rest of `pop`, once the wait has ended.
  abbrev pub take_from : List T → Queue T → Popped T
  take_from [] q = ends
  take_from (x ∷ xs) q = gives x (record q { events = xs; popped = q.popped ++ (x ∷ []) })

  unfoldable pub pop : Queue T → Popped T
  pop q = if end_wait_condition q then take_from q.events q else waits
