-- ===== src/Loop/Locks.antt =====
-- `lock_many` (lock_many.tcc). Whether `try_lock` succeeds is up to the other threads: a function of
-- the round and of the number of the mutex. `locks` says which mutexes this thread holds.
use kaiu.Base.{
  ℕ, zero, suc, ◌+◌, ◌%◌, Bool, true, false, List, [], Option, none, some, ◌==◌, if◌then◌else◌, set,
  map, replicate,
}

abbrev pub Locks : Type 0
Locks = List Bool

-- What a round does: it holds all, or it failed at a mutex.
pub data Round : Type 0 where
  all_locked : Locks → Round
  failed : Locks → ℕ → Round

abbrev pub index : ℕ → ℕ → ℕ → ℕ
index count start counter = (start + counter) % count

-- The loop over all mutexes, with `n` of them to go: the first blocks, the others are tried.
unfoldable pub lock_loop : (ℕ → Bool) → ℕ → ℕ → ℕ → ℕ → Locks → Round
lock_loop free count start zero counter locks = all_locked locks
lock_loop free count start (suc n) counter locks =
    let i = index count start counter in
    let rest = lock_loop free count start n (suc counter) (set locks i true) in
    if counter == 0 then rest else if free i then rest else failed locks i

abbrev pub unlock_all : Locks → Locks
unlock_all locks = map (λ b. false) locks

-- The end of a round: all are held, or all are unlocked again.
abbrev pub after_round : (ℕ → Locks → Option Locks) → Round → Option Locks
after_round again (all_locked held) = some held
after_round again (failed held i) = again i (unlock_all held)

-- The rounds; the fuel bounds them.
unfoldable pub lock_rounds : (ℕ → ℕ → Bool) → ℕ → ℕ → ℕ → ℕ → Locks → Option Locks
unfolding lock_loop
lock_rounds free count zero round start locks = none
lock_rounds free count (suc fuel) round start locks =
    let again = lock_rounds free count fuel (suc round) in
    after_round again (lock_loop (free round) count start count 0 locks)

-- The constructor, for `count` mutexes.
unfoldable pub lock_many : (ℕ → ℕ → Bool) → ℕ → ℕ → Option Locks
unfolding lock_rounds
lock_many free fuel count =
    if count == 0 then some [] else lock_rounds free count fuel 0 0 (replicate count false)
