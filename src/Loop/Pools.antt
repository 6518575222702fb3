-- ===== src/Loop/Pools.antt =====
-- The pools of event_loop.h, and the constructor and `push` of `ParallelEventLoop` over them. An int is
-- kept as its residue modulo 2^32.
use kaiu.Base.{
  ℕ, suc, ◌+◌, ◌-◌, ◌%◌, ◌^◌, Bool, ◌||◌, Option, none, some, List, [], ◌∷◌, ◌++◌, length,
  get_elem?, replicate, leb, ◌==◌, if◌then◌else◌,
}
use kaiu.Base.Action.{Outcome, done, thrown}
use kaiu.Loop.Parallel.{Loop, start, push_at}
use kaiu.Loop.Pistol.{Pistol, reset}

pub data EventLoopPool : Type 0 where
  same unknown invalid reactor interaction service controller calculation : EventLoopPool
  io_local io_remote : EventLoopPool

abbrev pub number : EventLoopPool → ℕ
number same = 2 ^ 32 - 2
number unknown = 2 ^ 32 - 1
number invalid = 0
number reactor = 100
number interaction = 200
number service = 300
number controller = 400
number calculation = 500
number io_local = 600
number io_remote = 700

-- `n <= 0`.
abbrev pub not_positive : ℕ → Bool
not_positive n = n == 0 || leb (2 ^ 31) n

-- The exceptions of the constructor, of `push` and of `queues.at`.
pub data Fault : Type 0 where
  invalid_argument out_of_range : Fault

-- The pools of a loop, with the sizes asked for, in the order in which the map lists them.
abbrev pub Pools : Type 0
Pools = List (EventLoopPool × ℕ)

-- The first loop of the constructor: `none` is the exception.
unfoldable pub count_threads : Pools → ℕ → Option ℕ
count_threads [] total_threads = some total_threads
count_threads ((pool, size) ∷ pools) total_threads =
    let rest = count_threads pools ((total_threads + size) % 2 ^ 32) in
    if not_positive size then none else rest

-- The second: the pool of each thread, by the place of its queue.
unfoldable pub spawn : ℕ → Pools → List ℕ
spawn place [] = []
spawn place ((pool, size) ∷ pools) = replicate size place ++ spawn (suc place) pools

-- A loop, with the pools that have its queues, and the pistol that its threads start with.
pub record PoolLoop (T X : Type 0) : Type 0 where
  pub keys : List EventLoopPool
  pub loop : Loop T X
  pub starter_pistol : Pistol

abbrev pub keys_of : Pools → List EventLoopPool
keys_of [] = []
keys_of ((pool, size) ∷ pools) = pool ∷ keys_of pools

abbrev pub new_pistol : Pistol
new_pistol = record { racers = 0; threads = [] }

module _ {T X : Type 0} where
  abbrev started : Pools → Option Pistol → Option (PoolLoop T X)
  started pools none = none
  started pools (some pistol) = some (record {
    keys = keys_of pools;
    loop = start (length pools) (spawn 0 pools);
    starter_pistol = pistol;
  })

  abbrev with_count : Pools → Option ℕ → Option (PoolLoop T X)
  with_count pools none = none
  with_count pools (some total_threads) =
      started pools (reset ((total_threads + 1) % 2 ^ 32) new_pistol)

  -- The constructor, up to the point where its threads are started.
  unfoldable pub construct : Pools → Option (PoolLoop T X)
  unfolding count_threads spawn reset
  construct pools = with_count pools (count_threads pools 0)

-- `queues.at`: the place of a pool's queue.
unfoldable pub place_of : ℕ → List EventLoopPool → Option ℕ
place_of n [] = none
place_of n (k ∷ ks) =
    let rest = place_of n ks in
    if number k == n then some 0 else elim rest [ none ↦ none | some i ↦ some (suc i) ]

-- The pool that `same` stands for is that of the calling thread.
unfoldable pub target : EventLoopPool → EventLoopPool → EventLoopPool
target current pool = if number pool == number same then current else pool

module _ {T X : Type 0} where
  abbrev pub push_to : Option ℕ → T → PoolLoop T X → Outcome (PoolLoop T X) Fault (Unit {0})
  push_to none x s = thrown out_of_range s
  push_to (some i) x s =
      done tt (record s { loop = push_at i x (get_elem? s.loop.queues i) s.loop })

  -- `push`, in a thread of the pool `current`.
  unfoldable pub push :
      EventLoopPool → EventLoopPool → T → PoolLoop T X → Outcome (PoolLoop T X) Fault (Unit {0})
  unfolding place_of target
  push current pool x s =
      if not_positive (number (target current pool))
      then thrown invalid_argument s
      else push_to (place_of (number (target current pool)) s.keys) x s
