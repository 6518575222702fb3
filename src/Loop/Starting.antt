-- ===== src/Loop/Starting.antt =====
-- What the constructor of the parallel event loop starts, and where `push` puts an event.
use kaiu.Base.{
  ◌⊎◌, ℕ, zero, suc, ◌+◌, ◌-◌, ◌%◌, ◌^◌, ◌<◌, ◌≡◌, refl, sym, ap, Bool, true, false, none, some,
  List, [], ◌∷◌, ◌++◌, map, length, length-append, length-replicate, replicate, ◌==◌, if◌then◌else◌,
  arith, Bool-cases, inl, inr,
}
use kaiu.Loop.Parallel.{start, new_worker}
use kaiu.Loop.Places.{pools_of, pools_of-new}
use kaiu.Loop.Pools.{Pools, PoolLoop, not_positive, count_threads, spawn, keys_of, construct}

-- The sizes asked for, added up, to the first that is not a positive int; and whether each is one.
abbrev pub total : Pools → ℕ
total [] = 0
total ((pool, size) ∷ pools) = if not_positive size then 0 else size + total pools

abbrev pub all_positive : Pools → Bool
all_positive [] = true
all_positive ((pool, size) ∷ pools) = if not_positive size then false else all_positive pools

count_threads-eq :
    (pools : Pools) (n : ℕ)
    → n + total pools < 2 ^ 32
    → count_threads pools n ≡ (if all_positive pools then some (n + total pools) else none)
unfolding count_threads
count_threads-eq [] n h = ground arith
count_threads-eq ((pool, size) ∷ pools) n h =
    ground (arith, count_threads-eq pools ((n + size) % 2 ^ 32))

length-spawn :
    (place : ℕ) (pools : Pools)
    → all_positive pools ≡ true
    → length (spawn place pools) ≡ total pools
unfolding spawn
length-spawn place [] h = refl
length-spawn place ((pool, size) ∷ pools) h = ground (
  arith,
  length-append (replicate size place) (spawn (suc place) pools),
  length-replicate size place,
  length-spawn (suc place) pools,
)

-- How many threads serve the queue at a place.
abbrev pub serving : ℕ → List ℕ → ℕ
serving place [] = 0
serving place (k ∷ ks) = (if k == place then 1 else 0) + serving place ks

-- The size asked for, by the place of the pool.
abbrev pub size_at : ℕ → Pools → ℕ
size_at place [] = 0
size_at zero ((pool, size) ∷ pools) = size
size_at (suc place) ((pool, size) ∷ pools) = size_at place pools

serving-append :
    (place : ℕ) (ks ls : List ℕ) → serving place (ks ++ ls) ≡ serving place ks + serving place ls
serving-append place [] ls = omega arith
serving-append place (k ∷ ks) ls = omega (arith, serving-append place ks ls)

serving-replicate : (place n k : ℕ) → serving place (replicate n k) ≡ (if k == place then n else 0)
serving-replicate place zero k = ground arith
serving-replicate place (suc n) k = ground (arith, serving-replicate place n k)

serving-below :
    (place first : ℕ) (pools : Pools) → place < first → serving place (spawn first pools) ≡ 0
unfolding spawn
serving-below place first [] h = refl
serving-below place first ((pool, size) ∷ pools) h = ground (
  arith,
  serving-append place (replicate size first) (spawn (suc first) pools),
  serving-replicate place size first,
  serving-below place (suc first) pools,
)

serving-spawn :
    (place first : ℕ) (pools : Pools)
    → serving (first + place) (spawn first pools) ≡ size_at place pools
unfolding spawn
serving-spawn place first [] = refl
serving-spawn zero first ((pool, size) ∷ pools) = ground (
  arith,
  serving-append (first + 0) (replicate size first) (spawn (suc first) pools),
  serving-replicate (first + 0) size first,
  serving-below (first + 0) (suc first) pools,
)
serving-spawn (suc place) first ((pool, size) ∷ pools) = ground (
  arith,
  serving-append (first + suc place) (replicate size first) (spawn (suc first) pools),
  serving-replicate (first + suc place) size first,
  serving-spawn place (suc first) pools,
  ap (λ k. serving k (spawn (suc first) pools)) (shift first place),
)
  where
    shift : (a b : ℕ) → a + suc b ≡ suc a + b
    shift a b = omega arith

serving-at :
    (k first place : ℕ) (pools : Pools)
    → k ≡ first + place
    → serving k (spawn first pools) ≡ size_at place pools
serving-at k first place pools e = rw e (serving-spawn place first pools)

module _ (T : Type 0) where
  length-new : (ks : List ℕ) → length (map (new_worker {T = T}) ks) ≡ length ks
  length-new [] = refl
  length-new (k ∷ ks) = ap suc (length-new ks)

module _ {T X : Type 0} where
  -- A queue for each pool, as many threads for each as asked for, all of them counted as not idle, and
  -- a pistol that waits for them and for the constructor.
  pub record Started (pools : Pools) (s : PoolLoop T X) : Type 0 where
    pub keys : s.keys ≡ keys_of pools
    pub queues : length s.loop.queues ≡ length pools
    pub threads : (place : ℕ) → serving place (pools_of s.loop.workers) ≡ size_at place pools
    pub counted : s.loop.not_idle ≡ length s.loop.workers
    pub racers : s.starter_pistol.racers ≡ length s.loop.workers + 1

  abbrev opened_with : ℕ → Pools → PoolLoop T X
  opened_with racers pools = record {
    keys = keys_of pools;
    loop = start (length pools) (spawn 0 pools);
    starter_pistol = record { racers = racers; threads = [] };
  }

  abbrev opened : Pools → PoolLoop T X
  opened pools = opened_with (total pools + 1) pools

  opened-Started : (pools : Pools) → all_positive pools ≡ true → Started pools (opened pools)
  opened-Started pools e = record {
    keys = refl;
    queues = length-replicate (length pools) _;
    threads = λ place. rw (pools_of-new T) (serving-at place 0 place pools (omega arith));
    counted = sym (length-new T (spawn 0 pools));
    racers = omega (arith, length-new T (spawn 0 pools), length-spawn 0 pools e);
  }

  construct-eq :
      (pools : Pools)
      → total pools < 2 ^ 31 - 1
      → construct {T = T} {X = X} pools ≡ (if all_positive pools then some (opened pools) else none)
  unfolding construct
  construct-eq pools h = elim (Bool-cases (all_positive pools)) [
    | inl e ↦
        rw (count_threads-eq pools 0 (omega arith), e) (ap (λ n. some (opened_with n pools)) fits)
    | inr e ↦ rw (count_threads-eq pools 0 (omega arith), e) refl
  ]
    where
      fits : (0 + total pools + 1) % 2 ^ 32 ≡ total pools + 1
      fits = omega arith

  -- Where the sizes asked for, to the first that is not positive, come to less than 2^31 - 1, a
  -- parallel event loop is constructed exactly when each of them is positive; it then has a queue
  -- for each pool, in each pool the number of threads asked for, all of them counted as not idle,
  -- and a pistol that waits for as many calls of ready as there are threads, and one for the
  -- constructor.
  pub construct-Started :
      (pools : Pools)
      → total pools < 2 ^ 31 - 1
      → ((all_positive pools ≡ true)
          × ((s : PoolLoop T X) × (construct pools ≡ some s) × Started pools s))
        ⊎ ((all_positive pools ≡ false) × (construct {T = T} {X = X} pools ≡ none))
  construct-Started pools h = elim (Bool-cases (all_positive pools)) [
    | inl e ↦ inl (e, (opened pools, rw (construct-eq pools h, e) refl, opened-Started pools e))
    | inr e ↦ inr (e, rw (construct-eq pools h, e) refl)
  ]
