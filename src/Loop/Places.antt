-- ===== src/Loop/Places.antt =====
-- The places of the threads and the queues of the parallel event loop, which never change.
use kaiu.Base.{
  ℕ, zero, suc, ◌≡◌, refl, ap, ◌∙◌, Bool, Option, none, some, List, [], ◌∷◌, map, length,
  length-set, get_elem?, set, arith,
}
use kaiu.Loop.Queue.{Queue, Popped, gives, waits, ends, pop, push, set_nowaiting}
use kaiu.Loop.Parallel.{
  new_worker, Phase, Worker, Loop, Event, seeking, waiting, stopped, working, seeks, wakes, returns,
  throws, runs_push, pushes, sets_nowaiting, happen, popped, woken, look, wake, seek_at, wake_at,
  return_at, throw_at, push_at, push_from, nowaiting_at, with_worker,
}

-- The pool of each thread.
abbrev pub pools_of : {T : Type 0} → List (Worker T) → List ℕ
pools_of [] = []
pools_of (w ∷ ws) = w.pool ∷ pools_of ws

module _ (T : Type 0) where
  pub pools_of-new : (ks : List ℕ) → pools_of (map (new_worker {T = T}) ks) ≡ ks
  pools_of-new [] = refl
  pools_of-new (k ∷ ks) = ap (λ l. k ∷ l) (pools_of-new ks)

module _ {T : Type 0} where
  pub length-pools_of : (ws : List (Worker T)) → length (pools_of ws) ≡ length ws
  length-pools_of [] = refl
  length-pools_of (w ∷ ws) = ap suc (length-pools_of ws)

  pools_of-set :
      (ws : List (Worker T)) (i : ℕ) (w w' : Worker T)
      → get_elem? ws i ≡ some w
      → w'.pool ≡ w.pool
      → pools_of (set ws i w') ≡ pools_of ws
  pools_of-set [] i w w' e k = absurd (cc)
  pools_of-set (v ∷ ws) zero w w' e k = ground arith
  pools_of-set (v ∷ ws) (suc i) w w' e k = ap (λ l. v.pool ∷ l) (pools_of-set ws i w w' e k)

module _ {T X : Type 0} where
  -- No step moves a thread to another pool, or makes or removes a queue.
  abbrev pub SamePlaces : Loop T X → Loop T X → Type 0
  SamePlaces s t = (pools_of t.workers ≡ pools_of s.workers) × (length t.queues ≡ length s.queues)

  module _ (i : ℕ) (w : Worker T) (s : Loop T X) (e : get_elem? s.workers i ≡ some w) where
    moved : (p : Phase T) → pools_of (set s.workers i (record w { phase = p })) ≡ pools_of s.workers
    moved p = pools_of-set s.workers i w (record w { phase = p }) e refl

    -- A step of the thread, over what it does to the queues.
    popped-SamePlaces : (p : Popped T) → SamePlaces s (popped i w p s)
    popped-SamePlaces (gives x q) = (moved (working x), length-set s.queues w.pool q)
    popped-SamePlaces waits = (moved waiting, refl)
    popped-SamePlaces ends = (moved stopped, refl)

    woken-SamePlaces : (p : Popped T) → SamePlaces s (woken i w p s)
    woken-SamePlaces (gives x q) = (moved (working x), length-set s.queues w.pool q)
    woken-SamePlaces waits = (refl, refl)
    woken-SamePlaces ends = (moved stopped, refl)

    seek_at-SamePlaces : (p : Phase T) → SamePlaces s (seek_at i w p s)
    seek_at-SamePlaces seeking = looks (get_elem? s.queues w.pool)
      where
        looks : (o : Option (Queue T)) → SamePlaces s (look i w o s)
        looks none = (refl, refl)
        looks (some q) = popped-SamePlaces (pop q)
    seek_at-SamePlaces waiting = (refl, refl)
    seek_at-SamePlaces stopped = (refl, refl)
    seek_at-SamePlaces (working x) = (refl, refl)

    wake_at-SamePlaces : (p : Phase T) → SamePlaces s (wake_at i w p s)
    wake_at-SamePlaces waiting = looks (get_elem? s.queues w.pool)
      where
        looks : (o : Option (Queue T)) → SamePlaces s (wake i w o s)
        looks none = (refl, refl)
        looks (some q) = woken-SamePlaces (pop q)
    wake_at-SamePlaces seeking = (refl, refl)
    wake_at-SamePlaces stopped = (refl, refl)
    wake_at-SamePlaces (working x) = (refl, refl)

    return_at-SamePlaces : (p : Phase T) → SamePlaces s (return_at i w p s)
    return_at-SamePlaces (working x) = (moved seeking, refl)
    return_at-SamePlaces p = (refl, refl)

    throw_at-SamePlaces : (x : X) (p : Phase T) → SamePlaces s (throw_at i x w p s)
    throw_at-SamePlaces x (working y) = (moved seeking, refl)
    throw_at-SamePlaces x p = (refl, refl)

  push_at-SamePlaces :
      (pool : ℕ) (x : T) (s : Loop T X) (o : Option (Queue T)) → SamePlaces s (push_at pool x o s)
  push_at-SamePlaces pool x s none = (refl, refl)
  push_at-SamePlaces pool x s (some q) = (refl, length-set s.queues pool (push x q))

  push_from-SamePlaces :
      (pool : ℕ) (x : T) (s : Loop T X) (p : Phase T) → SamePlaces s (push_from pool x p s)
  push_from-SamePlaces pool x s (working y) = push_at-SamePlaces pool x s (get_elem? s.queues pool)
  push_from-SamePlaces pool x s p = (refl, refl)

  nowaiting_at-SamePlaces :
      (pool : ℕ) (b : Bool) (s : Loop T X) (o : Option (Queue T))
      → SamePlaces s (nowaiting_at pool b o s)
  nowaiting_at-SamePlaces pool b s none = (refl, refl)
  nowaiting_at-SamePlaces pool b s (some q) = (refl, length-set s.queues pool (set_nowaiting b q))

  with_worker-SamePlaces :
      (s : Loop T X) (i : ℕ) (f : Worker T → Loop T X → Loop T X) (o : Option (Worker T))
      → get_elem? s.workers i ≡ o
      → ((w : Worker T) → get_elem? s.workers i ≡ some w → SamePlaces s (f w s))
      → SamePlaces s (with_worker o f s)
  with_worker-SamePlaces s i f none e k = (refl, refl)
  with_worker-SamePlaces s i f (some w) e k = k w e

  pub SamePlaces-trans : (s t u : Loop T X) → SamePlaces s t → SamePlaces t u → SamePlaces s u
  SamePlaces-trans s t u p q = (q.0 ∙ p.0, q.1 ∙ p.1)

  pub happen-SamePlaces : (e : Event T X) (s : Loop T X) → SamePlaces s (happen e s)
  unfolding happen
  happen-SamePlaces (seeks i) s =
      with_worker-SamePlaces s i (λ w. seek_at i w w.phase) (get_elem? s.workers i) refl
        (λ w e. seek_at-SamePlaces i w s e w.phase)
  happen-SamePlaces (wakes i) s =
      with_worker-SamePlaces s i (λ w. wake_at i w w.phase) (get_elem? s.workers i) refl
        (λ w e. wake_at-SamePlaces i w s e w.phase)
  happen-SamePlaces (returns i) s =
      with_worker-SamePlaces s i (λ w. return_at i w w.phase) (get_elem? s.workers i) refl
        (λ w e. return_at-SamePlaces i w s e w.phase)
  happen-SamePlaces (throws i x) s =
      with_worker-SamePlaces s i (λ w. throw_at i x w w.phase) (get_elem? s.workers i) refl
        (λ w e. throw_at-SamePlaces i w s e x w.phase)
  happen-SamePlaces (runs_push i pool y) s =
      with_worker-SamePlaces s i (λ w. push_from pool y w.phase) (get_elem? s.workers i) refl
        (λ w e. push_from-SamePlaces pool y s w.phase)
  happen-SamePlaces (pushes pool y) s = push_at-SamePlaces pool y s (get_elem? s.queues pool)
  happen-SamePlaces (sets_nowaiting pool b) s =
      nowaiting_at-SamePlaces pool b s (get_elem? s.queues pool)
