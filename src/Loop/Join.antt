-- ===== src/Loop/Join.antt =====
-- What holds when `join` of the parallel event loop ends.
use kaiu.Base.{
  ℕ, zero, suc, ◌^◌, ◌<◌, ◌≡◌, refl, sym, ap, ◌∙◌, true, false, List, [], ◌∷◌, ◌++◌, length,
  replicate, map, arith, append-nil,
}
use kaiu.Loop.Queue.{Queue, is_empty, new_queue}
use kaiu.Loop.Parallel.{
  Phase, Worker, Loop, Event, seeking, waiting, stopped, working, new_worker, start, run, all_empty,
  join_ends,
}
use kaiu.Loop.Balance.{weight, busy, Fifo, AllFifo}
use kaiu.Loop.Idle.{Inv, run-Inv}

module _ {T : Type 0} where
  -- A thread that waits for events or has stopped.
  abbrev pub Idle : Phase T → Type 0
  Idle waiting = Unit
  Idle stopped = Unit
  Idle seeking = ⊥
  Idle (working x) = ⊥

  abbrev pub AllIdle : List (Worker T) → Type 0
  AllIdle [] = Unit
  AllIdle (w ∷ ws) = Idle w.phase × AllIdle ws

  weight-Idle : (p : Phase T) → weight p ≡ 0 → Idle p
  weight-Idle waiting e = tt
  weight-Idle stopped e = tt
  weight-Idle seeking e = absurd (omega (arith, e))
  weight-Idle (working x) e = absurd (omega (arith, e))

  busy-AllIdle : (ws : List (Worker T)) → busy ws ≡ 0 → AllIdle ws
  busy-AllIdle [] e = tt
  busy-AllIdle (w ∷ ws) e =
      (weight-Idle w.phase (omega (arith, e)), busy-AllIdle ws (omega (arith, e)))

  -- All that was pushed has been taken, in order.
  abbrev pub Done : Queue T → Type 0
  Done q = (q.events ≡ []) × (q.popped ≡ q.pushed)

  abbrev pub AllDone : List (Queue T) → Type 0
  AllDone [] = Unit
  AllDone (q ∷ qs) = Done q × AllDone qs

  Fifo-Done : (q : Queue T) → Fifo q → is_empty q ≡ true → Done q
  Fifo-Done q f e =
      let z = no_events q e in (z, sym (f ∙ ap (λ l. q.popped ++ l) z ∙ append-nil q.popped))
    where
      no_events : (p : Queue T) → is_empty p ≡ true → p.events ≡ []
      no_events p k = ground arith

  empty-AllDone : (qs : List (Queue T)) → AllFifo qs → all_empty qs ≡ true → AllDone qs
  empty-AllDone [] f e = tt
  empty-AllDone (q ∷ qs) f e = (Fifo-Done q f.0 (ground arith), empty-AllDone qs f.1 (ground arith))

module _ (T : Type 0) where
  start-busy : (threads : List ℕ) → busy {T = T} (map new_worker threads) ≡ length threads
  start-busy [] = refl
  start-busy (t ∷ ts) = omega (arith, start-busy ts)

  start-length :
      (threads : List ℕ) → length {A = Worker T} (map new_worker threads) ≡ length threads
  start-length [] = refl
  start-length (t ∷ ts) = ap suc (start-length ts)

  start-AllFifo : (pools : ℕ) → AllFifo {T = T} (replicate pools (new_queue false))
  start-AllFifo zero = tt
  start-AllFifo (suc n) = (refl, start-AllFifo n)

module _ {T X : Type 0} where
  join-cases : (s : Loop T X) → join_ends s ≡ true → (all_empty s.queues ≡ true) × (s.not_idle ≡ 0)
  unfolding join_ends
  join-cases s e = ground arith

  -- The test that ends `join`, in any state that the steps of the threads keep sound.
  pub ends-AllDone :
      (s : Loop T X) → Inv s → join_ends s ≡ true → AllIdle s.workers × AllDone s.queues
  ends-AllDone s v e =
      let c = join-cases s e in
      (busy-AllIdle s.workers (sym v.count ∙ c.1), empty-AllDone s.queues v.fifo c.0)

module _ {T X : Type 0} (pools : ℕ) (threads : List ℕ) (h : length threads < 2 ^ 31) where
  abbrev pub begin : Loop T X
  begin = start pools threads

  pub begin-Inv : Inv begin
  begin-Inv = record {
    count = sym (start-busy T threads);
    small = omega (arith, h, start-length T threads);
    fifo = start-AllFifo T pools;
  }

  abbrev pub after : List (Event T X) → Loop T X
  after es = run es begin

  -- After any interleaving of the threads of a parallel event loop and their callers, with fewer
  -- than 2^31 threads, the counter says how many threads are looking for an event or running one.
  pub not_idle-count : (es : List (Event T X)) → (after es).not_idle ≡ busy ((after es).workers)
  not_idle-count es = (run-Inv es begin begin-Inv).count

  -- After any interleaving of the threads of a parallel event loop and their callers, with fewer
  -- than 2^31 threads, each queue has given its events in the order pushed, and none is lost.
  pub after-AllFifo : (es : List (Event T X)) → AllFifo ((after es).queues)
  after-AllFifo es = (run-Inv es begin begin-Inv).fifo

  -- If the test that ends join succeeds after any interleaving of the threads of a parallel event
  -- loop and their callers, with fewer than 2^31 threads, then every thread waits or has stopped
  -- and every event pushed has been taken.
  pub join_ends-lem :
      (es : List (Event T X))
      → join_ends (after es) ≡ true
      → AllIdle ((after es).workers) × AllDone ((after es).queues)
  join_ends-lem es e = ends-AllDone (after es) (run-Inv es begin begin-Inv) e
