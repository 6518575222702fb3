-- ===== src/Loop/Idle.antt =====
-- The count of threads that are not idle, and what the end of `join` means.
use kaiu.Base.{
  length-set, ℕ, ◌+◌, ◌^◌, ◌<◌, ◌≡◌, refl, ap, Bool, List, [], ◌∷◌, Option, none, some, length,
  get_elem?, set, arith,
}
use kaiu.Loop.Queue.{Queue, Popped, waits, gives, ends, push, pop, set_nowaiting}
use kaiu.Loop.Counter.{enter, leave, enter_one, leave_one}
use kaiu.Loop.Parallel.{
  Phase, Worker, Loop, Event, seeking, waiting, stopped, working, seeks, wakes, returns, runs_push,
  throws, pushes, sets_nowaiting, move, push_at, popped, look, wake, woken, seek_at, wake_at,
  return_at, throw_at, push_from, nowaiting_at, with_worker, happen, run,
}
use kaiu.Loop.Balance.{
  weight, busy, busy-set, busy-small, AllFifo, AllFifo-set, AllFifo-get, push-Fifo, nowaiting-Fifo,
  PopFifo, pop-Fifo,
}

module _ {T X : Type 0} where
  pub record Inv (s : Loop T X) : Type 0 where
    pub count : s.not_idle ≡ busy s.workers
    pub small : length s.workers < 2 ^ 31
    pub fifo : AllFifo s.queues

  -- `s` with its thread `i`, which is `w`, moved to another phase.
  moved-count :
      (i : ℕ) (w : Worker T) (phase : Phase T) (s : Loop T X)
      → get_elem? s.workers i ≡ some w
      → busy ((move i w phase s).workers) + weight w.phase ≡ busy s.workers + weight phase
  moved-count i w phase s e = busy-set s.workers i w (record w { phase = phase }) e

  module _ (i : ℕ) (w : Worker T) (s : Loop T X) (e : get_elem? s.workers i ≡ some w)
      (small : length s.workers < 2 ^ 31) (fifo : AllFifo s.queues) where
    small-set : (v : Worker T) → length (set s.workers i v) < 2 ^ 31
    small-set v = omega (arith, small, length-set s.workers i v)

    idled :
        (phase : Phase T)
        → weight phase ≡ 0
        → s.not_idle + weight w.phase ≡ busy s.workers + 1
        → leave 1 s.not_idle ≡ busy ((move i w phase s).workers)
    idled phase z c =
        let m = moved-count i w phase s e in
        omega (
          arith,
          z,
          c,
          m,
          leave_one s.not_idle (omega (arith, z, c, m))
              (omega (arith, c, small, busy-small s.workers)),
        )

    -- A thread that counts as not idle goes on as `pop` says.
    popped-Inv :
        (p : Popped T)
        → PopFifo p
        → s.not_idle + weight w.phase ≡ busy s.workers + 1
        → Inv (popped i w p s)
    popped-Inv (gives x q) f c = record {
      count = omega (arith, c, moved-count i w (working x) s e);
      small = small-set (record w { phase = working x });
      fifo = AllFifo-set s.queues w.pool q fifo f;
    }
    popped-Inv waits f c = record {
      count = idled waiting refl c;
      small = small-set (record w { phase = waiting });
      fifo = fifo;
    }
    popped-Inv ends f c = record {
      count = idled stopped refl c;
      small = small-set (record w { phase = stopped });
      fifo = fifo;
    }

  module _ (i : ℕ) (w : Worker T) (s : Loop T X) (e : get_elem? s.workers i ≡ some w)
      (v : Inv s) where
    -- The thread once its wait has ended.
    abbrev awake : Loop T X
    awake = record s { not_idle = enter 1 s.not_idle }

    awake-count : w.phase ≡ waiting → awake.not_idle + weight w.phase ≡ busy s.workers + 1
    awake-count z = omega (
      arith,
      v.count,
      ap weight z,
      enter_one s.not_idle (omega (arith, v.count, v.small, busy-small s.workers)),
    )

    woken-Inv : (p : Popped T) → PopFifo p → w.phase ≡ waiting → Inv (woken i w p s)
    woken-Inv waits f z = v
    woken-Inv (gives x q) f z = popped-Inv i w awake e v.small v.fifo (gives x q) f (awake-count z)
    woken-Inv ends f z = popped-Inv i w awake e v.small v.fifo ends f (awake-count z)

    seek_at-Inv : (p : Phase T) → w.phase ≡ p → Inv (seek_at i w p s)
    seek_at-Inv seeking z = look-Inv (get_elem? s.queues w.pool) refl
      where
        look-Inv : (o : Option (Queue T)) → get_elem? s.queues w.pool ≡ o → Inv (look i w o s)
        look-Inv none a = v
        look-Inv (some q) a =
            popped-Inv i w s e v.small v.fifo (pop q)
              (pop-Fifo q (AllFifo-get s.queues w.pool q v.fifo a))
              (omega (arith, v.count, ap weight z))
    seek_at-Inv waiting z = v
    seek_at-Inv stopped z = v
    seek_at-Inv (working x) z = v

    wake_at-Inv : (p : Phase T) → w.phase ≡ p → Inv (wake_at i w p s)
    wake_at-Inv waiting z = wake-Inv (get_elem? s.queues w.pool) refl
      where
        wake-Inv : (o : Option (Queue T)) → get_elem? s.queues w.pool ≡ o → Inv (wake i w o s)
        wake-Inv none a = v
        wake-Inv (some q) a =
            woken-Inv (pop q) (pop-Fifo q (AllFifo-get s.queues w.pool q v.fifo a)) z
    wake_at-Inv seeking z = v
    wake_at-Inv stopped z = v
    wake_at-Inv (working x) z = v

    return_at-Inv : (p : Phase T) → w.phase ≡ p → Inv (return_at i w p s)
    return_at-Inv (working x) z = record {
      count = omega (arith, v.count, moved-count i w seeking s e, ap weight z);
      small = small-set i w s e v.small v.fifo (record w { phase = seeking });
      fifo = v.fifo;
    }
    return_at-Inv waiting z = v
    return_at-Inv seeking z = v
    return_at-Inv stopped z = v

    throw_at-Inv : (x : X) (p : Phase T) → w.phase ≡ p → Inv (throw_at i x w p s)
    throw_at-Inv x' (working x) z = record {
      count = omega (arith, v.count, moved-count i w seeking s e, ap weight z);
      small = small-set i w s e v.small v.fifo (record w { phase = seeking });
      fifo = v.fifo;
    }
    throw_at-Inv x waiting z = v
    throw_at-Inv x seeking z = v
    throw_at-Inv x stopped z = v

  push_at-Inv :
      (pool : ℕ) (x : T) (s : Loop T X) (o : Option (Queue T))
      → get_elem? s.queues pool ≡ o
      → Inv s
      → Inv (push_at pool x o s)
  push_at-Inv pool x s none a v = v
  push_at-Inv pool x s (some q) a v = record {
    count = v.count;
    small = v.small;
    fifo =
        AllFifo-set s.queues pool (push x q) v.fifo
          (push-Fifo x q (AllFifo-get s.queues pool q v.fifo a));
  }

  push_from-Inv :
      (pool : ℕ) (x : T) (s : Loop T X) (p : Phase T) → Inv s → Inv (push_from pool x p s)
  push_from-Inv pool x s (working y) v = push_at-Inv pool x s (get_elem? s.queues pool) refl v
  push_from-Inv pool x s waiting v = v
  push_from-Inv pool x s seeking v = v
  push_from-Inv pool x s stopped v = v

  nowaiting_at-Inv :
      (pool : ℕ) (b : Bool) (s : Loop T X) (o : Option (Queue T))
      → get_elem? s.queues pool ≡ o
      → Inv s
      → Inv (nowaiting_at pool b o s)
  nowaiting_at-Inv pool b s none a v = v
  nowaiting_at-Inv pool b s (some q) a v = record {
    count = v.count;
    small = v.small;
    fifo =
        AllFifo-set s.queues pool (set_nowaiting b q) v.fifo
          (nowaiting-Fifo b q (AllFifo-get s.queues pool q v.fifo a));
  }

  with_worker-Inv :
      (s : Loop T X) (i : ℕ) (f : Worker T → Loop T X → Loop T X) (o : Option (Worker T))
      → get_elem? s.workers i ≡ o
      → Inv s
      → ((w : Worker T) → get_elem? s.workers i ≡ some w → Inv (f w s))
      → Inv (with_worker o f s)
  with_worker-Inv s i f none a v k = v
  with_worker-Inv s i f (some w) a v k = k w a

  pub happen-Inv : (x : Event T X) (s : Loop T X) → Inv s → Inv (happen x s)
  unfolding happen
  happen-Inv (seeks i) s v =
      with_worker-Inv s i (λ w. seek_at i w w.phase) (get_elem? s.workers i) refl v
        (λ w e. seek_at-Inv i w s e v w.phase refl)
  happen-Inv (wakes i) s v =
      with_worker-Inv s i (λ w. wake_at i w w.phase) (get_elem? s.workers i) refl v
        (λ w e. wake_at-Inv i w s e v w.phase refl)
  happen-Inv (returns i) s v =
      with_worker-Inv s i (λ w. return_at i w w.phase) (get_elem? s.workers i) refl v
        (λ w e. return_at-Inv i w s e v w.phase refl)
  happen-Inv (throws i x) s v =
      with_worker-Inv s i (λ w. throw_at i x w w.phase) (get_elem? s.workers i) refl v
        (λ w e. throw_at-Inv i w s e v x w.phase refl)
  happen-Inv (runs_push i pool y) s v =
      with_worker-Inv s i (λ w. push_from pool y w.phase) (get_elem? s.workers i) refl v
        (λ w e. push_from-Inv pool y s w.phase v)
  happen-Inv (pushes pool y) s v = push_at-Inv pool y s (get_elem? s.queues pool) refl v
  happen-Inv (sets_nowaiting pool b) s v =
      nowaiting_at-Inv pool b s (get_elem? s.queues pool) refl v

  pub run-Inv : (es : List (Event T X)) (s : Loop T X) → Inv s → Inv (run es s)
  unfolding run
  run-Inv [] s v = v
  run-Inv (e ∷ es) s v = run-Inv es (happen e s) (happen-Inv e s v)
