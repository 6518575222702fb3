-- ===== src/Task/Refines.antt =====
-- The call, the action and the proxy of a task, each on its own.
use kaiu.Base.{
  ℕ, suc, ◌<◌, ◌≤◌, ◌≡◌, refl, ap, ◌∙◌, Bool, true, false, some, none, List, [], ◌∷◌, ◌++◌, arith,
}
use kaiu.Base.Action.{Outcome, done, thrown}
use kaiu.Loop.Pools.{EventLoopPool, number, not_positive, target}
use kaiu.Promise.Types.{Raised, Settled, Reply, Heap, new_cell, put, new_promise}
use kaiu.Promise.Settling.{get-put_self, posted-put, settled_cell}
use kaiu.Promise.Running.{Holds, Open, settle-Open}
use kaiu.Promise.Outcomes.{chain_outcome, depth}
use kaiu.Promise.Replies.{Made, Holds-settled}
use kaiu.Task.State.{
  Work, Pushed, Tasks, Failed, action, proxy, promises, push_event, task, flush, flush_all, produce,
  run_work, execute,
}
use kaiu.Task.Posting.{
  Returns, produce-Made, handed, posts-lem, handed-posted, handed-next, handed-ne,
}

-- `push` accepts this pool.
abbrev pub Accepts : (EventLoopPool → Bool) → EventLoopPool → Type 0
Accepts known pool = (not_positive (number pool) ≡ false) × (known pool ≡ true)

module _ {V E : Type 0} where
  -- The promise `q` is pending with no callbacks yet, and no event is on its way to the loop.
  pub record Awaits (q : ℕ) (s : Tasks V E) : Type 0 where
    pub within : q < s.heap.next_id
    pub pending : Open (s.heap.cells q)
    pub sent : s.heap.posted ≡ []

  abbrev pub with_event : EventLoopPool → Work V E → Tasks V E → List (Pushed V E)
  with_event pool work s = s.pushed ++ (record { pool = pool; work = work } ∷ [])

module _ {V E : Type 0} (known : EventLoopPool → Bool) (current : EventLoopPool) where
  push-lem :
      (pool : EventLoopPool) (work : Work V E) (s : Tasks V E)
      → Accepts known (target current pool)
      → push_event known current pool work s
        ≡ done tt (record s { pushed = with_event (target current pool) work s })
  unfolding push_event
  push-lem pool work s a = rw (a.0, a.1) refl

  flush-none :
      (s : Tasks V E)
      → s.heap.posted ≡ []
      → flush known current s ≡ done tt (record s { heap = record s.heap { posted = [] } })
  unfolding flush flush_all
  flush-none s e = rw e refl

  module _ (safe : Bool) (fuel : ℕ) (work : Work V E) (s : Tasks V E) where
    execute-done :
        (h : Heap V E)
        → run_work safe fuel work s.heap ≡ done tt h
        → execute safe fuel known current work s ≡ flush known current (record s { heap = h })
    unfolding execute
    execute-done h e = rw e refl

    pub execute-thrown :
        (f : Raised E) (h : Heap V E)
        → run_work safe fuel work s.heap ≡ thrown f h
        → h.posted ≡ []
        → execute safe fuel known current work s
          ≡ thrown (promises f) (record s { heap = record h { posted = [] } })
    unfolding execute
    execute-thrown f h e k = rw (e, flush-none (record s { heap = h }) k) refl

module _ {V E : Type 0} (known : EventLoopPool → Bool) (safe : Bool) (n : ℕ) where
  -- An event that returns, pushes these events in turn, and leaves the promise waiting.
  pub record Ran (q : ℕ) (s : Tasks V E) (pushed : List (Pushed V E))
      (o : Outcome (Tasks V E) (Failed E) (Unit {0})) : Type 0 where
    pub tasks : Tasks V E
    pub returns : o ≡ done tt tasks
    pub pushes : tasks.pushed ≡ pushed
    pub awaits : Awaits q tasks

  module _ (current reaction_pool : EventLoopPool) (reply : Reply V E) (y : Settled V E) (q : ℕ)
      (s : Tasks V E) (ret : Returns reply) (deep : depth reply ≤ n)
      (k : chain_outcome reply none ≡ some y) (w : Awaits q s)
      (accepts : Accepts known (target current reaction_pool)) where
    made : Made safe s.heap y (produce safe (suc (suc n)) reply s.heap)
    made = produce-Made safe n reply s.heap y ret deep k

    left : Heap V E
    left = handed safe n made.promise made.heap y reaction_pool q made.held made.unbound

    run-eq : run_work safe (suc (suc n)) (action q reply reaction_pool) s.heap ≡ done tt left
    unfolding run_work left
    run-eq =
        rw made.returns
          (posts-lem safe n made.promise made.heap y reaction_pool q made.held made.unbound)

    left-posted : left.posted ≡ record { pool = reaction_pool; promise = q; settlement = y } ∷ []
    unfolding left
    left-posted =
        handed-posted safe n made.promise made.heap y reaction_pool q made.held made.unbound
        ∙ ap (λ l. l ++ record { pool = reaction_pool; promise = q; settlement = y } ∷ [])
            (made.extends.posted ∙ w.sent)

    left-q : left.cells q ≡ s.heap.cells q
    unfolding left
    left-q =
        handed-ne safe n made.promise made.heap y reaction_pool q made.held made.unbound q
          (λ e. omega (arith, e, made.fresh, w.within))
        ∙ made.extends.others q w.within

    left-next : q < left.next_id
    unfolding left
    left-next = omega (
      arith,
      w.within,
      made.extends.bound,
      handed-next safe n made.promise made.heap y reaction_pool q made.held made.unbound,
    )

    emptied : Tasks V E
    emptied = record s { heap = record left { posted = [] } }

    flush-one :
        flush known current (record s { heap = left })
        ≡ done tt
            (record emptied { pushed = with_event (target current reaction_pool) (proxy q y) s })
    unfolding flush flush_all emptied
    flush-one =
        rw (left-posted, push-lem known current reaction_pool (proxy q y) emptied accepts) refl

    pub action-Ran :
        Ran q s
          (with_event (target current reaction_pool) (proxy q y) s)
          (execute safe (suc (suc n)) known current (action q reply reaction_pool) s)
    unfolding emptied
    action-Ran = record {
      tasks = record emptied { pushed = with_event (target current reaction_pool) (proxy q y) s };
      returns =
          execute-done known current safe (suc (suc n)) (action q reply reaction_pool) s left run-eq
          ∙ flush-one;
      pushes = refl;
      awaits = record { within = left-next; pending = rw left-q w.pending; sent = refl };
    }

  module _ (current : EventLoopPool) (y : Settled V E) (q : ℕ) (s : Tasks V E)
      (w : Awaits q s) where
    after : Heap V E
    after = put q (settled_cell safe y (s.heap.cells q)) s.heap

    proxy-eq : run_work safe (suc (suc n)) (proxy q y) s.heap ≡ done tt after
    unfolding run_work after
    proxy-eq = settle-Open safe (suc n) q s.heap y w.pending

    pub proxy-lem :
        (t : Tasks V E) × (execute safe (suc (suc n)) known current (proxy q y) s ≡ done tt t)
        × Holds y (t.heap.cells q)
        × (t.pushed ≡ s.pushed)
    unfolding after
    proxy-lem = (
      record s { heap = record after { posted = [] } },
      execute-done known current safe (suc (suc n)) (proxy q y) s after proxy-eq
          ∙ flush-none known current (record s { heap = after }) (rw posted-put w.sent),
      rw get-put_self (Holds-settled safe y (s.heap.cells q)),
      refl,
    )

  module _ (current action_pool reaction_pool : EventLoopPool) (reply : Reply V E) (s : Tasks V E)
      (sent : s.heap.posted ≡ []) (accepts : Accepts known (target current action_pool)) where
    pub task-lem :
        (t : Tasks V E) × (task known current action_pool reaction_pool reply s
          ≡ done s.heap.next_id t)
        × (t.pushed
            ≡ with_event (target current action_pool) (action s.heap.next_id reply reaction_pool) s)
        × Awaits s.heap.next_id t
    unfolding task new_promise
    task-lem = (
      record given { pushed = with_event (target current action_pool) work s },
      rw (push-lem known current action_pool work given accepts) refl,
      refl,
      record {
        within = omega arith;
        pending = rw get-put_self (record { pends = refl; unassigned = refl });
        sent = rw posted-put sent;
      },
    )
      where
        work : Work V E
        work = action s.heap.next_id reply reaction_pool

        given : Tasks V E
        given = record s {
          heap = record (put s.heap.next_id new_cell s.heap) { next_id = suc s.heap.next_id };
        }
