-- ===== src/Task/Course.antt =====
-- A task does what its factory does, in two events of the loop.
use kaiu.Base.{ℕ, suc, ◌≤◌, ◌≡◌, Bool, some, none, []}
use kaiu.Base.Action.{done}
use kaiu.Loop.Pools.{EventLoopPool, target}
use kaiu.Promise.Types.{Settled, Reply}
use kaiu.Promise.Running.{Holds}
use kaiu.Promise.Outcomes.{chain_outcome, depth}
use kaiu.Promise.Replies.{Made}
use kaiu.Task.State.{Tasks, action, proxy, task, produce, execute}
use kaiu.Task.Posting.{Returns, produce-Made}
use kaiu.Task.Refines.{Accepts, Awaits, with_event, action-Ran, proxy-lem, task-lem}

module _ {V E : Type 0} (known : EventLoopPool → Bool) (safe : Bool) (n : ℕ) where
  -- What else happens leaves the promise `q` waiting.
  abbrev pub Spares : ℕ → (Tasks V E → Tasks V E) → Type 0
  Spares q others = (t : Tasks V E) → Awaits q t → Awaits q (others t)

  -- The course of a task whose factory's own promise is settled with `y`.
  pub record Course (current action_pool reaction_pool : EventLoopPool) (reply : Reply V E)
      (y : Settled V E) (s : Tasks V E) (before after : Tasks V E → Tasks V E) : Type 0 where
    pub plain : Made safe s.heap y (produce safe (suc (suc n)) reply s.heap)
    pub called : Tasks V E
    pub acted : Tasks V E
    pub settled : Tasks V E
    pub calls : task known current action_pool reaction_pool reply s ≡ done s.heap.next_id called
    pub calls_push :
        called.pushed
        ≡ with_event (target current action_pool) (action s.heap.next_id reply reaction_pool) s
    pub acts :
        execute safe
          (suc (suc n))
          known
          (target current action_pool)
          (action s.heap.next_id reply reaction_pool)
          (before called)
        ≡ done tt acted
    pub acts_push :
        acted.pushed
        ≡ with_event
            (target (target current action_pool) reaction_pool)
            (proxy s.heap.next_id y)
            (before called)
    pub waits : Awaits s.heap.next_id acted
    pub settles :
        execute safe
          (suc (suc n))
          known
          (target (target current action_pool) reaction_pool)
          (proxy s.heap.next_id y)
          (after acted)
        ≡ done tt settled
    pub holds : Holds y (settled.heap.cells s.heap.next_id)

  module _ (current action_pool reaction_pool : EventLoopPool) (reply : Reply V E) (y : Settled V E)
      (s : Tasks V E) (before after : Tasks V E → Tasks V E) (sent : s.heap.posted ≡ [])
      (ret : Returns reply) (deep : depth reply ≤ n) (k : chain_outcome reply none ≡ some y)
      (accepts_action : Accepts known (target current action_pool))
      (accepts_reaction : Accepts known (target (target current action_pool) reaction_pool))
      (spares : Spares s.heap.next_id before) (spares' : Spares s.heap.next_id after) where
    -- A task whose factory returns a promise that it made, settled in the end with y, in a loop
    -- that has the pools of action and reaction, where same stands for the pool of the thread: a
    -- call returns a new promise and pushes one event to the action pool; that event, whatever
    -- else happens before it that does not settle the promise or bind callbacks to it, leaves the
    -- promise pending and pushes one event to the reaction pool; and that one, whatever else
    -- happens before it in the same way, settles the promise with y, as the factory alone does
    -- with a promise of its own.
    pub task-Course : Course current action_pool reaction_pool reply y s before after
    task-Course =
        let (t, e, p, w) =
          task-lem known safe n current action_pool reaction_pool reply s sent accepts_action in
        let r =
          action-Ran known safe n (target current action_pool) reaction_pool reply y s.heap.next_id
            (before t) ret deep k (spares t w) accepts_reaction in
        let (u, e', l, p') =
          proxy-lem known safe n (target (target current action_pool) reaction_pool) y
            s.heap.next_id (after r.tasks) (spares' r.tasks r.awaits) in
        record {
          plain = produce-Made safe n reply s.heap y ret deep k;
          called = t;
          acted = r.tasks;
          settled = u;
          calls = e;
          calls_push = p;
          acts = r.returns;
          acts_push = r.pushes;
          waits = r.awaits;
          settles = e';
          holds = l;
        }
