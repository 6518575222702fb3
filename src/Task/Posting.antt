-- ===== src/Task/Posting.antt =====
-- What the action of a task does with the promise of its factory.
use kaiu.Base.{
  ℕ, suc, ◌≤◌, ◌≡◌, ◌≢◌, refl, sym, ap, subst, ◌∙◌, Bool, false, some, none, [], ◌∷◌, ◌++◌,
}
use mathlib.Core.Option.{some-injective}
use kaiu.Base.Action.{done}
use kaiu.Loop.Pools.{EventLoopPool}
use kaiu.Promise.Types.{
  Settled, Reply, Callback, Cell, Heap, Posted, put, value, error, existing, settled, raises,
  chained, posts,
}
use kaiu.Promise.State.{settled_promise, update_within, set_callbacks, run_callback}
use kaiu.Promise.Settling.{
  get-put_self, get-put_ne, posted-put, next_id-put, set_callbacks-eq, bound_cell,
}
use kaiu.Promise.Running.{Holds, Loaded, completed_cell, update-Loaded, complete-lem}
use kaiu.Promise.Outcomes.{chain_outcome, depth, chained-outcome}
use kaiu.Promise.Replies.{Made, settled_promise-Made}
use kaiu.Promise.Followed.{links-Made}
use kaiu.Task.State.{produce}

module _ {V E : Type 0} where
  -- A factory that returns, as one made by `promise::factory` always does.
  abbrev pub Returns : Reply V E → Type 0
  Returns (raises e) = ⊥
  Returns (existing r) = Unit
  Returns (settled x) = Unit
  Returns (chained as_error links) = Unit

module _ {V E : Type 0} (safe : Bool) where
  pub produce-Made :
      (n : ℕ) (reply : Reply V E) (h : Heap V E) (y : Settled V E)
      → Returns reply
      → depth reply ≤ n
      → chain_outcome reply none ≡ some y
      → Made safe h y (produce safe (suc (suc n)) reply h)
  unfolding produce chain_outcome depth
  produce-Made n (raises e) h y ret d k = absurd ret
  produce-Made n (existing r) h y ret d k = absurd (cc)
  produce-Made n (settled x) h y ret d k =
      subst (λ z. Made safe h z (settled_promise safe (update_within safe (suc (suc n))) x h))
        (some-injective _ _ k) (settled_promise-Made safe n h x)
  produce-Made n (chained as_error links) h y ret d k =
      links-Made safe links n h y d (sym (chained-outcome as_error links) ∙ k)

  module _ (n r : ℕ) (h : Heap V E) (x : Settled V E) (pool : EventLoopPool) (q : ℕ)
      (held : Holds x (h.cells r)) (unbound : (h.cells r).callbacks_assigned ≡ false) where
    abbrev pub f : Callback V E
    f = posts pool q

    abbrev pub event : Posted V E
    event = record { pool = pool; promise = q; settlement = x }

    abbrev pub tied : Heap V E
    tied = put r (bound_cell f (h.cells r)) h

    abbrev pub sent : Heap V E
    sent = record tied { posted = tied.posted ++ (event ∷ []) }

    abbrev pub handed : Heap V E
    handed = put r (completed_cell (bound_cell f (h.cells r))) sent

    Holds-bound : (y : Settled V E) (c : Cell V E) → Holds y c → Holds y (bound_cell f c)
    Holds-bound (value v) c l = l
    Holds-bound (error e) c l = l

    loaded : Loaded f x (tied.cells r)
    loaded =
        rw get-put_self
          (record { assigned = refl; bound = refl; holds = Holds-bound x (h.cells r) held })

    run-posts : run_callback safe (update_within safe (suc n)) f x tied ≡ done tt sent
    unfolding run_callback
    run-posts = refl

    pub posts-lem : set_callbacks safe (update_within safe (suc (suc n))) r f h ≡ done tt handed
    posts-lem =
        rw
          (
            set_callbacks-eq safe (update_within safe (suc (suc n))) r h f (h.cells r) refl unbound,
            update-Loaded safe (suc n) r tied f x loaded,
            run-posts,
          )
          (complete-lem safe n r sent x
              (rw (get-put_self r (bound_cell f (h.cells r)) h) (Holds-bound x (h.cells r) held))
            ∙ ap (λ c. done tt (put r (completed_cell c) sent)) (get-put_self r _ h))

    pub handed-posted : handed.posted ≡ h.posted ++ (event ∷ [])
    handed-posted = simp posted-put refl

    pub handed-next : handed.next_id ≡ h.next_id
    handed-next = simp next_id-put refl

    pub handed-ne : (p : ℕ) → r ≢ p → handed.cells p ≡ h.cells p
    handed-ne p ne = get-put_ne r p _ sent ne ∙ get-put_ne r p _ h ne
