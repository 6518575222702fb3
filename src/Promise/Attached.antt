-- ===== src/Promise/Attached.antt =====
-- `then` on a settled promise, over callbacks that are known to settle the promise of `then`.
use kaiu.Base.{ℕ, suc, ◌<◌, ◌≤◌, ◌≡◌, ◌≢◌, refl, sym, ◌∙◌, Bool, false, arith}
use kaiu.Base.Action.{Outcome, done}
use kaiu.Promise.Types.{
  Raised, Settled, Reply, Finalizer, Callback, Cell, Heap, new_cell, completed, value, error, put,
  new_promise, chains,
}
use kaiu.Promise.State.{Run, update_within, then_with, on_reply, run_callback}
use kaiu.Promise.Settling.{
  get-put_self, get-put_ne, next_id-put, posted-put, set_callbacks-eq, settled_cell, bound_cell,
}
use kaiu.Promise.Running.{Holds, Loaded, Open, completed_cell, update-Loaded, complete-lem}
use kaiu.Promise.Outcomes.{reply_to}
use kaiu.Promise.Replies.{Settles, Holds-settled, unbound-settled}

module _ {V E : Type 0} (safe : Bool) where
  run-eq :
      (u : ℕ → Run V E) (q : ℕ) (h : Heap V E) (next : V → Reply V E) (handler : E → Reply V E)
      (fin : Finalizer E) (x : Settled V E)
      → run_callback safe u (chains q next handler fin) x h
        ≡ on_reply safe u q fin (reply_to next handler x) h
  unfolding run_callback
  run-eq u q h next handler fin (value v) = refl
  run-eq u q h next handler fin (error e) = refl

  -- The look at the promise `p` returns, having settled `q` with `y` and completed `p`.
  abbrev Ran : ℕ → ℕ → ℕ → Heap V E → Settled V E → Type 0
  Ran n p q h y =
      (h' : Heap V E) × (update_within safe (suc (suc (suc n))) p h ≡ done tt h')
      × (h'.cells q ≡ settled_cell safe y (h.cells q))
      × ((h'.cells p).state ≡ completed)
      × ((r : ℕ) → r ≢ q → r ≢ p → r < h.next_id → h'.cells r ≡ h.cells r)
      × (h.next_id ≤ h'.next_id)
      × (h'.posted ≡ h.posted)

  -- A settled promise `p` runs the callbacks of `then`.
  run-chain :
      (n p q : ℕ) (h : Heap V E) (next : V → Reply V E) (handler : E → Reply V E)
      (fin : Finalizer E) (x y : Settled V E)
      → p < h.next_id
      → q < h.next_id
      → p ≢ q
      → Loaded (chains q next handler fin) x (h.cells p)
      → Settles safe h q y
          (on_reply safe (update_within safe (suc (suc n))) q fin (reply_to next handler x) h)
      → Ran n p q h y
  run-chain n p q h next handler fin x y lp lq ne l s = (
    put p (completed_cell (s.heap.cells p)) s.heap,
    rw
        (
          update-Loaded safe (suc (suc n)) p h _ x l,
          run-eq (update_within safe (suc (suc n))) q h next handler fin x,
          s.returns,
        )
        (complete-lem safe (suc n) p s.heap x held),
    get-put_ne p q _ _ ne ∙ s.target,
    rw get-put_self refl,
    λ r nq np lr. get-put_ne p r _ _ (λ e. np (sym e)) ∙ s.others r nq lr,
    rw next_id-put s.bound,
    rw posted-put s.posted,
  )
    where
      held : Holds x (s.heap.cells p)
      held = rw (s.others p ne lp) l.holds

  Holds-bound :
      (f : Callback V E) (x : Settled V E) (c : Cell V E) → Holds x c → Holds x (bound_cell f c)
  Holds-bound f (value v) c l = l
  Holds-bound f (error e) c l = l

  -- The callback settles the promise of `then` with `y`, whatever the store.
  abbrev pub Answers : ℕ → Reply V E → Finalizer E → Settled V E → Type 0
  Answers n reply fin y =
      (q : ℕ) (h : Heap V E)
      → q < h.next_id
      → Open (h.cells q)
      → Settles safe h q y (on_reply safe (update_within safe (suc (suc n))) q fin reply h)

  -- A call of `then` on the promise `p` that returns a new promise, settled with `y` and not bound yet;
  -- `p` is completed, and no other promise that existed changes.
  pub record Chained (h : Heap V E) (p : ℕ) (y : Settled V E) (o : Outcome (Heap V E) (Raised E) ℕ)
      : Type 0 where
    pub heap : Heap V E
    pub returns : o ≡ done h.next_id heap
    pub held : Holds y (heap.cells h.next_id)
    pub unbound : (heap.cells h.next_id).callbacks_assigned ≡ false
    pub completes : (heap.cells p).state ≡ completed
    pub others : (r : ℕ) → r ≢ p → r < h.next_id → heap.cells r ≡ h.cells r
    pub bound : h.next_id < heap.next_id
    pub posted : heap.posted ≡ h.posted

  pub then_with-Chained :
      (n p : ℕ) (h : Heap V E) (next : V → Reply V E) (handler : E → Reply V E) (fin : Finalizer E)
      (x y : Settled V E)
      → p < h.next_id
      → Holds x (h.cells p)
      → (h.cells p).callbacks_assigned ≡ false
      → Answers n (reply_to next handler x) fin y
      → Chained h p y (then_with safe (update_within safe (suc (suc (suc n)))) p next handler fin h)
  unfolding then_with new_promise
  then_with-Chained n p h next handler fin x y lp l u answers = record {
    heap = ran.0;
    returns = rw (
      set_callbacks-eq safe (update_within safe (suc (suc (suc n)))) p h1 f (h.cells p) p-eq u,
      ran.1,
    );
    held = rw ran.2 (Holds-settled safe y (h2.cells q));
    unbound = rw ran.2 (unbound-settled safe y (h2.cells q) q-open.unassigned);
    completes = ran.3;
    others = λ r np lr.
        ran.4 r (λ e. omega (arith, e)) np (within r lr)
        ∙ get-put_ne p r _ h1 (λ e. np (sym e))
        ∙ get-put_ne q r _ h (λ e. omega (arith, e));
    bound = omega (arith, ran.5, size);
    posted = ran.6 ∙ posted-put p _ h1 ∙ posted-put q new_cell h;
  }
    where
      q : ℕ
      q = h.next_id

      f : Callback V E
      f = chains q next handler fin

      h1 : Heap V E
      h1 = record (put q new_cell h) { next_id = suc q }

      p-eq : h1.cells p ≡ h.cells p
      p-eq = get-put_ne q p new_cell h (λ e. omega (arith, e))

      h2 : Heap V E
      h2 = put p (bound_cell f (h.cells p)) h1

      q-open : Open (h2.cells q)
      q-open =
          rw (get-put_ne p q (bound_cell f (h.cells p)) h1 (λ e. omega (arith, e)), get-put_self)
            (record { pends = refl; unassigned = refl })

      p-loaded : Loaded f x (h2.cells p)
      p-loaded =
          rw get-put_self
            (record { assigned = refl; bound = refl; holds = Holds-bound f x (h.cells p) l })

      size : h2.next_id ≡ suc q
      size = next_id-put p _ h1

      within : (r : ℕ) → r < q → r < h2.next_id
      within r lt = rw size (omega arith)

      q-within : q < h2.next_id
      q-within = rw size (omega arith)

      ran : Ran n p q h2 y
      ran =
          run-chain n p q h2 next handler fin x y (within p lp) q-within (λ e. omega (arith, e))
            p-loaded (answers q h2 q-within q-open)
