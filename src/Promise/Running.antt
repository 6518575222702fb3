-- ===== src/Promise/Running.antt =====
-- What the callbacks of a settled promise do to the promise that follows it.
use kaiu.Base.{ℕ, suc, ◌≡◌, ◌≢◌, refl, sym, ◌∙◌, Bool, true, false, none, some}
use kaiu.Base.Action.{done, and_then}
use kaiu.Promise.Types.{
  Settled, Callback, Cell, Heap, pending, rejected, resolved, completed, value, error, put,
  forwards,
}
use kaiu.Promise.State.{
  settle, set_state, update_within, apply_state, forward_to, run_callback, enter,
}
use kaiu.Promise.Settling.{
  get-put_self, get-put_ne, put-put, settled_cell, bound_cell, settle-eq, set_state-eq,
  set_callbacks-eq, update-unbound,
}

module _ {V E : Type 0} where
  -- The cell holds this settlement, and is bound to this callback.
  abbrev pub Holds : Settled V E → Cell V E → Type 0
  Holds (value v) c = (c.state ≡ resolved) × (c.result ≡ some v)
  Holds (error e) c = (c.state ≡ rejected) × (c.rejection ≡ some e)

  pub record Loaded (f : Callback V E) (x : Settled V E) (c : Cell V E) : Type 0 where
    pub assigned : c.callbacks_assigned ≡ true
    pub bound : c.callbacks ≡ some f
    pub holds : Holds x c

  -- Pending, with no callbacks: a promise that only its maker has used.
  pub record Open (c : Cell V E) : Type 0 where
    pub pends : c.state ≡ pending
    pub unassigned : c.callbacks_assigned ≡ false

  abbrev pub completed_cell : Cell V E → Cell V E
  completed_cell c = record c { state = completed; callbacks = none; immortal = false }

module _ {V E : Type 0} (safe : Bool) (n p : ℕ) (h : Heap V E) where
  pub update-Loaded :
      (f : Callback V E) (x : Settled V E)
      → Loaded f x (h.cells p)
      → update_within safe (suc n) p h
        ≡ and_then
            (run_callback safe (update_within safe n) f x h)
            (λ _. set_state safe (update_within safe n) p completed)
  unfolding update_within apply_state
  update-Loaded f (value v) l = simp (l.holds.0, l.holds.1, l.assigned, l.bound)
  update-Loaded f (error v) l = simp (l.holds.0, l.holds.1, l.assigned, l.bound)

  update-completed :
      (c : Cell V E)
      → h.cells p ≡ c
      → c.state ≡ completed
      → update_within safe (suc n) p h
        ≡ done tt (put p (record c { callbacks = none; immortal = false }) h)
  unfolding update_within apply_state
  update-completed c e k = simp (e, k)

module _ {V E : Type 0} (safe : Bool) (n p : ℕ) (h : Heap V E) where
  pub complete-lem :
      (x : Settled V E)
      → Holds x (h.cells p)
      → set_state safe (update_within safe (suc n)) p completed h
        ≡ done tt (put p (completed_cell (h.cells p)) h)
  complete-lem (value v) l = rw (
    set_state-eq safe (update_within safe (suc n)) p h completed (h.cells p) refl (rw l.0),
    update-completed safe n p (put p (enter safe completed (h.cells p)) h) _ (get-put_self p _ h)
        refl,
    put-put,
  )
  complete-lem (error e) l = rw (
    set_state-eq safe (update_within safe (suc n)) p h completed (h.cells p) refl (rw l.0),
    update-completed safe n p (put p (enter safe completed (h.cells p)) h) _ (get-put_self p _ h)
        refl,
    put-put,
  )

  -- Settling an open promise runs nothing.
  pub settle-Open :
      (x : Settled V E)
      → Open (h.cells p)
      → settle safe (update_within safe (suc n)) p x h
        ≡ done tt (put p (settled_cell safe x (h.cells p)) h)
  settle-Open (value v) o = rw (
    settle-eq safe (update_within safe (suc n)) p h (value v) (h.cells p) refl o.pends,
    update-unbound safe n p (put p (settled_cell safe (value v) (h.cells p)) h)
        (rw get-put_self (λ e. cc)) (rw get-put_self o.unassigned),
  )
  settle-Open (error v) o = rw (
    settle-eq safe (update_within safe (suc n)) p h (error v) (h.cells p) refl o.pends,
    update-unbound safe n p (put p (settled_cell safe (error v) (h.cells p)) h)
        (rw get-put_self (λ e. cc)) (rw get-put_self o.unassigned),
  )

module _ {V E : Type 0} (safe : Bool) (n r q : ℕ) (h : Heap V E) (ne : r ≢ q) (x : Settled V E)
    (l : Holds x (h.cells r)) (u : (h.cells r).callbacks_assigned ≡ false)
    (o : Open (h.cells q)) where
  abbrev tied : Cell V E
  tied = bound_cell (forwards q) (h.cells r)

  abbrev linked : Heap V E
  linked = put r tied h

  abbrev passed : Heap V E
  passed = put q (settled_cell safe x (h.cells q)) linked

  abbrev pub forwarded : Heap V E
  forwarded = put r (completed_cell tied) passed

  Holds-tied : (y : Settled V E) → Holds y (h.cells r) → Holds y tied
  Holds-tied (value v) k = k
  Holds-tied (error e) k = k

  linked-q : linked.cells q ≡ h.cells q
  linked-q = get-put_ne r q tied h ne

  passed-r : passed.cells r ≡ tied
  passed-r = get-put_ne q r _ linked (λ e. ne (sym e)) ∙ get-put_self r tied h

  linked-Loaded : Loaded (forwards q) x (linked.cells r)
  linked-Loaded = rw get-put_self (record { assigned = refl; bound = refl; holds = Holds-tied x l })

  run-forwards :
      run_callback safe (update_within safe (suc n)) (forwards q) x linked ≡ done tt passed
  unfolding run_callback
  run-forwards = settle-Open safe n q linked x (rw linked-q o) ∙ (rw linked-q)

  -- Forwarding a settled promise hands its settlement on to an open one, and completes it.
  pub forward-lem : forward_to safe (update_within safe (suc (suc n))) r q h ≡ done tt forwarded
  unfolding forward_to
  forward-lem =
      rw
        (
          set_callbacks-eq safe (update_within safe (suc (suc n))) r h (forwards q) (h.cells r) refl
              u,
          update-Loaded safe (suc n) r linked (forwards q) x linked-Loaded,
          run-forwards,
        )
        (complete-lem safe n r passed x (rw passed-r (Holds-tied x l)) ∙ (rw passed-r))
