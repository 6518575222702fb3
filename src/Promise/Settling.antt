-- ===== src/Promise/Settling.antt =====
-- Settling a promise and binding its callbacks: either order, and what comes of it.
use kaiu.Base.{ℕ, suc, ◌≡◌, ◌≢◌, refl, sym, ap, ◌∙◌, Bool, true, false, none, some, arith}
use kaiu.Base.Action.{done, and_then}
use kaiu.Promise.Types.{
  PromiseState, Settled, Callback, Cell, Heap, new_cell, pending, rejected, resolved, completed,
  value, error, put,
}
use kaiu.Promise.State.{
  Run, settle, set_state, set_callbacks, update_within, apply_state, keep, settled_state, enter,
  transition_fault,
}

module _ {V E : Type 0} where
  -- A promise that nothing has been done to.
  abbrev pub IsFresh : ℕ → Heap V E → Type 0
  IsFresh p h = h.cells p ≡ new_cell

  pub get-put_self : (p : ℕ) (c : Cell V E) (h : Heap V E) → (put p c h).cells p ≡ c
  unfolding put
  get-put_self p c h = ground arith

  pub get-put_ne : (p q : ℕ) (c : Cell V E) (h : Heap V E) → p ≢ q → (put p c h).cells q ≡ h.cells q
  unfolding put
  get-put_ne p q c h ne = ground arith

  pub next_id-put : (p : ℕ) (c : Cell V E) (h : Heap V E) → (put p c h).next_id ≡ h.next_id
  unfolding put
  next_id-put p c h = refl

  pub posted-put : (p : ℕ) (c : Cell V E) (h : Heap V E) → (put p c h).posted ≡ h.posted
  unfolding put
  posted-put p c h = refl

  put-put-at :
      (p q : ℕ) (c d : Cell V E) (h : Heap V E)
      → (put p c (put p d h)).cells q ≡ (put p c h).cells q
  unfolding put
  put-put-at p q c d h = ground arith

  pub put-put : (p : ℕ) (c d : Cell V E) (h : Heap V E) → put p c (put p d h) ≡ put p c h
  unfolding put
  put-put p c d h =
      λ i. record { cells = λ q. put-put-at p q c d h i; next_id = h.next_id; posted = h.posted }

  -- A cell that is settled with `x`, from pending.
  abbrev pub settled_cell : Bool → Settled V E → Cell V E → Cell V E
  settled_cell safe x c = enter safe (settled_state x) (keep x c)

  -- A cell that `f` is bound to.
  abbrev pub bound_cell : Callback V E → Cell V E → Cell V E
  bound_cell f c = record c { callbacks = some f; callbacks_assigned = true }

module _ {V E : Type 0} (safe : Bool) (update : ℕ → Run V E) (p : ℕ) (h : Heap V E) where
  pub set_state-eq :
      (next : PromiseState) (c : Cell V E)
      → h.cells p ≡ c
      → transition_fault next c.state ≡ none
      → set_state safe update p next h ≡ update p (put p (enter safe next c) h)
  unfolding set_state
  set_state-eq next c e t = ground arith

  pub set_callbacks-eq :
      (f : Callback V E) (c : Cell V E)
      → h.cells p ≡ c
      → c.callbacks_assigned ≡ false
      → set_callbacks safe update p f h ≡ update p (put p (bound_cell f c) h)
  unfolding set_callbacks
  set_callbacks-eq f c e k = ground arith

module _ {V E : Type 0} (safe : Bool) (update : ℕ → Run V E) (p : ℕ) (h : Heap V E) where
  pub settle-eq :
      (x : Settled V E) (c : Cell V E)
      → h.cells p ≡ c
      → c.state ≡ pending
      → settle safe update p x h ≡ update p (put p (settled_cell safe x c) h)
  unfolding settle
  settle-eq (value v) c e k = simp e (
      set_state-eq safe update p (put p (keep (value v) c) h) resolved (keep (value v) c)
        (get-put_self p _ h) (rw k)
      ∙ ap (update p) (put-put p _ _ h))
  settle-eq (error v) c e k = simp e (
      set_state-eq safe update p (put p (keep (error v) c) h) rejected (keep (error v) c)
        (get-put_self p _ h) (rw k)
      ∙ ap (update p) (put-put p _ _ h))

module _ {V E : Type 0} (safe : Bool) (n p : ℕ) (h : Heap V E) where
  pub update-pending : (h.cells p).state ≡ pending → update_within safe (suc n) p h ≡ done tt h
  unfolding update_within apply_state
  update-pending k = rw k

  pub update-unbound :
      (h.cells p).state ≢ completed
      → (h.cells p).callbacks_assigned ≡ false
      → update_within safe (suc n) p h ≡ done tt h
  unfolding update_within apply_state
  update-unbound k b = ground arith

  -- Settled, and bound to `f`.
  abbrev pub loaded : Callback V E → Settled V E → Heap V E
  loaded f x = put p (bound_cell f (settled_cell safe x (h.cells p))) h

module _ {V E : Type 0} (safe : Bool) (n p : ℕ) (h : Heap V E) (f : Callback V E) (x : Settled V E)
    (k : (h.cells p).state ≡ pending) (b : (h.cells p).callbacks_assigned ≡ false) where
  abbrev update : ℕ → Run V E
  update = update_within safe (suc n)

  swap_cells :
      (y : Settled V E)
      → settled_cell safe y (bound_cell f (h.cells p))
        ≡ bound_cell f (settled_cell safe y (h.cells p))
  swap_cells (value v) = refl
  swap_cells (error e) = refl

  settled-open :
      (y : Settled V E)
      → ((settled_cell safe y (h.cells p)).state ≢ completed)
        × ((settled_cell safe y (h.cells p)).callbacks_assigned ≡ false)
  settled-open (value v) = ((λ e. cc), b)
  settled-open (error v) = ((λ e. cc), b)

  settle_then_bind :
      and_then (settle safe update p x h) (λ _. set_callbacks safe update p f)
      ≡ update p (loaded safe n p h f x)
  settle_then_bind =
      let o = settled-open x in
      rw
        (
          settle-eq safe update p h x (h.cells p) refl k,
          update-unbound safe n p (put p (settled_cell safe x (h.cells p)) h) (rw get-put_self o.0)
              (rw get-put_self o.1),
          set_callbacks-eq safe update p (put p (settled_cell safe x (h.cells p)) h) f _
              (get-put_self p _ h) o.1,
        )
        (ap (update p) (put-put p _ _ h))

  bind_then_settle :
      and_then (set_callbacks safe update p f h) (λ _. settle safe update p x)
      ≡ update p (loaded safe n p h f x)
  bind_then_settle = rw (
    set_callbacks-eq safe update p h f (h.cells p) refl b,
    update-pending safe n p (put p (bound_cell f (h.cells p)) h) (rw get-put_self k),
    settle-eq safe update p (put p (bound_cell f (h.cells p)) h) x _ (get-put_self p _ h) k,
    put-put,
    swap_cells x,
  )

  -- Binding callbacks to a promise and settling it come to the same in either order.
  pub settle_bind :
      and_then (settle safe update p x h) (λ _. set_callbacks safe update p f)
      ≡ and_then (set_callbacks safe update p f h) (λ _. settle safe update p x)
  settle_bind = settle_then_bind ∙ sym bind_then_settle
