-- ===== src/Promise/Replies.antt =====
-- What the end of a branch of `then` does, once its callback has thrown or has returned a promise that
-- it made.
use kaiu.Base.{ℕ, suc, ◌<◌, ◌≤◌, ◌≡◌, ◌≢◌, refl, sym, ap, ◌∙◌, Bool, false, none, some, arith}
use kaiu.Base.Action.{Outcome, done}
use kaiu.Promise.Types.{
  Raised, Settled, Finalizer, Cell, Heap, new_cell, value, error, put, new_promise,
}
use kaiu.Promise.State.{
  Run, settle, update_within, forward_to, call_finally, after_throw, after_return, settled_promise,
}
use kaiu.Promise.Settling.{get-put_self, get-put_ne, next_id-put, posted-put, settled_cell}
use kaiu.Promise.Running.{Holds, Open, settle-Open, forward-lem, forwarded}
use kaiu.Promise.Outcomes.{finished}

module _ {V E : Type 0} (safe : Bool) where
  -- A call that settles the promise `q` with `y`, and no other promise that was there before.
  pub record Settles (h : Heap V E) (q : ℕ) (y : Settled V E)
      (o : Outcome (Heap V E) (Raised E) (Unit {0})) : Type 0 where
    pub heap : Heap V E
    pub returns : o ≡ done tt heap
    pub target : heap.cells q ≡ settled_cell safe y (h.cells q)
    pub others : (p : ℕ) → p ≢ q → p < h.next_id → heap.cells p ≡ h.cells p
    pub bound : h.next_id ≤ heap.next_id
    pub posted : heap.posted ≡ h.posted

  -- A call that makes promises and leaves those that were there before.
  pub record Extends (h h' : Heap V E) : Type 0 where
    pub others : (p : ℕ) → p < h.next_id → h'.cells p ≡ h.cells p
    pub bound : h.next_id ≤ h'.next_id
    pub posted : h'.posted ≡ h.posted

  -- A call that returns a new promise, settled with `y` and not bound yet.
  pub record Made (h : Heap V E) (y : Settled V E) (o : Outcome (Heap V E) (Raised E) ℕ)
      : Type 0 where
    pub heap : Heap V E
    pub promise : ℕ
    pub returns : o ≡ done promise heap
    pub extends : Extends h heap
    pub fresh : h.next_id ≤ promise
    pub within : promise < heap.next_id
    pub held : Holds y (heap.cells promise)
    pub unbound : (heap.cells promise).callbacks_assigned ≡ false

  pub Extends-refl : (h : Heap V E) → Extends h h
  Extends-refl h = record { others = λ p lt. refl; bound = omega arith; posted = refl }

  pub Holds-settled : (y : Settled V E) (c : Cell V E) → Holds y (settled_cell safe y c)
  Holds-settled (value v) c = (refl, refl)
  Holds-settled (error e) c = (refl, refl)

  pub unbound-settled :
      (y : Settled V E) (c : Cell V E)
      → c.callbacks_assigned ≡ false
      → (settled_cell safe y c).callbacks_assigned ≡ false
  unbound-settled (value v) c u = u
  unbound-settled (error e) c u = u

  module _ (n q : ℕ) (h h1 : Heap V E) (known : q < h.next_id) (o : Open (h.cells q))
      (x1 : Extends h h1) where
    abbrev update : ℕ → Run V E
    update = update_within safe (suc (suc n))

    still : Open (h1.cells q)
    still = rw (x1.others q known) o

    settle_after : (y : Settled V E) → Settles h q y (settle safe update q y h1)
    settle_after y = record {
      heap = put q (settled_cell safe y (h1.cells q)) h1;
      returns = settle-Open safe (suc n) q h1 y still;
      target = get-put_self q _ h1 ∙ ap (settled_cell safe y) (x1.others q known);
      others = λ p ne lt. get-put_ne q p _ h1 (λ e. ne (sym e)) ∙ x1.others p lt;
      bound = rw next_id-put x1.bound;
      posted = rw posted-put x1.posted;
    }

    kept_by :
        {y : Settled V E} {r : Outcome (Heap V E) (Raised E) (Unit {0})} (s : Settles h q y r)
        → Settles h q y (done tt s.heap)
    kept_by s = record {
      heap = s.heap;
      returns = refl;
      target = s.target;
      others = s.others;
      bound = s.bound;
      posted = s.posted;
    }

    module _ (r : ℕ) (x : Settled V E) (fresh : h.next_id ≤ r) (held : Holds x (h1.cells r))
        (unbound : (h1.cells r).callbacks_assigned ≡ false) where
      r-ne : (p : ℕ) → p < h.next_id → r ≢ p
      r-ne p lt e = omega (arith, e)

      forward_after : Settles h q x (forward_to safe update r q h1)
      forward_after = record {
        heap = forwarded safe n r q h1 (r-ne q known) x held unbound still;
        returns = forward-lem safe n r q h1 (r-ne q known) x held unbound still;
        target =
            get-put_ne r q _ _ (r-ne q known)
            ∙ get-put_self q _ _
            ∙ ap (settled_cell safe x) (x1.others q known);
        others = λ p ne lt.
            get-put_ne r p _ _ (r-ne p lt)
            ∙ get-put_ne q p _ _ (λ e. ne (sym e))
            ∙ get-put_ne r p _ h1 (r-ne p lt)
            ∙ x1.others p lt;
        bound = simp next_id-put x1.bound;
        posted = simp posted-put x1.posted;
      }

      pub after_return-Settles :
          (fin : Finalizer E) → Settles h q (finished fin x) (after_return safe update q fin r h1)
      unfolding after_return call_finally
      after_return-Settles none = forward_after
      after_return-Settles (some e) = let s = settle_after (error e) in rw s.returns (kept_by s)

    -- A finalizer that throws decides, whatever promise the callback returned.
    pub after_return_throws :
        (r : ℕ) (e : E) → Settles h q (error e) (after_return safe update q (some e) r h1)
    unfolding after_return call_finally
    after_return_throws r e = let s = settle_after (error e) in rw s.returns (kept_by s)

    pub after_throw-Settles :
        (fin : Finalizer E) (e : E)
        → Settles h q (finished fin (error e)) (after_throw safe update q fin e h1)
    unfolding after_throw call_finally
    after_throw-Settles none e = settle_after (error e)
    after_throw-Settles (some e') e = let s = settle_after (error e') in rw s.returns (kept_by s)

  module _ (n : ℕ) (h : Heap V E) (x : Settled V E) where
    abbrev room : Heap V E
    room = record (put h.next_id new_cell h) { next_id = suc h.next_id }

    room-Open : Open (room.cells h.next_id)
    room-Open = rw get-put_self (record { pends = refl; unassigned = refl })

    room-ne : (p : ℕ) → p < h.next_id → room.cells p ≡ h.cells p
    room-ne p lt = get-put_ne h.next_id p new_cell h (λ e. omega (arith, e))

    pub settled_promise-Made :
        Made h x (settled_promise safe (update_within safe (suc (suc n))) x h)
    unfolding settled_promise new_promise
    settled_promise-Made = record {
      heap = put h.next_id (settled_cell safe x (room.cells h.next_id)) room;
      promise = h.next_id;
      returns = rw (settle-Open safe (suc n) h.next_id room x room-Open);
      extends = record {
        others = λ p lt. get-put_ne h.next_id p _ room (λ e. omega (arith, e)) ∙ room-ne p lt;
        bound = rw next_id-put (omega arith);
        posted = simp posted-put refl;
      };
      fresh = omega arith;
      within = rw next_id-put (omega arith);
      held = rw (get-put_self h.next_id _ room) (Holds-settled x (room.cells h.next_id));
      unbound =
          rw (get-put_self h.next_id _ room)
            (unbound-settled x (room.cells h.next_id) room-Open.unassigned);
    }
