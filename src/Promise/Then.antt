-- ===== src/Promise/Then.antt =====
-- The promise that `then` returns: what settles it, on every branch of its callbacks.
use kaiu.Base.{ℕ, suc, ◌<◌, ◌≤◌, ◌≡◌, ◌≢◌, Bool, false, some}
use kaiu.Base.Action.{done}
use kaiu.Promise.Types.{Settled, Reply, Finalizer, Heap, completed}
use kaiu.Promise.Operations.{then_promise}
use kaiu.Promise.Running.{Holds}
use kaiu.Promise.Outcomes.{reply_to, chain_outcome, depth}
use kaiu.Promise.Attached.{Chained, then_with-Chained}
use kaiu.Promise.Followed.{reply-Answers}

module _ {V E : Type 0} (safe : Bool) (n p : ℕ) (h : Heap V E) (next : V → Reply V E)
    (handler : E → Reply V E) (fin : Finalizer E) (x y : Settled V E) (lp : p < h.next_id)
    (l : Holds x (h.cells p)) (u : (h.cells p).callbacks_assigned ≡ false)
    (deep : depth (reply_to next handler x) ≤ n)
    (k : chain_outcome (reply_to next handler x) fin ≡ some y) where
  pub then_promise-Chained :
      Chained safe h p y (then_promise safe (suc (suc (suc n))) p next handler fin h)
  unfolding then_promise
  then_promise-Chained =
      then_with-Chained safe n p h next handler fin x y lp l u
        (reply-Answers safe (reply_to next handler x) n fin y deep k)

  -- Then on a settled promise with no callbacks yet, where the callback that fits returns a new
  -- promise, settled at once or by a chain of calls of then that does not wait for a promise that
  -- existed before, or throws, or returns a promise that existed and the finalizer throws,
  -- returns a new promise settled as those two say; it completes the old promise and changes no
  -- other that existed; the fuel is three more than the calls nest deep.
  pub then_promise-lem :
      (h' : Heap V E) × (then_promise safe (suc (suc (suc n))) p next handler fin h
        ≡ done h.next_id h')
      × Holds y (h'.cells h.next_id)
      × ((h'.cells p).state ≡ completed)
      × ((r : ℕ) → r ≢ p → r < h.next_id → h'.cells r ≡ h.cells r)
  then_promise-lem =
      let c = then_promise-Chained in (c.heap, c.returns, c.held, c.completes, c.others)
