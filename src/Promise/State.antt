-- ===== src/Promise/State.antt =====
-- promise.cpp and promise.tcc: settling a promise, binding its callbacks, and running them. `safe` is
-- SAFE_PROMISES, which a debug build defines. A callback may settle further promises, so the calls
-- nest; the fuel bounds how deep.
use kaiu.Base.{
  [], ◌∷◌, ◌++◌, ℕ, zero, suc, Bool, true, false, ◌&&◌, ◌||◌, Option, none, some, if◌then◌else◌,
}
use mathlib.Core.Option
use kaiu.Base.Action.{Action, Outcome, done, thrown, modify, return, ◌>>=◌, ◌>>◌}
use kaiu.Promise.Types.{
  PromiseState, Fault, Raised, Settled, Reply, Links, Finalizer, Callback, Cell, Heap, pending,
  rejected, resolved, completed, double_bind, explicitly_pending, already_settled, not_settled,
  bad_function_call, out_of_fuel, logic, user, value, error, existing, settled, raises, chained,
  link, more, forwards, chains, terminates, posts, put, new_promise,
}

abbrev pub Run : Type 0 → Type 0 → Type 0
Run V E = Action (Heap V E) (Raised E) (Unit {0})

abbrev pub same_state : PromiseState → PromiseState → Bool
same_state pending pending = true
same_state rejected rejected = true
same_state resolved resolved = true
same_state completed completed = true
same_state _ _ = false

abbrev pub is_settled : PromiseState → Bool
is_settled rejected = true
is_settled resolved = true
is_settled _ = false

-- The `switch` of `set_state`: the fault of a transition that is not allowed.
abbrev pub transition_fault : PromiseState → PromiseState → Option Fault
transition_fault pending from = some explicitly_pending
transition_fault completed from = if is_settled from then none else some not_settled
transition_fault next from =
    if same_state from pending || same_state from next then none else some already_settled

-- The state that a settlement leads to.
abbrev pub settled_state : {V E : Type 0} → Settled V E → PromiseState
settled_state (value v) = resolved
settled_state (error e) = rejected

module _ {V E : Type 0} where
  -- `set_result` and `set_error`.
  abbrev pub keep : Settled V E → Cell V E → Cell V E
  keep (value v) c = record c { result = some v }
  keep (error e) c = record c { rejection = some e }

  abbrev pub edit : ℕ → (Cell V E → Cell V E) → Run V E
  edit p f = modify (λ h. put p (f (h.cells p)) h)

module _ {V E : Type 0} (safe : Bool) where
  -- `make_immortal` stands in the checks of a debug build.
  abbrev pub enter : PromiseState → Cell V E → Cell V E
  enter next c = record c {
    state = next;
    immortal = c.immortal || (safe && is_settled next && same_state c.state pending);
  }

  -- `set_state`, over the `update_state` that it ends with.
  unfoldable pub set_state : (ℕ → Run V E) → ℕ → PromiseState → Run V E
  set_state update p next h = elim (transition_fault next (h.cells p).state) [
    | some f ↦ if safe then thrown (logic f) h else (do edit p (enter next); update p) h
    | none ↦ (do edit p (enter next); update p) h
  ]

  -- `resolve` and `reject`.
  unfoldable pub settle : (ℕ → Run V E) → ℕ → Settled V E → Run V E
  unfolding set_state
  settle update p x = do edit p (keep x); set_state update p (settled_state x)

  -- Null callbacks, which a debug build refuses, are none of the callbacks of this model.
  unfoldable pub set_callbacks : (ℕ → Run V E) → ℕ → Callback V E → Run V E
  set_callbacks update p f h =
      if safe && (h.cells p).callbacks_assigned
      then thrown (logic double_bind) h
      else (do edit p (λ c. record c { callbacks = some f; callbacks_assigned = true }); update p) h

  unfoldable pub forward_to : (ℕ → Run V E) → ℕ → ℕ → Run V E
  unfolding set_callbacks
  forward_to update p q = set_callbacks update p (forwards q)

  -- `call_finally`: whether the finalizer returned; if it threw, the next promise is rejected.
  unfoldable pub call_finally : (ℕ → Run V E) → ℕ → Finalizer E → Action (Heap V E) (Raised E) Bool
  call_finally update q none = return true
  call_finally update q (some e) = do settle update q (error e); return false

  -- `then` over promise-returning callbacks, none of them null.
  unfoldable pub then_with :
      (ℕ → Run V E)
      → ℕ
      → (V → Reply V E)
      → (E → Reply V E)
      → Finalizer E
      → Action (Heap V E) (Raised E) ℕ
  unfolding set_callbacks new_promise
  then_with update p next handler fin = do
    q ← new_promise
    set_callbacks update p (chains q next handler fin)
    return q

  -- `promise::resolved` and `promise::rejected`.
  unfoldable pub settled_promise : (ℕ → Run V E) → Settled V E → Action (Heap V E) (Raised E) ℕ
  unfolding settle new_promise
  settled_promise update x = do r ← new_promise; settle update r x; return r

  -- The promise that a chain of calls of `then` returns.
  unfoldable pub follow : (ℕ → Run V E) → Links V E → Action (Heap V E) (Raised E) ℕ
  unfolding then_with settled_promise
  follow update (link x next handler fin) = do
    r ← settled_promise update x
    then_with update r next handler fin
  follow update (more links next handler fin) = do
    r ← follow update links
    then_with update r next handler fin

  -- The end of both branches of `then`, where the callback has thrown or has returned.
  unfoldable pub after_throw : (ℕ → Run V E) → ℕ → Finalizer E → E → Run V E
  unfolding call_finally
  after_throw update q fin e = do
    ran ← call_finally update q fin
    if ran then settle update q (error e) else return tt

  unfoldable pub after_return : (ℕ → Run V E) → ℕ → Finalizer E → ℕ → Run V E
  unfolding call_finally
  after_return update q fin r = do
    ran ← call_finally update q fin
    if ran then forward_to update r q else return tt

  -- `catch (...)`: every exception is caught; that fuel runs out is none.
  abbrev pub caught :
      (ℕ → Run V E)
      → ℕ
      → Finalizer E
      → (Fault → E)
      → Outcome (Heap V E) (Raised E) ℕ
      → Outcome (Heap V E) (Raised E) (Unit {0})
  caught update q fin as_error (done r h) = after_return update q fin r h
  caught update q fin as_error (thrown (user e) h) = after_throw update q fin e h
  caught update q fin as_error (thrown (logic out_of_fuel) h) = thrown (logic out_of_fuel) h
  caught update q fin as_error (thrown (logic f) h) = after_throw update q fin (as_error f) h

  -- The two branches of `then`, at what `next` or `handler` did.
  unfoldable pub on_reply : (ℕ → Run V E) → ℕ → Finalizer E → Reply V E → Run V E
  unfolding after_throw after_return settled_promise follow
  on_reply update q fin (raises e) = after_throw update q fin e
  on_reply update q fin (existing r) = after_return update q fin r
  on_reply update q fin (settled x) = do r ← settled_promise update x; after_return update q fin r
  on_reply update q fin (chained as_error links) =
      λ h. caught update q fin as_error (follow update links h)

  -- What a callback does with the result or the error of its promise.
  unfoldable pub run_callback : (ℕ → Run V E) → Callback V E → Settled V E → Run V E
  unfolding on_reply
  run_callback update (forwards q) x = settle update q x
  run_callback update (chains q next handler fin) (value v) = on_reply update q fin (next v)
  run_callback update (chains q next handler fin) (error e) = on_reply update q fin (handler e)
  run_callback update (posts pool q) x = modify (λ h. record h {
    posted = h.posted ++ (record { pool = pool; promise = q; settlement = x } ∷ []);
  })
  run_callback update terminates (value v) = return tt
  run_callback update terminates (error e) = λ h. thrown (user e) h

  -- `on_resolve` is handed the result, `on_reject` the error.
  abbrev call : (ℕ → Run V E) → Option (Callback V E) → Option (Settled V E) → Run V E
  call update (some f) (some x) h = run_callback update f x h
  call update (some f) none h = thrown (logic bad_function_call) h
  call update none x h = thrown (logic bad_function_call) h

  -- A settled promise with callbacks runs them, and is completed then.
  abbrev run_callbacks : (ℕ → Run V E) → ℕ → Option (Settled V E) → Run V E
  run_callbacks update p x h =
      let c = h.cells p in
      if c.callbacks_assigned
      then (do call update c.callbacks x; set_state update p completed) h
      else done tt h

  unfoldable pub apply_state : (ℕ → Run V E) → ℕ → PromiseState → Run V E
  unfolding run_callback
  apply_state update p pending h = done tt h
  apply_state update p rejected h =
      run_callbacks update p (Option.map error (h.cells p).rejection) h
  apply_state update p resolved h = run_callbacks update p (Option.map value (h.cells p).result) h
  apply_state update p completed h = edit p (λ c. record c { callbacks = none; immortal = false }) h

  unfoldable pub update_within : ℕ → ℕ → Run V E
  update_within zero p h = thrown (logic out_of_fuel) h
  update_within (suc n) p h =
      let update = update_within n in apply_state update p (h.cells p).state h
