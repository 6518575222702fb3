-- ===== src/Promise/Chain.antt =====
-- The overloads of `then`, `except` and `finally` that promise.tcc and promise/state.h build from one
-- `then`. All results are of one type `V`, so a value passes on where `next` is null; a null callback
-- is `none`.
use kaiu.Base.{ℕ, Bool, Option, none, some}
use kaiu.Base.Action.{Action, on_throw, and_then, ◌>>=◌}
use mathlib.Core.Option
use kaiu.Promise.Types.{Reply, Raised, Finalizer, Heap, value, error, settled, raises}
use kaiu.Promise.State.{Run}
use kaiu.Promise.Operations.{then_promise, finish}

-- A call of user code that returns a value: it returns, or it throws.
pub data Called (A E : Type 0) : Type 0 where
  returns : A → Called A E
  throws : E → Called A E

-- `promise::factory`: a function as one that returns a promise.
unfoldable pub factory : {A V E : Type 0} → (A → Called V E) → A → Reply V E
factory f a = elim (f a) [ returns v ↦ settled (value v) | throws e ↦ settled (error e) ]

module _ {V E : Type 0} where
  -- `default_next` and `default_except`.
  unfoldable pub next_or : Option (V → Reply V E) → V → Reply V E
  next_or none v = settled (value v)
  next_or (some f) v = f v

  unfoldable pub handler_or : Option (E → Reply V E) → E → Reply V E
  handler_or none e = raises e
  handler_or (some f) e = f e

  -- The result of a chain's end stands in for `nullptr_t`.
  unfoldable pub then_forward : V → Option (V → Called (Unit {0}) E) → V → Called V E
  then_forward null none v = returns null
  then_forward null (some f) v = elim (f v) [ returns u ↦ returns null | throws e ↦ throws e ]

  unfoldable pub except_forward : V → Option (E → Called (Unit {0}) E) → E → Called V E
  except_forward null none e = returns null
  except_forward null (some f) e = elim (f e) [ returns u ↦ returns null | throws e' ↦ throws e' ]

module _ {V E : Type 0} (safe : Bool) (fuel p : ℕ) where
  -- `then` with callbacks that return promises.
  unfoldable pub then :
      Option (V → Reply V E) → Option (E → Reply V E) → Finalizer E → Action (Heap V E) (Raised E) ℕ
  then next handler fin = then_promise safe fuel p (next_or next) (handler_or handler) fin

  -- `then` with callbacks that return values.
  unfoldable pub then_value :
      Option (V → Called V E)
      → Option (E → Called V E)
      → Finalizer E
      → Action (Heap V E) (Raised E) ℕ
  unfolding then
  then_value next handler fin = then (Option.map factory next) (Option.map factory handler) fin

  -- `then` with callbacks that return nothing, which ends the chain.
  unfoldable pub then_void :
      V
      → Option (V → Called (Unit {0}) E)
      → Option (E → Called (Unit {0}) E)
      → Finalizer E
      → Run V E
  unfolding then_value
  then_void null next handler fin = do
    q ← then_value (some (then_forward null next)) (some (except_forward null handler)) fin
    finish safe fuel q

  -- `except` and `finally`.
  unfoldable pub except : (E → Reply V E) → Action (Heap V E) (Raised E) ℕ
  unfolding then
  except handler = then none (some handler) none

  unfoldable pub finally : Finalizer E → Action (Heap V E) (Raised E) ℕ
  unfolding then
  finally fin = then none none fin

-- `combine_finalizers`: both run, and an exception of the first is thrown on after the second has
-- run. A finalizer acts on a state `S`; a null one is `none`.
module _ {S E : Type 0} where
  abbrev pub both : Action S E (Unit {0}) → Action S E (Unit {0}) → Action S E (Unit {0})
  both f1 f2 s = and_then (on_throw f2 (f1 s)) (λ _. f2)

  unfoldable pub combine_finalizers :
      Option (Action S E (Unit {0}))
      → Option (Action S E (Unit {0}))
      → Option (Action S E (Unit {0}))
  combine_finalizers none f2 = f2
  combine_finalizers (some f1) none = some f1
  combine_finalizers (some f1) (some f2) = some (both f1 f2)
