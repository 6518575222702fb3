-- ===== src/Promise/Finalizers.antt =====
-- `combine_finalizers` of promise.cpp.
use kaiu.Base.{◌≡◌, refl, Option, none, some}
use kaiu.Base.Action.{Action, Outcome, done, thrown, final, rethrow_after, on_throw, and_then}
use kaiu.Promise.Chain.{combine_finalizers}

-- The exception of the second of two calls stands before that of the first.
abbrev pub latest : {E : Type 0} → Option E → Option E → Option E
latest e none = e
latest e (some d) = some d

module _ {S E : Type 0} where
  -- The exception that leaves a call.
  abbrev pub escaped : Outcome S E (Unit {0}) → Option E
  escaped (done a s) = none
  escaped (thrown e s) = some e

  -- A null finalizer does nothing.
  abbrev pub call : Option (Action S E (Unit {0})) → Action S E (Unit {0})
  call none s = done tt s
  call (some f) s = f s

  -- Two calls in turn, the second in the state that the first leaves.
  abbrev pub InTurn :
      Outcome S E (Unit {0}) → Outcome S E (Unit {0}) → Outcome S E (Unit {0}) → Type 0
  InTurn o p r = (final r ≡ final p) × (escaped r ≡ latest (escaped o) (escaped p))

  rethrown :
      (g : Action S E (Unit {0})) (e : E) (t : S) (p : Outcome S E (Unit {0}))
      → InTurn (thrown e t) p (and_then (rethrow_after {A = Unit {0}} e p) (λ u. g))
  rethrown g e t (done a s) = (refl, refl)
  rethrown g e t (thrown d s) = (refl, refl)

  returned : (e : S) (p : Outcome S E (Unit {0})) → InTurn (done tt e) p p
  returned e (done a s) = (refl, refl)
  returned e (thrown d s) = (refl, refl)

  both-InTurn :
      (g : Action S E (Unit {0})) (o : Outcome S E (Unit {0}))
      → InTurn o (g (final o)) (and_then (on_throw g o) (λ u. g))
  both-InTurn g (done a t) = returned t (g t)
  both-InTurn g (thrown e t) = rethrown g e t (g t)

  alone : (o : Outcome S E (Unit {0})) → InTurn o (done tt (final o)) o
  alone (done a t) = (refl, refl)
  alone (thrown e t) = (refl, refl)

  -- Combined finalizers, null or not: the second runs once, in the state that the first leaves,
  -- whether the first returned or threw; an exception of the second leaves in place of one of the
  -- first.
  pub combine_finalizers-InTurn :
      (f g : Option (Action S E (Unit {0}))) (s : S)
      → InTurn (call f s) (call g (final (call f s))) (call (combine_finalizers f g) s)
  unfolding combine_finalizers
  combine_finalizers-InTurn none none s = (refl, refl)
  combine_finalizers-InTurn none (some g) s = returned s (g s)
  combine_finalizers-InTurn (some f) none s = alone (f s)
  combine_finalizers-InTurn (some f) (some g) s = both-InTurn g (f s)
