-- ===== src/Functional/Shared.antt =====
-- `shared_functor` (shared_functor.h): a functor that its copies share, and that a debug build lets
-- be called once. What the functor does with its arguments is outside.
use kaiu.Base.{
  Bool, true, false, ◌≡◌, refl, sym, ap, ◌∙◌, append_assoc, List, [], ◌∷◌, ◌++◌, if◌then◌else◌,
  append-nil,
}
use kaiu.Base.Action.{Outcome, done, thrown, final}

-- `logic_error`.
pub data Misuse : Type 0 where
  called_again : Misuse

-- `functor_state`, with the arguments that the functor was called with, oldest first.
pub record Shared (A : Type 0) : Type 0 where
  pub called : Bool
  pub received : List A

module _ {A : Type 0} where
  unfoldable pub make_shared_functor : Shared A
  make_shared_functor = record { called = false; received = [] }

  abbrev receive : A → Shared A → Shared A
  receive args s = record s { received = s.received ++ (args ∷ []) }

  -- `safe` is SAFE_SHARED_FUNCTORS.
  unfoldable pub call_shared : Bool → A → Shared A → Outcome (Shared A) Misuse (Unit {0})
  call_shared true args s =
      if s.called
      then thrown called_again s
      else done tt (receive args (record s { called = true }))
  call_shared false args s = done tt (receive args s)

  -- Calls in turn, of any of the copies.
  unfoldable pub call_all : Bool → List A → Shared A → Shared A
  call_all safe [] s = s
  call_all safe (x ∷ xs) s = call_all safe xs (final (call_shared safe x s))

  abbrev first : List A → List A
  first [] = []
  first (x ∷ xs) = x ∷ []

  call_shared-again :
      (x : A) (s : Shared A) → s.called ≡ true → call_shared true x s ≡ thrown called_again s
  unfolding call_shared
  call_shared-again x s q = simp q

  calls_after :
      (xs : List A) (s : Shared A) → s.called ≡ true → (call_all true xs s).received ≡ s.received
  unfolding call_all
  calls_after [] s q = refl
  calls_after (x ∷ xs) s q =
      ap (λ o. (call_all true xs (final o)).received) (call_shared-again x s q) ∙ calls_after xs s q

  -- In a debug build, the functor receives the arguments of the first call only, and otherwise
  -- those of all calls.
  pub call_all-lem :
      (safe : Bool) (xs : List A)
      → (call_all safe xs make_shared_functor).received ≡ (if safe then first xs else xs)
  unfolding call_all call_shared make_shared_functor
  call_all-lem true [] = refl
  call_all-lem true (x ∷ xs) = calls_after xs (record { called = true; received = x ∷ [] }) refl
  call_all-lem false xs = all_received xs (record { called = false; received = [] })
    where
      all_received :
          (ys : List A) (s : Shared A) → (call_all false ys s).received ≡ s.received ++ ys
      all_received [] s = sym (append-nil s.received)
      all_received (y ∷ ys) s = all_received ys (receive y s) ∙ append_assoc s.received (y ∷ []) ys
