-- ===== src/Promise/Operations.antt =====
-- The public operations of a promise, and `promise::resolved` and `promise::rejected`.
use kaiu.Base.{ℕ, Bool}
use kaiu.Base.Action.{Action}
use kaiu.Promise.Types.{Raised, Reply, Finalizer, Heap, value, error, terminates}
use kaiu.Promise.State.{
  Run, settle, set_callbacks, forward_to, settled_promise, then_with, update_within,
}

module _ {V E : Type 0} (safe : Bool) (fuel : ℕ) where
  -- The public operations. `resolve`, `reject`:
  unfoldable pub resolve : ℕ → V → Run V E
  unfolding settle update_within
  resolve p v = settle safe (update_within safe fuel) p (value v)

  unfoldable pub reject : ℕ → E → Run V E
  unfolding settle update_within
  reject p e = settle safe (update_within safe fuel) p (error e)

  -- `promise::resolved` and `promise::rejected`.
  unfoldable pub resolved_promise : V → Action (Heap V E) (Raised E) ℕ
  unfolding settled_promise update_within
  resolved_promise v = settled_promise safe (update_within safe fuel) (value v)

  unfoldable pub rejected_promise : E → Action (Heap V E) (Raised E) ℕ
  unfolding settled_promise update_within
  rejected_promise e = settled_promise safe (update_within safe fuel) (error e)

  -- `then` over promise-returning callbacks, none of them null.
  unfoldable pub then_promise :
      ℕ → (V → Reply V E) → (E → Reply V E) → Finalizer E → Action (Heap V E) (Raised E) ℕ
  unfolding then_with update_within
  then_promise p next handler fin = then_with safe (update_within safe fuel) p next handler fin

  -- `forward_to` and `finish`.
  unfoldable pub forward : ℕ → ℕ → Run V E
  unfolding forward_to update_within
  forward p q = forward_to safe (update_within safe fuel) p q

  unfoldable pub finish : ℕ → Run V E
  unfolding set_callbacks update_within
  finish p = set_callbacks safe (update_within safe fuel) p terminates
