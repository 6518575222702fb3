-- ===== src/Base/Action.antt =====
-- Code that changes a state and may throw. What was changed before a throw stays changed, as it
-- does in the source.
use mathlib.Core.Bool.{Bool, true, false}

-- The value returned or the exception thrown, with the state at that point.
pub data Outcome {σ φ α} (S : Type σ) (F : Type φ) (A : Type α) : Type (σ ⊔ φ ⊔ α) where
  done : A → S → Outcome S F A
  thrown : F → S → Outcome S F A

abbrev pub Action {σ φ α} : Type σ → Type φ → Type α → Type (σ ⊔ φ ⊔ α)
Action S F A = S → Outcome S F A

module _ {σ φ α} {S : Type σ} {F : Type φ} {A : Type α} where
  -- The state that is left, on either way out.
  abbrev pub final : Outcome S F A → S
  final (done a s) = s
  final (thrown e s) = s

  abbrev pub return : A → Action S F A
  return a s = done a s

  abbrev pub throw : F → Action S F A
  throw e s = thrown e s

  -- `catch (...) { cleanup; throw; }`: an exception of the clean-up replaces the caught one.
  abbrev pub rethrow_after {β} : {B : Type β} → F → Outcome S F B → Outcome S F A
  rethrow_after e (done b s) = thrown e s
  rethrow_after e (thrown e' s) = thrown e' s

  abbrev pub on_throw {β} : {B : Type β} → Action S F B → Outcome S F A → Outcome S F A
  on_throw cleanup (done a s) = done a s
  on_throw cleanup (thrown e s) = rethrow_after e (cleanup s)

infixl 5 ◌>>=◌ ◌>>◌
module _ {σ φ α β} {S : Type σ} {F : Type φ} {A : Type α} {B : Type β} where
  abbrev pub and_then : Outcome S F A → (A → Action S F B) → Outcome S F B
  and_then (done a s) f = f a s
  and_then (thrown e s) f = thrown e s

  abbrev pub ◌>>=◌ : Action S F A → (A → Action S F B) → Action S F B
  ◌>>=◌ m f s = and_then (m s) f

  abbrev pub ◌>>◌ : Action S F A → Action S F B → Action S F B
  ◌>>◌ m k s = and_then (m s) (λ _. k)

module _ {σ φ} {S : Type σ} {F : Type φ} where
  abbrev pub modify : (S → S) → Action S F (Unit {0})
  modify f s = done tt (f s)

  -- `if (fails) throw e;`
  abbrev pub guard : Bool → F → Action S F (Unit {0})
  guard true e s = done tt s
  guard false e s = thrown e s

module _ {σ φ α} {S : Type σ} {F : Type φ} {A : Type α} where
  -- If the call returns, this holds of the state that it leaves.
  abbrev pub Ends {ℓ} : (S → Type ℓ) → Outcome S F A → Type ℓ
  Ends P (done a s) = P s
  Ends P (thrown e s) = Unit

  pub Ends-map {ℓ κ} :
      (P : S → Type ℓ) (Q : S → Type κ) (o : Outcome S F A)
      → ((s : S) → P s → Q s)
      → Ends P o
      → Ends Q o
  Ends-map P Q (done a s) k p = k s p
  Ends-map P Q (thrown e s) k p = tt

module _ {σ φ α β} {S : Type σ} {F : Type φ} {A : Type α} {B : Type β} where
  pub and_then-Ends {ℓ κ} :
      (P : S → Type ℓ) (Q : S → Type κ) (o : Outcome S F A) (f : A → Action S F B)
      → Ends P o
      → ((a : A) (s : S) → P s → Ends Q (f a s))
      → Ends Q (and_then o f)
  and_then-Ends P Q (done a s) f p k = k a s p
  and_then-Ends P Q (thrown e s) f p k = tt
