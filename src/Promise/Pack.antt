-- ===== src/Promise/Pack.antt =====
-- `callback_pack` (promise/callback_pack.h and promise.tcc) and the operators of promise/monad.h. A null
-- function is `none`; all results are of one type, as in `Chain`.
use kaiu.Base.{ℕ, Bool, Option, none, some}
use kaiu.Base.Action.{Action}
use kaiu.Promise.Types.{
  Fault, Raised, Settled, Reply, Links, Finalizer, Heap, value, error, chained, link, more,
}
use kaiu.Promise.Chain.{next_or, handler_or, then}

pub record Pack (V E : Type 0) : Type 0 where
  pub next : Option (V → Reply V E)
  pub handler : Option (E → Reply V E)
  pub finalizer : Finalizer E

-- An operand of the operator `>>=`: a pack, or a factory, which is a pack of its own.
pub data Operand (V E : Type 0) : Type 0 where
  is_pack : Pack V E → Operand V E
  is_factory : (V → Reply V E) → Operand V E

-- `combine_finalizers`, of finalizers that are known by what they throw.
abbrev pub combined : {E : Type 0} → Finalizer E → Finalizer E → Finalizer E
combined f none = f
combined f (some e) = some e

module _ {V E : Type 0} where
  -- `then` with a pack, on a new promise that is settled and on the promise of a chain.
  abbrev pub then_pack : Settled V E → Pack V E → Links V E
  then_pack x p = link x (next_or p.next) (handler_or p.handler) p.finalizer

  abbrev pub and_pack : Links V E → Pack V E → Links V E
  and_pack links p = more links (next_or p.next) (handler_or p.handler) p.finalizer

  -- `operator ()` on a value, and `reject`.
  unfoldable pub call_value : Pack V E → V → Links V E
  call_value self v = then_pack (value v) self

  unfoldable pub reject_with : Pack V E → E → Links V E
  reject_with self e = then_pack (error e) self

  -- `bind`; `as_error` is how an exception of the library looks to a handler.
  unfoldable pub bind : (Fault → E) → Pack V E → Pack V E → Pack V E
  unfolding call_value reject_with
  bind as_error self after = record {
    next = some (λ v. chained as_error (and_pack (call_value self v) after));
    handler = some (λ e. chained as_error (and_pack (reject_with self e) after));
    finalizer = none;
  }

  -- The operator `/`: callbacks into a pack, and a finalizer onto one.
  unfoldable pub pack : Option (V → Reply V E) → (E → Reply V E) → Pack V E
  pack next handler = record { next = next; handler = some handler; finalizer = none }

  unfoldable pub with_finalizer : Pack V E → Finalizer E → Pack V E
  with_finalizer p f = record p { finalizer = combined p.finalizer f }

  abbrev pub pack_of : Operand V E → Pack V E
  pack_of (is_pack p) = p
  pack_of (is_factory f) = record { next = some f; handler = none; finalizer = none }

  -- The operator `>>=`.
  unfoldable pub bound : (Fault → E) → Operand V E → Operand V E → Pack V E
  unfolding bind
  bound as_error l r = bind as_error (pack_of l) (pack_of r)

-- `then` with a pack, and `operator ()` on a promise.
module _ {V E : Type 0} (safe : Bool) (fuel : ℕ) where
  unfoldable pub then_with_pack : ℕ → Pack V E → Action (Heap V E) (Raised E) ℕ
  unfolding then
  then_with_pack p pack = then safe fuel p pack.next pack.handler pack.finalizer
