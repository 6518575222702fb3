-- ===== src/Promise/Outcomes.antt =====
-- What a callback of `then` comes to: what it settles the promise of `then` with, and how deep the
-- calls nest.
use kaiu.Base.{ℕ, suc, ◌+◌, ◌≡◌, refl, Option, none, some}
use mathlib.Core.Option
use kaiu.Promise.Types.{
  Fault, Settled, Reply, Links, Finalizer, value, error, existing, settled, raises, chained, link,
  more,
}

module _ {V E : Type 0} where
  -- What a callback of `then` does, by how its promise was settled.
  abbrev pub reply_to : (V → Reply V E) → (E → Reply V E) → Settled V E → Reply V E
  reply_to next handler (value v) = next v
  reply_to next handler (error e) = handler e

  -- A finalizer's exception replaces what the callback gave.
  abbrev pub finished : Finalizer E → Settled V E → Settled V E
  finished none x = x
  finished (some e) x = error e

unfoldable mutual
  -- What the promise of `then` is settled with; a promise that existed before decides later, unless
  -- the finalizer throws.
  pub chain_outcome : {V E : Type 0} → Reply V E → Finalizer E → Option (Settled V E)
  chain_outcome (existing r) none = none
  chain_outcome (existing r) (some e) = some (error e)
  chain_outcome (settled x) fin = some (finished fin x)
  chain_outcome (raises e) fin = some (finished fin (error e))
  chain_outcome (chained as_error links) fin = Option.map (finished fin) (links_outcome links)

  pub links_outcome : {V E : Type 0} → Links V E → Option (Settled V E)
  links_outcome (link (value v) next handler fin) = chain_outcome (next v) fin
  links_outcome (link (error e) next handler fin) = chain_outcome (handler e) fin
  links_outcome (more links next handler fin) = elim (links_outcome links) [
    | none ↦ none
    | some (value v) ↦ chain_outcome (next v) fin
    | some (error e) ↦ chain_outcome (handler e) fin
  ]

unfoldable mutual
  pub depth : {V E : Type 0} → Reply V E → ℕ
  depth (existing r) = 0
  depth (settled x) = 0
  depth (raises e) = 0
  depth (chained as_error links) = depth_links links

  pub depth_links : {V E : Type 0} → Links V E → ℕ
  depth_links (link (value v) next handler fin) = suc (depth (next v))
  depth_links (link (error e) next handler fin) = suc (depth (handler e))
  depth_links (more links next handler fin) = suc (
      depth_links links + elim (links_outcome links) [
        | none ↦ 0
        | some (value v) ↦ depth (next v)
        | some (error e) ↦ depth (handler e)
      ])

module _ {V E : Type 0} (links : Links V E) (next : V → Reply V E) (handler : E → Reply V E)
    (fin : Finalizer E) where
  pub links_outcome-more :
      (x : Settled V E)
      → links_outcome links ≡ some x
      → links_outcome (more links next handler fin) ≡ chain_outcome (reply_to next handler x) fin
  unfolding links_outcome
  links_outcome-more (value v) e = rw e refl
  links_outcome-more (error v) e = rw e refl

  pub links_outcome-more-none :
      links_outcome links ≡ none → links_outcome (more links next handler fin) ≡ none
  unfolding links_outcome
  links_outcome-more-none e = rw e refl

  pub depth_links-more :
      (x : Settled V E)
      → links_outcome links ≡ some x
      → depth_links (more links next handler fin)
        ≡ suc (depth_links links + depth (reply_to next handler x))
  unfolding depth_links
  depth_links-more (value v) e = rw e refl
  depth_links-more (error v) e = rw e refl

module _ {V E : Type 0} where
  map-finished : (o : Option (Settled V E)) → Option.map (finished none) o ≡ o
  map-finished none = refl
  map-finished (some x) = refl

  pub chained-outcome :
      (g : Fault → E) (links : Links V E)
      → chain_outcome (chained g links) none ≡ links_outcome links
  unfolding chain_outcome
  chained-outcome g links = map-finished (links_outcome links)
