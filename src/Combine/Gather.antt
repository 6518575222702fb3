-- ===== src/Combine/Gather.antt =====
-- Tuples of results, the lists of their slots, and the values of a tuple of promises.
use kaiu.Base.{ℕ, zero, suc, ◌≡◌, refl, ap, List, [], ◌∷◌, Option, none, some, map}
use mathlib.Core.Option as Option
use kaiu.Promise.Types.{Settled, value, error}
use kaiu.Combine.Slots.{collect}
use kaiu.Combine.Tuple.{Tuple, Element, Results, Outcomes, no_results, put}
use kaiu.Combine.Erased.{flat, mapped, listed}

abbrev pub Values : List (Type 0) → Type 0
Values types = Tuple (λ T. T) types

abbrev pub all_some : (types : List (Type 0)) → Values types → Results types
all_some [] vs = tt
all_some (T ∷ types) (v, vs) = (some v, all_some types vs)

-- All values, each of its own type, or none if there is an error.
abbrev pub gather : (E : Type 0) (types : List (Type 0)) → Outcomes E types → Option (Values types)
gather E [] xs = some tt
gather E (T ∷ types) (value v, xs) = Option.map (λ vs. (v, vs)) (gather E types xs)
gather E (T ∷ types) (error e, xs) = none

-- What a slot of a tuple holds.
abbrev pub item : (types : List (Type 0)) (i : ℕ) → Results types → Option (Element types i)
item [] i rs = some tt
item (T ∷ types) zero (r, rs) = r
item (T ∷ types) (suc i) (r, rs) = item types i rs

item-put :
    (types : List (Type 0)) (i : ℕ) (v : Element types i) (rs : Results types)
    → item types i (put types i v rs) ≡ some v
item-put [] i v rs = refl
item-put (T ∷ types) zero v (r, rs) = refl
item-put (T ∷ types) (suc i) v (r, rs) = item-put types i v rs

module _ {V : Type 0} where
  -- A tuple from the list of its slots, where the common type can be taken apart.
  abbrev pub unflat :
      (types : List (Type 0))
      → ((i : ℕ) → V → Option (Element types i))
      → List (Option V)
      → Results types
  unflat [] g l = tt
  unflat (T ∷ types) g [] = no_results (T ∷ types)
  unflat (T ∷ types) g (none ∷ l) = (none, unflat types (λ i. g (suc i)) l)
  unflat (T ∷ types) g (some v ∷ l) = (g 0 v, unflat types (λ i. g (suc i)) l)

  unflat-flat :
      (types : List (Type 0)) (f : (i : ℕ) → Element types i → V)
      (g : (i : ℕ) → V → Option (Element types i))
      → ((i : ℕ) (v : Element types i) → g i (f i v) ≡ some v)
      → (rs : Results types) → unflat types g (flat types f rs) ≡ rs
  unflat-flat [] f g h rs = refl
  unflat-flat (T ∷ types) f g h (none, rs) =
      ap (λ l. (none, l)) (unflat-flat types (λ i. f (suc i)) (λ i. g (suc i)) (λ i. h (suc i)) rs)
  unflat-flat (T ∷ types) f g h (some v, rs) =
      let r = unflat-flat types (λ i. f (suc i)) (λ i. g (suc i)) (λ i. h (suc i)) rs in
      rw (h 0 v, r) refl

  abbrev pub values :
      (types : List (Type 0)) → ((i : ℕ) → Element types i → V) → Values types → List V
  values [] f vs = []
  values (T ∷ types) f (v, vs) = f 0 v ∷ values types (λ i. f (suc i)) vs

  pub map-values :
      (types : List (Type 0)) (f : (i : ℕ) → Element types i → V) (vs : Values types)
      → map some (values types f vs) ≡ flat types f (all_some types vs)
  map-values [] f vs = refl
  map-values (T ∷ types) f (v, vs) =
      ap (λ l. some (f 0 v) ∷ l) (map-values types (λ i. f (suc i)) vs)

  pub collect-listed :
      (E : Type 0) (types : List (Type 0)) (f : (i : ℕ) → Element types i → V)
      (xs : Outcomes E types)
      → collect (listed types f xs) ≡ Option.map (values types f) (gather E types xs)
  collect-listed E [] f xs = refl
  collect-listed E (T ∷ types) f (error e, xs) = refl
  collect-listed E (T ∷ types) f (value v, xs) =
      rw (collect-listed E types (λ i. f (suc i)) xs) (joined (gather E types xs))
    where
      joined :
          (o : Option (Values types))
          → elim (Option.map (values types (λ i. f (suc i))) o) [
            | none ↦ none
            | some vs ↦ some (f 0 v ∷ vs)
          ]
            ≡ Option.map (values (T ∷ types) f) (Option.map (λ vs. (v, vs)) o)
      joined none = refl
      joined (some vs) = refl

-- The common type is that of tuples, of which an index reads its own slot.
abbrev pub alone : (types : List (Type 0)) (i : ℕ) → Element types i → Results types
alone types i v = put types i v (no_results types)

pub unflat-alone :
    (types : List (Type 0)) (rs : Results types)
    → unflat types (item types) (flat types (alone types) rs) ≡ rs
unflat-alone types =
    unflat-flat types (alone types) (item types) (λ i v. item-put types i v (no_results types))

pub unmapped :
    {V E A : Type 0} (f : A → V) (o : Option (Settled A E)) (e : E)
    → Option.map (mapped f) o ≡ some (error e)
    → o ≡ some (error e)
unmapped f none e q = absurd (cc)
unmapped f (some (value a)) e q = absurd (cc)
unmapped f (some (error d)) e q = cc
