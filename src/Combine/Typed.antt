-- ===== src/Combine/Typed.antt =====
-- What the promise returned by `combine` for a tuple of promises is settled with.
use kaiu.Base.{
  ℕ, ◌<◌, ◌^◌, ◌≡◌, refl, sym, ap, subst, ◌∙◌, List, [], ◌∷◌, Option, none, some, length, map,
}
use mathlib.Core.Option as Option
use kaiu.Promise.Types.{Settled, value, error}
use kaiu.Combine.State.{Event}
use kaiu.Combine.Slots.{unfinished, collect}
use kaiu.Combine.Steps.{Contains}
use kaiu.Combine.Outcome.{Combined, combine_outcome}
use kaiu.Combine.Tuple.{Results, Outcomes, outcome_at, start_tuple, tuple_run}
use kaiu.Combine.Erased.{listed, listed-at, length-listed, settled_flat, tuple_run-run}
use kaiu.Combine.Gather.{
  Values, all_some, gather, item, unflat, values, map-values, collect-listed, alone, unflat-alone,
  unmapped,
}

-- `Combined`, where all promises are resolved and where one is not.
module _ {V E : Type 0} (xs : List (Settled V E)) (ys : List (Settled (List (Option V)) E)) where
  abbrev Answered : Option (List V) → Type 0
  Answered o = elim o [
    | some vs ↦ ys ≡ value (map some vs) ∷ []
    | none ↦ (e : E) × Contains e xs × (ys ≡ error e ∷ [])
  ]

  Combined-by : (o : Option (List V)) → collect xs ≡ o → Combined xs ys → Answered o
  Combined-by o q c = subst Answered q c

module _ {E : Type 0} (types : List (Type 0)) where
  -- What the promise that `combine` returns is settled with.
  abbrev pub Gathered : Outcomes E types → List (Settled (Results types) E) → Type 0
  Gathered xs ys = elim (gather E types xs) [
    | some vs ↦ ys ≡ value (all_some types vs) ∷ []
    | none ↦ (e : E) × (i : ℕ) × (outcome_at types xs i ≡ some (error e)) × (ys ≡ error e ∷ [])
  ]

  abbrev settled_unflat : Settled (List (Option (Results types))) E → Settled (Results types) E
  settled_unflat (value l) = value (unflat types (item types) l)
  settled_unflat (error e) = error e

  settled_unflat-flat :
      (ys : List (Settled (Results types) E))
      → map settled_unflat (map (settled_flat types (alone types)) ys) ≡ ys
  settled_unflat-flat [] = refl
  settled_unflat-flat (error e ∷ ys) = ap (λ l. error e ∷ l) (settled_unflat-flat ys)
  settled_unflat-flat (value rs ∷ ys) = rw (settled_unflat-flat ys, unflat-alone types rs) refl

  module _ (xs : Outcomes E types) (ys : List (Settled (Results types) E)) where
    abbrev answer : List (Settled (List (Option (Results types))) E)
    answer = map (settled_flat types (alone types)) ys

    back :
        {l : List (Settled (List (Option (Results types))) E)}
        → answer ≡ l
        → ys ≡ map settled_unflat l
    back b = sym (settled_unflat-flat ys) ∙ ap (map settled_unflat) b

    by_values :
        (o : Option (Values types))
        → gather E types xs ≡ o
        → Answered
            (listed types (alone types) xs)
            answer
            (Option.map (values types (alone types)) o)
        → Gathered xs ys
    by_values none q (e, (i, a), b) =
        let o = unmapped (alone types i) (outcome_at types xs i) e in
        rw (q, Gathered) (e, i, o (sym (listed-at types (alone types) xs i) ∙ a), back b)
    by_values (some vs) q b =
        let r = ap (unflat types (item types)) (map-values types (alone types) vs) in
        rw (q, Gathered)
          (back b ∙ ap (λ r. value r ∷ []) (r ∙ unflat-alone types (all_some types vs)))

    gathered : Combined (listed types (alone types) xs) answer → Gathered xs ys
    gathered c = by_values (gather E types xs) refl (
        Combined-by (listed types (alone types) xs) answer _
          (collect-listed E types (alone types) xs) c)

-- Once every promise of a tuple of at least one and fewer than 2^64 has called back and run its
-- finalizer, in whatever order: if all were resolved, then the promise that combine returns is
-- resolved once, with the tuple that holds the value of each promise, of its own type, in the
-- slot of that promise; otherwise it is rejected once, with the error of one of them.
pub tuple_outcome :
    (E : Type 0) (types : List (Type 0))
    → 0 < length types
    → length types < 2 ^ 64
    → (xs : Outcomes E types) (events : List Event)
    → unfinished ((tuple_run types xs events (start_tuple types)).phases) ≡ 0
    → Gathered types xs ((tuple_run types xs events (start_tuple types)).combine.settlements)
tuple_outcome E types h k xs events u =
    let l = listed types (alone types) xs in
    let r = tuple_run-run types (alone types) xs events in
    let n = length-listed E types (alone types) xs in
    gathered types xs _ (
      subst (λ s. Combined l (s.combine.settlements)) (sym r)
        (combine_outcome l (subst (λ m. 0 < m) (sym n) h) (subst (λ m. m < 2 ^ 64) (sym n) k) events
          (sym (ap (λ s. unfinished (s.phases)) r) ∙ u)))
