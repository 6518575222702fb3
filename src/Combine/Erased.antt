-- ===== src/Combine/Erased.antt =====
-- The tuple of combined promises and the list of them: with each result put into one common type
-- by a function of its index, the calls of their callbacks do the same.
use kaiu.Base.{
  ℕ, zero, suc, ◌≡◌, refl, sym, ap, ◌∙◌, List, [], ◌∷◌, ◌++◌, Option, none, some, arith, length,
  get_elem?, set, replicate, map,
}
use mathlib.Core.Option as Option
use kaiu.Promise.Types.{Settled, value, error}
use kaiu.Combine.State.{
  Combine, Combining, Phase, Event, waiting, called, finished, calls, finishes, happen, run, next,
  handler, finalizer, call_at, finish_at, start,
}
use kaiu.Combine.Tuple.{
  Element, Results, Outcomes, no_results, put, outcome_at, TupleCombine, TupleCombining, next_at,
  tuple_handler, finally, start_tuple, tuple_call, tuple_finish, tuple_happen, tuple_run,
}

module _ {V : Type 0} where
  -- The slots of a tuple as a list.
  abbrev pub flat :
      (types : List (Type 0)) → ((i : ℕ) → Element types i → V) → Results types → List (Option V)
  flat [] f rs = []
  flat (T ∷ types) f (r, rs) = Option.map (f 0) r ∷ flat types (λ i. f (suc i)) rs

  pub flat-empty :
      (types : List (Type 0)) (f : (i : ℕ) → Element types i → V)
      → flat types f (no_results types) ≡ replicate (length types) none
  flat-empty [] f = refl
  flat-empty (T ∷ types) f = ap (λ l. none ∷ l) (flat-empty types (λ i. f (suc i)))

  pub flat-put :
      (types : List (Type 0)) (f : (i : ℕ) → Element types i → V) (i : ℕ) (v : Element types i)
      (rs : Results types)
      → flat types f (put types i v rs) ≡ set (flat types f rs) i (some (f i v))
  flat-put [] f i v rs = refl
  flat-put (T ∷ types) f zero v (r, rs) = refl
  flat-put (T ∷ types) f (suc i) v (r, rs) =
      ap (λ l. Option.map (f 0) r ∷ l) (flat-put types (λ i. f (suc i)) i v rs)

module _ {V E : Type 0} where
  abbrev pub mapped : {A : Type 0} → (A → V) → Settled A E → Settled V E
  mapped f (value a) = value (f a)
  mapped f (error e) = error e

  abbrev pub listed :
      (types : List (Type 0))
      → ((i : ℕ) → Element types i → V)
      → Outcomes E types
      → List (Settled V E)
  listed [] f xs = []
  listed (T ∷ types) f (x, xs) = mapped (f 0) x ∷ listed types (λ i. f (suc i)) xs

  pub listed-at :
      (types : List (Type 0)) (f : (i : ℕ) → Element types i → V) (xs : Outcomes E types) (i : ℕ)
      → get_elem? (listed types f xs) i ≡ Option.map (mapped (f i)) (outcome_at types xs i)
  listed-at [] f xs i = refl
  listed-at (T ∷ types) f (x, xs) zero = refl
  listed-at (T ∷ types) f (x, xs) (suc i) = listed-at types (λ i. f (suc i)) xs i

pub length-listed :
    {V : Type 0} (E : Type 0) (types : List (Type 0)) (f : (i : ℕ) → Element types i → V)
    (xs : Outcomes E types)
    → length (listed types f xs) ≡ length types
length-listed E [] f xs = refl
length-listed E (T ∷ types) f (x, xs) = ap suc (length-listed E types (λ i. f (suc i)) xs)

module _ (types : List (Type 0)) {V E : Type 0} (f : (i : ℕ) → Element types i → V) where
  abbrev pub settled_flat : Settled (Results types) E → Settled (List (Option V)) E
  settled_flat (value rs) = value (flat types f rs)
  settled_flat (error e) = error e

  abbrev pub combine_flat : TupleCombine types E → Combine V E
  combine_flat c = record {
    results = flat types f c.results;
    remaining = c.remaining;
    failed = c.failed;
    settlements = map settled_flat c.settlements;
  }

  abbrev pub combining_flat : TupleCombining types E → Combining V E
  combining_flat s = record { combine = combine_flat s.combine; phases = s.phases }

  map-snoc :
      (xs : List (Settled (Results types) E)) (y : Settled (Results types) E)
      → map settled_flat (xs ++ y ∷ []) ≡ map settled_flat xs ++ settled_flat y ∷ []
  map-snoc [] y = refl
  map-snoc (x ∷ xs) y = ap (λ l. settled_flat x ∷ l) (map-snoc xs y)

  next-flat :
      (i : ℕ) (v : Element types i) (c : TupleCombine types E)
      → combine_flat (next_at types i v c) ≡ next i (f i v) (combine_flat c)
  unfolding next next_at
  next-flat i v c = ground (arith, flat-put types f i v c.results)

  handler-flat :
      (e : E) (c : TupleCombine types E)
      → combine_flat (tuple_handler types e c) ≡ handler e (combine_flat c)
  unfolding handler tuple_handler
  handler-flat e c = ground (arith, map-snoc c.settlements (error e))

  finally-flat :
      (c : TupleCombine types E) → combine_flat (finally types c) ≡ finalizer (combine_flat c)
  unfolding finally finalizer
  finally-flat c = ground (arith, map-snoc c.settlements (value c.results))

  call-flat :
      (i : ℕ) (x : Option (Settled (Element types i) E)) (p : Option Phase)
      (s : TupleCombining types E)
      → combining_flat (tuple_call types i x p s)
        ≡ call_at i (Option.map (mapped (f i)) x) p (combining_flat s)
  call-flat i none p s = refl
  call-flat i (some x) none s = refl
  call-flat i (some (value v)) (some waiting) s = rw (next-flat i v s.combine) refl
  call-flat i (some (error e)) (some waiting) s = rw (handler-flat e s.combine) refl
  call-flat i (some x) (some called) s = refl
  call-flat i (some x) (some finished) s = refl

  finish-flat :
      (i : ℕ) (p : Option Phase) (s : TupleCombining types E)
      → combining_flat (tuple_finish types i p s) ≡ finish_at i p (combining_flat s)
  finish-flat i none s = refl
  finish-flat i (some waiting) s = refl
  finish-flat i (some called) s = rw (finally-flat s.combine) refl
  finish-flat i (some finished) s = refl

  module _ (xs : Outcomes E types) where
    happen-flat :
        (e : Event) (s : TupleCombining types E)
        → combining_flat (tuple_happen types xs e s)
          ≡ happen (listed types f xs) e (combining_flat s)
    unfolding happen tuple_happen
    happen-flat (calls i) s =
        call-flat i (outcome_at types xs i) (get_elem? s.phases i) s
        ∙ ap (λ x. call_at i x (get_elem? s.phases i) (combining_flat s))
            (sym (listed-at types f xs i))
    happen-flat (finishes i) s = finish-flat i (get_elem? s.phases i) s

    run-flat :
        (es : List Event) (s : TupleCombining types E)
        → combining_flat (tuple_run types xs es s) ≡ run (listed types f xs) es (combining_flat s)
    unfolding run tuple_run
    run-flat [] s = refl
    run-flat (e ∷ es) s =
        run-flat es (tuple_happen types xs e s) ∙ ap (run (listed types f xs) es) (happen-flat e s)

    start-flat : combining_flat (start_tuple types) ≡ start (listed types f xs)
    start-flat = rw (length-listed E types f xs, flat-empty types f) refl

    -- Combining a tuple of promises, with each result put into a common type by a function of its
    -- index, and combining the list of the promises for these results come to the same, whatever
    -- the order of the calls: the counters and flags, the results, the callbacks that have been
    -- called and the settlements of the promise that is returned.
    pub tuple_run-run :
        (events : List Event)
        → combining_flat (tuple_run types xs events (start_tuple types))
          ≡ run (listed types f xs) events (start (listed types f xs))
    tuple_run-run events =
        run-flat events (start_tuple types) ∙ ap (run (listed types f xs) events) start-flat
