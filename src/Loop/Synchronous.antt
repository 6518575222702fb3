-- ===== src/Loop/Synchronous.antt =====
-- `SynchronousEventLoop` (event_loop.h and event_loop.cpp). An event is known by what it does: the
-- events it pushes, in order, and the exception it ends in, if it does.
use kaiu.Base.{
  ℕ, zero, suc, ◌+◌, ◌≤◌, ◌≡◌, refl, sym, ap, ◌∙◌, List, [], ◌∷◌, ◌++◌, append_assoc, append-nil,
  Option, none, some, arith, Option-cases, inl, inr, ◌⊎◌,
}
use kaiu.Base.Action.{Outcome, done, thrown, final}

-- An event's exception leaves the constructor; `out_of_fuel` is no exception of the source.
pub data Fault (X : Type 0) : Type 0 where
  raised : X → Fault X
  out_of_fuel : Fault X

-- `ran` is the history: the events that have been called, oldest first.
pub record Sync (E : Type 0) : Type 0 where
  pub events : List E
  pub ran : List E

module _ {E X : Type 0} (pushes : E → List E) (raises : E → Option X) where
  -- `next`, and the call of the event.
  abbrev pub call : E → List E → Sync E → Sync E
  call x xs s = record { events = xs ++ pushes x; ran = s.ran ++ (x ∷ []) }

  abbrev step :
      Option X
      → (Sync E → Outcome (Sync E) (Fault X) (Unit {0}))
      → Sync E
      → Outcome (Sync E) (Fault X) (Unit {0})
  step (some x) f s = thrown (raised x) s
  step none f s = f s

  -- `do_loop`.
  unfoldable pub do_loop : ℕ → Sync E → Outcome (Sync E) (Fault X) (Unit {0})
  do_loop zero s = thrown out_of_fuel s
  do_loop (suc n) s =
      let rest = do_loop n in
      elim s.events [ [] ↦ done tt s | x ∷ xs ↦ step (raises x) rest (call x xs s) ]

  -- The constructor.
  unfoldable pub construct : ℕ → E → Outcome (Sync E) (Fault X) (Unit {0})
  unfolding do_loop
  construct fuel start = do_loop fuel (record { events = start ∷ []; ran = [] })

  -- All that a list of events pushes.
  abbrev pub all_pushes : List E → List E
  all_pushes [] = []
  all_pushes (x ∷ xs) = pushes x ++ all_pushes xs

  all_pushes-append : (xs ys : List E) → all_pushes (xs ++ ys) ≡ all_pushes xs ++ all_pushes ys
  all_pushes-append [] ys = refl
  all_pushes-append (x ∷ xs) ys =
      ap (λ l. pushes x ++ l) (all_pushes-append xs ys)
      ∙ sym (append_assoc (pushes x) (all_pushes xs) (all_pushes ys))

  -- The events called and those still to be called are the first one and all pushed, in order.
  abbrev pub InOrder : E → Sync E → Type 0
  InOrder start s = s.ran ++ s.events ≡ start ∷ all_pushes s.ran

  call-InOrder :
      (start x : E) (xs : List E) (s : Sync E)
      → s.events ≡ x ∷ xs
      → InOrder start s
      → InOrder start (call x xs s)
  call-InOrder start x xs s e o =
      append_assoc s.ran (x ∷ []) (xs ++ pushes x)
      ∙ sym (append_assoc s.ran (x ∷ xs) (pushes x))
      ∙ ap (λ l. (s.ran ++ l) ++ pushes x) (sym e)
      ∙ ap (λ l. l ++ pushes x) o
      ∙ ap (λ l. start ∷ all_pushes s.ran ++ l) (sym (append-nil (pushes x)))
      ∙ ap (λ l. start ∷ l) (sym (all_pushes-append s.ran (x ∷ [])))

  module _ (n : ℕ) (s : Sync E) where
    loop-none : s.events ≡ [] → do_loop (suc n) s ≡ done tt s
    unfolding do_loop
    loop-none e = rw e refl

    loop-call :
        (x : E) (xs : List E)
        → s.events ≡ x ∷ xs
        → raises x ≡ none
        → do_loop (suc n) s ≡ do_loop n (call x xs s)
    unfolding do_loop
    loop-call x xs e k = rw (e, k) refl

    loop-raise :
        (x : E) (xs : List E) (r : X)
        → s.events ≡ x ∷ xs
        → raises x ≡ some r
        → do_loop (suc n) s ≡ thrown (raised r) (call x xs s)
    unfolding do_loop
    loop-raise x xs r e k = rw (e, k) refl

  loop-zero : (s : Sync E) → do_loop zero s ≡ thrown out_of_fuel s
  unfolding do_loop
  loop-zero s = refl

  List-cases : (xs : List E) → (xs ≡ []) ⊎ ((x : E) × (ys : List E) × (xs ≡ x ∷ ys))
  List-cases [] = inl refl
  List-cases (x ∷ ys) = inr (x, ys, refl)

  loop-InOrder :
      (start : E) (n : ℕ) (s : Sync E) → InOrder start s → InOrder start (final (do_loop n s))
  loop-InOrder start zero s o = rw (loop-zero s) o
  loop-InOrder start (suc n) s o = elim (List-cases s.events) [
    | inl e ↦ rw (loop-none n s e) o
    | inr p ↦
        let (x, xs, e) = p in
        elim (Option-cases (raises x)) [
          | inl k ↦
              rw (loop-call n s x xs e k)
                (loop-InOrder start n (call x xs s) (call-InOrder start x xs s e o))
          | inr q ↦ rw (loop-raise n s x xs q.0 e q.1) (call-InOrder start x xs s e o)
        ]
  ]

  -- The synchronous loop calls events in the order pushed, however it ends: those it has called and
  -- those left in its queue are the first event and all that the called ones pushed, in order.
  pub construct-InOrder : (fuel : ℕ) (start : E) → InOrder start (final (construct fuel start))
  unfolding construct
  construct-InOrder fuel start =
      loop-InOrder start fuel (record { events = start ∷ []; ran = [] }) refl

  module _ (size : E → ℕ) where
    abbrev pub total : List E → ℕ
    total [] = 0
    total (x ∷ xs) = size x + total xs

    total-append : (xs ys : List E) → total (xs ++ ys) ≡ total xs + total ys
    total-append [] ys = omega arith
    total-append (x ∷ xs) ys = omega (arith, total-append xs ys)

    module _ (smaller : (x : E) → suc (total (pushes x)) ≤ size x)
        (calm : (x : E) → raises x ≡ none) where
      loop-ends :
          (n : ℕ) (s : Sync E)
          → suc (total s.events) ≤ n
          → (s' : Sync E) × (do_loop n s ≡ done tt s') × (s'.events ≡ [])
      loop-ends zero s h = absurd (omega (arith, h))
      loop-ends (suc n) s h = elim (List-cases s.events) [
        | inl e ↦ (s, loop-none n s e, e)
        | inr p ↦
            let (x, xs, e) = p in
            let (s', d, z) =
              loop-ends n (call x xs s)
                (omega (arith, h, ap total e, smaller x, total-append xs (pushes x))) in
            (s', loop-call n s x xs e (calm x) ∙ d, z)
      ]

      -- If each event has a size greater than the sizes of all it pushes, and none throws, then the
      -- synchronous loop ends with an empty queue, in no more rounds than the size of the first
      -- event and one.
      pub construct-ends :
          (start : E)
          → (s : Sync E) × (construct (suc (size start)) start ≡ done tt s) × (s.events ≡ [])
      unfolding construct
      construct-ends start =
          loop-ends (suc (size start)) (record { events = start ∷ []; ran = [] }) (omega arith)
