-- ===== src/Loop/Handling.antt =====
-- What `process_exceptions` and the steps of the threads keep: every exception is handled or queued.
use kaiu.Base.{
  ◌≡◌, refl, sym, ap, ◌∙◌, true, none, some, List, [], ◌∷◌, ◌++◌, append_assoc, append-nil, ◌==◌,
  arith, Bool-cases, Option-cases, inl, inr,
}
use kaiu.Base.Action.{Ends, Ends-map}
use kaiu.Loop.Parallel.{
  Loop, Event, seeks, wakes, returns, throws, runs_push, pushes, sets_nowaiting, happen, join_ends,
}
use kaiu.Loop.Joining.{
  Joined, Handler, raised_by, step, advance, drop_first, handle, process_loop, process_exceptions,
  wait_for_zero,
}
use kaiu.Loop.Idle.{Inv, happen-Inv}
use kaiu.Loop.Places.{SamePlaces, happen-SamePlaces, SamePlaces-trans}
use kaiu.Loop.Join.{AllIdle, AllDone, ends-AllDone}

module _ {T X : Type 0} where
  exceptions-happen :
      (e : Event T X) (s : Loop T X) → (happen e s).exceptions ≡ s.exceptions ++ raised_by e s
  unfolding happen
  exceptions-happen (seeks i) s = ground (arith, append-nil s.exceptions)
  exceptions-happen (wakes i) s = ground (arith, append-nil s.exceptions)
  exceptions-happen (returns i) s = ground (arith, append-nil s.exceptions)
  exceptions-happen (throws i x) s = ground (arith, append-nil s.exceptions)
  exceptions-happen (runs_push i pool y) s = ground (arith, append-nil s.exceptions)
  exceptions-happen (pushes pool y) s = ground (arith, append-nil s.exceptions)
  exceptions-happen (sets_nowaiting pool b) s = ground (arith, append-nil s.exceptions)

module _ {T X : Type 0} where
  cleared-Inv : (l : Loop T X) → Inv l → Inv (record l { exceptions = [] })
  cleared-Inv l v = record { count = v.count; small = v.small; fifo = v.fifo }

module _ {T X F : Type 0} where
  -- Every exception raised has been handled or is queued, in order; a null handler drops them.
  abbrev pub Accounted : Handler X F → Joined T X → Type 0
  Accounted none s = Unit
  Accounted (some f) s = s.raised ≡ s.handled ++ s.loop.exceptions

  -- Of a loop that came about from `base`.
  pub record Sound (base : Loop T X) (handler : Handler X F) (s : Joined T X) : Type 0 where
    pub inv : Inv s.loop
    pub places : SamePlaces base s.loop
    pub accounted : Accounted handler s

  step-Accounted :
      (handler : Handler X F) (e : Event T X) (s : Joined T X)
      → Accounted handler s
      → Accounted handler (step e s)
  step-Accounted none e s a = tt
  step-Accounted (some f) e s a =
      ap (λ l. l ++ raised_by e s.loop) a
      ∙ append_assoc s.handled s.loop.exceptions (raised_by e s.loop)
      ∙ ap (λ l. s.handled ++ l) (sym (exceptions-happen e s.loop))

  pub advance-Sound :
      (base : Loop T X) (handler : Handler X F) (es : List (Event T X)) (s : Joined T X)
      → Sound base handler s
      → Sound base handler (advance es s)
  unfolding advance
  advance-Sound base handler [] s v = v
  advance-Sound base handler (e ∷ es) s v = advance-Sound base handler es (step e s) (record {
    inv = happen-Inv e s.loop v.inv;
    places = SamePlaces-trans base s.loop (happen e s.loop) v.places (happen-SamePlaces e s.loop);
    accounted = step-Accounted handler e s v.accounted;
  })

  -- What `process_exceptions` leaves: the same loop with no exception queued.
  pub record Cleared (handler : Handler X F) (l : Loop T X) (s : Joined T X) : Type 0 where
    pub loop : s.loop ≡ record l { exceptions = [] }
    pub accounted : Accounted handler s

  process_loop-Cleared :
      (handler : Handler X F) (xs : List X) (l : Loop T X) (s : Joined T X)
      → s.loop ≡ record l { exceptions = xs }
      → Accounted handler s
      → Ends (Cleared handler l) (process_loop handler xs s)
  unfolding process_loop
  process_loop-Cleared handler [] l s e a = record { loop = e; accounted = a }
  process_loop-Cleared none (x ∷ xs) l s e a =
      process_loop-Cleared none xs l (drop_first xs s)
        (ap (λ (k : Loop T X). record k { exceptions = xs }) e) tt
  process_loop-Cleared (some f) (x ∷ xs) l s e a = elim (Option-cases (f x)) [
    | inl calm ↦ rw calm (
        process_loop-Cleared (some f) xs l (handle x (drop_first xs s))
          (ap (λ (k : Loop T X). record k { exceptions = xs }) e)
          (a
            ∙ ap (λ (k : Loop T X). s.handled ++ k.exceptions) e
            ∙ sym (append_assoc s.handled (x ∷ []) xs)))
    | inr raise ↦ rw raise.1 tt
  ]

  pub Cleared-Sound :
      (base : Loop T X) (handler : Handler X F) (l : Loop T X) (s : Joined T X)
      → Inv l
      → SamePlaces base l
      → Cleared handler l s
      → Sound base handler s
  Cleared-Sound base handler l s v p c = record {
    inv = rw c.loop (cleared-Inv l v);
    places = rw c.loop p;
    accounted = c.accounted;
  }

  pub process-Cleared :
      (base : Loop T X) (handler : Handler X F) (s : Joined T X)
      → Sound base handler s
      → Ends (Cleared handler s.loop) (process_exceptions handler s)
  unfolding process_exceptions
  process-Cleared base handler s v =
      process_loop-Cleared handler s.loop.exceptions s.loop s refl v.accounted

  pub wait_for_zero-Sound :
      (base : Loop T X) (handler : Handler X F) (s : Joined T X)
      → Sound base handler s
      → Ends (Sound base handler) (wait_for_zero {F = F} s)
  unfolding wait_for_zero
  wait_for_zero-Sound base handler s v = elim (Bool-cases (s.loop.not_idle == 0)) [
    | inl e ↦ rw e v
    | inr e ↦ rw e tt
  ]

  -- All threads wait or have stopped, all events have been taken, no exception is queued, and the
  -- handler has been called with each exception, in the order raised.
  pub record Finished (base : Loop T X) (handler : Handler X F) (s : Joined T X) : Type 0 where
    pub idle : AllIdle s.loop.workers
    pub taken : AllDone s.loop.queues
    pub places : SamePlaces base s.loop
    pub none_queued : s.loop.exceptions ≡ []
    pub accounted : Accounted handler s

  pub last-Finished :
      (base : Loop T X) (handler : Handler X F) (s : Joined T X)
      → Sound base handler s
      → join_ends s.loop ≡ true
      → Ends (Finished base handler) (process_exceptions handler s)
  last-Finished base handler s v e =
      let d = ends-AllDone s.loop v.inv e in
      Ends-map (Cleared handler s.loop) (Finished base handler) _
        (λ t c. record {
          idle = rw c.loop d.0;
          taken = rw c.loop d.1;
          places = rw c.loop v.places;
          none_queued = rw c.loop refl;
          accounted = c.accounted;
        })
        (process-Cleared base handler s v)
