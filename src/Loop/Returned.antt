-- ===== src/Loop/Returned.antt =====
-- What holds when `join` of the parallel event loop returns.
use kaiu.Base.{
  ℕ, ◌^◌, ◌<◌, ◌≡◌, refl, subst, true, none, some, List, [], ◌∷◌, ◌==◌, length, arith, Bool-cases,
  inl, inr,
}
use kaiu.Base.Action.{Action, Outcome, done, and_then, Ends, and_then-Ends}
use kaiu.Loop.Parallel.{Loop, Event, join_ends}
use kaiu.Loop.Pools.{unknown}
use kaiu.Loop.Joining.{
  Joined, Fault, Round, Handler, advance, drop_first, handle, process_loop, process_exceptions,
  wait_for_zero, tested, join_round, join_loop, join,
}
use kaiu.Loop.Join.{begin, begin-Inv}
use kaiu.Loop.Handling.{
  Accounted, Sound, Cleared, Finished, advance-Sound, wait_for_zero-Sound, last-Finished,
  process-Cleared, Cleared-Sound,
}

module _ {T X F : Type 0} where
  join_round-Finished :
      (base : Loop T X) (handler : Handler X F) (r : Round T X)
      (again : Joined T X → Outcome (Joined T X) (Fault F) (Unit {0}))
      → ((s : Joined T X) → Sound base handler s → Ends (Finished base handler) (again s))
      → (s : Joined T X) → Sound base handler s
      → Ends (Finished base handler) (join_round handler r again s)
  join_round-Finished base handler r again k s v =
      and_then-Ends (Cleared handler s.loop) (Finished base handler) (process_exceptions handler s)
        (λ u t. and_then (wait_for_zero (advance r.before_zero t)) (λ _. locked))
        (process-Cleared base handler s v)
        (λ u t c.
          and_then-Ends (Sound base handler) (Finished base handler)
            (wait_for_zero (advance r.before_zero t)) (λ _. locked)
            (wait_for_zero-Sound base handler (advance r.before_zero t) (
              advance-Sound base handler r.before_zero t
                (Cleared-Sound base handler s.loop t v.inv v.places c)))
            (λ u' z w.
              tested-Finished (advance r.before_locked z)
                (advance-Sound base handler r.before_locked z w)))
    where
      locked : Action (Joined T X) (Fault F) (Unit {0})
      locked z = tested handler again (advance r.before_locked z)

      tested-Finished :
          (t : Joined T X)
          → Sound base handler t
          → Ends (Finished base handler) (tested handler again t)
      tested-Finished t w = elim (Bool-cases (join_ends t.loop)) [
        | inl e ↦ rw e (last-Finished base handler t w e)
        | inr e ↦ rw e (k t w)
      ]

  join_loop-Finished :
      (base : Loop T X) (handler : Handler X F) (rounds : List (Round T X)) (s : Joined T X)
      → Sound base handler s
      → Ends (Finished base handler) (join_loop handler rounds s)
  unfolding join_loop
  join_loop-Finished base handler [] s v = tt
  join_loop-Finished base handler (r ∷ rs) s v =
      join_round-Finished base handler r (join_loop handler rs) (join_loop-Finished base handler rs)
        s v

module _ {T X : Type 0} (pools : ℕ) (threads : List ℕ) (h : length threads < 2 ^ 31) where
  -- A loop whose constructor has returned.
  abbrev pub newly : Joined T X
  newly = record { loop = begin pools threads h; raised = []; handled = [] }

module _ {T X F : Type 0} (pools : ℕ) (threads : List ℕ) (h : length threads < 2 ^ 31) where
  pub newly-Sound :
      (es : List (Event T X)) (handler : Handler X F)
      → Sound (begin pools threads h) handler (advance es (newly pools threads h))
  newly-Sound es handler =
      advance-Sound (begin pools threads h) handler es (newly pools threads h) (record {
        inv = begin-Inv pools threads h;
        places = (refl, refl);
        accounted = begun handler;
      })
    where
      begun : (f : Handler X F) → Accounted f (newly {T = T} {X = X} pools threads h)
      begun none = tt
      begun (some f) = refl

  pub join-Finished :
      (handler : Handler X F) (es : List (Event T X)) (rounds : List (Round T X))
      → Ends
          (Finished (begin pools threads h) handler)
          (join unknown handler rounds (advance es (newly pools threads h)))
  unfolding join
  join-Finished handler es rounds =
      join_loop-Finished (begin pools threads h) handler rounds (advance es (newly pools threads h))
        (newly-Sound es handler)

module _ {T X : Type 0} where
  zero-ends : (l : Loop T X) → join_ends l ≡ true → (l.not_idle == 0) ≡ true
  unfolding join_ends
  zero-ends l e = ground arith

  ends-cleared :
      (l : Loop T X) → join_ends l ≡ true → join_ends (record l { exceptions = [] }) ≡ true
  unfolding join_ends
  ends-cleared l e = e

-- A round of `join` in which nothing else happens.
abbrev pub quiet_round : {T X : Type 0} → Round T X
quiet_round = record { before_zero = []; before_locked = [] }

-- A handler that is null or does not throw.
abbrev pub Calm : {X F : Type 0} → Handler X F → Type 0
Calm none = Unit
Calm {X} (some f) = (x : X) → f x ≡ none

module _ {T X F : Type 0} where
  process_loop_returns :
      (handler : Handler X F) (xs : List X) (s : Joined T X)
      → Calm handler
      → (t : Joined T X) × (process_loop handler xs s ≡ done tt t)
  unfolding process_loop
  process_loop_returns handler [] s c = (s, refl)
  process_loop_returns none (x ∷ xs) s c = process_loop_returns none xs (drop_first xs s) c
  process_loop_returns (some f) (x ∷ xs) s c =
      let (t, e) = process_loop_returns (some f) xs (handle x (drop_first xs s)) c in
      (t, rw (c x) e)

  process_returns :
      (handler : Handler X F) (s : Joined T X)
      → Calm handler
      → (t : Joined T X) × (process_exceptions handler s ≡ done tt t)
  unfolding process_exceptions
  process_returns handler s c = process_loop_returns handler s.loop.exceptions s c

  -- Once all queues are empty and all threads idle, `join` returns at the next round in which nothing
  -- happens, with a handler that does not throw.
  pub join_returns :
      (base : Loop T X) (handler : Handler X F) (s : Joined T X)
      → Calm handler
      → Sound base handler s
      → join_ends s.loop ≡ true
      → (t : Joined T X) × (join unknown handler (quiet_round ∷ []) s ≡ done tt t)
  unfolding join join_loop wait_for_zero advance
  join_returns base handler s c v e =
      let (t, d) = process_returns handler s c in
      let (u, d') = process_returns handler t c in (u, rw (d, zero t d, ends t d) d')
    where
      cleared :
          (t : Joined T X) → process_exceptions handler s ≡ done tt t → Cleared handler s.loop t
      cleared t d = subst (Ends (Cleared handler s.loop)) d (process-Cleared base handler s v)

      ends : (t : Joined T X) → process_exceptions handler s ≡ done tt t → join_ends t.loop ≡ true
      ends t d = rw (cleared t d).loop (ends-cleared s.loop e)

      zero :
          (t : Joined T X)
          → process_exceptions handler s ≡ done tt t
          → (t.loop.not_idle == 0) ≡ true
      zero t d = zero-ends t.loop (ends t d)
