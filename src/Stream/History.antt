-- ===== src/Stream/History.antt =====
-- A stream over any interleaving of its producer, its consumer and the thread that settles the
-- consumer's promise.
use kaiu.Base.{◌≡◌, Bool, true, false, List, [], ◌∷◌, arith, append-nil}
use kaiu.Base.Action.{Outcome, done, thrown, final}
use kaiu.Stream.Types.{Stream, completed, new_stream}
use kaiu.Stream.StateBase.{by_producer}
use kaiu.Stream.State.{Event, happen, history, is_continue}
use kaiu.Stream.Table.{Table, Once, is_bound}
use kaiu.Stream.Order.{Order, Live}
use kaiu.Stream.Operations.{happen-Kept, happen-Steady}

abbrev pub returned {σ φ α} : {S : Type σ} {F : Type φ} {A : Type α} → Outcome S F A → Bool
returned (done a s) = true
returned (thrown e s) = false

module _ {R D E C : Type 0} where
  new_stream-Table : (c : C) → Table (new_stream {R = R} {D = D} {E = E} c)
  new_stream-Table c = ground arith

  new_stream-Order : (c : C) → Order (new_stream {R = R} {D = D} {E = E} c)
  new_stream-Order c = ground arith

  new_stream-Live : (c : C) → Live (new_stream {R = R} {D = D} {E = E} c)
  new_stream-Live c = ground arith

module _ {R D E C : Type 0} (safe : Bool) where
  history-Kept :
      (es : List (Event R D E C)) (s : Stream R D E C)
      → Table s
      → Order s
      → Table (history safe es s) × Order (history safe es s)
  unfolding history
  history-Kept [] s t o = (t, o)
  history-Kept (x ∷ es) s t o =
      let k = happen-Kept safe x s t o in history-Kept es (final (happen safe x s)) k.0 k.1

  -- No step of the history throws.
  abbrev pub AllReturn : List (Event R D E C) → Stream R D E C → Type 0
  AllReturn [] s = Unit
  AllReturn (x ∷ es) s =
      (returned (happen safe x s) ≡ true) × AllReturn es (final (happen safe x s))

  step-Live :
      (x : Event R D E C) (s : Stream R D E C)
      → Table s
      → Order s
      → Live s
      → returned (happen safe x s) ≡ true
      → Live (final (happen safe x s))
  step-Live x s t o l h = ground (arith, happen-Steady safe x s t o l)

  history-Live :
      (es : List (Event R D E C)) (s : Stream R D E C)
      → Table s
      → Order s
      → Live s
      → AllReturn es s
      → Live (history safe es s)
  unfolding history
  history-Live [] s t o l h = l
  history-Live (x ∷ es) s t o l h =
      let k = happen-Kept safe x s t o in
      history-Live es (final (happen safe x s)) k.0 k.1 (step-Live x s t o l h.0) h.1

  -- A stream that starts with the consumer state `c`, after a history.
  abbrev pub after : List (Event R D E C) → C → Stream R D E C
  after es c = history safe es (new_stream c)

  idle-lem :
      (s : Stream R D E C)
      → Table s
      → Live s
      → is_bound s.on_data ≡ true
      → s.consumer_is_running ≡ false
      → by_producer s.result ≡ true
      → (s.state ≡ completed) × Once s.result s.proxy
  idle-lem s t l b i r = ground arith

  completed-lem :
      (s : Stream R D E C)
      → Order s
      → Live s
      → s.state ≡ completed
      → is_continue s.action ≡ true
      → (s.buffer ≡ []) × (s.consumed ≡ s.accepted)
  completed-lem s o l e a = ground (arith, append-nil s.consumed)

  module _ (es : List (Event R D E C)) (c : C) where
    pub history-Table : Table (after es c)
    history-Table = (history-Kept es (new_stream c) (new_stream-Table c) (new_stream-Order c)).0

    -- After any history the data written and accepted are those consumed, then those thrown away,
    -- then those in the buffer, in the order written; and none is thrown away while the consumer
    -- asks for more or is running.
    pub history-Order : Order (after es c)
    history-Order = (history-Kept es (new_stream c) (new_stream-Table c) (new_stream-Order c)).1

    module _ (h : AllReturn es (new_stream c)) where
      after-Live : Live (after es c)
      after-Live =
          history-Live es (new_stream c) (new_stream-Table c) (new_stream-Order c)
            (new_stream-Live c) h

      -- After a history in which no step throws, a stream with a consumer that is bound and idle and
      -- with a result set by its producer is completed: its promise has been settled exactly once,
      -- resolved if the result says so and rejected otherwise.
      pub idle_completes :
          is_bound (after es c).on_data ≡ true
          → (after es c).consumer_is_running ≡ false
          → by_producer (after es c).result ≡ true
          → ((after es c).state ≡ completed) × Once (after es c).result (after es c).proxy
      idle_completes = idle-lem (after es c) history-Table after-Live

      -- After any history of writes, settlements and consumer replies in which no step throws, a
      -- completed stream whose consumer has not asked to discard or stop has an empty buffer and
      -- has consumed all accepted data, in the order written.
      pub completed_consumed :
          (after es c).state ≡ completed
          → is_continue (after es c).action ≡ true
          → ((after es c).buffer ≡ []) × ((after es c).consumed ≡ (after es c).accepted)
      completed_consumed = completed-lem (after es c) history-Order after-Live
