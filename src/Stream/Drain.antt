-- ===== src/Stream/Drain.antt =====
-- `process_data`: handing the buffer over to the consumer keeps the table and the order of data,
-- whatever the consumer answers.
use kaiu.Base.{
  list_laws, ℕ, zero, suc, ◌<◌, ◌≡◌, refl, inl, inr, Bool, true, false, List, [], ◌∷◌, ◌++◌, Option,
  none, some, arith, length, append-nil, Bool-cases,
}
use kaiu.Base.Action.{Outcome, done, thrown, return, and_then, on_throw}
use kaiu.Stream.Types.{
  Stream, StreamAction, Fault, DataFunc, Promised, fulfilled, refused, unsettled,
}
use kaiu.Stream.StateBase.{
  update_state, set_stream_result, set_buffer_is_empty, set_consumer_is_running, Run,
}
use kaiu.Stream.State.{
  discard_unwanted, may_take, take_data, take_from, run_consumer, call_data_callback,
  bind_callbacks, process_within, consumer_resolved, consumer_rejected,
}
use kaiu.Stream.Order.{Live, Ready, Sound}

module _ {R D E C : Type 0} (safe : Bool) (s : Stream R D E C) (v : Ready s) where
  blocked-Sound : may_take s ≡ false → Live s
  unfolding may_take
  blocked-Sound h = ground arith

  module _ (may : may_take s ≡ true) where
    empty-Sound :
        (discard_unwanted s).buffer ≡ [] → Sound (set_buffer_is_empty safe (discard_unwanted s))
    unfolding may_take set_buffer_is_empty update_state
    empty-Sound h = ground (arith, append-nil s.dropped, append-nil (s.dropped ++ s.buffer))

  module _ (d : D) (rest : List D) (may : may_take s ≡ true)
      (front : (discard_unwanted s).buffer ≡ d ∷ rest) where
    -- The stream while the consumer has its datum and has not answered.
    abbrev handed : C → Stream R D E C
    handed c = record s {
      buffer = rest;
      consumer_is_running = true;
      consumer_state = c;
      consumed = s.consumed ++ (d ∷ []);
    }

    abbrev answered : C → StreamAction → Stream R D E C
    answered c a = record (handed c) { action = a; consumer_is_running = false }

    start :
        set_consumer_is_running safe true (record (discard_unwanted s) { buffer = rest })
        ≡ done tt (record s { buffer = rest; consumer_is_running = true })
    unfolding may_take set_consumer_is_running update_state
    start = ground arith

    module _ (c : C) where
      resolved-eq :
          (process : Run R D E C) (a : StreamAction)
          → consumer_resolved safe process a (handed c) ≡ process (answered c a)
      unfolding consumer_resolved may_take set_consumer_is_running update_state
      resolved-eq process a = ground arith

      answered-Ready : (a : StreamAction) → Ready (answered c a)
      unfolding may_take
      answered-Ready a = grind (arith, list_laws)

      rejected-Sound : (e : E) → Sound (consumer_rejected safe e (handed c))
      unfolding consumer_rejected may_take set_stream_result set_consumer_is_running update_state
      rejected-Sound e = grind (arith, list_laws)

      unsettled-Sound : Sound {A = Unit {0}} (done tt (record (handed c) { awaiting = true }))
      unfolding may_take
      unsettled-Sound = grind (arith, list_laws)

front-length :
    {R D E C : Type 0} (s : Stream R D E C) {d : D} {rest : List D}
    → (discard_unwanted s).buffer ≡ d ∷ rest
    → length rest < length s.buffer
front-length s e = ground arith

module _ {R D E C : Type 0} (safe : Bool) where
  -- The clean-up of `call_data_callback`, at an exception out of a consumer.
  on_throw-Sound :
      {A : Type 0} (o : Outcome (Stream R D E C) Fault A)
      → Sound o
      → Sound (on_throw (set_consumer_is_running safe false) o)
  unfolding set_consumer_is_running update_state
  on_throw-Sound (done a s) h = h
  on_throw-Sound (thrown e s) h = ground arith

  module _ (s : Stream R D E C) (v : Ready s) (may : may_take s ≡ true) (d : D) (rest : List D)
      (front : (discard_unwanted s).buffer ≡ d ∷ rest) (process : Run R D E C)
      (next : (s' : Stream R D E C) → Ready s' → s'.buffer ≡ rest → Sound (process s')) where
    reply-Sound :
        (c : C) (reply : Promised E StreamAction)
        → Sound (bind_callbacks safe process reply (handed safe s v d rest may front c))
    reply-Sound c (fulfilled a) =
        rw (resolved-eq safe s v d rest may front c process a)
          (next _ (answered-Ready safe s v d rest may front c a) refl)
    reply-Sound c (refused e) = rejected-Sound safe s v d rest may front c e
    reply-Sound c unsettled = unsettled-Sound safe s v d rest may front c

    run-Sound :
        (f : Option (DataFunc C D E))
        → s.on_data ≡ f
        → Sound
            (run_consumer safe process d (record s { buffer = rest; consumer_is_running = true }))
    unfolding run_consumer may_take
    run-Sound none e = ground arith
    run-Sound (some f) e =
        rw (e, run_consumer) (reply-Sound (f s.consumer_state d).1 (f s.consumer_state d).0)

    call-Sound :
        Sound (call_data_callback safe process d (record (discard_unwanted s) { buffer = rest }))
    unfolding call_data_callback
    call-Sound = on_throw-Sound _ (rw (start safe s v d rest may front) (run-Sound s.on_data refl))

  -- What `process_within` does with what it took.
  abbrev deliver : Run R D E C → Option D → Run R D E C
  deliver process none = return tt
  deliver process (some d) = call_data_callback safe process d

  skip-Sound :
      (process : Run R D E C) (o : Outcome (Stream R D E C) Fault (Unit {0}))
      → Sound o
      → Sound (and_then (and_then o (λ _. return none)) (deliver process))
  skip-Sound process (done a s) h = h
  skip-Sound process (thrown e s) h = h

  module _ (s : Stream R D E C) (v : Ready s) (may : may_take s ≡ true) (process : Run R D E C)
      (next : (s' : Stream R D E C)
        → Ready s'
        → length s'.buffer < length s.buffer
        → Sound (process s')) where
    round-Sound :
        (b : List D)
        → (discard_unwanted s).buffer ≡ b
        → Sound (and_then (take_from safe b (discard_unwanted s)) (deliver process))
    round-Sound [] e = skip-Sound process _ (empty-Sound safe s v may e)
    round-Sound (d ∷ rest) e =
        call-Sound s v may d rest e process (λ s' v' h. next s' v' (rw h (front-length s e)))

  -- Handing over data with enough rounds: the data are handed over in order until the consumer asks
  -- for time, fails or wants no more, or the buffer is empty.
  pub process_within-Sound :
      (n : ℕ) (s : Stream R D E C) → Ready s → length s.buffer < n → Sound (process_within safe n s)
  unfolding process_within take_data
  process_within-Sound zero s v h = absurd (omega arith)
  process_within-Sound (suc n) s v h = elim (Bool-cases (may_take s)) [
    | inr stays ↦ rw stays (v.table, v.order, blocked-Sound safe s v stays)
    | inl may ↦ rw may (
        round-Sound s v may (process_within safe n)
          (λ s' v' k. process_within-Sound n s' v' (omega arith)) (discard_unwanted s).buffer refl)
  ]
