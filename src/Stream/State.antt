-- ===== src/Stream/State.antt =====
-- promise_stream.tcc: writing to a stream, handing its data to the consumer, and ending it. Every
-- public operation runs under the stream's lock, so it is one step.
use kaiu.Base.{
  ℕ, zero, suc, Bool, true, false, not, ◌&&◌, List, [], ◌∷◌, ◌++◌, Option, none, some, length,
  if◌then◌else◌,
}
use kaiu.Base.Action.{Action, done, thrown, modify, guard, final, return, on_throw, ◌>>=◌, ◌>>◌}
use kaiu.Stream.Types.{
  Stream, StreamState, StreamAction, Fault, Promised, Settlement, Called, Consumer, DataFunc,
  callback_already_assigned, bad_function_call, out_of_fuel, streaming1, streaming2, continue,
  discard, stop, resolved, rejected, consumer_failed, resolves, rejects, fulfilled, refused,
  unsettled, fulfils, refuses, returns, raises,
}
use kaiu.Stream.StateBase.{
  Run, set_stream_has_been_written_to, set_stream_result, set_buffer_is_empty,
  set_consumer_is_running, set_data_callback_assigned, set_action,
}

abbrev pub is_continue : StreamAction → Bool
is_continue continue = true
is_continue _ = false

-- The states in which data may be taken.
abbrev pub is_streaming : StreamState → Bool
is_streaming streaming1 = true
is_streaming streaming2 = true
is_streaming _ = false

module _ {R D E C : Type 0} where
  -- The early returns of `take_data` up to the look at the buffer.
  unfoldable pub may_take : Stream R D E C → Bool
  may_take s =
      is_streaming s.state
      && elim s.on_data [ none ↦ false | some f ↦ true ]
      && not s.consumer_is_running

  -- A consumer that does not continue has its buffer emptied.
  abbrev pub discard_unwanted : Stream R D E C → Stream R D E C
  discard_unwanted s =
      if is_continue s.action then s else record s { buffer = []; dropped = s.dropped ++ s.buffer }

  unfoldable pub emplace_data : D → Run R D E C
  emplace_data d =
      modify (λ s. record s { buffer = s.buffer ++ (d ∷ []); accepted = s.accepted ++ (d ∷ []) })

module _ {R D E C : Type 0} (safe : Bool) where
  abbrev pub take_from : List D → Action (Stream R D E C) Fault (Option D)
  take_from [] s = (do set_buffer_is_empty safe; return none) s
  take_from (d ∷ rest) s = done (some d) (record s { buffer = rest })

  unfoldable pub take_data : Action (Stream R D E C) Fault (Option D)
  unfolding may_take
  take_data s =
      let s' = discard_unwanted s in if may_take s then take_from s'.buffer s' else done none s

  unfoldable pub do_resolve : R → Run R D E C
  do_resolve r = set_stream_result safe resolved (resolves r)

  unfoldable pub do_reject : E → Bool → Run R D E C
  do_reject e failed = do
    set_action stop
    set_stream_result safe (if failed then consumer_failed else rejected) (rejects e)

  -- The two callbacks that `call_data_callback` binds to the consumer's promise.
  unfoldable pub consumer_resolved : Run R D E C → StreamAction → Run R D E C
  consumer_resolved process a = do set_action a; set_consumer_is_running safe false; process

  unfoldable pub consumer_rejected : E → Run R D E C
  unfolding do_reject
  consumer_rejected e = do do_reject e true; set_consumer_is_running safe false

  -- A promise that is settled already runs its callback at once.
  abbrev pub bind_callbacks : Run R D E C → Promised E StreamAction → Run R D E C
  bind_callbacks process (fulfilled a) s = consumer_resolved process a s
  bind_callbacks process (refused e) s = consumer_rejected e s
  bind_callbacks process unsettled s = done tt (record s { awaiting = true })

  unfoldable pub run_consumer : Run R D E C → D → Run R D E C
  run_consumer process d s = elim s.on_data [
    | none ↦ thrown bad_function_call s
    | some f ↦
        let (reply, c) = f s.consumer_state d in
        bind_callbacks process reply
          (record s { consumer_state = c; consumed = s.consumed ++ (d ∷ []) })
  ]

  unfoldable pub call_data_callback : Run R D E C → D → Run R D E C
  unfolding run_consumer
  call_data_callback process d s =
      on_throw (set_consumer_is_running safe false)
        ((do set_consumer_is_running safe true; run_consumer process d) s)

  unfoldable pub process_within : ℕ → Run R D E C
  process_within zero s = thrown out_of_fuel s
  process_within (suc n) s =
      let process = process_within n in
      (do
        taken ← take_data
        elim taken [ none ↦ return tt | some d ↦ call_data_callback process d ])
        s

  -- Each round takes one datum, so the length of the buffer bounds the rounds.
  unfoldable pub process_data : Run R D E C
  process_data s = process_within (suc (length s.buffer)) s

  unfoldable pub write : D → Run R D E C
  unfolding process_data emplace_data
  write d s =
      if is_continue s.action
      then (do emplace_data d; set_stream_has_been_written_to safe; process_data) s
      else process_data s

  unfoldable pub resolve : R → Run R D E C
  resolve r = do_resolve r

  unfoldable pub reject : E → Run R D E C
  reject e = do_reject e false

  unfoldable pub set_data_callback : DataFunc C D E → Run R D E C
  unfolding process_data
  set_data_callback f s =
      (do
        guard (not (safe && elim s.on_data [ none ↦ false | some g ↦ true ]))
            callback_already_assigned
        modify (λ s. record s { on_data = some f })
        set_data_callback_assigned safe
        process_data)
        s

  -- The consumer's promise is settled later, by a thread that takes the lock again.
  unfoldable pub consumer_settled : C → Settlement E → Run R D E C
  unfolding process_data
  consumer_settled c (fulfils a) s =
      consumer_resolved process_data a (record s { awaiting = false; consumer_state = c })
  consumer_settled c (refuses e) s =
      consumer_rejected e (record s { awaiting = false; consumer_state = c })

-- `do_stream` turns an exception of the consumer into a rejected promise.
abbrev pub guarded : {C D E : Type 0} → Consumer C D E (Promised E StreamAction) → DataFunc C D E
guarded f c d = let (call, c') = f c d in (elim call [ returns p ↦ p | raises e ↦ refused e ], c')

abbrev called : {E A B : Type 0} → (A → B) → Called E A → Called E B
called f (returns a) = returns (f a)
called f (raises e) = raises e

module _ {R D E C : Type 0} (safe : Bool) where
  -- `stream`, with a consumer that returns a promise, an action, or nothing.
  unfoldable pub do_stream : Consumer C D E (Promised E StreamAction) → Run R D E C
  do_stream consumer = set_data_callback safe (guarded consumer)

  unfoldable pub stream_action : Consumer C D E StreamAction → Run R D E C
  unfolding do_stream
  stream_action consumer =
      do_stream (λ c d. let (call, c') = consumer c d in (called fulfilled call, c'))

  unfoldable pub stream_void : Consumer C D E (Unit {0}) → Run R D E C
  unfolding do_stream
  stream_void consumer =
      do_stream
        (λ c d. let (call, c') = consumer c d in (called (λ _. fulfilled continue) call, c'))

  unfoldable pub always : StreamAction → Run R D E C
  unfolding do_stream
  always a = do_stream (λ c d. (returns (fulfilled a), c))

  -- `discard()` and `stop()`.
  unfoldable pub discard_all : Run R D E C
  unfolding always
  discard_all = always discard

  unfoldable pub stop_all : Run R D E C
  unfolding always
  stop_all = always stop

-- What a producer, a consumer or a thread that settles the consumer's promise may do.
pub data Event (R D E C : Type 0) : Type 0 where
  writes : D → Event R D E C
  resolves_with : R → Event R D E C
  rejects_with : E → Event R D E C
  streams : Consumer C D E (Promised E StreamAction) → Event R D E C
  settles : C → Settlement E → Event R D E C

module _ {R D E C : Type 0} (safe : Bool) where
  -- A promise is settled once, so the consumer's is settled only while it is open.
  unfoldable pub happen : Event R D E C → Run R D E C
  unfolding do_stream resolve reject
  happen (writes d) s = write safe d s
  happen (resolves_with r) s = resolve safe r s
  happen (rejects_with e) s = reject safe e s
  happen (streams f) s = do_stream safe f s
  happen (settles c outcome) s = if s.awaiting then consumer_settled safe c outcome s else done tt s

  -- A history of steps, in any interleaving; an exception goes to the caller of that one step.
  unfoldable pub history : List (Event R D E C) → Stream R D E C → Stream R D E C
  history [] s = s
  history (e ∷ es) s = history es (final (happen e s))
