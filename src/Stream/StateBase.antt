-- ===== src/Stream/StateBase.antt =====
-- promise_stream.cpp: the flags of a stream and the state machine over them. `safe` is
-- SAFE_PROMISE_STREAMS, which a debug build defines.
use kaiu.Base.{
  ℕ, zero, suc, Bool, true, false, not, ◌&&◌, ◌||◌, [], ◌∷◌, ◌++◌, Option, none, some,
  if◌then◌else◌,
}
use kaiu.Base.Action.{Action, done, thrown, modify, guard, ◌>>◌}
use kaiu.Stream.Types.{
  Stream, StreamState, StreamResult, StreamAction, Fault, Completion, invalid_transition,
  written_after_completion, concurrent_consumers, data_callback_bound_twice,
  resolved_multiple_times, bad_function_call, out_of_fuel, streaming1, streaming2, streaming3,
  completed, resolved, rejected, consumer_failed, stop,
}

-- The `switch` of `set_state`: the states from which the next one may be entered.
abbrev pub can_enter : StreamState → StreamState → Bool
can_enter StreamState.pending from = false
can_enter streaming1 from = elim from [ StreamState.pending ↦ true | _ ↦ false ]
can_enter streaming2 from = elim from [ streaming1 ↦ true | _ ↦ false ]
can_enter streaming3 from = elim from [ streaming2 ↦ true | _ ↦ false ]
can_enter completed from = elim from [ StreamState.pending ↦ true | streaming3 ↦ true | _ ↦ false ]

-- `result != stream_result::pending`.
abbrev pub has_result : StreamResult → Bool
has_result StreamResult.pending = false
has_result _ = true

-- `result == resolved || result == rejected`.
abbrev pub by_producer : StreamResult → Bool
by_producer resolved = true
by_producer rejected = true
by_producer _ = false

abbrev pub is_completed : StreamState → Bool
is_completed completed = true
is_completed _ = false

abbrev pub same : Bool → Bool → Bool
same true b = b
same false b = not b

-- A member function that returns nothing.
abbrev pub Run : Type 0 → Type 0 → Type 0 → Type 0 → Type 0
Run R D E C = Action (Stream R D E C) Fault (Unit {0})

module _ {R D E C : Type 0} where
  -- The completer is taken out, called and with it the object made mortal.
  abbrev complete : Option (Completion R E) → Run R D E C
  complete none s = thrown bad_function_call s
  complete (some c) s =
      done tt (record s { completer = none; immortal = false; proxy = s.proxy ++ (c ∷ []) })

module _ {R D E C : Type 0} (safe : Bool) where
  -- `set_state`, over the `update_state` that it ends with.
  unfoldable pub set_state : Run R D E C → StreamState → Run R D E C
  set_state update next s =
      (do
        guard (not safe || can_enter next s.state) invalid_transition
        modify (λ s. record s { state = next })
        update)
        s

  -- The `switch` of `update_state`, over the calls of it that a state change leads to.
  unfoldable pub apply_state : Run R D E C → StreamState → Run R D E C
  unfolding set_state
  apply_state update StreamState.pending s =
      if s.stream_has_been_written_to
      then set_state update streaming1 s
      else if has_result s.result
      then set_state update completed s
      else done tt s
  apply_state update streaming1 s =
      if has_result s.result then set_state update streaming2 s else done tt s
  apply_state update streaming2 s =
      if s.buffer_is_empty then set_state update streaming3 s else done tt s
  apply_state update streaming3 s =
      if s.consumer_is_running then done tt s else set_state update completed s
  apply_state update completed s = if has_result s.result then complete s.completer s else done tt s

  unfoldable pub update_within : ℕ → Run R D E C
  update_within zero s = thrown out_of_fuel s
  update_within (suc n) s = let update = update_within n in apply_state update s.state s

  -- Each round of `update_state` moves to a later state, so five rounds are enough.
  unfoldable pub update_state : Run R D E C
  unfolding apply_state update_within
  update_state s = update_within 5 s

  unfoldable pub set_stream_has_been_written_to : Run R D E C
  set_stream_has_been_written_to s =
      (do
        guard (not (safe && by_producer s.result)) written_after_completion
        modify (λ s. record s { stream_has_been_written_to = true; buffer_is_empty = false })
        update_state)
        s

  unfoldable pub set_stream_result : StreamResult → Completion R E → Run R D E C
  set_stream_result r c s = elim s.result [
    | consumer_failed ↦ done tt s
    | StreamResult.pending ↦ update_state (record s { completer = some c; result = r })
    | _ ↦ thrown resolved_multiple_times s
  ]

  unfoldable pub set_buffer_is_empty : Run R D E C
  set_buffer_is_empty s =
      if s.buffer_is_empty then done tt s else update_state (record s { buffer_is_empty = true })

  unfoldable pub set_consumer_is_running : Bool → Run R D E C
  set_consumer_is_running value s =
      (do
        guard (not (safe && same s.consumer_is_running value)) concurrent_consumers
        modify (λ s. record s { consumer_is_running = value })
        update_state)
        s

  unfoldable pub set_data_callback_assigned : Run R D E C
  set_data_callback_assigned s =
      (do
        guard (not (safe && s.data_callback_assigned)) data_callback_bound_twice
        modify (λ s. record s { data_callback_assigned = true })
        modify (λ s. record s { immortal = s.immortal || not (is_completed s.state) }))
        s

module _ {R D E C : Type 0} where
  abbrev pub set_action : StreamAction → Run R D E C
  set_action a = modify (λ s. record s { action = a })

  -- `is_stopping`.
  unfoldable pub is_stopping : Stream R D E C → Bool
  is_stopping s = elim s.action [ stop ↦ true | _ ↦ false ]

  -- `data_action`.
  abbrev pub data_action : Stream R D E C → StreamAction
  data_action s = s.action
