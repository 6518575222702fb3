-- ===== src/Stream/Stopping.antt =====
-- A consumer that asked to discard or stop, and the ends of handing over data.
use kaiu.Base.{◌≡◌, refl, ◌∙◌, Bool, false, List, [], ◌∷◌, arith}
use kaiu.Base.Action.{final}
use kaiu.Stream.Types.{Stream}
use kaiu.Stream.StateBase.{
  set_stream_has_been_written_to, set_stream_result, set_buffer_is_empty,
  set_data_callback_assigned, update_state,
}
use kaiu.Stream.State.{
  Event, writes, resolves_with, rejects_with, streams, settles, happen, history, is_continue, write,
  set_data_callback, do_resolve, do_reject, process_within, take_data, may_take,
}
use kaiu.Stream.Table.{Table}
use kaiu.Stream.Order.{Order}
use kaiu.Stream.Operations.{happen-Kept}

module _ {R D E C : Type 0} where
  record Stopped (s : Stream R D E C) : Type 0 where
    stopped : is_continue s.action ≡ false
    idle : s.consumer_is_running ≡ false

  -- Unchanged in what the consumer has seen.
  record Same (s s' : Stream R D E C) : Type 0 where
    still : Stopped s'
    seen : s'.consumed ≡ s.consumed
    untouched : s'.consumer_state ≡ s.consumer_state

module _ {R D E C : Type 0} (safe : Bool) where
  happen-Same :
      (x : Event R D E C) (s : Stream R D E C)
      → Table s
      → Stopped s
      → Same s (final (happen safe x s))
  unfolding happen write do_resolve do_reject set_stream_has_been_written_to set_stream_result
      set_data_callback set_data_callback_assigned set_buffer_is_empty update_state process_within
      take_data may_take
  happen-Same (writes d) s t k = ground arith
  happen-Same (resolves_with r) s t k = ground arith
  happen-Same (rejects_with e) s t k = ground arith
  happen-Same (streams f) s t k = ground arith
  happen-Same (settles c x) s t k = ground arith

  history-Same :
      (es : List (Event R D E C)) (s : Stream R D E C)
      → Table s
      → Order s
      → Stopped s
      → Same s (history safe es s)
  unfolding history
  history-Same [] s t o k = record { still = k; seen = refl; untouched = refl }
  history-Same (x ∷ es) s t o k =
      let v = happen-Kept safe x s t o in
      let a = happen-Same x s t k in
      let b = history-Same es (final (happen safe x s)) v.0 v.1 a.still in
      record { still = b.still; seen = b.seen ∙ a.seen; untouched = b.untouched ∙ a.untouched }

  -- In a stream whose flags and data are as any history leaves them, once the action is not to
  -- continue and the consumer is idle, no later history calls the consumer again.
  pub stopped_stays_stopped :
      (es : List (Event R D E C)) (s : Stream R D E C)
      → Table s
      → Order s
      → is_continue s.action ≡ false
      → s.consumer_is_running ≡ false
      → ((history safe es s).consumed ≡ s.consumed)
        × ((history safe es s).consumer_state ≡ s.consumer_state)
  stopped_stays_stopped es s t o a i =
      let k = history-Same es s t o (record { stopped = a; idle = i }) in (k.seen, k.untouched)
