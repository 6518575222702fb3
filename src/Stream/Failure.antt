-- ===== src/Stream/Failure.antt =====
-- A consumer that fails: what promise_stream.md promises of it, and where the code does otherwise.
use kaiu.Base.{◌≡◌, refl, Bool, true, false, List, [], ◌∷◌, arith, ◌⊎◌, inl, inr, some}
use kaiu.Base.Action.{done, thrown, final}
use kaiu.Stream.Types.{
  Stream, StreamResult, streaming2, rejects, stop, consumer_failed, refuses,
  resolved_multiple_times,
}
use kaiu.Stream.StateBase.{
  by_producer, set_stream_has_been_written_to, set_stream_result, set_buffer_is_empty,
  set_consumer_is_running, set_data_callback_assigned, update_state,
}
use kaiu.Stream.State.{
  Event, writes, resolves_with, rejects_with, streams, settles, happen, history, is_continue,
  consumer_settled, consumer_rejected, write, set_data_callback, do_resolve, do_reject,
  process_within, take_data, may_take,
}
use kaiu.Stream.Table.{Table, is_bound}
use kaiu.Stream.Order.{Order}
use kaiu.Stream.Operations.{happen-Kept}

module _ {R D E C : Type 0} (safe : Bool) (s : Stream R D E C) (t : Table s) where
  -- The consumer fails after the producer has set its result: an exception is thrown where the
  -- documentation says that the failure overrides the result, and the stream is left with a consumer
  -- that counts as running.
  pub late_failure_throws :
      (c : C) (e : E)
      → s.awaiting ≡ true
      → by_producer s.result ≡ true
      → consumer_settled safe c (refuses e) s
        ≡ thrown resolved_multiple_times
            (record s { awaiting = false; consumer_state = c; action = stop })
  unfolding consumer_settled consumer_rejected set_stream_result
  late_failure_throws c e h k = ground arith

  -- A consumer that fails while the stream has no result leaves it without completion.
  early_failure :
      (c : C) (e : E)
      → s.awaiting ≡ true
      → s.result ≡ StreamResult.pending
      → consumer_settled safe c (refuses e) s
        ≡ done tt (record s {
          awaiting = false;
          consumer_state = c;
          action = stop;
          result = consumer_failed;
          completer = some (rejects e);
          state = streaming2;
          consumer_is_running = false;
        })
  unfolding consumer_settled consumer_rejected set_stream_result set_consumer_is_running
      update_state
  early_failure c e h k = ground arith

module _ {R D E C : Type 0} where
  -- A consumer that counts as running, whose promise is settled already.
  record Stuck (s : Stream R D E C) : Type 0 where
    running : s.consumer_is_running ≡ true
    settled : s.awaiting ≡ false
    ended : by_producer s.result ≡ true

  Stuck-proxy : (s : Stream R D E C) → Table s → Stuck s → s.proxy ≡ []
  Stuck-proxy s t k = ground arith

  ready : (s : Stream R D E C) → Table s → s.awaiting ≡ true → is_bound s.on_data ≡ true
  ready s t h = ground arith

module _ {R D E C : Type 0} (safe : Bool) where
  happen-Stuck :
      (x : Event R D E C) (s : Stream R D E C) → Table s → Stuck s → Stuck (final (happen safe x s))
  unfolding happen write do_resolve do_reject set_stream_has_been_written_to set_stream_result
      set_data_callback set_data_callback_assigned update_state process_within take_data may_take
  happen-Stuck (writes d) s t k = ground arith
  happen-Stuck (resolves_with r) s t k = ground arith
  happen-Stuck (rejects_with e) s t k = ground arith
  happen-Stuck (streams f) s t k = ground arith
  happen-Stuck (settles c x) s t k = ground arith

  history-Stuck :
      (es : List (Event R D E C)) (s : Stream R D E C)
      → Table s
      → Order s
      → Stuck s
      → (history safe es s).proxy ≡ []
  unfolding history
  history-Stuck [] s t o k = Stuck-proxy s t k
  history-Stuck (x ∷ es) s t o k =
      let v = happen-Kept safe x s t o in
      history-Stuck es (final (happen safe x s)) v.0 v.1 (happen-Stuck x s t k)

  -- In a stream whose flags and data are as any history leaves them, if the consumer's promise is
  -- rejected after the producer has ended the stream, no later history settles the promise of the
  -- stream.
  pub late_failure_hangs :
      (s : Stream R D E C) (c : C) (e : E) (es : List (Event R D E C))
      → Table s
      → Order s
      → s.awaiting ≡ true
      → by_producer s.result ≡ true
      → (history safe es (final (consumer_settled safe c (refuses e) s))).proxy ≡ []
  late_failure_hangs s c e es t o h k =
      rw (late_failure_throws safe s t c e h k)
        (history-Stuck es _ (ground arith) (ground arith) (ground arith))

  abbrev pub Ending : Event R D E C → Type 0
  Ending (resolves_with r) = Unit
  Ending (rejects_with e) = Unit
  Ending _ = ⊥

  abbrev pub AllEnding : List (Event R D E C) → Type 0
  AllEnding [] = Unit
  AllEnding (x ∷ es) = Ending x × AllEnding es

  Ending-Failed :
      (x : Event R D E C) (s : Stream R D E C)
      → Ending x
      → s.result ≡ consumer_failed
      → (happen safe x s ≡ done tt s) ⊎ (happen safe x s ≡ done tt (record s { action = stop }))
  unfolding happen do_resolve do_reject set_stream_result
  Ending-Failed (resolves_with r) s h f = inl (ground arith)
  Ending-Failed (rejects_with e) s h f = inr (ground arith)
  Ending-Failed (writes d) s h f = absurd h
  Ending-Failed (streams g) s h f = absurd h
  Ending-Failed (settles c x) s h f = absurd h

  history-Failed :
      (es : List (Event R D E C)) (s : Stream R D E C)
      → AllEnding es
      → s.result ≡ consumer_failed
      → s.proxy ≡ []
      → (history safe es s).proxy ≡ []
  unfolding history
  history-Failed [] s h f p = p
  history-Failed (x ∷ es) s h f p = elim (Ending-Failed x s h.0 f) [
    | inl e ↦ rw (e, history) (history-Failed es s h.1 f p)
    | inr e ↦ rw (e, history) (history-Failed es _ h.1 f p)
  ]

  write-Failed :
      (s : Stream R D E C) (d : D) (e : E)
      → is_bound s.on_data ≡ true
      → s.consumer_is_running ≡ false
      → is_continue s.action ≡ false
      → s.state ≡ streaming2
      → s.result ≡ consumer_failed
      → s.completer ≡ some (rejects e)
      → s.buffer_is_empty ≡ false
      → s.proxy ≡ []
      → (final (write safe d s)).proxy ≡ rejects e ∷ []
  unfolding write process_within take_data may_take set_buffer_is_empty update_state
  write-Failed s d e m i a st r c b p = ground arith

  -- In a stream whose flags are as any history leaves them, if the consumer's promise is rejected
  -- before the producer has ended the stream, ending it does not settle the promise, and the next
  -- write rejects it with the consumer's error.
  pub early_failure_waits :
      (s : Stream R D E C) (c : C) (e : E) (es : List (Event R D E C)) (d : D)
      → Table s
      → AllEnding es
      → s.awaiting ≡ true
      → s.result ≡ StreamResult.pending
      → let s' = final (consumer_settled safe c (refuses e) s) in
        ((history safe es s').proxy ≡ []) × ((final (write safe d s')).proxy ≡ rejects e ∷ [])
  early_failure_waits s c e es d t h w p = (
    rw (early_failure safe s t c e w p) (history-Failed es _ h refl (ground arith)),
    rw (early_failure safe s t c e w p)
        (write-Failed _ d e (ready s t w) refl refl refl refl refl (ground arith) (ground arith)),
  )
