-- ===== src/Stream/Tests.antt =====
-- Runs of a stream of numbers whose consumer adds them up.
use kaiu.Base.{ℕ, ◌+◌, ◌≡◌, refl, true, false, List, [], ◌∷◌, some, ◌==◌, if◌then◌else◌}
use kaiu.Base.Action.{final}
use kaiu.Stream.Types.{
  Stream, StreamState, StreamAction, resolved, streaming2, new_stream, Consumer, Promised,
  fulfilled, refused, unsettled, completed, returns, continue, discard, refuses, resolves, rejects,
}
use kaiu.Stream.StateBase.{
  update_state, set_stream_has_been_written_to, set_stream_result, set_buffer_is_empty,
  set_consumer_is_running, set_data_callback_assigned,
}
use kaiu.Stream.State.{
  Event, guarded, history, happen, writes, resolves_with, rejects_with, streams, write, resolve,
  reject, consumer_settled, do_stream, set_data_callback, process_data, process_within, take_data,
  call_data_callback, run_consumer, consumer_resolved, consumer_rejected, do_resolve, do_reject,
}
use kaiu.Stream.Table.{Table, Once}
use kaiu.Stream.Order.{Order}
use kaiu.Stream.History.{history-Table, history-Order, after, idle_completes, completed_consumed}
use kaiu.Stream.Stopping.{stopped_stays_stopped}
use kaiu.Stream.Failure.{late_failure_hangs, early_failure_waits}

-- Adds; asks to discard the rest at 0, and fails at 9.
adder : Consumer ℕ ℕ ℕ (Promised ℕ StreamAction)
adder c d =
    if d == 0
    then (returns (fulfilled discard), c)
    else if d == 9
    then (returns (refused 99), c)
    else (returns (fulfilled continue), c + d)

-- Leaves its promise open.
slow : Consumer ℕ ℕ ℕ (Promised ℕ StreamAction)
slow c d = (returns unsettled, c + d)

run : List (Event ℕ ℕ ℕ ℕ) → Stream ℕ ℕ ℕ ℕ
unfolding history happen write resolve reject consumer_settled do_stream set_data_callback
    process_within take_data call_data_callback run_consumer consumer_resolved consumer_rejected
    do_resolve do_reject update_state process_data set_stream_has_been_written_to set_stream_result
    set_buffer_is_empty set_consumer_is_running set_data_callback_assigned adder slow
run es = history true es (new_stream 0)

sums_up :
    let s = run (writes 1 ∷ streams adder ∷ writes 2 ∷ resolves_with 7 ∷ []) in
    (s.state ≡ StreamState.completed) × (s.consumer_state ≡ 3) × (s.proxy ≡ resolves 7 ∷ [])
unfolding run
sums_up = (refl, refl, refl)

failed : Stream ℕ ℕ ℕ ℕ
unfolding run
failed = run (streams adder ∷ writes 9 ∷ resolves_with 7 ∷ [])

hangs : (failed.state ≡ StreamState.streaming2) × (failed.proxy ≡ [])
unfolding failed
hangs = (refl, refl)

-- Two writes, one before the consumer is bound, and the end.
abbrev sums : List (Event ℕ ℕ ℕ ℕ)
sums = writes 1 ∷ streams adder ∷ writes 2 ∷ resolves_with 7 ∷ []

-- The consumer has asked to discard, so that the last datum is thrown away.
abbrev cut : List (Event ℕ ℕ ℕ ℕ)
cut = streams adder ∷ writes 1 ∷ writes 0 ∷ writes 2 ∷ []

history-Order_example : Order (after true cut 0)
history-Order_example = history-Order true cut 0

idle_completes_example :
    ((after true sums 0).state ≡ completed)
    × Once (after true sums 0).result (after true sums 0).proxy
unfolding history happen write resolve reject consumer_settled do_stream set_data_callback
    process_within take_data call_data_callback run_consumer consumer_resolved consumer_rejected
    do_resolve do_reject update_state process_data set_stream_has_been_written_to set_stream_result
    set_buffer_is_empty set_consumer_is_running set_data_callback_assigned adder slow
idle_completes_example =
    idle_completes true sums 0 (refl, (refl, (refl, (refl, tt)))) refl refl refl

completed_consumed_example :
    ((after true sums 0).buffer ≡ [])
    × ((after true sums 0).consumed ≡ (after true sums 0).accepted)
unfolding history happen write resolve reject consumer_settled do_stream set_data_callback
    process_within take_data call_data_callback run_consumer consumer_resolved consumer_rejected
    do_resolve do_reject update_state process_data set_stream_has_been_written_to set_stream_result
    set_buffer_is_empty set_consumer_is_running set_data_callback_assigned adder slow
completed_consumed_example =
    completed_consumed true sums 0 (refl, (refl, (refl, (refl, tt)))) refl refl

abbrev later : List (Event ℕ ℕ ℕ ℕ)
later = writes 3 ∷ resolves_with 7 ∷ []

stopped_stays_stopped_example :
    ((history true later (after true cut 0)).consumed ≡ (after true cut 0).consumed)
    × ((history true later (after true cut 0)).consumer_state ≡ (after true cut 0).consumer_state)
unfolding history happen write resolve reject consumer_settled do_stream set_data_callback
    process_within take_data call_data_callback run_consumer consumer_resolved consumer_rejected
    do_resolve do_reject update_state process_data set_stream_has_been_written_to set_stream_result
    set_buffer_is_empty set_consumer_is_running set_data_callback_assigned adder slow
stopped_stays_stopped_example =
    stopped_stays_stopped true later (after true cut 0) (history-Table true cut 0)
      (history-Order true cut 0) refl refl

-- The consumer is called, and its promise is open.
abbrev asked : List (Event ℕ ℕ ℕ ℕ)
asked = writes 1 ∷ streams slow ∷ []

abbrev ended : List (Event ℕ ℕ ℕ ℕ)
ended = writes 1 ∷ streams slow ∷ resolves_with 7 ∷ []

late_failure_hangs_example :
    (history true later (final (consumer_settled true 1 (refuses 9) (after true ended 0)))).proxy
    ≡ []
unfolding history happen write resolve reject consumer_settled do_stream set_data_callback
    process_within take_data call_data_callback run_consumer consumer_resolved consumer_rejected
    do_resolve do_reject update_state process_data set_stream_has_been_written_to set_stream_result
    set_buffer_is_empty set_consumer_is_running set_data_callback_assigned adder slow
late_failure_hangs_example =
    late_failure_hangs true (after true ended 0) 1 9 later (history-Table true ended 0)
      (history-Order true ended 0) refl refl

abbrev endings : List (Event ℕ ℕ ℕ ℕ)
endings = resolves_with 7 ∷ rejects_with 8 ∷ []

early_failure_waits_example :
    let s = final (consumer_settled true 1 (refuses 9) (after true asked 0)) in
    ((history true endings s).proxy ≡ []) × ((final (write true 5 s)).proxy ≡ rejects 9 ∷ [])
unfolding history happen write resolve reject consumer_settled do_stream set_data_callback
    process_within take_data call_data_callback run_consumer consumer_resolved consumer_rejected
    do_resolve do_reject update_state process_data set_stream_has_been_written_to set_stream_result
    set_buffer_is_empty set_consumer_is_running set_data_callback_assigned adder slow
early_failure_waits_example =
    early_failure_waits true (after true asked 0) 1 9 endings 5 (history-Table true asked 0)
      (tt, (tt, tt)) refl refl

-- A datum in the buffer, the result set, and a consumer that fails at once.
abbrev fails_late : Stream ℕ ℕ ℕ ℕ
fails_late = record (new_stream 0) {
  state = streaming2;
  stream_has_been_written_to = true;
  buffer_is_empty = false;
  data_callback_assigned = true;
  completer = some (resolves 7);
  result = resolved;
  buffer = 9 ∷ [];
  on_data = some (guarded adder);
  accepted = 9 ∷ [];
}
