-- ===== src/Stream/Flags.antt =====
-- The setters of promise_stream.cpp keep the table, and never run out of rounds.
use kaiu.Base.{◌≡◌, Bool, true, false, [], arith}
use kaiu.Base.Action.{final}
use kaiu.Stream.Types.{Stream, StreamResult, Completion}
use kaiu.Stream.StateBase.{
  update_state, set_stream_has_been_written_to, set_stream_result, set_buffer_is_empty,
  set_consumer_is_running, set_data_callback_assigned,
}
use kaiu.Stream.State.{is_streaming, emplace_data}
use kaiu.Stream.Table.{Table, Agrees, is_bound}

module _ {R D E C : Type 0} (safe : Bool) (s : Stream R D E C) (t : Table s) where
  pub idle-Table : s.awaiting ≡ false → Table (final (set_consumer_is_running safe false s))
  unfolding set_consumer_is_running update_state
  idle-Table h = ground arith

  pub running-Table :
      is_streaming s.state ≡ true
      → s.buffer_is_empty ≡ false
      → is_bound s.on_data ≡ true
      → Table (final (set_consumer_is_running safe true s))
  unfolding set_consumer_is_running update_state
  running-Table h k b = ground arith

  pub empty-Table :
      s.consumer_is_running ≡ false
      → is_streaming s.state ≡ true
      → Table (final (set_buffer_is_empty safe (record s { buffer = [] })))
  unfolding set_buffer_is_empty update_state
  empty-Table h k = ground arith

  pub written-Table :
      (d : D) → Table (final (set_stream_has_been_written_to safe (final (emplace_data d s))))
  unfolding set_stream_has_been_written_to emplace_data update_state
  written-Table d = ground arith

  pub result-Table :
      (r : StreamResult) (c : Completion R E)
      → Agrees r c
      → Table (final (set_stream_result safe r c s))
  unfolding set_stream_result update_state
  result-Table r c h = ground arith

  pub assigned-Table : Table (final (set_data_callback_assigned safe s))
  unfolding set_data_callback_assigned
  assigned-Table = ground arith
