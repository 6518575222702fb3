-- ===== src/Stream/Order.antt =====
-- What the buffer, the consumer and the result of a stream have to do with one another.
use kaiu.Base.{◌≡◌, true, false, [], ◌++◌}
use kaiu.Base.Action.{Outcome, done, thrown, final}
use kaiu.Stream.Types.{
  Stream, StreamState, Fault, streaming1, streaming2, completed, consumer_failed,
  resolved_multiple_times, concurrent_consumers,
}
use kaiu.Stream.State.{is_streaming, is_continue}
use kaiu.Stream.Table.{Table, is_bound}

-- The exceptions that handing over data may end in.
abbrev pub FromConsumer : Fault → Type 0
FromConsumer resolved_multiple_times = Unit
FromConsumer concurrent_consumers = Unit
FromConsumer _ = ⊥

module _ {R D E C : Type 0} where
  -- Data reach the consumer in the order written, none twice and none left out: what was accepted
  -- is what was consumed, what was thrown away and what is still in the buffer. Nothing is thrown
  -- away before the consumer asks for it.
  pub record Order (s : Stream R D E C) : Type 0 where
    pub whole : s.accepted ≡ s.consumed ++ (s.dropped ++ s.buffer)
    pub undropped : is_continue s.action ≡ true → s.dropped ≡ []
    pub undropped_running : s.consumer_is_running ≡ true → s.dropped ≡ []

  abbrev pub Rest : StreamState → Stream R D E C → Type 0
  Rest streaming1 s = s.buffer_is_empty ≡ true
  Rest streaming2 s = s.result ≡ consumer_failed
  Rest _ s = Unit

  abbrev pub Closed : StreamState → Stream R D E C → Type 0
  Closed completed s = s.buffer ≡ []
  Closed _ s = Unit

  -- What handing over data needs.
  pub record Ready (s : Stream R D E C) : Type 0 where
    pub table : Table s
    pub order : Order s
    pub closed : Closed s.state s

  -- A bound stream whose consumer is idle waits for the producer alone, and a completed one has
  -- nothing left in its buffer.
  pub record Live (s : Stream R D E C) : Type 0 where
    pub idle : is_bound s.on_data ≡ true → s.consumer_is_running ≡ false → Rest s.state s
    pub closed : Closed s.state s

  abbrev pub Sound {α} : {A : Type α} → Outcome (Stream R D E C) Fault A → Type 0
  Sound (done a s) = Table s × Order s × Live s
  Sound (thrown e s) =
      Table s × Order s × (s.awaiting ≡ false) × (is_streaming s.state ≡ true) × FromConsumer e

  -- After an operation: the table and the order hold on either way out.
  abbrev pub Kept {α} : {A : Type α} → Outcome (Stream R D E C) Fault A → Type 0
  Kept o = Table (final o) × Order (final o)

  -- An operation that returns leaves the stream live.
  abbrev pub Steady {α} : {A : Type α} → Outcome (Stream R D E C) Fault A → Type 0
  Steady (done a s) = Live s
  Steady (thrown e s) = Unit
