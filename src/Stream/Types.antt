-- ===== src/Stream/Types.antt =====
-- promise_stream/defs.h, state_base.h and state.h: the data of one PromiseStreamState. A callback
-- that the stream holds (`completer`, `on_data`) is an option whose `none` is the null function.
use kaiu.Base.{Bool, true, false, List, [], Option, none}

pub data StreamAction : Type 0 where
  continue discard stop : StreamAction

pub data StreamState : Type 0 where
  pending streaming1 streaming2 streaming3 completed : StreamState

pub data StreamResult : Type 0 where
  pending resolved rejected consumer_failed : StreamResult

-- The exceptions that the library itself throws; the first five only in a debug build.
pub data Fault : Type 0 where
  invalid_transition written_after_completion concurrent_consumers data_callback_bound_twice : Fault
  callback_already_assigned resolved_multiple_times bad_function_call out_of_fuel : Fault

-- What a completer does to the proxy promise.
pub data Completion (R E : Type 0) : Type 0 where
  resolves : R → Completion R E
  rejects : E → Completion R E

-- A promise as the stream sees it when the consumer returns it, and how a pending one is settled.
pub data Promised (E A : Type 0) : Type 0 where
  fulfilled : A → Promised E A
  refused : E → Promised E A
  unsettled : Promised E A

pub data Settlement (E : Type 0) : Type 0 where
  fulfils : StreamAction → Settlement E
  refuses : E → Settlement E

-- A call of user code: it returns, or it throws.
pub data Called (E A : Type 0) : Type 0 where
  returns : A → Called E A
  raises : E → Called E A

-- A consumer with its mutable state `C` (`State&` of a stateful stream, or what a lambda captured).
abbrev pub Consumer : Type 0 → Type 0 → Type 0 → Type 0 → Type 0
Consumer C D E A = C → D → Called E A × C

abbrev pub DataFunc : Type 0 → Type 0 → Type 0 → Type 0
DataFunc C D E = C → D → Promised E StreamAction × C

-- Below `on_data` stand what the source keeps elsewhere (the consumer's state, the self reference of
-- self_managing.h, whether the consumer's promise is still open) and the history: how the proxy
-- promise was settled, the data put into the buffer, handed to the consumer, and thrown away.
pub record Stream (R D E C : Type 0) : Type 0 where
  pub state : StreamState
  pub action : StreamAction
  pub stream_has_been_written_to : Bool
  pub buffer_is_empty : Bool
  pub data_callback_assigned : Bool
  pub consumer_is_running : Bool
  pub completer : Option (Completion R E)
  pub result : StreamResult
  pub buffer : List D
  pub on_data : Option (DataFunc C D E)
  pub consumer_state : C
  pub immortal : Bool
  pub awaiting : Bool
  pub proxy : List (Completion R E)
  pub accepted : List D
  pub consumed : List D
  pub dropped : List D

-- `PromiseStream<Result, Datum>()`.
abbrev pub new_stream : {R D E C : Type 0} → C → Stream R D E C
new_stream c = record {
  state = StreamState.pending;
  action = continue;
  stream_has_been_written_to = false;
  buffer_is_empty = true;
  data_callback_assigned = false;
  consumer_is_running = false;
  completer = none;
  result = StreamResult.pending;
  buffer = [];
  on_data = none;
  consumer_state = c;
  immortal = false;
  awaiting = false;
  proxy = [];
  accepted = [];
  consumed = [];
  dropped = [];
}
