-- ===== src/Stream/Table.antt =====
-- The table of promise_stream.md, "Internal state transitions", as an invariant of the flags.
use kaiu.Base.{◌≡◌, Bool, true, false, List, [], ◌∷◌, Option, none, some}
use kaiu.Stream.Types.{
  Stream, StreamState, StreamResult, Completion, streaming1, streaming2, streaming3, completed,
  resolved, rejected, consumer_failed, resolves, rejects,
}
use kaiu.Stream.StateBase.{has_result}
use kaiu.Stream.State.{is_streaming}

module _ {R E : Type 0} where
  -- The completion is of the kind that the result names.
  abbrev pub Agrees : StreamResult → Completion R E → Type 0
  Agrees StreamResult.pending c = ⊥
  Agrees resolved (resolves r) = Unit
  Agrees resolved (rejects e) = ⊥
  Agrees rejected (resolves r) = ⊥
  Agrees rejected (rejects e) = Unit
  Agrees consumer_failed (resolves r) = ⊥
  Agrees consumer_failed (rejects e) = Unit

  abbrev pub Held : StreamResult → Option (Completion R E) → Type 0
  Held r none = ⊥
  Held r (some c) = Agrees r c

  -- Exactly one settlement.
  abbrev pub Once : StreamResult → List (Completion R E) → Type 0
  Once r [] = ⊥
  Once r (c ∷ []) = Agrees r c
  Once r (c ∷ d ∷ cs) = ⊥

abbrev pub is_bound {ℓ} : {A : Type ℓ} → Option A → Bool
is_bound none = false
is_bound (some f) = true

-- A flag that says "empty" is right.
abbrev pub Drained {ℓ} : {A : Type ℓ} → Bool → List A → Type ℓ
Drained true b = b ≡ []
Drained false b = Unit

module _ {R D E C : Type 0} where
  -- A row of the table. No row is streaming3: no operation leaves the stream there.
  abbrev pub Row : StreamState → Stream R D E C → Type 0
  Row StreamState.pending s =
      (s.stream_has_been_written_to ≡ false)
      × (s.result ≡ StreamResult.pending)
      × (s.buffer_is_empty ≡ true)
      × (s.buffer ≡ [])
      × (s.proxy ≡ [])
  Row streaming1 s =
      (s.stream_has_been_written_to ≡ true)
      × (s.result ≡ StreamResult.pending)
      × Drained s.buffer_is_empty s.buffer
      × (s.proxy ≡ [])
  Row streaming2 s =
      (s.stream_has_been_written_to ≡ true)
      × (has_result s.result ≡ true)
      × (s.buffer_is_empty ≡ false)
      × Held s.result s.completer
      × (s.proxy ≡ [])
  Row streaming3 s = ⊥
  Row completed s = (has_result s.result ≡ true) × (s.completer ≡ none) × Once s.result s.proxy

  -- The rest: a running consumer is bound, in a streaming state, and counted as data to come.
  pub record Table (s : Stream R D E C) : Type 0 where
    pub row : Row s.state s
    pub busy : s.consumer_is_running ≡ true → s.buffer_is_empty ≡ false
    pub streaming : s.consumer_is_running ≡ true → is_streaming s.state ≡ true
    pub waiting : s.awaiting ≡ true → s.consumer_is_running ≡ true
    pub bound : s.consumer_is_running ≡ true → is_bound s.on_data ≡ true
