-- ===== src/Promise/Tests.antt =====
-- Promises on particular stores.
use kaiu.Base.{[], ℕ, ◌+◌, ◌<◌, ◌≡◌, ◌≢◌, refl, true, none, some, arith}
use kaiu.Base.Action.{Action, thrown, final, done, and_then}
use kaiu.Promise.Types.{
  Heap, Reply, resolved, completed, value, settled, raises, terminates, empty_heap, new_cell,
}
use kaiu.Promise.Chain.{combine_finalizers}
use kaiu.Promise.Finalizers.{InTurn, call, combine_finalizers-InTurn}
use kaiu.Promise.State.{settle, set_callbacks, update_within}
use kaiu.Promise.Operations.{then_promise}
use kaiu.Promise.Settling.{settle_bind}
use kaiu.Promise.Running.{Holds}
use kaiu.Promise.Then.{then_promise-lem}
use kaiu.Promise.Types.{Fault}
use kaiu.Promise.Outcomes.{depth, depth_links, chain_outcome, links_outcome}
use kaiu.Promise.Chain.{next_or, handler_or}
use kaiu.Promise.Pack.{Pack, bind, then_with_pack, call_value, reject_with}
use kaiu.Promise.Binding.{pack_outcome, bind-then}
use kaiu.Base.{if◌then◌else◌, ◌==◌}

settle_bind_example :
    and_then
      (settle true (update_within true 1) 0 (value 4) (empty_heap {V = ℕ} {E = ℕ}))
      (λ _. set_callbacks true (update_within true 1) 0 terminates)
    ≡ and_then
        (set_callbacks true (update_within true 1) 0 terminates empty_heap)
        (λ _. settle true (update_within true 1) 0 (value 4))
settle_bind_example = settle_bind true 0 0 empty_heap terminates (value 4) refl refl

-- One promise, resolved with 4.
abbrev ready : Heap ℕ ℕ
ready = record {
  cells = λ q. record new_cell { state = resolved; result = some 4 };
  next_id = 1;
  posted = [];
}

abbrev increment : ℕ → Reply ℕ ℕ
increment v = settled (value (v + 1))

abbrev give_up : ℕ → Reply ℕ ℕ
give_up e = raises e

then_promise-lem_example :
    (h' : Heap ℕ ℕ) × (then_promise true 3 0 increment give_up none ready ≡ done 1 h')
    × Holds (value 5) (h'.cells 1)
    × ((h'.cells 0).state ≡ completed)
    × ((r : ℕ) → r ≢ 0 → r < 1 → h'.cells r ≡ ready.cells r)
unfolding depth chain_outcome
then_promise-lem_example =
    then_promise-lem true 0 0 ready increment give_up none (value 4) (value 5) (omega arith)
      (refl, refl) refl (omega arith) refl

-- Doubling may fail, and the failure is handled; a fault of the library is the error 99.
abbrev double : Pack ℕ ℕ
double = record {
  next = some (λ v. if v == 4 then raises 7 else settled (value (v + v)));
  handler = none;
  finalizer = none;
}

abbrev recover : Pack ℕ ℕ
recover = record { next = none; handler = some (λ e. settled (value (e + 1))); finalizer = none }

abbrev as_error : Fault → ℕ
as_error f = 99

bind-then_example :
    ((h' : Heap ℕ ℕ) × (then_with_pack true 5 0 (bind as_error double recover) ready ≡ done 1 h')
      × Holds (value 8) (h'.cells 1))
    × ((h' : Heap ℕ ℕ) × (q : ℕ) × (and_then
            (then_with_pack true 5 0 double ready)
            (λ r. then_with_pack true 5 r recover)
          ≡ done q h')
        × Holds (value 8) (h'.cells q))
unfolding depth depth_links chain_outcome links_outcome bind call_value next_or handler_or
bind-then_example =
    bind-then true 2 as_error 0 ready double recover (value 4) (value 8) (omega arith) (refl, refl)
      refl (omega arith) refl

-- Two doublings of 2 are too much, and the handler makes 8 of the failure.
doubled_twice :
    pack_outcome (bind as_error (bind as_error double double) recover) (value 2) ≡ some (value 8)
unfolding chain_outcome links_outcome bind call_value reject_with next_or handler_or
doubled_twice = refl

-- A finalizer that counts and throws, and one that counts.
abbrev failing : Action ℕ ℕ (Unit {0})
failing n = thrown 7 (n + 1)

abbrev counting : Action ℕ ℕ (Unit {0})
counting n = done tt (n + 10)

combine_finalizers-InTurn_example :
    InTurn
      (call (some failing) 0)
      (call (some counting) (final (call (some failing) 0)))
      (call (combine_finalizers (some failing) (some counting)) 0)
combine_finalizers-InTurn_example = combine_finalizers-InTurn (some failing) (some counting) 0
