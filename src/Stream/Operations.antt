-- ===== src/Stream/Operations.antt =====
-- Every operation of promise_stream.tcc keeps the table and the order of the data.
use kaiu.Base.{
  list_laws, suc, ◌≡◌, Bool, true, false, not, ◌&&◌, some, inl, inr, arith, length, Bool-cases,
}
use kaiu.Base.Action.{done, final}
use kaiu.Stream.Types.{Stream, StreamAction, Settlement, fulfils, refuses, DataFunc}
use kaiu.Stream.StateBase.{
  update_state, set_stream_has_been_written_to, set_stream_result, set_consumer_is_running,
  set_data_callback_assigned,
}
use kaiu.Stream.State.{
  is_continue, do_reject, do_resolve, emplace_data, process_data, process_within, take_data,
  may_take, consumer_resolved, consumer_rejected, write, resolve, reject, set_data_callback,
  consumer_settled, happen, Event, writes, resolves_with, rejects_with, streams, settles,
}
use kaiu.Stream.Table.{Table, is_bound}
use kaiu.Stream.Order.{Order, Live, Ready, Closed, Kept, Sound, Steady}
use kaiu.Stream.Flags.{written-Table, assigned-Table}
use kaiu.Stream.Drain.{process_within-Sound}
use kaiu.Stream.Chained.{Returning, then-Kept, then-Steady, Sound-Kept, Sound-Steady}

module _ {R D E C : Type 0} (safe : Bool) where
  pub process_data-Sound : (s : Stream R D E C) → Ready s → Sound (process_data safe s)
  unfolding process_data
  process_data-Sound s v = process_within-Sound safe (suc (length s.buffer)) s v (omega arith)

  process_data-Steady : (s : Stream R D E C) → Ready s → Steady (process_data safe s)
  process_data-Steady s v = Sound-Steady _ (process_data-Sound s v)

  -- A completed stream hands nothing over, whatever its buffer holds.
  process_data_stays : (s : Stream R D E C) → may_take s ≡ false → process_data safe s ≡ done tt s
  unfolding process_data process_within take_data
  process_data_stays s h = rw h

  taking-Ready : (s : Stream R D E C) → Table s → Order s → may_take s ≡ true → Ready s
  unfolding may_take
  taking-Ready s t o h = ground arith

  process_data-Kept : (s : Stream R D E C) → Table s → Order s → Kept (process_data safe s)
  process_data-Kept s t o = elim (Bool-cases (may_take s)) [
    | inl may ↦ Sound-Kept _ (process_data-Sound s (taking-Ready s t o may))
    | inr stays ↦ rw (process_data_stays s stays) (t, o)
  ]

  module _ (s : Stream R D E C) (t : Table s) (o : Order s) where
    written-Order :
        (d : D)
        → is_continue s.action ≡ true
        → Order (final (set_stream_has_been_written_to safe (final (emplace_data d s))))
    unfolding set_stream_has_been_written_to emplace_data update_state
    written-Order d h = grind (arith, list_laws)

    written-Ready :
        (d : D)
        → is_continue s.action ≡ true
        → Returning Ready (set_stream_has_been_written_to safe (final (emplace_data d s)))
    unfolding set_stream_has_been_written_to emplace_data update_state
    written-Ready d h = grind (arith, list_laws)

    write-Kept : (d : D) → Kept (write safe d s)
    unfolding write
    write-Kept d = elim (Bool-cases (is_continue s.action)) [
      | inl more ↦ simp more (
          then-Kept (set_stream_has_been_written_to safe (final (emplace_data d s)))
            (process_data safe) (written-Table safe s t d, written-Order d more) process_data-Kept)
      | inr over ↦ simp over (process_data-Kept s t o)
    ]

    write-Steady : (d : D) → Closed s.state s → Steady (write safe d s)
    unfolding write
    write-Steady d k = elim (Bool-cases (is_continue s.action)) [
      | inl more ↦ simp more (then-Steady _ _ (written-Ready d more) process_data-Steady)
      | inr over ↦ simp over (process_data-Steady s (record { table = t; order = o; closed = k }))
    ]

    resolve-Steady : (r : R) → Live s → Steady (resolve safe r s)
    unfolding resolve do_resolve set_stream_result update_state
    resolve-Steady r l = ground arith

    reject-Steady : (e : E) → Live s → Steady (reject safe e s)
    unfolding reject do_reject set_stream_result update_state
    reject-Steady e l = ground arith

    resolve-Kept : (r : R) → Kept (resolve safe r s)
    unfolding resolve do_resolve set_stream_result update_state
    resolve-Kept r = ground (arith)

    reject-Kept : (e : E) → Kept (reject safe e s)
    unfolding reject do_reject set_stream_result update_state
    reject-Kept e = ground (arith)

    assigned-Order : Order (final (set_data_callback_assigned safe s))
    unfolding set_data_callback_assigned
    assigned-Order = ground arith

    rebound-Table : (f : DataFunc C D E) → Table (record s { on_data = some f })
    rebound-Table f = ground arith

    rebound-Order : (f : DataFunc C D E) → Order (record s { on_data = some f })
    rebound-Order f = ground arith

    -- The stream once the consumer has answered.
    abbrev answered : C → StreamAction → Stream R D E C
    answered c a = record s {
      awaiting = false;
      consumer_state = c;
      action = a;
      consumer_is_running = false;
    }

    module _ (c : C) (h : s.awaiting ≡ true) where
      answered-Ready : (a : StreamAction) → Ready (answered c a)
      answered-Ready a = ground arith

      answered-eq :
          (a : StreamAction)
          → consumer_settled safe c (fulfils a) s ≡ process_data safe (answered c a)
      unfolding consumer_settled consumer_resolved set_consumer_is_running update_state
      answered-eq a = ground arith

      refused-Kept : (e : E) → Kept (consumer_settled safe c (refuses e) s)
      unfolding consumer_settled consumer_rejected set_stream_result set_consumer_is_running
          update_state
      refused-Kept e = ground arith

      refused-Steady : (e : E) → Steady (consumer_settled safe c (refuses e) s)
      unfolding consumer_settled consumer_rejected set_stream_result set_consumer_is_running
          update_state
      refused-Steady e = ground arith

      settled-Sound : (a : StreamAction) → Sound (consumer_settled safe c (fulfils a) s)
      settled-Sound a = rw (answered-eq a) (process_data-Sound _ (answered-Ready a))

    settled-Kept :
        (c : C) (x : Settlement E) → s.awaiting ≡ true → Kept (consumer_settled safe c x s)
    settled-Kept c (fulfils a) h = Sound-Kept _ (settled-Sound c h a)
    settled-Kept c (refuses e) h = refused-Kept c h e

    settled-Steady :
        (c : C) (x : Settlement E) → s.awaiting ≡ true → Steady (consumer_settled safe c x s)
    settled-Steady c (fulfils a) h = Sound-Steady _ (settled-Sound c h a)
    settled-Steady c (refuses e) h = refused-Steady c h e

  module _ (f : DataFunc C D E) (s : Stream R D E C) (t : Table s) (o : Order s) where
    set_data_callback-Kept : Kept (set_data_callback safe f s)
    unfolding set_data_callback
    set_data_callback-Kept = elim (Bool-cases (not (safe && is_bound s.on_data))) [
      | inl free ↦ rw free (
          then-Kept (set_data_callback_assigned safe (record s { on_data = some f }))
            (process_data safe)
            (
              assigned-Table safe _ (rebound-Table s t o f),
              assigned-Order _ (rebound-Table s t o f) (rebound-Order s t o f),
            )
            process_data-Kept)
      | inr taken ↦ rw taken (t, o)
    ]

    assigned-Ready :
        Closed s.state s
        → Returning Ready (set_data_callback_assigned safe (record s { on_data = some f }))
    unfolding set_data_callback_assigned
    assigned-Ready h = ground arith

    set_data_callback-Steady : Closed s.state s → Steady (set_data_callback safe f s)
    unfolding set_data_callback
    set_data_callback-Steady h = elim (Bool-cases (not (safe && is_bound s.on_data))) [
      | inl free ↦ rw free (then-Steady _ _ (assigned-Ready h) process_data-Steady)
      | inr taken ↦ rw taken tt
    ]

  -- Every step keeps the table and the order of data.
  pub happen-Kept :
      (x : Event R D E C) (s : Stream R D E C) → Table s → Order s → Kept (happen safe x s)
  unfolding happen
  happen-Kept (writes d) s t o = write-Kept s t o d
  happen-Kept (resolves_with r) s t o = resolve-Kept s t o r
  happen-Kept (rejects_with e) s t o = reject-Kept s t o e
  happen-Kept (streams f) s t o = set_data_callback-Kept _ s t o
  happen-Kept (settles c x) s t o = elim (Bool-cases s.awaiting) [
    | inl due ↦ simp due (settled-Kept s t o c x due)
    | inr shut ↦ simp shut (t, o)
  ]

  -- A step that returns leaves the stream live.
  pub happen-Steady :
      (x : Event R D E C) (s : Stream R D E C)
      → Table s
      → Order s
      → Live s
      → Steady (happen safe x s)
  unfolding happen
  happen-Steady (writes d) s t o l = write-Steady s t o d l.closed
  happen-Steady (resolves_with r) s t o l = resolve-Steady s t o r l
  happen-Steady (rejects_with e) s t o l = reject-Steady s t o e l
  happen-Steady (streams f) s t o l = set_data_callback-Steady _ s t o l.closed
  happen-Steady (settles c x) s t o l = elim (Bool-cases s.awaiting) [
    | inl due ↦ simp due (settled-Steady s t o c x due)
    | inr shut ↦ simp shut l
  ]
