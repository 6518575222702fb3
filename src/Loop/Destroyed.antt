-- ===== src/Loop/Destroyed.antt =====
-- The destructor of the parallel event loop ends its threads.
use kaiu.Base.{
  ℕ, ◌<◌, ◌^◌, ◌≡◌, refl, sym, ap, subst, ◌∙◌, true, false, none, List, [], ◌∷◌, map, length,
  length-replicate,
}
use kaiu.Base.Action.{done, Ends}
use kaiu.Loop.Queue.{new_queue, set_nowaiting}
use kaiu.Loop.Parallel.{Event, run, join_ends}
use kaiu.Loop.Joining.{
  Joined, Round, advance, step, end_waiting, all_stopped, join, wait_for_threads, destroy,
}
use kaiu.Loop.Join.{AllIdle, AllDone}
use kaiu.Loop.Pools.{unknown}
use kaiu.Loop.Places.{pools_of, pools_of-new, length-pools_of}
use kaiu.Loop.Handling.{Finished}
use kaiu.Loop.Returned.{newly, join-Finished, join_returns, newly-Sound, quiet_round}
use kaiu.Loop.Join.{begin}
use kaiu.Loop.Leaving.{
  AllBelow, wake_all, quiet, close-AllClosed, stop-all_stopped, length-map, close-lem, wake_all-lem,
}

module _ {T X : Type 0} where
  advance-run : (es : List (Event T X)) (s : Joined T X) → (advance es s).loop ≡ run es s.loop
  unfolding advance run
  advance-run [] s = refl
  advance-run (e ∷ es) s = advance-run es (step e s)

  -- What the destructor does once `join` has returned.
  stops :
      (s : Joined T X)
      → AllIdle s.loop.workers
      → AllDone s.loop.queues
      → AllBelow (length s.loop.queues) (pools_of s.loop.workers)
      → all_stopped
          (advance
            (wake_all 0 (length s.loop.workers))
            (advance (end_waiting quiet 0 (length s.loop.queues)) s)).loop.workers
        ≡ true
  stops s idle taken below =
      rw
        (
          advance-run (wake_all 0 (length s.loop.workers))
              (advance (end_waiting quiet 0 (length s.loop.queues)) s),
          advance-run (end_waiting quiet 0 (length s.loop.queues)) s,
          close-lem s.loop [] s.loop.queues refl,
          wake_all-lem (record s.loop { queues = map (set_nowaiting true) s.loop.queues }) []
              s.loop.workers refl (close-AllClosed s.loop.queues taken) idle
              (rw (length-map (set_nowaiting true) s.loop.queues) below),
        )
        (stop-all_stopped s.loop.workers)

module _ {T X F : Type 0} (pools : ℕ) (threads : List ℕ) (h : length threads < 2 ^ 31)
    (served : AllBelow pools threads) where
  -- With a join that has returned, in whatever rounds.
  destroy-joined :
      (es : List (Event T X)) (rounds : List (Round T X)) (s : Joined T X)
      → join {F = F} unknown none rounds (advance es (newly pools threads h)) ≡ done tt s
      → (t : Joined T X) × (destroy {F = F} unknown rounds quiet
            (wake_all 0 (length threads))
            (advance es (newly pools threads h))
          ≡ done tt t)
        × (all_stopped t.loop.workers ≡ true)
  unfolding destroy wait_for_threads
  destroy-joined es rounds s e = (t, rw (e, all) refl, all)
    where
      f : Finished {F = F} (begin pools threads h) none s
      f =
          subst (Ends (Finished (begin pools threads h) none)) e
            (join-Finished pools threads h none es rounds)

      size : length s.loop.workers ≡ length threads
      size = sym (length-pools_of s.loop.workers) ∙ ap length (f.places.0 ∙ pools_of-new T threads)

      t : Joined T X
      t =
          advance (wake_all 0 (length threads))
            (advance (end_waiting quiet 0 (length s.loop.queues)) s)

      all : all_stopped t.loop.workers ≡ true
      all = rw (sym size) (
          stops s f.idle f.taken (
            rw
              (
                f.places.1,
                length-replicate pools (new_queue {T = T} false),
                f.places.0,
                pools_of-new T threads,
              )
              served))

  -- After any history of a parallel event loop whose threads' pools all have a queue, with fewer
  -- than 2^31 threads: if all threads are idle and all queues are empty when the destructor is
  -- called in a thread of no pool, and nothing else happens but that each thread, once all queues
  -- are in no-waiting mode, looks for an event once more, then every thread stops and the
  -- destructor returns.
  pub destroy_returns :
      (es : List (Event T X))
      → join_ends (advance es (newly pools threads h)).loop ≡ true
      → (t : Joined T X) × (destroy {F = F} unknown
            (quiet_round ∷ [])
            quiet
            (wake_all 0 (length threads))
            (advance es (newly pools threads h))
          ≡ done tt t)
        × (all_stopped t.loop.workers ≡ true)
  destroy_returns es e =
      let (s, d) =
        join_returns (begin pools threads h) none (advance es (newly pools threads h)) tt
          (newly-Sound pools threads h es none) e in
      destroy-joined es (quiet_round ∷ []) s d
