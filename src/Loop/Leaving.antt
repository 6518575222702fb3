-- ===== src/Loop/Leaving.antt =====
-- Threads of the parallel event loop that look for an event in queues in no-waiting mode.
use kaiu.Base.{
  ℕ, zero, suc, ◌<◌, ◌≡◌, refl, sym, ap, ◌∙◌, true, some, List, [], ◌∷◌, ◌++◌, map, append_assoc,
  length, length-snoc, get_elem?, get_elem?-append, set-append, arith,
}
use kaiu.Loop.Counter.{enter, leave}
use kaiu.Loop.Queue.{Queue, ends, pop, set_nowaiting}
use kaiu.Loop.Parallel.{
  Phase, Worker, Loop, Event, seeking, waiting, stopped, working, wakes, sets_nowaiting, happen,
  run, wake_at,
}
use kaiu.Loop.Joining.{end_waiting, all_stopped}
use kaiu.Loop.Join.{Idle, AllIdle, AllDone}
use kaiu.Loop.Places.{pools_of}

-- Each thread has a queue.
abbrev pub AllBelow : ℕ → List ℕ → Type 0
AllBelow n [] = Unit
AllBelow n (k ∷ ks) = (k < n) × AllBelow n ks

module _ {T : Type 0} where
  -- An empty queue in no-waiting mode.
  abbrev pub Closed : Queue T → Type 0
  Closed q = (q.events ≡ []) × (q.nowaiting ≡ true)

  abbrev pub AllClosed : List (Queue T) → Type 0
  AllClosed [] = Unit
  AllClosed (q ∷ qs) = Closed q × AllClosed qs

  pop-Closed : (q : Queue T) → Closed q → pop q ≡ ends
  unfolding pop
  pop-Closed q c = ground arith

  AllClosed-get :
      (qs : List (Queue T)) (k : ℕ)
      → AllClosed qs
      → k < length qs
      → (q : Queue T) × (get_elem? qs k ≡ some q) × Closed q
  AllClosed-get [] k c h = absurd (omega arith)
  AllClosed-get (q ∷ qs) zero c h = (q, refl, c.0)
  AllClosed-get (q ∷ qs) (suc k) c h = AllClosed-get qs k c.1 (omega arith)

  pub close-AllClosed : (qs : List (Queue T)) → AllDone qs → AllClosed (map (set_nowaiting true) qs)
  unfolding set_nowaiting
  close-AllClosed [] d = tt
  close-AllClosed (q ∷ qs) d = ((d.0.0, refl), close-AllClosed qs d.1)

  pub stop : Worker T → Worker T
  stop w = record w { phase = stopped }

  pub stop-all_stopped : (ws : List (Worker T)) → all_stopped (map stop ws) ≡ true
  unfolding stop
  stop-all_stopped [] = refl
  stop-all_stopped (w ∷ ws) = stop-all_stopped ws

  pub length-map : {U : Type 0} (f : T → U) (xs : List T) → length (map f xs) ≡ length xs
  length-map f [] = refl
  length-map f (x ∷ xs) = ap suc (length-map f xs)

-- Every thread looks for an event once more, from a place on.
abbrev pub wake_all : {T X : Type 0} → ℕ → ℕ → List (Event T X)
wake_all i zero = []
wake_all i (suc n) = wakes i ∷ wake_all (suc i) n

-- Nothing else happens while the queues are put into no-waiting mode.
abbrev pub quiet : {T X : Type 0} → ℕ → List (Event T X)
quiet place = []

module _ {T X : Type 0} where
  close-one :
      (s : Loop T X) (qs rest : List (Queue T)) (q : Queue T)
      → s.queues ≡ qs ++ q ∷ rest
      → happen (sets_nowaiting (length qs) true) s
        ≡ record s { queues = qs ++ set_nowaiting true q ∷ rest }
  unfolding happen
  close-one s qs rest q e =
      ground (arith, get_elem?-append qs rest q, set-append qs rest q (set_nowaiting true q))

  pub close-lem :
      (s : Loop T X) (qs rest : List (Queue T))
      → s.queues ≡ qs ++ rest
      → run (end_waiting quiet (length qs) (length rest)) s
        ≡ record s { queues = qs ++ map (set_nowaiting true) rest }
  unfolding run
  close-lem s qs [] e = ap (λ l. record s { queues = l }) e
  close-lem s qs (q ∷ rest) e =
      let q' = set_nowaiting true q in
      rw (close-one s qs rest q e, sym (length-snoc qs q'))
        (close-lem (record s { queues = qs ++ q' ∷ rest }) (qs ++ q' ∷ []) rest
            (sym (append_assoc qs (q' ∷ []) rest))
          ∙ ap (λ l. record s { queues = l })
              (append_assoc qs (q' ∷ []) (map (set_nowaiting true) rest)))

  module _ (s : Loop T X) (ws rest : List (Worker T)) (w : Worker T) (q : Queue T)
      (e : s.workers ≡ ws ++ w ∷ rest) (at : get_elem? s.queues w.pool ≡ some q)
      (closed : Closed q) where
    stop_at :
        (p : Phase T)
        → Idle p
        → w.phase ≡ p
        → (n : ℕ) × (wake_at (length ws) w p s
            ≡ record s { workers = ws ++ stop w ∷ rest; not_idle = n })
    unfolding stop
    stop_at waiting idle k = (
      leave 1 (enter 1 s.not_idle),
      ground (arith, pop-Closed q closed, set-append ws rest w (record w { phase = stopped })),
    )
    stop_at stopped idle k = (
      s.not_idle,
      ap (λ l. record s { workers = l }) (e ∙ ap (λ f. ws ++ record w { phase = f } ∷ rest) k),
    )
    stop_at seeking idle k = absurd idle
    stop_at (working x) idle k = absurd idle

    stop-one :
        Idle w.phase
        → (n : ℕ) × (happen (wakes (length ws)) s
            ≡ record s { workers = ws ++ stop w ∷ rest; not_idle = n })
    unfolding happen
    stop-one idle =
        let (n, d) = stop_at w.phase idle refl in (n, ground (arith, get_elem?-append ws rest w))

  pub wake_all-lem :
      (s : Loop T X) (ws rest : List (Worker T))
      → s.workers ≡ ws ++ rest
      → AllClosed s.queues
      → AllIdle rest
      → AllBelow (length s.queues) (pools_of rest)
      → (run (wake_all (length ws) (length rest)) s).workers ≡ ws ++ map stop rest
  unfolding run
  wake_all-lem s ws [] e c i b = e
  wake_all-lem s ws (w ∷ rest) e c i b =
      let (q, at, closed) = AllClosed-get s.queues w.pool c b.0 in
      let (n, d) = stop-one s ws rest w q e at closed i.0 in
      let s' : Loop T X = record s { workers = ws ++ stop w ∷ rest; not_idle = n } in
      ap (λ t. (run (wake_all (suc (length ws)) (length rest)) t).workers) d
      ∙ ap (λ k. (run (wake_all k (length rest)) s').workers) (sym (length-snoc ws (stop w)))
      ∙ wake_all-lem s' (ws ++ stop w ∷ []) rest (sym (append_assoc ws (stop w ∷ []) rest)) c i.1
          b.1
      ∙ append_assoc ws (stop w ∷ []) (map stop rest)
