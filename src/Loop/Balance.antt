-- ===== src/Loop/Balance.antt =====
-- Threads counted by their phases, and queues with the history of what they were given.
use kaiu.Base.{
  ℕ, zero, suc, ◌+◌, ◌≤◌, ◌≡◌, refl, sym, ap, ◌∙◌, Bool, List, [], ◌∷◌, ◌++◌, some, length,
  get_elem?, set, arith, append_assoc, Bool-cases, inl, inr,
}
use kaiu.Loop.Queue.{
  Queue, Popped, waits, gives, ends, push, pop, set_nowaiting, take_from, end_wait_condition,
}
use kaiu.Loop.Parallel.{Phase, Worker, seeking, waiting, stopped, working}

module _ {T : Type 0} where
  -- Whether a thread counts as not idle.
  abbrev pub weight : Phase T → ℕ
  weight seeking = 1
  weight (working x) = 1
  weight waiting = 0
  weight stopped = 0

  abbrev pub busy : List (Worker T) → ℕ
  busy [] = 0
  busy (w ∷ ws) = weight w.phase + busy ws

  pub busy-set :
      (ws : List (Worker T)) (i : ℕ) (w w' : Worker T)
      → get_elem? ws i ≡ some w
      → busy (set ws i w') + weight w.phase ≡ busy ws + weight w'.phase
  busy-set [] i w w' e = absurd (cc)
  busy-set (v ∷ ws) zero w w' e = ground arith
  busy-set (v ∷ ws) (suc i) w w' e = omega (arith, busy-set ws i w w' e)

  pub weight-small : (p : Phase T) → weight p ≤ 1
  weight-small seeking = omega arith
  weight-small (working x) = omega arith
  weight-small waiting = omega arith
  weight-small stopped = omega arith

  pub busy-small : (ws : List (Worker T)) → busy ws ≤ length ws
  busy-small [] = omega arith
  busy-small (w ∷ ws) = omega (arith, busy-small ws, weight-small w.phase)

  -- First in, first out, and nothing lost.
  abbrev pub Fifo : Queue T → Type 0
  Fifo q = q.pushed ≡ q.popped ++ q.events

  abbrev pub AllFifo : List (Queue T) → Type 0
  AllFifo [] = Unit
  AllFifo (q ∷ qs) = Fifo q × AllFifo qs

  pub AllFifo-set :
      (qs : List (Queue T)) (i : ℕ) (q : Queue T) → AllFifo qs → Fifo q → AllFifo (set qs i q)
  AllFifo-set [] i q f g = tt
  AllFifo-set (p ∷ qs) zero q f g = (g, f.1)
  AllFifo-set (p ∷ qs) (suc i) q f g = (f.0, AllFifo-set qs i q f.1 g)

  pub AllFifo-get :
      (qs : List (Queue T)) (i : ℕ) (q : Queue T) → AllFifo qs → get_elem? qs i ≡ some q → Fifo q
  AllFifo-get [] i q f e = absurd (cc)
  AllFifo-get (p ∷ qs) zero q f e = ground (arith, f.0)
  AllFifo-get (p ∷ qs) (suc i) q f e = AllFifo-get qs i q f.1 e

  pub push-Fifo : (x : T) (q : Queue T) → Fifo q → Fifo (push x q)
  unfolding push
  push-Fifo x q f = ap (λ l. l ++ (x ∷ [])) f ∙ append_assoc q.popped q.events (x ∷ [])

  pub nowaiting-Fifo : (b : Bool) (q : Queue T) → Fifo q → Fifo (set_nowaiting b q)
  unfolding set_nowaiting
  nowaiting-Fifo b q f = f

  -- What `pop` gives keeps the order.
  abbrev pub PopFifo : Popped T → Type 0
  PopFifo waits = Unit
  PopFifo (gives x q) = Fifo q
  PopFifo ends = Unit

  take_from-Fifo : (xs : List T) (q : Queue T) → q.events ≡ xs → Fifo q → PopFifo (take_from xs q)
  take_from-Fifo [] q e f = tt
  take_from-Fifo (x ∷ xs) q e f =
      f ∙ ap (λ l. q.popped ++ l) e ∙ sym (append_assoc q.popped (x ∷ []) xs)

  pub pop-Fifo : (q : Queue T) → Fifo q → PopFifo (pop q)
  unfolding pop
  pop-Fifo q f = elim (Bool-cases (end_wait_condition q)) [
    | inl e ↦ rw e (take_from-Fifo q.events q refl f)
    | inr e ↦ rw e tt
  ]
