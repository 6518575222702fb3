-- ===== src/Loop/Ready.antt =====
-- The starter pistol over any order of its threads' calls.
use kaiu.Base.{
  ℕ, zero, suc, ◌+◌, ◌^◌, ◌<◌, ◌≡◌, ◌≢◌, refl, sym, ap, ◌∙◌, ◌⊎◌, true, ◌==◌, List, [], ◌∷◌, Option,
  none, some, get_elem?, set, replicate, arith, Bool-cases, inl, inr,
}
use kaiu.Loop.Pistol.{
  Racer, running, waiting, passed, Pistol, one_less, Event, readies, wakes, ready_at, wake_at,
  happen, run, start,
}

abbrev pub left : List Racer → ℕ
left [] = 0
left (running ∷ rs) = suc (left rs)
left (waiting ∷ rs) = left rs
left (passed ∷ rs) = left rs

left-ready :
    (rs : List Racer) (i : ℕ) (r : Racer)
    → get_elem? rs i ≡ some running
    → r ≢ running
    → suc (left (set rs i r)) ≡ left rs
left-ready [] i r e n = absurd (cc)
left-ready (running ∷ rs) zero running e n = absurd (n refl)
left-ready (running ∷ rs) zero waiting e n = refl
left-ready (running ∷ rs) zero passed e n = refl
left-ready (waiting ∷ rs) zero r e n = absurd (cc)
left-ready (passed ∷ rs) zero r e n = absurd (cc)
left-ready (running ∷ rs) (suc i) r e n = ap suc (left-ready rs i r e n)
left-ready (waiting ∷ rs) (suc i) r e n = left-ready rs i r e n
left-ready (passed ∷ rs) (suc i) r e n = left-ready rs i r e n

left-wake :
    (rs : List Racer) (i : ℕ) → get_elem? rs i ≡ some waiting → left (set rs i passed) ≡ left rs
left-wake [] i e = absurd (cc)
left-wake (running ∷ rs) zero e = absurd (cc)
left-wake (waiting ∷ rs) zero e = refl
left-wake (passed ∷ rs) zero e = absurd (cc)
left-wake (running ∷ rs) (suc i) e = ap suc (left-wake rs i e)
left-wake (waiting ∷ rs) (suc i) e = left-wake rs i e
left-wake (passed ∷ rs) (suc i) e = left-wake rs i e

-- No thread has passed.
abbrev pub Held : List Racer → Type 0
Held [] = Unit
Held (running ∷ rs) = Held rs
Held (waiting ∷ rs) = Held rs
Held (passed ∷ rs) = ⊥

Held-set : (rs : List Racer) (i : ℕ) → Held rs → Held (set rs i waiting)
Held-set [] i h = tt
Held-set (running ∷ rs) zero h = h
Held-set (waiting ∷ rs) zero h = h
Held-set (passed ∷ rs) i h = absurd h
Held-set (running ∷ rs) (suc i) h = Held-set rs i h
Held-set (waiting ∷ rs) (suc i) h = Held-set rs i h

Held-get : (rs : List Racer) (i : ℕ) → Held rs → get_elem? rs i ≢ some passed
Held-get [] i h e = cc
Held-get (running ∷ rs) zero h e = cc
Held-get (waiting ∷ rs) zero h e = cc
Held-get (passed ∷ rs) i h e = h
Held-get (running ∷ rs) (suc i) h e = Held-get rs i h e
Held-get (waiting ∷ rs) (suc i) h e = Held-get rs i h e

record Inv (s : Pistol) : Type 0 where
  count : s.racers ≡ left s.threads
  small : s.racers < 2 ^ 32
  held : 0 < s.racers → Held s.threads

one_less-eq : (n : ℕ) → 0 < n → n < 2 ^ 32 → one_less n + 1 ≡ n
one_less-eq n h k = omega arith

is_none : (n : ℕ) → (n == 0) ≡ true → n ≡ 0
is_none n z = ground arith

test-zero : (n : ℕ) → n ≡ 0 → (n == 0) ≡ true
test-zero n z = ground arith

ready_at-Inv :
    (i : ℕ) (s : Pistol) (r : Option Racer)
    → get_elem? s.threads i ≡ r
    → Inv s
    → Inv (ready_at i r s)
ready_at-Inv i s none e v = v
ready_at-Inv i s (some waiting) e v = v
ready_at-Inv i s (some passed) e v = v
ready_at-Inv i s (some running) e v = elim (Bool-cases (one_less s.racers == 0)) [
  | inl z ↦ rw z (record {
    count = omega (arith, v.count, ready-left passed (λ q. cc), less);
    small = omega arith;
    held = λ p. absurd (omega (arith, p, is_none (one_less s.racers) z));
  })
  | inr z ↦ rw z (record {
    count = omega (arith, v.count, ready-left waiting (λ q. cc), less);
    small = omega arith;
    held = λ p. Held-set s.threads i (v.held pos);
  })
]
  where
    ready-left : (r : Racer) → r ≢ running → suc (left (set s.threads i r)) ≡ left s.threads
    ready-left r n = left-ready s.threads i r e n

    pos : 0 < s.racers
    pos = omega (arith, v.count, ready-left waiting (λ q. cc))

    less : one_less s.racers + 1 ≡ s.racers
    less = one_less-eq s.racers pos v.small

wake_at-Inv :
    (i : ℕ) (s : Pistol) (r : Option Racer)
    → get_elem? s.threads i ≡ r
    → Inv s
    → Inv (wake_at i r s)
wake_at-Inv i s none e v = v
wake_at-Inv i s (some running) e v = v
wake_at-Inv i s (some passed) e v = v
wake_at-Inv i s (some waiting) e v = elim (Bool-cases (s.racers == 0)) [
  | inl z ↦ rw z (record {
    count = v.count ∙ sym (left-wake s.threads i e);
    small = v.small;
    held = λ p. absurd (omega (arith, p, is_none s.racers z));
  })
  | inr z ↦ rw z v
]

happen-Inv : (x : Event) (s : Pistol) → Inv s → Inv (happen x s)
unfolding happen
happen-Inv (readies i) s v = ready_at-Inv i s (get_elem? s.threads i) refl v
happen-Inv (wakes i) s v = wake_at-Inv i s (get_elem? s.threads i) refl v

run-Inv : (es : List Event) (s : Pistol) → Inv s → Inv (run es s)
unfolding run
run-Inv [] s v = v
run-Inv (x ∷ es) s v = run-Inv es (happen x s) (happen-Inv x s v)

start-left : (n : ℕ) → left (replicate n running) ≡ n
start-left zero = refl
start-left (suc n) = ap suc (start-left n)

start-Held : (n : ℕ) → Held (replicate n running)
start-Held zero = tt
start-Held (suc n) = start-Held n

get_elem?-set :
    (rs : List Racer) (i : ℕ) (r q : Racer)
    → get_elem? rs i ≡ some q
    → get_elem? (set rs i r) i ≡ some r
get_elem?-set [] i r q e = absurd (cc)
get_elem?-set (x ∷ rs) zero r q e = refl
get_elem?-set (x ∷ rs) (suc i) r q e = get_elem?-set rs i r q e

zero-or_more : (n : ℕ) → (n ≡ 0) ⊎ (0 < n)
zero-or_more n = ground arith

module _ (count : ℕ) (h : count < 2 ^ 32) (es : List Event) where
  abbrev pub after : Pistol
  after = run es (start count)

  after-Inv : Inv after
  after-Inv =
      run-Inv es (start count)
        (record { count = sym (start-left count); small = h; held = λ p. start-Held count })

  -- After any order of calls of a pistol for fewer than 2^32 threads: once `ready` has returned in
  -- one thread, every thread has called it.
  pub ready_together : (i : ℕ) → get_elem? after.threads i ≡ some passed → left after.threads ≡ 0
  ready_together i e = elim (zero-or_more after.racers) [
    | inl z ↦ sym after-Inv.count ∙ z
    | inr p ↦ absurd (Held-get after.threads i (after-Inv.held p) e)
  ]

  -- After any order of calls of a pistol for fewer than 2^32 threads: once every thread has called
  -- `ready`, a thread that waits in it passes as soon as it looks again.
  pub ready_releases :
      (i : ℕ)
      → left after.threads ≡ 0
      → get_elem? after.threads i ≡ some waiting
      → get_elem? ((happen (wakes i) after).threads) i ≡ some passed
  unfolding happen
  ready_releases i z e = rw e (
      rw (test-zero after.racers (after-Inv.count ∙ z))
        (get_elem?-set after.threads i passed waiting e))
