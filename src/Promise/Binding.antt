-- ===== src/Promise/Binding.antt =====
-- Packs of callbacks that are bound together, and packs that are given to `then` in turn.
use kaiu.Base.{
  ℕ, suc, ◌+◌, ◌<◌, ◌≤◌, ◌≡◌, refl, sym, ap, ◌∙◌, Bool, false, Option, none, some, arith,
  Option-cases, inl, inr,
}
use kaiu.Base.Action.{done, and_then}
use kaiu.Promise.Types.{Fault, Settled, Reply, Heap, value, error, chained}
use kaiu.Promise.Chain.{next_or, handler_or}
use kaiu.Promise.Running.{Holds}
use kaiu.Promise.Outcomes.{
  reply_to, chain_outcome, links_outcome, depth, depth_links, links_outcome-more,
  links_outcome-more-none, depth_links-more, chained-outcome,
}
use kaiu.Promise.Pack.{Pack, then_pack, and_pack, bind, then_with_pack}
use kaiu.Promise.Attached.{Chained}
use kaiu.Promise.Then.{then_promise-Chained}

module _ {V E : Type 0} where
  -- The callback of a pack that a settlement calls.
  abbrev pub reply_of : Pack V E → Settled V E → Reply V E
  reply_of p x = reply_to (next_or p.next) (handler_or p.handler) x

  -- What `then` with a pack settles its promise with.
  abbrev pub pack_outcome : Pack V E → Settled V E → Option (Settled V E)
  pack_outcome p x = chain_outcome (reply_of p x) p.finalizer

  -- One pack after the other, each on what the one before has settled.
  abbrev pub next_outcome : Pack V E → Option (Settled V E) → Option (Settled V E)
  next_outcome b none = none
  next_outcome b (some z) = pack_outcome b z

  abbrev pub in_turn : Pack V E → Pack V E → Settled V E → Option (Settled V E)
  in_turn a b x = next_outcome b (pack_outcome a x)

  link-outcome : (a : Pack V E) (x : Settled V E) → links_outcome (then_pack x a) ≡ pack_outcome a x
  unfolding links_outcome
  link-outcome a (value v) = refl
  link-outcome a (error e) = refl

  link-depth :
      (a : Pack V E) (x : Settled V E) → depth_links (then_pack x a) ≡ suc (depth (reply_of a x))
  unfolding depth_links
  link-depth a (value v) = refl
  link-depth a (error e) = refl

  bind-reply :
      (g : Fault → E) (a b : Pack V E) (x : Settled V E)
      → reply_of (bind g a b) x ≡ chained g (and_pack (then_pack x a) b)
  unfolding bind next_or handler_or
  bind-reply g a b (value v) = refl
  bind-reply g a b (error e) = refl

  bind-fin : (g : Fault → E) (a b : Pack V E) → (bind g a b).finalizer ≡ none
  unfolding bind
  bind-fin g a b = refl

  and_pack-outcome :
      (a b : Pack V E) (x : Settled V E)
      → links_outcome (and_pack (then_pack x a) b) ≡ in_turn a b x
  and_pack-outcome a b x = elim (Option-cases (pack_outcome a x)) [
    | inl e ↦
        links_outcome-more-none (then_pack x a) _ _ b.finalizer (link-outcome a x ∙ e)
        ∙ ap (next_outcome b) (sym e)
    | inr p ↦
        links_outcome-more (then_pack x a) _ _ b.finalizer p.0 (link-outcome a x ∙ p.1)
        ∙ ap (next_outcome b) (sym p.1)
  ]

  pub bind-outcome :
      (g : Fault → E) (a b : Pack V E) (x : Settled V E)
      → pack_outcome (bind g a b) x ≡ in_turn a b x
  bind-outcome g a b x =
      rw (bind-reply g a b x, bind-fin g a b)
        (chained-outcome g (and_pack (then_pack x a) b) ∙ and_pack-outcome a b x)

  bind-depth :
      (g : Fault → E) (a b : Pack V E) (x z : Settled V E)
      → pack_outcome a x ≡ some z
      → depth (reply_of (bind g a b) x) ≡ suc (suc (depth (reply_of a x)) + depth (reply_of b z))
  unfolding depth
  bind-depth g a b x z e = rw (bind-reply g a b x) (
      depth_links-more (then_pack x a) _ _ b.finalizer z (link-outcome a x ∙ e)
      ∙ ap (λ k. suc (k + depth (reply_of b z))) (link-depth a x))

module _ {V E : Type 0} (safe : Bool) (n : ℕ) where
  pack-Chained :
      (p : ℕ) (h : Heap V E) (a : Pack V E) (x y : Settled V E)
      → p < h.next_id
      → Holds x (h.cells p)
      → (h.cells p).callbacks_assigned ≡ false
      → depth (reply_of a x) ≤ n
      → pack_outcome a x ≡ some y
      → Chained safe h p y (then_with_pack safe (suc (suc (suc n))) p a h)
  unfolding then_with_pack
  pack-Chained p h a x y lp l u deep k =
      then_promise-Chained safe n p h (next_or a.next) (handler_or a.handler) a.finalizer x y lp l u
        deep k

  -- Where a promise is settled with x and has no callbacks yet, and the second of two packs,
  -- called on what the first makes of x, comes to y: giving to then what bind makes of them, and
  -- giving the two packs to then in turn, both end in a new promise that is settled with y.
  pub bind-then :
      (g : Fault → E) (p : ℕ) (h : Heap V E) (a b : Pack V E) (x y : Settled V E)
      → p < h.next_id
      → Holds x (h.cells p)
      → (h.cells p).callbacks_assigned ≡ false
      → depth (reply_of (bind g a b) x) ≤ n
      → in_turn a b x ≡ some y
      → ((h' : Heap V E) × (then_with_pack safe (suc (suc (suc n))) p (bind g a b) h
            ≡ done h.next_id h')
          × Holds y (h'.cells h.next_id))
        × ((h' : Heap V E) × (q : ℕ) × (and_then
                (then_with_pack safe (suc (suc (suc n))) p a h)
                (λ r. then_with_pack safe (suc (suc (suc n))) r b)
              ≡ done q h')
            × Holds y (h'.cells q))
  bind-then g p h a b x y lp l u deep k = (once, twice (pack_outcome a x) refl k)
    where
      once :
          (h' : Heap V E) × (then_with_pack safe (suc (suc (suc n))) p (bind g a b) h
            ≡ done h.next_id h')
          × Holds y (h'.cells h.next_id)
      once =
          let c = pack-Chained p h (bind g a b) x y lp l u deep (bind-outcome g a b x ∙ k) in
          (c.heap, c.returns, c.held)

      twice :
          (o : Option (Settled V E))
          → pack_outcome a x ≡ o
          → next_outcome b o ≡ some y
          → (h' : Heap V E) × (q : ℕ) × (and_then
                (then_with_pack safe (suc (suc (suc n))) p a h)
                (λ r. then_with_pack safe (suc (suc (suc n))) r b)
              ≡ done q h')
            × Holds y (h'.cells q)
      twice none e j = absurd (cc)
      twice (some z) e j =
          let d = bind-depth g a b x z e in
          let c = pack-Chained p h a x z lp l u (omega (arith, d, deep)) e in
          let c' =
            pack-Chained h.next_id c.heap b z y c.bound c.held c.unbound (omega (arith, d, deep))
              j in
          (c'.heap, c.heap.next_id, rw c.returns c'.returns, c'.held)
