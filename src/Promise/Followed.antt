-- ===== src/Promise/Followed.antt =====
-- What a callback of `then` does settles the promise that `then` returns, with chains of calls of
-- `then` in the callback itself.
use kaiu.Base.{
  ℕ, zero, suc, ◌<◌, ◌≤◌, ◌≡◌, sym, ap, subst, ◌∙◌, Bool, Option, none, some, arith, inl, inr,
  Option-cases,
}
use mathlib.Core.Option
use mathlib.Core.Option.{some-injective}
use kaiu.Base.Action.{Outcome}
use kaiu.Promise.Types.{
  Fault, Raised, Settled, Reply, Links, Finalizer, Heap, value, error, existing, settled, raises,
  chained, link, more,
}
use kaiu.Promise.State.{Run, update_within, then_with, follow, on_reply, after_return}
use kaiu.Promise.Running.{Open}
use kaiu.Promise.Outcomes.{
  reply_to, finished, chain_outcome, links_outcome, depth, depth_links, links_outcome-more,
  links_outcome-more-none, depth_links-more,
}
use kaiu.Promise.Replies.{
  Settles, Extends, Extends-refl, Made, settled_promise-Made, after_return-Settles,
  after_throw-Settles, after_return_throws,
}
use kaiu.Promise.Attached.{Answers, Chained, then_with-Chained}

module _ {V E : Type 0} (safe : Bool) where
  abbrev pub LinksMade : Links V E → Type 0
  LinksMade links =
      (m : ℕ) (h : Heap V E) (y : Settled V E)
      → depth_links links ≤ m
      → links_outcome links ≡ some y
      → Made safe h y (follow safe (update_within safe (suc (suc m))) links h)

  abbrev pub ReplyAnswers : Reply V E → Type 0
  ReplyAnswers reply =
      (m : ℕ) (fin : Finalizer E) (y : Settled V E)
      → depth reply ≤ m
      → chain_outcome reply fin ≡ some y
      → Answers safe m reply fin y

  -- A further call of `then`, on the promise of a chain.
  Chained-Made :
      (h h1 : Heap V E) (r : ℕ) (y : Settled V E) (o : Outcome (Heap V E) (Raised E) ℕ)
      → Extends safe h h1
      → h.next_id ≤ r
      → Chained safe h1 r y o
      → Made safe h y o
  Chained-Made h h1 r y o x lr c = record {
    heap = c.heap;
    promise = h1.next_id;
    returns = c.returns;
    extends = record {
      others = λ p lt. c.others p (λ e. omega (arith, e)) (omega (arith, x.bound)) ∙ x.others p lt;
      bound = omega (arith, x.bound, c.bound);
      posted = c.posted ∙ x.posted;
    };
    fresh = x.bound;
    within = c.bound;
    held = c.held;
    unbound = c.unbound;
  }

  module _ (n : ℕ) (h : Heap V E) (next : V → Reply V E) (handler : E → Reply V E)
      (fin : Finalizer E) (x y : Settled V E)
      (answers : Answers safe n (reply_to next handler x) fin y) where
    abbrev update : ℕ → Run V E
    update = update_within safe (suc (suc (suc n)))

    then-Made :
        (o : Outcome (Heap V E) (Raised E) ℕ) (m : Made safe h x o)
        → Made safe h y (then_with safe update m.promise next handler fin m.heap)
    then-Made o m = Chained-Made h m.heap m.promise y _ m.extends m.fresh (
        then_with-Chained safe n m.promise m.heap next handler fin x y m.within m.held m.unbound
          answers)

    follow-link : Made safe h y (follow safe update (link x next handler fin) h)
    unfolding follow
    follow-link = let m = settled_promise-Made safe (suc n) h x in rw m.returns (then-Made _ m)

    follow-more :
        (links : Links V E)
        → Made safe h x (follow safe update links h)
        → Made safe h y (follow safe update (more links next handler fin) h)
    unfolding follow
    follow-more links m = rw m.returns (then-Made _ m)

  at_value :
      {x y : Settled V E} {h : Heap V E} {q : ℕ} {o : Outcome (Heap V E) (Raised E) (Unit {0})}
      → some x ≡ some y
      → Settles safe h q x o
      → Settles safe h q y o
  at_value {h} {q} {o} k s = subst (λ z. Settles safe h q z o) (some-injective _ _ k) s

  -- A callback that returns a promise that it made.
  answers-Made :
      (m q : ℕ) (h : Heap V E) (fin : Finalizer E) (x : Settled V E)
      (o : Outcome (Heap V E) (Raised E) ℕ) (made : Made safe h x o)
      → q < h.next_id
      → Open (h.cells q)
      → Settles safe h q
          (finished fin x)
          (after_return safe (update_within safe (suc (suc m))) q fin made.promise made.heap)
  answers-Made m q h fin x o made lq open_q =
      after_return-Settles safe m q h made.heap lq open_q made.extends made.promise x made.fresh
        made.held made.unbound fin

  no_value :
      (fin : Finalizer E) (y : Settled V E) (o : Option (Settled V E))
      → o ≡ none
      → Option.map (finished fin) o ≡ some y
      → ⊥
  no_value fin y none e k = absurd (cc)
  no_value fin y (some x) e k = absurd (cc)

  chained-Answers :
      (as_error : Fault → E) (links : Links V E)
      → LinksMade links
      → ReplyAnswers (chained as_error links)
  unfolding on_reply chain_outcome depth
  chained-Answers as_error links ih m fin y d k q h lq open_q =
      elim (Option-cases (links_outcome links)) [
        | inl e ↦ absurd (no_value fin y (links_outcome links) e k)
        | inr p ↦
            let made = ih m h p.0 d p.1 in
            at_value {x = finished fin p.0} (ap (Option.map (finished fin)) (sym p.1) ∙ k)
              (rw made.returns (answers-Made m q h fin p.0 _ made lq open_q))
      ]

  module _ (links : Links V E) (next : V → Reply V E) (handler : E → Reply V E) (fin : Finalizer E)
      (ih : LinksMade links) (ih_next : (v : V) → ReplyAnswers (next v))
      (ih_handler : (e : E) → ReplyAnswers (handler e)) where
    more-at :
        (x : Settled V E) (m : ℕ) (h : Heap V E) (y : Settled V E)
        → links_outcome links ≡ some x
        → ReplyAnswers (reply_to next handler x)
        → depth_links (more links next handler fin) ≤ suc m
        → links_outcome (more links next handler fin) ≡ some y
        → Made safe h y
            (follow safe (update_within safe (suc (suc (suc m)))) (more links next handler fin) h)
    more-at x m h y e answers d k =
        follow-more m h next handler fin x y
          (answers m fin y (omega (arith, d, depth_links-more links next handler fin x e))
            (sym (links_outcome-more links next handler fin x e) ∙ k))
          links (ih (suc m) h x (omega (arith, d, depth_links-more links next handler fin x e)) e)

    answers-at : (x : Settled V E) → ReplyAnswers (reply_to next handler x)
    answers-at (value v) = ih_next v
    answers-at (error e) = ih_handler e

    more-Made : LinksMade (more links next handler fin)
    more-Made zero h y d k = elim (Option-cases (links_outcome links)) [
      | inl e ↦ absurd (cc (links_outcome-more-none links next handler fin e))
      | inr p ↦ absurd (omega (arith, d, depth_links-more links next handler fin p.0 p.1))
    ]
    more-Made (suc m) h y d k = elim (Option-cases (links_outcome links)) [
      | inl e ↦ absurd (cc (links_outcome-more-none links next handler fin e))
      | inr p ↦ more-at p.0 m h y p.1 (answers-at p.0) d k
    ]

  mutual
    unfolding on_reply chain_outcome depth links_outcome depth_links

    pub reply-Answers : (reply : Reply V E) → ReplyAnswers reply
    reply-Answers (existing r) m none y d k q h lq open_q = absurd (cc)
    reply-Answers (existing r) m (some e) y d k q h lq open_q =
        at_value k (after_return_throws safe m q h h lq open_q (Extends-refl safe h) r e)
    reply-Answers (settled x) m fin y d k q h lq open_q =
        let made = settled_promise-Made safe m h x in
        at_value k (rw made.returns (answers-Made m q h fin x _ made lq open_q))
    reply-Answers (raises e) m fin y d k q h lq open_q =
        at_value k (after_throw-Settles safe m q h h lq open_q (Extends-refl safe h) fin e)
    reply-Answers (chained as_error links) m fin y d k q h lq open_q =
        chained-Answers as_error links (links-Made links) m fin y d k q h lq open_q

    pub links-Made : (links : Links V E) → LinksMade links
    links-Made (link (value v) next handler fin) zero h y d k = absurd (omega (arith, d))
    links-Made (link (value v) next handler fin) (suc m) h y d k =
        follow-link m h next handler fin (value v) y
          (reply-Answers (next v) m fin y (omega (arith, d)) k)
    links-Made (link (error e) next handler fin) zero h y d k = absurd (omega (arith, d))
    links-Made (link (error e) next handler fin) (suc m) h y d k =
        follow-link m h next handler fin (error e) y
          (reply-Answers (handler e) m fin y (omega (arith, d)) k)
    links-Made (more links next handler fin) m h y d k =
        more-Made links next handler fin (links-Made links) (λ v. reply-Answers (next v))
          (λ e. reply-Answers (handler e)) m h y d k
