-- ===== src/Combine/Schedule.antt =====
-- Combined promises under every schedule of their callbacks.
use kaiu.Base.{
  ℕ, suc, ◌-◌, ◌<◌, ◌≡◌, refl, sym, subst, ◌∙◌, Bool, true, false, List, [], ◌∷◌, ◌++◌, Option,
  none, some, arith, get_elem?, set, inl, inr, ◌⊎◌,
}
use kaiu.Promise.Types.{Settled, value, error}
use kaiu.Combine.State.{
  Combine, Combining, Phase, Event, waiting, called, finished, calls, finishes, happen, run, next,
  handler, finalizer, decrement, call_at, finish_at,
}
use kaiu.Combine.Slots.{
  Filled-call, Filled-finish, unfinished, unfinished-call, unfinished-finish, unfinished-pos,
}
use kaiu.Combine.Steps.{
  Status, Inv, next-eq, next-failed, handler-eq, handler-failed, finalizer-failed, finalizer-last,
  finalizer-more,
}

module _ {V E : Type 0} where
  module _ (xs : List (Settled V E)) (i : ℕ) (s : Combining V E) (v : Inv xs s) where
    abbrev at : Combine V E → Phase → Combining V E
    at c p = record { combine = c; phases = set s.phases i p }

    known : {f : Bool} → s.combine.failed ≡ f → Status xs f s
    known q = subst (λ f. Status xs f s) q v.status

    module _ (w : get_elem? s.phases i ≡ some waiting) where
      some_left : 0 < s.combine.remaining
      some_left = rw v.count (unfinished-pos s.phases i w)

      same_count : s.combine.remaining ≡ unfinished (set s.phases i called)
      same_count = v.count ∙ sym (unfinished-call s.phases i w)

      next-Inv :
          (f : Bool) (x : V)
          → s.combine.failed ≡ f
          → get_elem? xs i ≡ some (value x)
          → Inv xs (at (next i x s.combine) called)
      next-Inv true x q e = rw (next-failed i x s.combine q) (record {
        count = same_count;
        small = v.small;
        status = subst (λ f. Status xs f (at s.combine called)) (sym q) (known q);
      })
      next-Inv false x q e =
          let k = known q in
          rw (next-eq i x s.combine q) (record {
            count = same_count;
            small = v.small;
            status =
                subst
                  (λ f.
                    Status xs f
                      (at (record s.combine { results = set s.combine.results i (some x) }) called))
                  (sym q)
                  (
                    Filled-call xs s.phases s.combine.results i x k.0 e w,
                    k.1,
                    λ z. absurd (omega (arith, some_left)),
                  );
          })

      handler-Inv :
          (f : Bool) (e : E)
          → s.combine.failed ≡ f
          → get_elem? xs i ≡ some (error e)
          → Inv xs (at (handler e s.combine) called)
      handler-Inv true e q a = rw (handler-failed e s.combine q) (record {
        count = same_count;
        small = v.small;
        status = subst (λ f. Status xs f (at s.combine called)) (sym q) (known q);
      })
      handler-Inv false e q a = rw (handler-eq e s.combine q) (record {
        count = same_count;
        small = v.small;
        status = (e, rw ((known q).1 some_left), (i, a));
      })

    module _ (w : get_elem? s.phases i ≡ some called) where
      one_less : suc (unfinished (set s.phases i finished)) ≡ s.combine.remaining
      one_less = unfinished-finish s.phases i w ∙ sym v.count

      last_or_more : (s.combine.remaining ≡ 1) ⊎ (1 < s.combine.remaining)
      last_or_more = ground (arith, one_less)

      finalizer-Inv : (f : Bool) → s.combine.failed ≡ f → Inv xs (at (finalizer s.combine) finished)
      finalizer-Inv true q = rw (finalizer-failed s.combine q) (record {
        count = omega (arith, one_less, v.small);
        small = omega arith;
        status =
            subst
              (λ f.
                Status xs f
                  (at (record s.combine { remaining = decrement s.combine.remaining }) finished))
              (sym q) (known q);
      })
      finalizer-Inv false q =
          let k = known q in
          let f = Filled-finish xs s.phases s.combine.results i k.0 w in
          elim (last_or_more) [
            | inl e ↦
                let c = record s.combine {
                  remaining = 0;
                  settlements = s.combine.settlements ++ (value s.combine.results ∷ []);
                } in
                rw (finalizer-last s.combine q e) (record {
                  count = omega (arith, one_less, e);
                  small = omega arith;
                  status =
                      subst (λ b. Status xs b (at c finished)) (sym q)
                        (f, λ z. absurd (omega (arith, z)), λ z. rw (k.1 (omega (arith, e))));
                })
            | inr m ↦
                let c = record s.combine { remaining = s.combine.remaining - 1 } in
                rw (finalizer-more s.combine q m v.small) (record {
                  count = omega (arith, one_less, m);
                  small = omega (arith, v.small);
                  status =
                      subst (λ b. Status xs b (at c finished)) (sym q)
                        (f, λ z. k.1 (omega (arith, m)), λ z. absurd (omega (arith, m, z)));
                })
          ]

  call_at-Inv :
      (xs : List (Settled V E)) (i : ℕ) (s : Combining V E) (o : Option (Settled V E))
      (p : Option Phase)
      → get_elem? xs i ≡ o
      → get_elem? s.phases i ≡ p
      → Inv xs s
      → Inv xs (call_at i o p s)
  call_at-Inv xs i s none p a b v = v
  call_at-Inv xs i s (some x) none a b v = v
  call_at-Inv xs i s (some (value x)) (some waiting) a b v =
      next-Inv xs i s v b s.combine.failed x refl a
  call_at-Inv xs i s (some (error e)) (some waiting) a b v =
      handler-Inv xs i s v b s.combine.failed e refl a
  call_at-Inv xs i s (some x) (some called) a b v = v
  call_at-Inv xs i s (some x) (some finished) a b v = v

  finish_at-Inv :
      (xs : List (Settled V E)) (i : ℕ) (s : Combining V E) (p : Option Phase)
      → get_elem? s.phases i ≡ p
      → Inv xs s
      → Inv xs (finish_at i p s)
  finish_at-Inv xs i s none b v = v
  finish_at-Inv xs i s (some waiting) b v = v
  finish_at-Inv xs i s (some called) b v = finalizer-Inv xs i s v b s.combine.failed refl
  finish_at-Inv xs i s (some finished) b v = v

  happen-Inv :
      (xs : List (Settled V E)) (x : Event) (s : Combining V E) → Inv xs s → Inv xs (happen xs x s)
  unfolding happen
  happen-Inv xs (calls i) s v = call_at-Inv xs i s _ _ refl refl v
  happen-Inv xs (finishes i) s v = finish_at-Inv xs i s _ refl v

  pub run-Inv :
      (xs : List (Settled V E)) (es : List Event) (s : Combining V E)
      → Inv xs s
      → Inv xs (run xs es s)
  unfolding run
  run-Inv xs [] s v = v
  run-Inv xs (e ∷ es) s v = run-Inv xs es (happen xs e s) (happen-Inv xs e s v)
