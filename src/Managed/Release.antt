-- ===== src/Managed/Release.antt =====
-- What releases an object that keeps itself alive: its self reference, and shared pointers.
use kaiu.Base.{ℕ, ◌<◌, Bool, true, false, ◌≡◌, refl, some, get_elem?, set, arith, inl}
use kaiu.Managed.State.{Managing, outside, leaving, total, owning, reset, copy_owner, drop_owner}
use kaiu.Managed.Totals.{
  locking, marked, plain, relying, total-at, on_leaving, relying-done, relying-le,
}
use kaiu.Managed.Lifetime.{Inv, moved, kept, kept_by}

module _ (s : Managing) (v : Inv s) where
  module _ (t : ℕ) (own : Bool) (e : get_elem? s.phases t ≡ some (leaving own true)) where
    -- It is the only helper that refers to the self reference.
    requested-true : (b : Bool) → s.requested ≡ b → s.requested ≡ true
    requested-true true q = q
    requested-true false q =
        absurd (ground (arith, v.once, q, total-at marked s.phases t (leaving own true) e))

    none_marked : total marked (set s.phases t outside) ≡ 0
    none_marked = ground (
      arith,
      v.once,
      requested-true s.requested refl,
      moved s v t (leaving own true) outside e marked,
    )

    none_plain : total plain (set s.phases t outside) ≡ 0
    none_plain = omega (
      arith,
      v.closed (requested-true s.requested refl),
      moved s v t (leaving own true) outside e plain,
    )

    none_relying : total relying (set s.phases t outside) ≡ 0
    none_relying = omega (arith, none_marked, none_plain, relying-le (set s.phases t outside))

    pub reset-Inv : Inv (record s { object = reset s.object; phases = set s.phases t outside })
    unfolding reset
    reset-Inv =
        let k = kept_by s v t (leaving own true) e (on_leaving own) in
        record {
          locked = ground (arith, v.locked, moved s v t (leaving own true) outside e locking);
          once = omega (arith, none_marked);
          closed = λ r. none_plain;
          held = λ r. none_relying;
          counted = ground (arith, v.counted, moved s v t (leaving own true) outside e owning);
          alive = ground (arith, k);
          dead = ground (arith, k, v.dead);
          proper = ground (arith, v.proper, k);
        }

  pub left-Inv :
      (t : ℕ) (own : Bool)
      → get_elem? s.phases t ≡ some (leaving own false)
      → Inv (record s { phases = set s.phases t outside })
  left-Inv t own e = record {
    locked = omega (arith, v.locked, moved s v t (leaving own false) outside e locking);
    once = omega (arith, v.once, moved s v t (leaving own false) outside e marked);
    closed = λ r. omega (arith, v.closed r, moved s v t (leaving own false) outside e plain);
    held = λ r.
        omega
          (arith, v.held r, relying-done own, moved s v t (leaving own false) outside e relying);
    counted = omega (arith, v.counted, moved s v t (leaving own false) outside e owning);
    alive = v.alive;
    dead = v.dead;
    proper = v.proper;
  }

  pub copied-Inv : 0 < s.object.owners → Inv (record s { object = copy_owner s.object })
  unfolding copy_owner
  copied-Inv h = record {
    locked = v.locked;
    once = v.once;
    closed = v.closed;
    held = v.held;
    counted = omega (arith, v.counted);
    alive = λ d. absurd (cc (d, kept s v (inl h)));
    dead = λ o. absurd (omega (arith, o));
    proper = v.proper;
  }

  pub dropped-Inv :
      total owning s.phases < s.object.owners → Inv (record s { object = drop_owner s.object })
  unfolding drop_owner
  dropped-Inv h =
      let k = kept s v (inl (omega (arith, h))) in
      record {
        locked = v.locked;
        once = v.once;
        closed = v.closed;
        held = v.held;
        counted = omega (arith, h);
        alive = ground (arith, k);
        dead = ground (arith, k);
        proper = v.proper;
      }
