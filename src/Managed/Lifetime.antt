-- ===== src/Managed/Lifetime.antt =====
-- The invariant of an object that keeps itself alive, and its operations.
use kaiu.Base.{
  ℕ, ◌+◌, ◌<◌, ◌≤◌, Bool, true, false, ◌≡◌, refl, some, get_elem?, set, arith, inl, inr, ◌⊎◌,
}
use kaiu.Managed.State.{
  Managing, Phase, outside, inside, leaving, bit, total, owning, lock, unlock, make_immortal,
  make_mortal,
}
use kaiu.Managed.Totals.{
  locking, marked, plain, relying, total-set, total-at, total-within, plain-le, in_call,
  relying-leave, relying-inside,
}

pub record Inv (s : Managing) : Type 0 where
  pub locked : total locking s.phases ≡ bit s.object.mutex
  pub once : total marked s.phases ≤ bit s.requested
  pub closed : s.requested ≡ true → total plain s.phases ≡ 0
  pub held : s.object.self_reference ≡ false → total relying s.phases ≡ 0
  pub counted : total owning s.phases ≤ s.object.owners
  pub alive : s.object.destroyed ≡ true → (s.object.owners ≡ 0) × (s.object.self_reference ≡ false)
  pub dead : s.object.owners ≡ 0 → s.object.self_reference ≡ false → s.object.destroyed ≡ true
  pub proper : s.object.misused ≡ false

module _ (s : Managing) (v : Inv s) where
  -- A thread goes from one phase to another.
  module _ (t : ℕ) (p q : Phase) (e : get_elem? s.phases t ≡ some p) where
    abbrev pub Shift : (Phase → ℕ) → Type 0
    Shift w = total w (set s.phases t q) + w p ≡ total w s.phases + w q

    pub moved : (w : Phase → ℕ) → Shift w
    moved w = total-set w s.phases t p q e

  pub kept : (0 < s.object.owners) ⊎ (s.object.self_reference ≡ true) → s.object.destroyed ≡ false
  kept h = by_destroyed s.object.destroyed refl
    where
      by_destroyed : (b : Bool) → s.object.destroyed ≡ b → s.object.destroyed ≡ false
      by_destroyed false d = d
      by_destroyed true d = let (o, r) = v.alive d in ground arith

  pub entered-Inv :
      (t : ℕ) (own : Bool)
      → get_elem? s.phases t ≡ some outside
      → s.object.mutex ≡ false
      → (own ≡ true → total owning s.phases < s.object.owners)
      → (own ≡ false → (s.object.self_reference ≡ true) × (s.requested ≡ false))
      → Inv (record s { object = lock s.object; phases = set s.phases t (inside own false) })
  unfolding lock
  entered-Inv t true e m b h =
      let k = kept (inl (omega (arith, b refl))) in
      record {
        locked = ground (arith, v.locked, m, moved t outside (inside true false) e locking);
        once = ground (arith, v.once, moved t outside (inside true false) e marked);
        closed = λ r. omega (arith, v.closed r, moved t outside (inside true false) e plain);
        held = λ r. omega (arith, v.held r, moved t outside (inside true false) e relying);
        counted = omega (arith, b refl, moved t outside (inside true false) e owning);
        alive = v.alive;
        dead = v.dead;
        proper = simp (v.proper, k);
      }
  entered-Inv t false e m b h =
      let k = kept (inr (h refl).0) in
      record {
        locked = ground (arith, v.locked, m, moved t outside (inside false false) e locking);
        once = ground (arith, v.once, moved t outside (inside false false) e marked);
        closed = λ r. absurd (cc ((h refl).1, r));
        held = λ r. absurd (cc ((h refl).0, r));
        counted = omega (arith, v.counted, moved t outside (inside false false) e owning);
        alive = v.alive;
        dead = v.dead;
        proper = simp (v.proper, k);
      }

  -- While a thread is in a call by a shared pointer, or relies on the self reference.
  pub kept_by :
      (t : ℕ) (p : Phase)
      → get_elem? s.phases t ≡ some p
      → 0 < owning p + relying p
      → s.object.destroyed ≡ false
  kept_by t p e h = kept (by_reference s.object.self_reference refl)
    where
      by_reference :
          (b : Bool)
          → s.object.self_reference ≡ b
          → (0 < s.object.owners) ⊎ (s.object.self_reference ≡ true)
      by_reference true r = inr r
      by_reference false r = inl (
          omega (
            arith,
            v.held r,
            v.counted,
            h,
            total-at owning s.phases t p e,
            total-at relying s.phases t p e,
          ))

  pub unlocked-Inv :
      (t : ℕ) (own m : Bool)
      → get_elem? s.phases t ≡ some (inside own m)
      → Inv (record s { object = unlock s.object; phases = set s.phases t (leaving own m) })
  unfolding unlock
  unlocked-Inv t own m e =
      let k = kept_by t (inside own m) e (in_call own m) in
      record {
        locked = ground (arith, v.locked, moved t (inside own m) (leaving own m) e locking);
        once = omega (arith, v.once, moved t (inside own m) (leaving own m) e marked);
        closed = λ r. ground (arith, v.closed r, moved t (inside own m) (leaving own m) e plain);
        held = λ r. omega (
          arith,
          v.held r,
          relying-leave own m,
          moved t (inside own m) (leaving own m) e relying,
        );
        counted = omega (arith, v.counted, moved t (inside own m) (leaving own m) e owning);
        alive = v.alive;
        dead = v.dead;
        proper = simp (v.proper, k);
      }

  pub mortal-Inv :
      (t : ℕ) (own m : Bool)
      → get_elem? s.phases t ≡ some (inside own m)
      → s.requested ≡ false
      → Inv (make_mortal t own s)
  unfolding make_mortal
  mortal-Inv t own m e q = record {
    locked = omega (arith, v.locked, moved t (inside own m) (inside own true) e locking);
    once = ground (arith, v.once, q, moved t (inside own m) (inside own true) e marked);
    closed = λ r. ground (
      arith,
      v.locked,
      total-within plain locking s.phases t (inside own m) plain-le e,
      moved t (inside own m) (inside own true) e plain,
    );
    held = λ r.
        omega (
          arith,
          v.held r,
          relying-inside own m,
          moved t (inside own m) (inside own true) e relying,
        );
    counted = omega (arith, v.counted, moved t (inside own m) (inside own true) e owning);
    alive = v.alive;
    dead = v.dead;
    proper = v.proper;
  }

  pub immortal-Inv :
      (t : ℕ) (own m : Bool)
      → get_elem? s.phases t ≡ some (inside own m)
      → Inv (record s { object = make_immortal s.object })
  unfolding make_immortal
  immortal-Inv t own m e =
      let k = kept_by t (inside own m) e (in_call own m) in
      record {
        locked = v.locked;
        once = v.once;
        closed = v.closed;
        held = λ r. absurd (cc);
        counted = v.counted;
        alive = λ d. absurd (cc (d, k));
        dead = λ o r. absurd (cc);
        proper = simp (v.proper, k);
      }
