-- ===== src/Managed/Safety.antt =====
-- Whatever threads do with an object that keeps itself alive, it is destroyed in time.
use kaiu.Base.{
  ℕ, Bool, true, false, not, ◌&&◌, ◌||◌, ◌≡◌, refl, List, [], ◌∷◌, Option, none, some, ◌==◌, ltb,
  if◌then◌else◌, get_elem?, arith,
}
use kaiu.Managed.State.{
  Object, Managing, Phase, outside, inside, leaving, Event, copies, drops, enters, immortalises,
  mortalises, unlocks, resets, owning, has_spare, get_lock, create, step, step_at, run, thread_of,
}
use kaiu.Managed.Totals.{locking, marked, plain, relying, locking-le, total-outside}
use kaiu.Managed.Lifetime.{Inv, entered-Inv, unlocked-Inv, mortal-Inv, immortal-Inv}
use kaiu.Managed.Release.{reset-Inv, left-Inv, copied-Inv, dropped-Inv}

-- A thread calls the object by `this` only while the object is immortal, and make_mortal is called
-- once.
abbrev pub Allowed : Event → Managing → Type 0
Allowed (enters t false) s = (s.object.self_reference ≡ true) × (s.requested ≡ false)
Allowed (mortalises t) s = s.requested ≡ false
Allowed _ s = Unit

abbrev pub Careful : List Event → Managing → Type 0
Careful [] s = Unit
Careful (e ∷ es) s = Allowed e s × Careful es (step e s)

create-Inv : (threads : ℕ) → Inv (create threads)
create-Inv n = record {
  locked = total-outside locking n refl;
  once = omega (arith, total-outside marked n refl);
  closed = λ r. total-outside plain n refl;
  held = λ r. total-outside relying n refl;
  counted = omega (arith, total-outside owning n refl);
  alive = λ d. absurd (cc);
  dead = λ o. absurd (omega (arith, o));
  proper = refl;
}

-- The two branches of a test.
guarded :
    {x y : Managing} (b : Bool)
    → (b ≡ true → Inv x)
    → (b ≡ false → Inv y)
    → Inv (if b then x else y)
guarded true f g = f refl
guarded false f g = g refl

guest_only :
    (t : ℕ) (own : Bool) (s : Managing)
    → Allowed (enters t own) s
    → own ≡ false
    → (s.object.self_reference ≡ true) × (s.requested ≡ false)
guest_only t true s a q = absurd (cc)
guest_only t false s a q = a

get_lock-Inv :
    (t : ℕ) (own : Bool) (s : Managing)
    → Inv s
    → get_elem? s.phases t ≡ some outside
    → Allowed (enters t own) s
    → Inv (get_lock t own s)
unfolding get_lock
get_lock-Inv t own s v e a =
    guarded (s.object.mutex || own && not (has_spare s)) (λ h. v)
      (λ h. entered-Inv s v t own e (ground arith) (ground arith) (guest_only t own s a))

step_at-Inv :
    (e : Event) (p : Option Phase) (s : Managing)
    → Inv s
    → get_elem? s.phases (thread_of e) ≡ p
    → Allowed e s
    → Inv (step_at e p s)
step_at-Inv copies p s v q a =
    guarded (ltb 0 s.object.owners) (λ h. copied-Inv s v (ground arith)) (λ h. v)
step_at-Inv drops p s v q a = guarded (has_spare s) (λ h. dropped-Inv s v (ground arith)) (λ h. v)
step_at-Inv (enters t own) none s v q a = v
step_at-Inv (enters t own) (some outside) s v q a = get_lock-Inv t own s v q a
step_at-Inv (enters t own) (some (inside o m)) s v q a = v
step_at-Inv (enters t own) (some (leaving o m)) s v q a = v
step_at-Inv (immortalises t) none s v q a = v
step_at-Inv (immortalises t) (some outside) s v q a = v
step_at-Inv (immortalises t) (some (inside o m)) s v q a = immortal-Inv s v t o m q
step_at-Inv (immortalises t) (some (leaving o m)) s v q a = v
step_at-Inv (mortalises t) none s v q a = v
step_at-Inv (mortalises t) (some outside) s v q a = v
step_at-Inv (mortalises t) (some (inside o m)) s v q a = mortal-Inv s v t o m q a
step_at-Inv (mortalises t) (some (leaving o m)) s v q a = v
step_at-Inv (unlocks t) none s v q a = v
step_at-Inv (unlocks t) (some outside) s v q a = v
step_at-Inv (unlocks t) (some (inside o m)) s v q a = unlocked-Inv s v t o m q
step_at-Inv (unlocks t) (some (leaving o m)) s v q a = v
step_at-Inv (resets t) none s v q a = v
step_at-Inv (resets t) (some outside) s v q a = v
step_at-Inv (resets t) (some (inside o m)) s v q a = v
step_at-Inv (resets t) (some (leaving o true)) s v q a = reset-Inv s v t o q
step_at-Inv (resets t) (some (leaving o false)) s v q a = left-Inv s v t o q

run-Inv : (es : List Event) (s : Managing) → Inv s → Careful es s → Inv (run es s)
unfolding run step
run-Inv [] s v c = v
run-Inv (e ∷ es) s v (a, c) = run-Inv es (step e s) (step_at-Inv e _ s v refl a) c

-- The object is destroyed just when there is no shared pointer to it, with its mutex free, and not
-- used after that.
abbrev pub Safe : Object → Type 0
Safe o =
    (o.destroyed ≡ (o.owners == 0 && not o.self_reference))
    × ((o.destroyed && o.mutex) ≡ false)
    × (o.misused ≡ false)

Inv-Safe : (s : Managing) → Inv s → Safe s.object
Inv-Safe s v = (ground (arith, v.alive, v.dead), mutex_free s.object.destroyed refl, v.proper)
  where
    mutex_free :
        (b : Bool) → s.object.destroyed ≡ b → (s.object.destroyed && s.object.mutex) ≡ false
    mutex_free false d = rw d refl
    mutex_free true d =
        let (o, r) = v.alive d in
        ground (arith, v.held r, v.counted, v.locked, o, locking-le s.phases)

-- Whatever the holders of at least one shared pointer to an object and any number of threads do
-- in any interleaving, where a thread calls the object by this only while the object is immortal,
-- and make_mortal is called once at most: the object is destroyed just when no shared pointer to
-- it is left, its own included; its mutex is free then; and neither is used after that.
pub managed-Safe :
    (threads : ℕ) (events : List Event)
    → Careful events (create threads)
    → Safe ((run events (create threads)).object)
managed-Safe threads events c =
    Inv-Safe (run events (create threads)) (run-Inv events (create threads) (create-Inv threads) c)
