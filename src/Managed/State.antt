-- ===== src/Managed/State.antt =====
-- `self_managing` and `self_managing_helper`, with the threads that call the object.
use kaiu.Base.{
  ℕ, suc, ◌+◌, ◌-◌, Bool, true, false, not, ◌&&◌, ◌||◌, List, [], ◌∷◌, Option, some, ◌==◌, ltb,
  if◌then◌else◌, get_elem?, set, replicate,
}

-- `owners` are the shared pointers outside the object; `misused` says that the mutex or the self
-- reference was used after the object was destroyed.
pub record Object : Type 0 where
  pub owners : ℕ
  pub self_reference : Bool
  pub mutex : Bool
  pub destroyed : Bool
  pub misused : Bool

unfoldable pub lock : Object → Object
lock o = record o { mutex = true; misused = o.misused || o.destroyed }

-- The destructor of a helper, in two steps: `lock.unlock()`, and `immortality->reset()`, which
-- destroys the object with its last shared pointer.
unfoldable pub unlock : Object → Object
unlock o = record o { mutex = false; misused = o.misused || o.destroyed }

unfoldable pub reset : Object → Object
reset o =
    if o.self_reference
    then record o {
      self_reference = false;
      destroyed = o.destroyed || (o.owners == 0);
      misused = o.misused || o.destroyed;
    }
    else record o { misused = o.misused || o.destroyed }

unfoldable pub make_immortal : Object → Object
make_immortal o = record o { self_reference = true; misused = o.misused || o.destroyed }

-- A shared pointer outside the object is copied, or destroyed.
unfoldable pub copy_owner : Object → Object
copy_owner o = record o { owners = suc o.owners }

unfoldable pub drop_owner : Object → Object
drop_owner o = record o {
  owners = o.owners - 1;
  destroyed = o.destroyed || (o.owners - 1 == 0 && not o.self_reference);
}

-- How far a thread has come with its helper: `inside` has the lock, `leaving` has released it in the
-- destructor. `own` says that the thread calls the object by a shared pointer of its own, and not
-- by `this`; `immortality` that the helper refers to the self reference.
pub data Phase : Type 0 where
  outside : Phase
  inside leaving : (own immortality : Bool) → Phase

pub data Event : Type 0 where
  copies drops : Event
  enters : (thread : ℕ) (own : Bool) → Event
  immortalises mortalises unlocks resets : (thread : ℕ) → Event

-- `requested` says that make_mortal has been called.
pub record Managing : Type 0 where
  pub object : Object
  pub phases : List Phase
  pub requested : Bool

abbrev pub bit : Bool → ℕ
bit true = 1
bit false = 0

abbrev pub total : (Phase → ℕ) → List Phase → ℕ
total w [] = 0
total w (p ∷ ps) = w p + total w ps

-- A thread in a call by a shared pointer.
abbrev pub owning : Phase → ℕ
owning outside = 0
owning (inside own m) = bit own
owning (leaving own m) = bit own

-- There is a shared pointer that no thread is using for a call.
abbrev pub has_spare : Managing → Bool
has_spare s = ltb (total owning s.phases) s.object.owners

-- An object with one shared pointer, and threads outside it.
abbrev pub create : ℕ → Managing
create threads = record {
  object = record {
    owners = 1;
    self_reference = false;
    mutex = false;
    destroyed = false;
    misused = false;
  };
  phases = replicate threads outside;
  requested = false;
}

abbrev move : ℕ → Phase → Object → Managing → Managing
move t p o s = record s { object = o; phases = set s.phases t p }

-- `get_lock`, which waits while the mutex is locked.
unfoldable pub get_lock : ℕ → Bool → Managing → Managing
get_lock t own s =
    if s.object.mutex || own && not (has_spare s)
    then s
    else move t (inside own false) (lock s.object) s

-- `make_mortal` does no more than register the self reference with the helper.
unfoldable pub make_mortal : ℕ → Bool → Managing → Managing
make_mortal t own s = record s { phases = set s.phases t (inside own true); requested = true }

abbrev pub step_at : Event → Option Phase → Managing → Managing
step_at copies p s = if ltb 0 s.object.owners then record s { object = copy_owner s.object } else s
step_at drops p s = if has_spare s then record s { object = drop_owner s.object } else s
step_at (enters t own) (some outside) s = get_lock t own s
step_at (immortalises t) (some (inside own m)) s = record s { object = make_immortal s.object }
step_at (mortalises t) (some (inside own m)) s = make_mortal t own s
step_at (unlocks t) (some (inside own m)) s = move t (leaving own m) (unlock s.object) s
step_at (resets t) (some (leaving own true)) s = move t outside (reset s.object) s
step_at (resets t) (some (leaving own false)) s = move t outside s.object s
step_at _ _ s = s

abbrev pub thread_of : Event → ℕ
thread_of copies = 0
thread_of drops = 0
thread_of (enters t own) = t
thread_of (immortalises t) = t
thread_of (mortalises t) = t
thread_of (unlocks t) = t
thread_of (resets t) = t

-- An event out of turn does not happen.
unfoldable pub step : Event → Managing → Managing
step e s = step_at e (get_elem? s.phases (thread_of e)) s

unfoldable pub run : List Event → Managing → Managing
run [] s = s
run (e ∷ es) s = run es (step e s)
