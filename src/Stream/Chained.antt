-- ===== src/Stream/Chained.antt =====
-- What two operations in turn keep of the invariants.
use kaiu.Base.Action.{Outcome, done, thrown, and_then}
use kaiu.Stream.Types.{Stream, Fault}
use kaiu.Stream.StateBase.{Run}
use kaiu.Stream.Table.{Table}
use kaiu.Stream.Order.{Order, Ready, Kept, Sound, Steady}

module _ {R D E C : Type 0} where
  -- An outcome that returns does so in a state that has the property.
  abbrev pub Returning {α} :
      {A : Type α} → (Stream R D E C → Type 0) → Outcome (Stream R D E C) Fault A → Type 0
  Returning P (done a s) = P s
  Returning P (thrown e s) = Unit

  pub then-Kept :
      (o : Outcome (Stream R D E C) Fault (Unit {0})) (k : Run R D E C)
      → Kept o
      → ((s : Stream R D E C) → Table s → Order s → Kept (k s))
      → Kept (and_then o (λ _. k))
  then-Kept (done a s) k v h = h s v.0 v.1
  then-Kept (thrown e s) k v h = v

  pub then-Steady :
      (o : Outcome (Stream R D E C) Fault (Unit {0})) (k : Run R D E C)
      → Returning Ready o
      → ((s : Stream R D E C) → Ready s → Steady (k s))
      → Steady (and_then o (λ _. k))
  then-Steady (done a s) k v h = h s v
  then-Steady (thrown e s) k v h = tt

  pub Sound-Kept : (o : Outcome (Stream R D E C) Fault (Unit {0})) → Sound o → Kept o
  Sound-Kept (done a s) h = (h.0, h.1)
  Sound-Kept (thrown e s) h = (h.0, h.1)

  pub Sound-Steady : (o : Outcome (Stream R D E C) Fault (Unit {0})) → Sound o → Steady o
  Sound-Steady (done a s) h = h.2
  Sound-Steady (thrown e s) h = tt
