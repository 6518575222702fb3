-- ===== src/Managed/Tests.antt =====
-- An object that outlives its owner until a callback has ended.
use kaiu.Base.{true, false, ◌≡◌, refl, List, [], ◌∷◌}
use kaiu.Managed.State.{
  Event, drops, enters, immortalises, mortalises, unlocks, resets, create, run, step, get_lock,
  lock, unlock, reset, make_immortal, make_mortal, drop_owner,
}
use kaiu.Managed.Safety.{Careful, Safe, managed-Safe}

-- Thread 0 calls by its shared pointer, and drops it; thread 1 calls by `this`.
abbrev kept : List Event
kept = enters 0 true ∷ immortalises 0 ∷ unlocks 0 ∷ resets 0 ∷ drops ∷ enters 1 false ∷ []

abbrev let_go : List Event
let_go =
    enters 0 true
    ∷ immortalises 0
    ∷ unlocks 0
    ∷ resets 0
    ∷ drops
    ∷ enters 1 false
    ∷ mortalises 1
    ∷ unlocks 1
    ∷ resets 1
    ∷ []

let_go-Careful : Careful let_go (create 2)
unfolding run step get_lock lock unlock reset make_immortal make_mortal drop_owner
let_go-Careful = (tt, (tt, (tt, (tt, (tt, ((refl, refl), (refl, (tt, (tt, tt)))))))))

managed-Safe_example : Safe ((run let_go (create 2)).object)
managed-Safe_example = managed-Safe 2 let_go let_go-Careful

still_alive : (run kept (create 2)).object.destroyed ≡ false
unfolding run step get_lock lock unlock reset make_immortal make_mortal drop_owner
still_alive = refl

destroyed_at_last : (run let_go (create 2)).object.destroyed ≡ true
unfolding run step get_lock lock unlock reset make_immortal make_mortal drop_owner
destroyed_at_last = refl
