-- ===== src/Loop/Pistol.antt =====
-- `StarterPistol` (starter_pistol.h and starter_pistol.cpp). The int `racers` is kept as its residue
-- modulo 2^32.
use kaiu.Base.{
  ℕ, ◌+◌, ◌-◌, ◌%◌, ◌^◌, ◌==◌, if◌then◌else◌, List, [], ◌∷◌, Option, none, some, get_elem?, set,
  replicate,
}

-- A thread before `ready`, waiting in it, and after it.
pub data Racer : Type 0 where
  running waiting passed : Racer

pub record Pistol : Type 0 where
  pub racers : ℕ
  pub threads : List Racer

-- `--racers`.
abbrev pub one_less : ℕ → ℕ
one_less n = (n + (2 ^ 32 - 1)) % 2 ^ 32

-- A thread calls `ready`, or looks whether its wait has ended.
pub data Event : Type 0 where
  readies wakes : ℕ → Event

abbrev pub ready_at : ℕ → Option Racer → Pistol → Pistol
ready_at i (some running) s =
    let left = one_less s.racers in
    record { racers = left; threads = set s.threads i (if left == 0 then passed else waiting) }
ready_at i _ s = s

abbrev pub wake_at : ℕ → Option Racer → Pistol → Pistol
wake_at i (some waiting) s =
    if s.racers == 0 then record s { threads = set s.threads i passed } else s
wake_at i _ s = s

unfoldable pub happen : Event → Pistol → Pistol
happen (readies i) s = ready_at i (get_elem? s.threads i) s
happen (wakes i) s = wake_at i (get_elem? s.threads i) s

unfoldable pub run : List Event → Pistol → Pistol
run [] s = s
run (e ∷ es) s = run es (happen e s)

-- A pistol for `count` threads, none of which is ready.
abbrev pub start : ℕ → Pistol
start count = record { racers = count; threads = replicate count running }

-- `reset`: none is the exception, on a pistol that threads still wait for.
unfoldable pub reset : ℕ → Pistol → Option Pistol
reset racers s = if s.racers == 0 then some (record s { racers = racers }) else none
