-- ===== src/Tests/Locks.antt =====
-- Handlers and goroutines that lock volumes.
use nvmeof_csi.Base.{ℕ, Option, ◌↔◌, ◌+◌, ◌≡◌, refl, true, some, Action, panic, halted, arith}
use nvmeof_csi.Locks.{
  VolumeLocks, find, new_volume_locks, load_or_store, acquire, set_held, Server, with_lock,
}
use nvmeof_csi.Locks.Laws.{AllFree, served, with_lock_transparent}
use nvmeof_csi.Locks.Threads.{
  waiting, critical, System, update, init, load, enter, Reach, start, later,
}
use nvmeof_csi.Locks.Threads.History.{history, holder}
use nvmeof_csi.Locks.Threads.History.Serial.{Holds, holder-history}
use nvmeof_csi.Locks.Threads.Safety.{mutual_exclusion, acquire_of_no_holder}

-- A server that counts requests, with every mutex free.
abbrev server : Server ℕ
server = record { locks = new_volume_locks; world = 5 }

-- A handler that counts the request and panics.
abbrev panicking : Action ℕ ℕ
panicking w = halted panic (w + 1)

new_volume_locks_free : AllFree new_volume_locks
unfolding new_volume_locks
new_volume_locks_free p = refl

with_lock_transparent_example :
    (vl : VolumeLocks) × (with_lock "vol-1" panicking server ≡ served vl (halted panic 6))
    × AllFree vl
with_lock_transparent_example = with_lock_transparent "vol-1" panicking server new_volume_locks_free

-- Goroutines 0 and 1 have loaded the mutex of one volume, goroutine 2 that of another.
abbrev loaded0 : System
loaded0 = record {
  locks = (load_or_store "vol-1" init.locks).1;
  pc = update init.pc 0 (waiting "vol-1" (load_or_store "vol-1" init.locks).0);
}

abbrev loaded1 : System
loaded1 = record {
  locks = (load_or_store "vol-1" loaded0.locks).1;
  pc = update loaded0.pc 1 (waiting "vol-1" (load_or_store "vol-1" loaded0.locks).0);
}

-- Goroutine 0 has locked the volume.
abbrev locked0 : System
locked0 = record {
  locks = set_held 0 true loaded1.locks;
  pc = update loaded1.pc 0 (critical "vol-1" 0);
}

loaded1-Reach : Reach loaded1
loaded1-Reach = later (later start (load 0 "vol-1" refl)) (load 1 "vol-1" refl)

locked0-Reach : Reach locked0
unfolding load_or_store find new_volume_locks acquire
locked0-Reach = later loaded1-Reach (enter 0 "vol-1" 0 (set_held 0 true loaded1.locks) refl refl)

abbrev keeper : ℕ
keeper = 0

mutual_exclusion_example : keeper ≡ keeper
mutual_exclusion_example = mutual_exclusion locked0-Reach keeper keeper "vol-1" 0 0 refl refl

-- Where nobody holds a lock, the second goroutine can take it.
idle_or_waiting : (j q : ℕ) → loaded1.pc j ≡ critical "vol-1" q → ⊥
idle_or_waiting j q h = ground arith

acquire_of_no_holder_example : (vl : VolumeLocks) × (acquire 0 loaded1.locks ≡ some vl)
unfolding load_or_store find new_volume_locks
acquire_of_no_holder_example = acquire_of_no_holder loaded1-Reach 1 "vol-1" 0 refl idle_or_waiting

holder-history_example :
    (o : Option ℕ) × (holder "vol-1" (history locked0-Reach) ≡ some o)
    × ((i : ℕ) → (o ≡ some i) ↔ Holds locked0 i "vol-1")
holder-history_example = holder-history locked0-Reach "vol-1"
