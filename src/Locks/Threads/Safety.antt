-- ===== src/Locks/Threads/Safety.antt =====
-- util/idlocker.go: what the interleaved goroutines can rely on.
use nvmeof_csi.Base.{ℕ, String, ◌≡◌, ◌≢◌, inl, inr, true, some, arith, Bool-cases}
use nvmeof_csi.Locks.{VolumeLocks, acquire, set_held}
use nvmeof_csi.Locks.Threads.{System, waiting, critical, Reach}
use nvmeof_csi.Locks.Threads.Invariant.{IsConsistent, Reach-IsConsistent}

-- In every reachable state two goroutines that hold the lock of one volume are the same goroutine,
-- also when their requests made `LoadOrStore` race for the volume's first mutex.
pub mutual_exclusion :
    {s : System}
    → Reach s
    → (i j : ℕ) (k : String) (p q : ℕ) → s.pc i ≡ critical k p
    → s.pc j ≡ critical k q
    → i ≡ j
mutual_exclusion r i j k p q hi hj =
    let c = Reach-IsConsistent r in ground (arith, c.known i k p, c.known j k q, c.alone i j k k p)

-- In every reachable state a goroutine that waits for a volume's mutex can take it at once, unless
-- some goroutine holds the lock of that same volume: other volumes never block it.
pub acquire_of_no_holder :
    {s : System}
    → Reach s
    → (i : ℕ) (k : String) (p : ℕ) → s.pc i ≡ waiting k p
    → ((j q : ℕ) → s.pc j ≢ critical k q)
    → (vl : VolumeLocks) × (acquire p s.locks ≡ some vl)
unfolding acquire
acquire_of_no_holder {s} r i k p h none_holds = elim (Bool-cases (s.locks.held p)) [
  | inl taken ↦
      let (j, l, o) = c.owned p taken in
      absurd (none_holds j p (ground (arith, c.known i k p, c.known j l p, c.table.distinct k l p)))
  | inr free ↦ (set_held p true s.locks, rw free)
]
  where
    c : IsConsistent s
    c = Reach-IsConsistent r

-- In every reachable state the mutex that a goroutine is about to unlock is locked, so `Unlock`
-- never meets an unlocked mutex, which would end the process.
unlock_of_held :
    {s : System}
    → Reach s
    → (i : ℕ) (k : String) (p : ℕ) → s.pc i ≡ critical k p
    → s.locks.held p ≡ true
unlock_of_held r = (Reach-IsConsistent r).locked
