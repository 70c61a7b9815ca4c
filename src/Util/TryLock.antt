-- ===== src/Util/TryLock.antt =====
-- util/util.go: `TryLock`, and goroutines that share one.
pub mod Safety
use nvmeof_csi.Base.{ℕ, Bool, true, false, ◌≡◌, ◌==◌, nat_eq, if◌then◌else◌}

-- `locked` is an int32 as its bit pattern.
pub record TryLock : Type 0 where
  pub locked : ℕ

abbrev pub unlocked : TryLock
unlocked = record { locked = 0 }

-- `Lock`: atomic.CompareAndSwapInt32(&lock.locked, 0, 1)
unfoldable pub lock : TryLock → Bool × TryLock
lock l = if l.locked == 0 then (true, record { locked = 1 }) else (false, l)

-- `Unlock`: atomic.StoreInt32(&lock.locked, 0)
unfoldable pub unlock : TryLock → TryLock
unlock l = record { locked = 0 }

-- One lock, and the goroutines whose last `Lock` returned true and that have not unlocked since.
pub record Sharing : Type 0 where
  pub cell : TryLock
  pub holds : ℕ → Bool

abbrev pub set_holds : ℕ → Bool → (ℕ → Bool) → ℕ → Bool
set_holds i b holds j = if i == j then b else holds j

-- A goroutine that does not hold the lock tries to take it; one that does gives it back.
pub data Try (s : Sharing) : Sharing → Type 0 where
  try_lock :
      (i : ℕ) (b : Bool) (l : TryLock)
      → s.holds i ≡ false
      → lock s.cell ≡ (b, l)
      → Try s (record { cell = l; holds = set_holds i b s.holds })
  give_back :
      (i : ℕ)
      → s.holds i ≡ true
      → Try s (record { cell = unlock s.cell; holds = set_holds i false s.holds })

abbrev pub nobody : Sharing
nobody = record { cell = unlocked; holds = λ _. false }

pub data Tries : Sharing → Type 0 where
  begin : Tries nobody
  next : {s t : Sharing} → Tries s → Try s t → Tries t
