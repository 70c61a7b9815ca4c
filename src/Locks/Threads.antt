-- ===== src/Locks/Threads.antt =====
-- util/idlocker.go with many goroutines, interleaved at `LoadOrStore`, `Lock` and `Unlock`.
mod Invariant
pub mod Safety
pub mod History
use nvmeof_csi.Base.{ℕ, String, ◌≡◌, Option, some, ◌==◌, if◌then◌else◌, nat_eq}
use nvmeof_csi.Locks.{VolumeLocks, load_or_store, acquire, release, new_volume_locks}

-- Where a goroutine stands in a handler: before `Lock`, between `LoadOrStore` and `mtx.Lock()` with
-- the address that it was given, or between `mtx.Lock()` and the deferred `mtx.Unlock()`.
pub data Pc : Type 0 where
  idle : Pc
  waiting : String → ℕ → Pc
  critical : String → ℕ → Pc

pub record System : Type 0 where
  pub locks : VolumeLocks
  pub pc : ℕ → Pc

abbrev pub update : (ℕ → Pc) → ℕ → Pc → ℕ → Pc
update f i a j = if i == j then a else f j

-- One step of goroutine `i`, for any volume that its request names.
pub data Step (s : System) : System → Type 0 where
  load :
      (i : ℕ) (k : String)
      → s.pc i ≡ idle
      → Step s (record {
        locks = (load_or_store k s.locks).1;
        pc = update s.pc i (waiting k (load_or_store k s.locks).0);
      })
  enter :
      (i : ℕ) (k : String) (p : ℕ) (vl : VolumeLocks)
      → s.pc i ≡ waiting k p
      → acquire p s.locks ≡ some vl
      → Step s (record { locks = vl; pc = update s.pc i (critical k p) })
  leave :
      (i : ℕ) (k : String) (p : ℕ)
      → s.pc i ≡ critical k p
      → Step s (record { locks = release p s.locks; pc = update s.pc i idle })

abbrev pub init : System
init = record { locks = new_volume_locks; pc = λ _. idle }

pub data Reach : System → Type 0 where
  start : Reach init
  later : {s t : System} → Reach s → Step s t → Reach t
