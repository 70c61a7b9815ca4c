-- ===== src/Locks.antt =====
-- util/idlocker.go: the mutex of each volume, and the lock that a handler holds while it runs.
pub mod Laws
pub mod Threads
use nvmeof_csi.Base.{
  ℕ, ◌+◌, String, Bool, true, false, Option, none, some, List, [], ◌∷◌, ◌==◌, if◌then◌else◌, nat_eq,
  string_eq, Run, done, failed, halted, blocked, Action,
}

-- `VolumeLocks`: the sync.Map from volume IDs to mutexes, and the mutexes, which live on the heap
-- at addresses below `next`. `held p` says that the mutex at `p` is locked.
pub record VolumeLocks : Type 0 where
  pub mutexes : List (String × ℕ)
  pub held : ℕ → Bool
  pub next : ℕ

unfoldable pub new_volume_locks : VolumeLocks
new_volume_locks = record { mutexes = []; held = λ _. false; next = 0 }

unfoldable pub find : String → List (String × ℕ) → Option ℕ
find k [] = none
find k ((j, p) ∷ m) = if j == k then some p else find k m

-- `vl.mutexes.LoadOrStore(volumeID, &sync.Mutex{})`: the address found, or that of the new mutex.
-- The new mutex is allocated either way.
unfoldable pub load_or_store : String → VolumeLocks → ℕ × VolumeLocks
unfolding find
load_or_store k vl = elim (find k vl.mutexes) [
  | some p ↦ (p, record vl { next = vl.next + 1 })
  | none ↦ (vl.next, record vl { mutexes = (k, vl.next) ∷ vl.mutexes; next = vl.next + 1 })
]

abbrev pub set_held : ℕ → Bool → VolumeLocks → VolumeLocks
set_held p b vl = record vl { held = λ q. if p == q then b else vl.held q }

-- `mtx.Lock()`: `none` while somebody holds the mutex.
unfoldable pub acquire : ℕ → VolumeLocks → Option VolumeLocks
acquire p vl = if vl.held p then none else some (set_held p true vl)

-- `mtx.Unlock()`
unfoldable pub release : ℕ → VolumeLocks → VolumeLocks
release p vl = set_held p false vl

-- The state of a server: its locks, and the world that its handlers act on.
pub record Server (W : Type 0) : Type 0 where
  pub locks : VolumeLocks
  pub world : W

-- What a handler returns, with the deferred unlock done: also after an error or a panic.
unfoldable pub unlocked : {W A : Type 0} → ℕ → VolumeLocks → Run W A → Run (Server W) A
unfolding release
unlocked p vl (done a w) = done a (record { locks = release p vl; world = w })
unlocked p vl (failed e w) = failed e (record { locks = release p vl; world = w })
unlocked p vl (halted h w) = halted h (record { locks = release p vl; world = w })

-- `unlock := volumeLocks.Lock(volumeID); defer unlock()` and the body of the handler.
unfoldable pub with_lock : {W A : Type 0} → String → Action W A → Action (Server W) A
unfolding load_or_store acquire unlocked
with_lock k body s =
    let (p, vl) = load_or_store k s.locks in
    elim (acquire p vl) [
      | none ↦ halted blocked (record { locks = vl; world = s.world })
      | some vl' ↦ unlocked p vl' (body s.world)
    ]
