-- ===== src/Locks/Laws.antt =====
-- One handler at a time: the lock table is well formed and every mutex is free again.
use nvmeof_csi.Base.{
  ℕ, ◌+◌, ◌≤◌, ◌<◌, String, ◌≡◌, ◌⊎◌, ◌∙◌, refl, true, false, some, ◌==◌, if◌then◌else◌, nat_eq,
  string_eq, Run, final, done, failed, halted, Action, arith, eq_iff, Option-cases, inl, inr,
}
use nvmeof_csi.Locks.{
  VolumeLocks, find, load_or_store, set_held, release, Server, unlocked, with_lock,
  new_volume_locks,
}

-- Each volume has a mutex of its own: addresses in use were allocated, and no two volumes share one.
pub record IsWellFormed (vl : VolumeLocks) : Type 0 where
  pub allocated : (k : String) (p : ℕ) → find k vl.mutexes ≡ some p → p < vl.next
  pub fresh_free : (p : ℕ) → vl.next ≤ p → vl.held p ≡ false
  pub distinct :
      (j k : String) (p : ℕ) → find j vl.mutexes ≡ some p → find k vl.mutexes ≡ some p → j ≡ k

pub new_volume_locks-IsWellFormed : IsWellFormed new_volume_locks
unfolding new_volume_locks find
new_volume_locks-IsWellFormed = record {
  allocated = λ k p h. ground arith;
  fresh_free = λ p h. refl;
  distinct = λ j k p h. ground arith;
}

-- `LoadOrStore` gives the volume a mutex and keeps those of the others.
pub find-load_or_store :
    (j k : String) (vl : VolumeLocks)
    → find j (load_or_store k vl).1.mutexes
      ≡ (if k == j then some (load_or_store k vl).0 else find j vl.mutexes)
unfolding load_or_store find
find-load_or_store j k vl = elim (Option-cases (find k vl.mutexes)) [
  | inl e ↦ ground (arith, eq_iff k j)
  | inr (p, e) ↦ ground (arith, eq_iff k j)
]

abbrev stored : String → VolumeLocks → VolumeLocks
stored k vl = (load_or_store k vl).1

pub held-load_or_store : (k : String) (vl : VolumeLocks) (p : ℕ) → (stored k vl).held p ≡ vl.held p
unfolding load_or_store
held-load_or_store k vl p = ground arith

next-load_or_store : (k : String) (vl : VolumeLocks) → (stored k vl).next ≡ vl.next + 1
unfolding load_or_store
next-load_or_store k vl = ground arith

-- The address is that of the volume's mutex, or a new one.
address-load_or_store :
    (k : String) (vl : VolumeLocks)
    → (find k vl.mutexes ≡ some (load_or_store k vl).0) ⊎ ((load_or_store k vl).0 ≡ vl.next)
unfolding load_or_store
address-load_or_store k vl = ground arith

-- A mutex once given out stays the mutex of its volume.
pub find-load_or_store_kept :
    (j k : String) (vl : VolumeLocks) (p : ℕ)
    → find j vl.mutexes ≡ some p
    → find j (load_or_store k vl).1.mutexes ≡ some p
unfolding load_or_store find
find-load_or_store_kept j k vl p h = ground (arith, eq_iff k j)

pub load_or_store-IsWellFormed :
    (k : String) (vl : VolumeLocks) → IsWellFormed vl → IsWellFormed (load_or_store k vl).1
load_or_store-IsWellFormed k vl w = record {
  allocated = λ j p h. ground (
    arith,
    find-load_or_store j k vl,
    next-load_or_store k vl,
    address-load_or_store k vl,
    w.allocated j p,
    w.allocated k p,
  );
  fresh_free =
      λ p h. ground (arith, held-load_or_store k vl p, next-load_or_store k vl, w.fresh_free p);
  distinct = λ i j p hi hj. ground (
    arith,
    find-load_or_store i k vl,
    find-load_or_store j k vl,
    address-load_or_store k vl,
    eq_iff k i,
    eq_iff k j,
    w.allocated i p,
    w.allocated j p,
    w.distinct i j p,
    w.distinct i k p,
    w.distinct k j p,
  );
}

abbrev pub AllFree : VolumeLocks → Type 0
AllFree vl = (p : ℕ) → vl.held p ≡ false

-- The lock table that a handler for the volume leaves.
abbrev pub relocked : String → VolumeLocks → VolumeLocks
relocked k vl =
    release (load_or_store k vl).0 (set_held (load_or_store k vl).0 true (load_or_store k vl).1)

pub relocked-AllFree : (k : String) (vl : VolumeLocks) → AllFree vl → AllFree (relocked k vl)
unfolding release
relocked-AllFree k vl free q = ground (arith, free q, held-load_or_store k vl q)

-- A run of the body, seen by the server.
abbrev pub served : {W A : Type 0} → VolumeLocks → Run W A → Run (Server W) A
served vl (done a w) = done a (record { locks = vl; world = w })
served vl (failed e w) = failed e (record { locks = vl; world = w })
served vl (halted h w) = halted h (record { locks = vl; world = w })

pub final-served :
    {W A : Type 0} (vl : VolumeLocks) (r : Run W A)
    → final (served vl r) ≡ record { locks = vl; world = final r }
final-served vl (done a w) = refl
final-served vl (failed e w) = refl
final-served vl (halted h w) = refl

unlocked-eq-served :
    {W A : Type 0} (p : ℕ) (vl : VolumeLocks) (r : Run W A)
    → unlocked p vl r ≡ served (release p vl) r
unfolding unlocked
unlocked-eq-served p vl (done a w) = refl
unlocked-eq-served p vl (failed e w) = refl
unlocked-eq-served p vl (halted h w) = refl

-- With every mutex free a handler is not blocked: it runs its body, and the body's outcome, a value,
-- an error or a panic, is the handler's.
pub with_lock_runs :
    {W A : Type 0} (k : String) (body : Action W A) (s : Server W)
    → AllFree s.locks
    → with_lock k body s ≡ served (relocked k s.locks) (body s.world)
unfolding with_lock
with_lock_runs k body s free = ground (
  arith,
  held-load_or_store k s.locks (load_or_store k s.locks).0,
  free (load_or_store k s.locks).0,
  unlocked-eq-served (load_or_store k s.locks).0
      (set_held (load_or_store k s.locks).0 true (load_or_store k s.locks).1) (body s.world),
)

-- Started with every mutex free, a handler is not blocked by its lock, ends exactly as its body ends
-- on the same world, and leaves every mutex free again, also after an error or a panic.
pub with_lock_transparent :
    {W A : Type 0} (k : String) (body : Action W A) (s : Server W)
    → AllFree s.locks
    → (vl : VolumeLocks) × (with_lock k body s ≡ served vl (body s.world)) × AllFree vl
with_lock_transparent k body s free =
    (relocked k s.locks, with_lock_runs k body s free, relocked-AllFree k s.locks free)

-- The same where the body succeeds.
pub with_lock_done :
    {W A : Type 0} (k : String) (body : Action W A) (s : Server W) {a : A} {w : W}
    → AllFree s.locks
    → body s.world ≡ done a w
    → with_lock k body s ≡ done a (record { locks = relocked k s.locks; world = w })
with_lock_done k body s free h = with_lock_runs k body s free ∙ rw h refl

served-eq-done :
    {W A : Type 0} (vl : VolumeLocks) (r : Run W A) {a : A} {t : Server W}
    → served vl r ≡ done a t
    → (r ≡ done a t.world) × (t.locks ≡ vl)
served-eq-done vl (done b w) h = ground arith
served-eq-done vl (failed e w) h = cc
served-eq-done vl (halted k w) h = cc

-- A handler that succeeded ran its body, and left every mutex free.
pub with_lock-eq-done :
    {W A : Type 0} (k : String) (body : Action W A) (s : Server W) {a : A} {t : Server W}
    → AllFree s.locks
    → with_lock k body s ≡ done a t
    → (body s.world ≡ done a t.world) × AllFree t.locks
with_lock-eq-done k body s free h =
    let (ran, table) =
      served-eq-done (relocked k s.locks) (body s.world) (rw (with_lock_runs k body s free) at h) in
    (ran, rw table (relocked-AllFree k s.locks free))
