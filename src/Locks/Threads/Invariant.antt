-- ===== src/Locks/Threads/Invariant.antt =====
-- What links the goroutines to the lock table, kept by every step.
use nvmeof_csi.Base.{
  ℕ, String, ◌≡◌, ◌⊎◌, inl, inr, true, false, some, arith, ◌==◌, nat_eq, eq_iff, Bool-cases,
}
use nvmeof_csi.Locks.{
  VolumeLocks, find, load_or_store, acquire, release, set_held, new_volume_locks,
}
use nvmeof_csi.Locks.Laws.{
  IsWellFormed, load_or_store-IsWellFormed, new_volume_locks-IsWellFormed, find-load_or_store,
  find-load_or_store_kept, held-load_or_store,
}
use nvmeof_csi.Locks.Threads.{
  Pc, idle, waiting, critical, System, update, Step, load, enter, leave, init, Reach, start, later,
}

-- The volume and the address that a goroutine has been given.
abbrev pub Knows : Pc → String → ℕ → Type 0
Knows c k p = (c ≡ waiting k p) ⊎ (c ≡ critical k p)

pub record IsConsistent (s : System) : Type 0 where
  pub table : IsWellFormed s.locks
  pub known : (i : ℕ) (k : String) (p : ℕ) → Knows (s.pc i) k p → find k s.locks.mutexes ≡ some p
  pub locked : (i : ℕ) (k : String) (p : ℕ) → s.pc i ≡ critical k p → s.locks.held p ≡ true
  pub alone :
      (i j : ℕ) (k l : String) (p : ℕ) → s.pc i ≡ critical k p → s.pc j ≡ critical l p → i ≡ j
  pub owned : (p : ℕ) → s.locks.held p ≡ true → (i : ℕ) × (k : String) × (s.pc i ≡ critical k p)

init-IsConsistent : IsConsistent init
unfolding new_volume_locks
init-IsConsistent = record {
  table = new_volume_locks-IsWellFormed;
  known = λ i k p h. ground arith;
  locked = λ i k p h. ground arith;
  alone = λ i j k l p h h'. ground arith;
  owned = λ p h. ground arith;
}

pub acquire-eq-some :
    (p : ℕ) (vl : VolumeLocks) {vl' : VolumeLocks}
    → acquire p vl ≡ some vl'
    → (vl.held p ≡ false) × (vl' ≡ set_held p true vl)
unfolding acquire
acquire-eq-some p vl h = ground arith

module _ {s : System} (c : IsConsistent s) (i : ℕ) (k : String) where
  load-IsConsistent :
      s.pc i ≡ idle
      → IsConsistent (record {
        locks = (load_or_store k s.locks).1;
        pc = update s.pc i (waiting k (load_or_store k s.locks).0);
      })
  load-IsConsistent e = record {
    table = load_or_store-IsWellFormed k s.locks c.table;
    known = λ j l p h. ground (
      arith,
      find-load_or_store l k s.locks,
      c.known j l p,
      eq_iff k l,
      find-load_or_store_kept l k s.locks p,
    );
    locked = λ j l p h. ground (arith, held-load_or_store k s.locks p, c.locked j l p);
    alone = λ a b l m p h h'. ground (arith, c.alone a b l m p);
    owned = λ p h.
        let (j, l, o) = c.owned p (rw held-load_or_store at h) in (j, l, ground (arith, e, o));
  }

  -- The mutex was free, and only its flag changes.
  enter-IsConsistent_at :
      (p : ℕ)
      → s.pc i ≡ waiting k p
      → s.locks.held p ≡ false
      → IsConsistent (record { locks = set_held p true s.locks; pc = update s.pc i (critical k p) })
  enter-IsConsistent_at p e free = record {
    table = record {
      allocated = c.table.allocated;
      fresh_free =
          λ q h. ground (arith, c.table.fresh_free q, c.table.allocated k p, c.known i k p);
      distinct = c.table.distinct;
    };
    known = λ j l q h. ground (arith, c.known j l q, c.known i k p);
    locked = λ j l q h. ground (arith, c.locked j l q);
    alone = λ a b l m q h h'. ground (arith, c.alone a b l m q, c.locked a l q, c.locked b m q);
    owned = λ q h. elim (Bool-cases (p == q)) [
      | inl same ↦ (i, k, ground (arith))
      | inr other ↦ let (j, l, o) = c.owned q (rw other at h) in (j, l, ground (arith, e, o))
    ];
  }

  enter-IsConsistent :
      (p : ℕ) (vl : VolumeLocks)
      → s.pc i ≡ waiting k p
      → acquire p s.locks ≡ some vl
      → IsConsistent (record { locks = vl; pc = update s.pc i (critical k p) })
  enter-IsConsistent p vl e h =
      let (free, e') = acquire-eq-some p s.locks h in rw e' (enter-IsConsistent_at p e free)

  leave-IsConsistent :
      (p : ℕ)
      → s.pc i ≡ critical k p
      → IsConsistent (record { locks = release p s.locks; pc = update s.pc i idle })
  unfolding release
  leave-IsConsistent p e = record {
    table = record {
      allocated = c.table.allocated;
      fresh_free = λ q h. ground (arith, c.table.fresh_free q);
      distinct = c.table.distinct;
    };
    known = λ j l q h. ground (arith, c.known j l q);
    locked = λ j l q h. ground (arith, c.locked j l q, c.alone i j k l q);
    alone = λ a b l m q h h'. ground (arith, c.alone a b l m q);
    owned = λ q h. elim (Bool-cases (p == q)) [
      | inl same ↦ absurd (ground arith)
      | inr other ↦
          let (j, l, o) = c.owned q (rw other at h) in
          (j, l, ground (arith, c.locked i k p, e, o, c.alone i j k l q))
    ];
  }

Step-IsConsistent : {s t : System} → Step s t → IsConsistent s → IsConsistent t
Step-IsConsistent (load i k e) c = load-IsConsistent c i k e
Step-IsConsistent (enter i k p vl e h) c = enter-IsConsistent c i k p vl e h
Step-IsConsistent (leave i k p e) c = leave-IsConsistent c i k p e

pub Reach-IsConsistent : {s : System} → Reach s → IsConsistent s
Reach-IsConsistent start = init-IsConsistent
Reach-IsConsistent (later r st) = Step-IsConsistent st (Reach-IsConsistent r)
