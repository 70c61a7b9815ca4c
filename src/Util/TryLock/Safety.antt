-- ===== src/Util/TryLock/Safety.antt =====
-- util/util.go: what goroutines that share a `TryLock` can rely on.
use nvmeof_csi.Base.{ℕ, true, false, ◌≡◌, inl, inr, arith, ◌↔◌, nat_eq, ◌<◌, Bool-cases}
use nvmeof_csi.Util.TryLock.{lock, unlock, Sharing, Try, try_lock, give_back, Tries, begin, next}

record IsExclusive (s : Sharing) : Type 0 where
  cell_bound : s.cell.locked < 2
  alone : (i j : ℕ) → s.holds i ≡ true → s.holds j ≡ true → i ≡ j
  marked : (i : ℕ) → s.holds i ≡ true → s.cell.locked ≡ 1
  owned : s.cell.locked ≡ 1 → (i : ℕ) × (s.holds i ≡ true)

Try-IsExclusive : {s t : Sharing} → Try s t → IsExclusive s → IsExclusive t
unfolding lock unlock
Try-IsExclusive {s} (try_lock i b l idle tried) x = record {
  cell_bound = ground (arith, x.cell_bound);
  alone = λ j k hj hk. ground (arith, x.alone j k, x.marked j, x.marked k);
  marked = λ j h. ground (arith, x.marked j);
  owned = λ h. elim (Bool-cases b) [
    | inl won ↦ (i, ground arith)
    | inr lost ↦ let (j, held) = x.owned (ground arith) in (j, ground arith)
  ];
}
Try-IsExclusive {s} (give_back i held) x = record {
  cell_bound = omega arith;
  alone = λ j k hj hk. ground (arith, x.alone i j held, x.alone i k held);
  marked = λ j h. ground (arith, x.alone i j held);
  owned = λ h. absurd (omega arith);
}

Tries-IsExclusive : {s : Sharing} → Tries s → IsExclusive s
Tries-IsExclusive begin = record {
  cell_bound = omega arith;
  alone = λ i j h k. cc;
  marked = λ i h. cc;
  owned = λ h. absurd (omega arith);
}
Tries-IsExclusive (next r step) = Try-IsExclusive step (Tries-IsExclusive r)

-- However goroutines try the lock and give it back, `Lock` returns false exactly if one holds it.
lock_fails_iff :
    {s : Sharing} → Tries s → ((lock s.cell).0 ≡ false) ↔ ((i : ℕ) × (s.holds i ≡ true))
unfolding lock
lock_fails_iff {s} r =
    let x = Tries-IsExclusive r in
    (λ h. x.owned (ground (arith, x.cell_bound)), λ (i, h). ground (arith, x.marked i h))

-- However goroutines try the lock and give it back, two that hold it are the same one, and while one
-- holds it a further `Lock` returns false.
pub lock_exclusive :
    {s : Sharing}
    → Tries s
    → (i j : ℕ) → s.holds i ≡ true
    → s.holds j ≡ true
    → (i ≡ j) × ((lock s.cell).0 ≡ false)
lock_exclusive r i j h k = ((Tries-IsExclusive r).alone i j h k, (lock_fails_iff r).1 (i, h))
