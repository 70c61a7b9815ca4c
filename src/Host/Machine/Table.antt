-- ===== src/Host/Machine/Table.antt =====
-- The mounts of the small machine, path by path.
use nvmeof_csi.Base.{
  String, ◌≡◌, ◌≢◌, refl, false, List, [], ◌∷◌, ◌==◌, nat_eq, string_eq, eq_iff, ok, err, inl,
  Error, arith,
}
use nvmeof_csi.Host.Laws.{MountTable, MountFailures}
use nvmeof_csi.Host.Machine.{
  Machine, count, take_off, mounts_on, check_path, mount_path, unmount_path, machine,
  machine_mounts,
}

count-take_off_other :
    (p q : String) (ms : List String) → (q == p) ≡ false → count q (take_off p ms) ≡ count q ms
unfolding count take_off
count-take_off_other p q [] other = refl
count-take_off_other p q (m ∷ ms) other =
    ground (arith, other, count-take_off_other p q ms other, eq_iff p m, eq_iff q m, eq_iff q p)

module _ (p q : String) (m : Machine) where
  unseen_lem : mounts_on m p ≡ 0 → check_path p m ≢ ok false
  unseen_lem free h = ground arith

  mount_others_lem :
      (source : String) {r : Unit {0}} {t : Machine}
      → mount_path source p m ≡ (ok r, t)
      → (q == p) ≡ false
      → mounts_on t q ≡ mounts_on m q
  unfolding mounts_on
  mount_others_lem source h other = ground (arith, other)

  unmount_others_lem :
      {r : Unit {0}} {t : Machine}
      → unmount_path p m ≡ (ok r, t)
      → (q == p) ≡ false
      → mounts_on t q ≡ mounts_on m q
  unfolding mounts_on
  unmount_others_lem h other = ground (arith, count-take_off_other p q m.mounts other)

-- A mount on one path leaves the others alone.
pub machine_table : MountTable machine machine_mounts
unfolding machine_mounts mounts_on
machine_table = record {
  unseen = λ p m. unseen_lem p p m;
  mount_others = λ source p q m h. mount_others_lem p q m source h;
  unmount_others = λ p q m h. unmount_others_lem p q m h;
  exec_keeps = λ cmd timeout m q. refl;
  sleep_keeps = λ m q. refl;
}

-- A machine without mounts.
pub no_mounts : (p : String) (m : Machine) → m.mounts ≡ [] → machine_mounts.depth m p ≡ 0
unfolding machine_mounts mounts_on count
no_mounts p m h = ground (arith, h)

module _ (p q : String) (m : Machine) where
  mount_failed_lem :
      (source : String) {e : Error} {t : Machine}
      → mount_path source p m ≡ (err e, t)
      → mounts_on t q ≡ mounts_on m q
  mount_failed_lem source h = ground arith

  unmount_failed_lem :
      {e : Error} {t : Machine} → unmount_path p m ≡ (err e, t) → mounts_on t q ≡ mounts_on m q
  unmount_failed_lem h = ground arith

pub machine_failures : MountFailures machine machine_mounts
unfolding machine_mounts mounts_on
machine_failures = record {
  mount_failed = λ source p q m h. inl (mount_failed_lem p q m source h);
  unmount_failed = λ p q m h. inl (unmount_failed_lem p q m h);
}
