-- ===== src/Host/Machine/Files.antt =====
-- The texts of the files of the small machine.
use nvmeof_csi.Base.{
  String, ◌≡◌, refl, true, ◌==◌, nat_eq, string_eq, eq_iff, if◌then◌else◌, ok, err, plain, Error,
  arith,
}
use nvmeof_csi.Base.Dict.{index, lookup-insert}
use nvmeof_csi.Host.{is_not_exist}
use nvmeof_csi.Host.Laws.{FileView}
use nvmeof_csi.Host.Machine.{
  Machine, has, mounts_on, absent_error, remove_path, read_path, write_path, machine,
  removed_branch,
}

read-write :
    (p content : String) (m : Machine) {r : Unit {0}} {t : Machine}
    → write_path p content m ≡ (ok r, t)
    → read_path p t ≡ ok content
unfolding has index
read-write p content m h = ground (arith, lookup-insert m.texts p content p, eq_iff p p)

read-remove :
    (p : String) (m : Machine) {r : Unit {0}} {t : Machine}
    → remove_path p m ≡ (ok r, t)
    → (e : Error) × (read_path p t ≡ err e) × (is_not_exist e ≡ true)
unfolding is_not_exist
read-remove p m {t = t} h = (absent_error, ground (arith, removed_branch p m h), refl)

remove-unread :
    (p : String) (m : Machine) {e : Error}
    → read_path p m ≡ err e
    → is_not_exist e ≡ true
    → (d : Error) × (remove_path p m ≡ (err d, m))
remove-unread p m h k =
    (if mounts_on m p == 0 then absent_error else plain "device or resource busy", ground arith)

-- The machine keeps the texts of its files.
pub machine_files : FileView machine
machine_files = record {
  write_reads = read-write;
  removed_unread = λ p m h. read-remove p m h;
  unread_remove = λ p m h k. remove-unread p m h k;
}
