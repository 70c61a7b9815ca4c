-- ===== src/Host/Machine.antt =====
-- A small machine that keeps the rules of `Host.Laws`, for examples.
pub mod Table
pub mod Files
use nvmeof_csi.Base.{
  ℕ, ◌+◌, String, ◌<>◌, ◌≡◌, ◌≢◌, refl, Bool, true, false, ◌&&◌, none, some, List, [], ◌∷◌, ◌==◌,
  nat_eq, string_eq, eq_iff, if◌then◌else◌, Result, ok, err, plain, not_exist, Error, arith,
}
use nvmeof_csi.Base.Dict.{Dict, index, insert, lookup-insert}
use nvmeof_csi.Host.{Host, is_not_exist}
use nvmeof_csi.Host.Laws.{IsAbsent, MountView, MountTable, CommandView, FileView}

-- The paths that exist, the texts that were written to files, the target of each mount, the device links by pattern, and the commands run.
pub record Machine : Type 0 where
  pub files : List String
  pub texts : Dict
  pub mounts : List String
  pub links : List (String × String)
  pub log : List (List String)

unfoldable pub has : String → List String → Bool
has p [] = false
has p (q ∷ rest) = if p == q then true else has p rest

unfoldable pub erase : String → List String → List String
erase p [] = []
erase p (q ∷ rest) = let kept = erase p rest in if p == q then kept else q ∷ kept

unfoldable pub count : String → List String → ℕ
count p [] = 0
count p (q ∷ rest) = if p == q then count p rest + 1 else count p rest

-- Without the topmost mount on the path.
unfoldable pub take_off : String → List String → List String
take_off p [] = []
take_off p (q ∷ rest) = let kept = take_off p rest in if p == q then rest else q ∷ kept

unfoldable pub linked : String → List (String × String) → List String
linked g [] = []
linked g ((h, p) ∷ rest) = if g == h then p ∷ [] else linked g rest

unfoldable pub mounts_on : Machine → String → ℕ
unfolding count
mounts_on m p = count p m.mounts

abbrev absent_error : Error
absent_error = not_exist "no such file or directory"

abbrev add_file : String → Machine → Result (Unit {0}) × Machine
add_file p m = (ok tt, if has p m.files then m else record m { files = p ∷ m.files })

abbrev check_path : String → Machine → Result Bool
check_path p m =
    if mounts_on m p == 0 then if has p m.files then ok true else err absent_error else ok false

abbrev remove_path : String → Machine → Result (Unit {0}) × Machine
remove_path p m =
    if mounts_on m p == 0
    then if has p m.files
      then (ok tt, record m { files = erase p m.files })
      else (err absent_error, m)
    else (err (plain "device or resource busy"), m)

abbrev mount_path : (source p : String) → Machine → Result (Unit {0}) × Machine
mount_path source p m =
    if has source m.files && has p m.files
    then (ok tt, record m { mounts = p ∷ m.mounts })
    else (err absent_error, m)

abbrev unmount_path : String → Machine → Result (Unit {0}) × Machine
unmount_path p m =
    if mounts_on m p == 0
    then (err (plain "not mounted"), m)
    else (ok tt, record m { mounts = take_off p m.mounts })

abbrev read_path : String → Machine → Result String
read_path p m = if has p m.files then ok (index p m.texts) else err absent_error

abbrev write_path : (p content : String) → Machine → Result (Unit {0}) × Machine
write_path p content m =
    let (r, t) = add_file p m in (r, record t { texts = insert p content t.texts })

abbrev append_path : (p content : String) → Machine → Result (Unit {0}) × Machine
append_path p content m = write_path p (index p m.texts <> content) m

abbrev pub machine : Host
machine = record {
  State = Machine;
  stat = λ p m. if has p m.files then none else some absent_error;
  mkdir_all = add_file;
  create_file = add_file;
  remove = remove_path;
  is_not_mount_point = check_path;
  mount = mount_path;
  unmount = unmount_path;
  glob = λ g m. ok (linked g m.links);
  read_file = read_path;
  read_dir = λ p m. if has p m.files then ok [] else err absent_error;
  write_file = write_path;
  open_append = add_file;
  append_text = append_path;
  sleep = λ m. m;
  exec = λ cmd timeout m. (
    record { output = ""; deadline_exceeded = false; error = none },
    record m { log = cmd ∷ m.log },
  );
}

has-erase :
    (p q : String) (fs : List String) → has p (erase q fs) ≡ (if q == p then false else has p fs)
unfolding has erase
has-erase p q [] = ground arith
has-erase p q (r ∷ fs) =
    ground (arith, has-erase p q fs, eq_iff p q, eq_iff q p, eq_iff p r, eq_iff q r)

count-take_off :
    (p : String) (ms : List String) → count p ms ≢ 0 → count p ms ≡ count p (take_off p ms) + 1
unfolding count take_off
count-take_off p [] h = absurd (h refl)
count-take_off p (q ∷ ms) h = ground (arith, count-take_off p ms, eq_iff p q)

check-IsAbsent :
    (p : String) (m : Machine) → mounts_on m p ≡ 0 → has p m.files ≡ false → IsAbsent machine p m
unfolding is_not_exist
check-IsAbsent p m h k = (absent_error, ground arith, refl)

absent_check :
    (p : String) (m : Machine)
    → IsAbsent machine p m
    → (mounts_on m p ≡ 0) × (has p m.files ≡ false)
absent_check p m (e, h, k) = ground arith

removed_branch :
    (p : String) (m : Machine) {r : Unit {0}} {t : Machine}
    → remove_path p m ≡ (ok r, t)
    → (mounts_on t p ≡ 0) × (has p t.files ≡ false)
unfolding mounts_on
removed_branch p m {t = t} h = ground (arith, has-erase p p m.files, eq_iff p p)

remove_absent_branch :
    (p : String) (m : Machine) {e : Error} {t : Machine}
    → remove_path p m ≡ (err e, t)
    → is_not_exist e ≡ true
    → (mounts_on t p ≡ 0) × (has p t.files ≡ false)
unfolding mounts_on is_not_exist
remove_absent_branch p m {e} {t} h k = ground arith

remove_keeps_absent_branch :
    (q p : String) (m : Machine)
    → (mounts_on m p ≡ 0) × (has p m.files ≡ false)
    → (mounts_on (remove_path q m).1 p ≡ 0) × (has p (remove_path q m).1.files ≡ false)
unfolding mounts_on
remove_keeps_absent_branch q p m (h, k) = ground (arith, has-erase p q m.files)

module _ (p : String) (m : Machine) where
  seen_lem : mounts_on m p ≢ 0 → check_path p m ≡ ok false
  seen_lem h = ground arith

  mount_lem :
      (source : String) {r : Unit {0}} {t : Machine}
      → mount_path source p m ≡ (ok r, t)
      → mounts_on t p ≡ mounts_on m p + 1
  unfolding mounts_on
  mount_lem source h = ground (arith, eq_iff p p)

  unmount_lem :
      {r : Unit {0}} {t : Machine}
      → unmount_path p m ≡ (ok r, t)
      → mounts_on m p ≡ mounts_on t p + 1
  unfolding mounts_on
  unmount_lem h = ground (arith, count-take_off p m.mounts)

  add_lem : (q : String) → mounts_on (add_file q m).1 p ≡ mounts_on m p
  unfolding mounts_on
  add_lem q = ground arith

  remove_lem : (q : String) → mounts_on (remove_path q m).1 p ≡ mounts_on m p
  unfolding mounts_on
  remove_lem q = ground arith

-- The machine keeps the mount rules.
pub machine_mounts : MountView machine
machine_mounts = record {
  depth = mounts_on;
  seen = seen_lem;
  mount_adds = λ source p m h. mount_lem p m source h;
  unmount_takes = λ p m h. unmount_lem p m h;
  mkdir_all_keeps = λ q p m. add_lem p m q;
  create_file_keeps = λ q p m. add_lem p m q;
  remove_keeps = λ q p m. remove_lem p m q;
  removed =
      λ p m {r} {t} h. let (free, gone) = removed_branch p m h in check-IsAbsent p t free gone;
  remove_absent = λ p m {e} {t} h k.
      let (free, gone) = remove_absent_branch p m h k in check-IsAbsent p t free gone;
  remove_keeps_absent = λ q p m a.
      let (free, gone) = remove_keeps_absent_branch q p m (absent_check p m a) in
      check-IsAbsent p (remove_path q m).1 free gone;
}

-- The machine logs its commands.
pub machine_commands : CommandView machine
machine_commands = record {
  commands = λ m. m.log;
  exec_adds = λ cmd timeout m. refl;
  sleep_keeps = λ m. refl;
  mkdir_all_keeps = λ q m. ground arith;
  create_file_keeps = λ q m. ground arith;
  remove_keeps = λ q m. ground arith;
  mount_keeps = λ source q m. ground arith;
  unmount_keeps = λ q m. ground arith;
}
