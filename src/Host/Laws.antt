-- ===== src/Host/Laws.antt =====
-- What the node service relies on: documented behaviour of the file system, of mounts, and of the
-- calls that run no command.
use nvmeof_csi.Base.{
  ◌==◌, string_eq, ℕ, ◌+◌, String, ◌≡◌, ◌≢◌, ◌⊎◌, true, false, List, ◌∷◌, nat_eq, ok, err, Error,
}
use nvmeof_csi.Host.{Host, is_not_exist}

-- The path does not exist.
abbrev pub IsAbsent : (H : Host) → String → H.State → Type 0
IsAbsent H p s = (e : Error) × (H.is_not_mount_point p s ≡ err e) × (is_not_exist e ≡ true)

-- The mounts that are stacked on each path, the topmost of which `Unmount` takes off.
pub record MountView (H : Host) : Type 0 where
  pub depth : H.State → String → ℕ
  pub seen : (p : String) (s : H.State) → depth s p ≢ 0 → H.is_not_mount_point p s ≡ ok false
  pub mount_adds :
      (source p : String) (s : H.State) {r : Unit {0}} {t : H.State}
      → H.mount source p s ≡ (ok r, t)
      → depth t p ≡ depth s p + 1
  pub unmount_takes :
      (p : String) (s : H.State) {r : Unit {0}} {t : H.State}
      → H.unmount p s ≡ (ok r, t)
      → depth s p ≡ depth t p + 1
  pub mkdir_all_keeps : (q p : String) (s : H.State) → depth (H.mkdir_all q s).1 p ≡ depth s p
  pub create_file_keeps : (q p : String) (s : H.State) → depth (H.create_file q s).1 p ≡ depth s p
  pub remove_keeps : (q p : String) (s : H.State) → depth (H.remove q s).1 p ≡ depth s p
  pub removed :
      (p : String) (s : H.State) {r : Unit {0}} {t : H.State}
      → H.remove p s ≡ (ok r, t)
      → IsAbsent H p t
  pub remove_absent :
      (p : String) (s : H.State) {e : Error} {t : H.State}
      → H.remove p s ≡ (err e, t)
      → is_not_exist e ≡ true
      → IsAbsent H p t
  pub remove_keeps_absent :
      (q p : String) (s : H.State) → IsAbsent H p s → IsAbsent H p (H.remove q s).1

-- What a mount does to the other paths, and what a command and a pause do to all.
pub record MountTable (H : Host) (V : MountView H) : Type 0 where
  pub unseen : (p : String) (s : H.State) → V.depth s p ≡ 0 → H.is_not_mount_point p s ≢ ok false
  pub mount_others :
      (source p q : String) (s : H.State) {r : Unit {0}} {t : H.State}
      → H.mount source p s ≡ (ok r, t)
      → (q == p) ≡ false
      → V.depth t q ≡ V.depth s q
  pub unmount_others :
      (p q : String) (s : H.State) {r : Unit {0}} {t : H.State}
      → H.unmount p s ≡ (ok r, t)
      → (q == p) ≡ false
      → V.depth t q ≡ V.depth s q
  pub exec_keeps :
      (cmd : List String) (timeout : ℕ) (s : H.State) (q : String)
      → V.depth (H.exec cmd timeout s).1 q ≡ V.depth s q
  pub sleep_keeps : (s : H.State) (q : String) → V.depth (H.sleep s) q ≡ V.depth s q

-- What a mount or an unmount that fails may leave. A bind mount is made and then mounted anew with its
-- options: where the second step fails, the mount of the first one stays.
pub record MountFailures (H : Host) (V : MountView H) : Type 0 where
  pub mount_failed :
      (source p q : String) (s : H.State) {e : Error} {t : H.State}
      → H.mount source p s ≡ (err e, t)
      → (V.depth t q ≡ V.depth s q) ⊎ ((q ≡ p) × (V.depth t q ≡ V.depth s q + 1))
  pub unmount_failed :
      (p q : String) (s : H.State) {e : Error} {t : H.State}
      → H.unmount p s ≡ (err e, t)
      → (V.depth t q ≡ V.depth s q) ⊎ ((q ≡ p) × (V.depth s q ≡ V.depth t q + 1))

-- The commands that were run, the latest first.
pub record CommandView (H : Host) : Type 0 where
  pub commands : H.State → List (List String)
  pub exec_adds :
      (cmd : List String) (timeout : ℕ) (s : H.State)
      → commands (H.exec cmd timeout s).1 ≡ cmd ∷ commands s
  pub sleep_keeps : (s : H.State) → commands (H.sleep s) ≡ commands s
  pub mkdir_all_keeps : (q : String) (s : H.State) → commands (H.mkdir_all q s).1 ≡ commands s
  pub create_file_keeps : (q : String) (s : H.State) → commands (H.create_file q s).1 ≡ commands s
  pub remove_keeps : (q : String) (s : H.State) → commands (H.remove q s).1 ≡ commands s
  pub mount_keeps : (source q : String) (s : H.State) → commands (H.mount source q s).1 ≡ commands s
  pub unmount_keeps : (q : String) (s : H.State) → commands (H.unmount q s).1 ≡ commands s

-- The texts of the files.
pub record FileView (H : Host) : Type 0 where
  pub write_reads :
      (p content : String) (s : H.State) {r : Unit {0}} {t : H.State}
      → H.write_file p content s ≡ (ok r, t)
      → H.read_file p t ≡ ok content
  pub removed_unread :
      (p : String) (s : H.State) {r : Unit {0}} {t : H.State}
      → H.remove p s ≡ (ok r, t)
      → (e : Error) × (H.read_file p t ≡ err e) × (is_not_exist e ≡ true)
  pub unread_remove :
      (p : String) (s : H.State) {e : Error}
      → H.read_file p s ≡ err e
      → is_not_exist e ≡ true
      → (d : Error) × (H.remove p s ≡ (err d, s))
