-- ===== src/Host.antt =====
-- The machine that the node service runs on: its file system, its mounts and its commands. None of
-- this is part of the program.
pub mod Laws
pub mod Machine
use nvmeof_csi.Base.{ℕ, String, Bool, Option, List, Error, not_exist, Result}

-- What a command leaves: its output, and its error if it failed to start or to exit with 0.
pub record Exit : Type 0 where
  pub output : String
  pub deadline_exceeded : Bool
  pub error : Option Error

-- Each call may change the state of the machine, and returns a value or an error.
pub record Host : Type 1 where
  pub State : Type 0
  -- os.Stat: does it return an error?
  pub stat : String → State → Option Error
  -- os.MkdirAll(path, 0755)
  pub mkdir_all : String → State → Result (Unit {0}) × State
  -- os.OpenFile(path, os.O_CREATE, 0o600) and Close
  pub create_file : String → State → Result (Unit {0}) × State
  -- os.Remove
  pub remove : String → State → Result (Unit {0}) × State
  -- mount.IsNotMountPoint
  pub is_not_mount_point : String → State → Result Bool
  -- mounter.Mount(source, target, "", {"bind"})
  pub mount : (source target : String) → State → Result (Unit {0}) × State
  -- mounter.Unmount
  pub unmount : String → State → Result (Unit {0}) × State
  -- filepath.Glob
  pub glob : String → State → Result (List String)
  -- os.ReadFile
  pub read_file : String → State → Result String
  -- os.ReadDir: the names of the entries
  pub read_dir : String → State → Result (List String)
  -- os.WriteFile(path, content, 0o600)
  pub write_file : (path content : String) → State → Result (Unit {0}) × State
  -- os.OpenFile(path, os.O_APPEND|os.O_CREATE|os.O_WRONLY, 0o100) and, at the end, Close
  pub open_append : String → State → Result (Unit {0}) × State
  -- WriteString on a file that is open for appending
  pub append_text : (path content : String) → State → Result (Unit {0}) × State
  -- time.Sleep(time.Second)
  pub sleep : State → State
  -- exec.CommandContext(…).CombinedOutput() under a timeout in seconds
  pub exec : List String → ℕ → State → Exit × State

-- os.IsNotExist, which does not see through `%w`
unfoldable pub is_not_exist : Error → Bool
is_not_exist (not_exist t) = Bool.true
is_not_exist _ = Bool.false
