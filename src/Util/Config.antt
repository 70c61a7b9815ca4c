-- ===== src/Util/Config.antt =====
-- util/config.go: the configuration and the secrets that are read from JSON.
pub mod Laws
use nvmeof_csi.Base.{
  String, Bool, List, ◌==◌, string_eq, not, if◌then◌else◌, Result, ok, err, Error, plain, wrapped,
}
use nvmeof_csi.Host.{Host}

-- `SpdkNodeConfig`
pub record SpdkNodeConfig : Type 0 where
  pub name : String
  pub url : String
  pub target_type : String
  pub target_addr : String

-- `CSIControllerConfig`
pub record CsiControllerConfig : Type 0 where
  pub nodes : List SpdkNodeConfig

pub record Token : Type 0 where
  pub name : String
  pub user_name : String
  pub password : String

-- `SpdkSecrets`
pub record SpdkSecrets : Type 0 where
  pub tokens : List Token

-- os.Getenv, which is "" for a variable that is not set.
abbrev pub Environment : Type 0
Environment = String → String

-- `FromEnv`
unfoldable pub from_env : Environment → (env def : String) → String
from_env getenv env def = let s = getenv env in if not (s == "") then s else def

-- `ParseJSONFile` into a type that `decode` reads.
unfoldable pub parse_json_file :
    {A : Type 0} → (H : Host) → (decode : String → Result A) → String → H.State → Result A
parse_json_file H decode file_name s = elim (H.read_file file_name s) [
  | err e ↦ err e
  | ok content ↦ decode content
]

-- `NewCSIControllerConfig`
unfoldable pub new_csi_controller_config :
    (H : Host)
    → (decode : String → Result CsiControllerConfig) → Environment
    → (env def : String) → H.State
    → Result CsiControllerConfig
unfolding parse_json_file from_env
new_csi_controller_config H decode getenv env def s =
    elim (parse_json_file H decode (from_env getenv env def) s) [
      | err e ↦ err e
      | ok config ↦ ok config
    ]

-- `NewSpdkSecrets`
unfoldable pub new_spdk_secrets :
    (decode : String → Result SpdkSecrets) → (json_secrets : String) → Result SpdkSecrets
new_spdk_secrets decode json_secrets = elim (decode json_secrets) [
  | err e ↦ err e
  | ok secs ↦ ok secs
]
