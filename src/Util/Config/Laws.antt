-- ===== src/Util/Config/Laws.antt =====
-- util/config.go: which configuration NewCSIControllerConfig returns.
use nvmeof_csi.Base.{String, ◌≡◌, refl, ◌≢◌, ◌⊎◌, ◌↔◌, Result, ok, err, eq_iff, arith}
use nvmeof_csi.Host.{Host}
use nvmeof_csi.Util.Config.{
  CsiControllerConfig, Environment, new_csi_controller_config, from_env, parse_json_file,
}

-- The file that `FromEnv` chooses: the value of the variable or, where it is not set or empty, the default.
abbrev IsChosen : Environment → (env def file : String) → Type 0
IsChosen getenv env def file =
    ((getenv env ≢ "") × (file ≡ getenv env)) ⊎ ((getenv env ≡ "") × (file ≡ def))

from_env-IsChosen :
    (getenv : Environment) (env def file : String)
    → (from_env getenv env def ≡ file) ↔ IsChosen getenv env def file
unfolding from_env
from_env-IsChosen getenv env def file = ground (arith, eq_iff (getenv env) "")

parse_json_file-eq-ok :
    {A : Type 0} (H : Host) (decode : String → Result A) (file : String) (s : H.State) {a : A}
    → parse_json_file H decode file s ≡ ok a
    → (content : String) × (H.read_file file s ≡ ok content) × (decode content ≡ ok a)
unfolding parse_json_file
parse_json_file-eq-ok H decode file s {a} h =
    elim (H.read_file file s)
        as (λ r.
          H.read_file file s ≡ r
          → (content : String) × (H.read_file file s ≡ ok content) × (decode content ≡ ok a)) [
            | ok content ↦ λ e. (content, e, ground arith)
            | err x ↦ λ e. absurd (ground arith)
          ]
      refl

-- NewCSIControllerConfig returns a configuration exactly where the file can be read and decodes to it: the
-- file that the variable names or, where the variable is not set or empty, the default one.
new_csi_controller_config_iff :
    (H : Host) (decode : String → Result CsiControllerConfig) (getenv : Environment)
    (env def : String) (s : H.State) (config : CsiControllerConfig)
    → (new_csi_controller_config H decode getenv env def s ≡ ok config) ↔ (
        (file content : String) × IsChosen getenv env def file
        × (H.read_file file s ≡ ok content)
        × (decode content ≡ ok config))
unfolding new_csi_controller_config
new_csi_controller_config_iff H decode getenv env def s config = (
  λ h.
      let (content, read, decoded) =
        parse_json_file-eq-ok H decode (from_env getenv env def) s (ground arith) in
      (
        from_env getenv env def,
        content,
        (from_env-IsChosen getenv env def (from_env getenv env def)).0 refl,
        read,
        decoded,
      ),
  λ (file, content, chosen, read, decoded).
      ground (arith, (from_env-IsChosen getenv env def file).1 chosen, read, decoded),
)
