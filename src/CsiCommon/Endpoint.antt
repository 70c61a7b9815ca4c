-- ===== src/CsiCommon/Endpoint.antt =====
-- csi-common/utils.go `parseEndpoint`, and the address on which csi-common/server.go listens.
pub mod Laws
use nvmeof_csi.Base.{
  String, ◌<>◌, Bool, ◌||◌, Option, none, some, ◌==◌, string_eq, if◌then◌else◌, Result, ok, err,
  plain,
}
use nvmeof_csi.Base.Text.{codes, to_lower, has_prefix, split_once}

-- `strings.HasPrefix(strings.ToLower(ep), …)` for the two schemes.
unfoldable pub is_listed : String → Bool
unfolding to_lower has_prefix
is_listed ep =
    has_prefix (to_lower ep) (codes "unix://") || has_prefix (to_lower ep) (codes "tcp://")

abbrev pub invalid_endpoint : {A : Type 0} → String → Result A
invalid_endpoint ep = err (plain ("invalid endpoint: " <> ep))

-- The scheme and the address. `none` of `split_once`, where `s[1]` would be out of range, is not
-- reached: a listed endpoint contains the separator.
unfoldable pub parse_endpoint : String → Result (String × String)
parse_endpoint ep =
    if is_listed ep
    then elim (split_once "://" ep) [
      | none ↦ invalid_endpoint ep
      | some (proto, addr) ↦ if addr == "" then invalid_endpoint ep else ok (proto, addr)
    ]
    else invalid_endpoint ep

-- `serve` up to `net.Listen`: the network and the address that it listens on.
unfoldable pub listen_on : String → Result (String × String)
listen_on ep = elim (parse_endpoint ep) [
  | err e ↦ err e
  | ok (proto, addr) ↦ ok (proto, if proto == "unix" then "/" <> addr else addr)
]
