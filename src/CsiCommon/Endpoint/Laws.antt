-- ===== src/CsiCommon/Endpoint/Laws.antt =====
-- csi-common/utils.go `parseEndpoint`: what it accepts, and what it returns.
use nvmeof_csi.Base.{String, ◌<>◌, ◌≡◌, ◌≢◌, true, some, string_eq, ok, arith, eq_iff}
use text.Mathlib.TextLemmas.{cons-append, nil-append}
use nvmeof_csi.Base.Text.{split_once}
use nvmeof_csi.Base.Text.Laws.{split_once_sound}
use nvmeof_csi.CsiCommon.Endpoint.{is_listed, parse_endpoint, listen_on}

parse_endpoint-eq-ok :
    (ep : String) {proto addr : String}
    → parse_endpoint ep ≡ ok (proto, addr)
    → (is_listed ep ≡ true) × (split_once "://" ep ≡ some (proto, addr)) × (addr ≢ "")
unfolding parse_endpoint
parse_endpoint-eq-ok ep {proto} {addr} h = ground (arith, eq_iff addr "")

local_text :
    (p : String)
    → ("unix://" <> p)
      ≡ String.◌∷◌ "u" (
          String.◌∷◌ "n"
            (String.◌∷◌ "i" (String.◌∷◌ "x" (String.◌∷◌ ":" (String.◌∷◌ "/" (String.◌∷◌ "/" p))))))
local_text p = rw (
  cons-append, cons-append, cons-append, cons-append, cons-append, cons-append, cons-append,
  nil-append,
)

shouted_text :
    (p : String)
    → ("UNIX://" <> p)
      ≡ String.◌∷◌ "U" (
          String.◌∷◌ "N"
            (String.◌∷◌ "I" (String.◌∷◌ "X" (String.◌∷◌ ":" (String.◌∷◌ "/" (String.◌∷◌ "/" p))))))
shouted_text p = rw (
  cons-append, cons-append, cons-append, cons-append, cons-append, cons-append, cons-append,
  nil-append,
)

-- With a path that is not empty, the endpoint `unix://path` makes the server listen on the network
-- "unix" at `/path`, and the endpoint `UNIX://path`, which passes the same test, on the network
-- "UNIX" at `path` with no slash put in front.
pub listen_on_local :
    (path : String)
    → path ≢ ""
    → (listen_on ("unix://" <> path) ≡ ok ("unix", "/" <> path))
      × (listen_on ("UNIX://" <> path) ≡ ok ("UNIX", path))
unfolding listen_on parse_endpoint is_listed split_once
listen_on_local path h = (
  rw (local_text path) (ground (arith, eq_iff path "")),
  rw (shouted_text path) (ground (arith, eq_iff path "")),
)

-- Whatever endpoint is accepted is the returned scheme, the separator and the returned address;
-- the address is not empty, and the endpoint begins with one of the two schemes in some case.
parse_endpoint_sound :
    (ep : String) {proto addr : String}
    → parse_endpoint ep ≡ ok (proto, addr)
    → (ep ≡ proto <> ("://" <> addr)) × (addr ≢ "") × (is_listed ep ≡ true)
parse_endpoint_sound ep {proto} {addr} h =
    let (listed, found, filled) = parse_endpoint-eq-ok ep h in
    (split_once_sound "://" ep found, filled, listed)
