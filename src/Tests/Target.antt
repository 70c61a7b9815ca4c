-- ===== src/Tests/Target.antt =====
-- Requests to a small storage target.
use nvmeof_csi.Base.{
  ℕ, ◌<◌, String, ◌≡◌, ◌↔◌, refl, Bool, true, false, none, some, List, [], ◌∷◌, ok, err, plain,
  wrapped, done, halted, panic, ◌==◌, string_eq, if◌then◌else◌,
}
use nvmeof_csi.Base.Int.{pos}
use nvmeof_csi.Base.Text.{
  to_lower, lower_text, small_letter, contains, has_prefix, trim_prefix, drop_prefix, trim_space,
}
use nvmeof_csi.Rpc.Call.{
  Response, HttpResponse, BDev, Transport, Client, call, checked, next_id, error_matches,
  no_such_device, no_params,
}
use nvmeof_csi.Rpc.Laws.{request, after, Accepted, checked-call_iff}
use nvmeof_csi.Spdk.Node.{NodeNvmf}
use nvmeof_csi.Spdk.Publishing.{publish_volume, unpublish_volume}
use nvmeof_csi.Spdk.Laws.{publish_volume_unanswered}

-- A target that answers every request with the last ID and the same contents, and refuses the methods
-- of its state. A body is the ID with the refusal.
abbrev Log : Type 0
Log = List String

abbrev refuses : String → Log → Bool
refuses m [] = false
refuses m (n ∷ rest) = if n == m then true else refuses m rest

abbrev pub answer : {A : Type 0} → A → ℕ × Bool → Response A
answer a (n, bad) = record {
  id = n;
  error_code_zero = if bad then false else true;
  error_message = "Internal error";
  result = a;
  decode_error = none;
}

abbrev pub bdev : BDev
bdev = record {
  name = "lvol-1";
  uuid = "4c1d";
  block_size = pos 4096;
  num_blocks = pos 256;
  driver_specific = some "lvs";
}

abbrev pub target : Transport
target = record {
  State = Log;
  Body = ℕ × Bool;
  post =
      λ req log. (ok (record { status_code = 200; body = (req.id, refuses req.method log) }), log);
  decode_nothing = answer tt;
  decode_text = answer "4c1d";
  decode_number = answer 1;
  decode_bdevs = answer (bdev ∷ []);
  decode_lvstores = answer [];
  decode_listeners = answer [];
  decode_subsystems = answer [];
}

-- A target that nothing can be sent to.
abbrev dead : Transport
dead = record target { post = λ req log. (err (plain "connection refused"), log) }

abbrev pub node : NodeNvmf
node = record {
  rpc_url = "http://10.0.0.1:9009";
  target_type = "TCP";
  target_addr = "10.0.0.1";
  target_port = "4420";
}

abbrev pub client : Log → Client Log
client log = record { rpc_id = 0; trans_created = false; world = log }

checked-call_iff_example :
    (checked target (call target "" target.decode_text "bdev_lvol_clone" no_params) (client [])
      ≡ done "4c1d" (after target (client []) []))
    ↔ ((resp : HttpResponse (ℕ × Bool)) × (w : Log) × (target.post
            (request target "bdev_lvol_clone" no_params (client []))
            []
          ≡ (ok resp, w))
        × (after target (client []) [] ≡ after target (client []) w)
        × (resp.status_code < 400)
        × Accepted (next_id target (client [])) (target.decode_text resp.body) "4c1d")
checked-call_iff_example =
    checked-call_iff target "" target.decode_text "bdev_lvol_clone" no_params (client []) "4c1d"
      (after target (client []) [])

unlike_missing :
    error_matches (wrapped "bdev_get_bdevs" (plain "connection refused")) no_such_device ≡ false
unfolding error_matches to_lower lower_text small_letter contains has_prefix trim_prefix drop_prefix
    trim_space
unlike_missing = refl

publish_volume_unanswered_example :
    (publish_volume dead node "4c1d" (client []) ≡ halted panic (after dead (client []) []))
    × (unpublish_volume dead node "4c1d" (client []) ≡ halted panic (after dead (client []) []))
publish_volume_unanswered_example =
    publish_volume_unanswered dead node "4c1d" (client []) (plain "connection refused") [] refl
      unlike_missing
