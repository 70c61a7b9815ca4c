-- ===== src/Tests/Bdevs.antt =====
-- A volume that is created twice on a small storage node.
use nvmeof_csi.Base.{
  ℕ, String, ◌≡◌, refl, ap, sym, ◌∙◌, Bool, true, false, Option, none, some, List, [], ◌∷◌, ok,
  Result, Run, done, failed, final, arith, ◌==◌, string_eq, nat_eq, if◌then◌else◌, eq_iff,
}
use nvmeof_csi.Base.Int.{pos}
use nvmeof_csi.Base.Text.{
  to_lower, lower_text, small_letter, contains, has_prefix, trim_prefix, drop_prefix, trim_space,
}
use nvmeof_csi.Rpc.Call.{
  Transport, Client, HttpResponse, Response, Params, BDev, call, checked, read_answer,
  read_response, next_id, error_matches, no_such_device, volume_deleted,
}
use nvmeof_csi.Rpc.Volumes.{
  get_volume, first_volume, first_result, create_lvol, sentinel, delete_lvol,
}
use nvmeof_csi.Rpc.Laws.{request, after}
use nvmeof_csi.Spdk.Node.{NodeNvmf, alias, create_volume, unless_exists, delete_volume}
use nvmeof_csi.Spdk.Publishing.{publish_volume, unpublish_volume}
use nvmeof_csi.Spdk.Deletion.{DeletionView, publish-delete_volume}
use nvmeof_csi.Spdk.Volumes.{BdevView, create_volume_idempotent}

abbrev Bdevs : Type 0
Bdevs = String → Option BDev

abbrev volume : String → BDev
volume name = record {
  name = name;
  uuid = "4c1d";
  block_size = pos 4096;
  num_blocks = pos 256;
  driver_specific = some "lvs";
}

abbrev with_bdev : String → BDev → Bdevs → Bdevs
with_bdev name b x p = if p == name then some b else x p

abbrev without_bdev : String → Bdevs → Bdevs
without_bdev name x p = if p == name then none else x p

abbrev listed : Option BDev → List BDev
listed none = []
listed (some b) = b ∷ []

-- The bdevs that a request lists, and the bdevs that it leaves.
abbrev respond : (method : String) → Params → Bdevs → List BDev × Bdevs
respond method (Params.name p) x =
    if method == "bdev_lvol_delete" then ([], without_bdev p x) else (listed (x p), x)
respond method (Params.lvol_create lvol size lvs clear thin) x =
    ([], with_bdev (alias lvs lvol) (volume (alias lvs lvol)) x)
respond method _ x = ([], x)

abbrev is_full : List BDev → Bool
is_full [] = false
is_full (b ∷ rest) = true

abbrev read : {A : Type 0} → A → Bool → ℕ → Response A
read a good n = record {
  id = n;
  error_code_zero = good;
  error_message = "No such device";
  result = a;
  decode_error = none;
}

abbrev storage : Transport
storage = record {
  State = Bdevs;
  Body = ℕ × List BDev;
  post = λ req x.
      let (ls, y) = respond req.method req.params x in
      (ok (record { status_code = 200; body = (req.id, ls) }), y);
  decode_nothing = λ body. read tt true body.0;
  decode_text = λ body. read "4c1d" true body.0;
  decode_number = λ body. read 1 true body.0;
  decode_bdevs = λ body. read body.1 (is_full body.1) body.0;
  decode_lvstores = λ body. read [] true body.0;
  decode_listeners = λ body. read [] true body.0;
  decode_subsystems = λ body. read [] true body.0;
}

posted_body :
    {x y : Bdevs} (n : ℕ) (ls : List BDev) {resp : HttpResponse (ℕ × List BDev)}
    → ◌≡◌ {A = Result (HttpResponse (ℕ × List BDev)) × Bdevs}
        (ok (record { status_code = 200; body = (n, ls) }), x)
        (ok resp, y)
    → (resp.body.1 ≡ ls) × (x ≡ y)
posted_body n ls h = (ground arith, ap (λ z. z.1) h)

listed-cons : (o : Option BDev) {b : BDev} {rest : List BDev} → listed o ≡ b ∷ rest → o ≡ some b
listed-cons none h = absurd (ground (arith, h))
listed-cons (some d) h = ground (arith, h)

view : BdevView storage
view = record {
  bdev = λ x. x;
  queried = λ id name x posted has.
      let (body, moved) = posted_body id (listed (x name)) posted in
      let found = listed-cons (x name) (sym body ∙ has) in
      (found, ap (λ (y : Bdevs). y name) (sym moved) ∙ found);
  created = λ id lvol lvs clear size thin x (resp, posted, status, (decodes, same, zero, result)).
      let (body, moved) = posted_body id [] posted in
      (
        volume (alias lvs lvol),
        ap (λ (y : Bdevs). y (alias lvs lvol)) (sym moved)
            ∙ ground (arith, eq_iff (alias lvs lvol) (alias lvs lvol)),
        result,
      );
}

abbrev client : Client Bdevs
client = record { rpc_id = 0; trans_created = false; world = λ p. none }

abbrev creating : Run (Client Bdevs) String
creating = create_volume storage "pvc-1" "lvs" (pos 16) client

abbrev asking : Run (Client Bdevs) BDev
asking = get_volume storage (alias "lvs" "pvc-1") (final creating)

runs_lem :
    (creating ≡ done "4c1d" (final creating)) × (asking ≡ done (volume "lvs/pvc-1") (final asking))
unfolding create_volume unless_exists create_lvol sentinel get_volume first_volume first_result
    checked call read_answer read_response next_id error_matches to_lower lower_text small_letter
    contains has_prefix trim_prefix drop_prefix trim_space
runs_lem = (refl, refl)

create_volume_idempotent_example :
    create_volume storage "pvc-1" "lvs" (pos 32) (final creating) ≡ done "4c1d" (final asking)
create_volume_idempotent_example =
    create_volume_idempotent storage view "pvc-1" "lvs" (pos 16) (pos 32) client runs_lem.0
      runs_lem.1

deletion : DeletionView storage view
unfolding view
deletion = record {
  deleted = λ id name x (resp, posted, status, (decodes, same, zero, result)).
      let (body, moved) = posted_body id [] posted in
      ap (λ (y : Bdevs). y name) (sym moved) ∙ ground (arith, eq_iff name name);
  absent = λ id name x gone posted.
      let (body, moved) = posted_body id (listed (x name)) posted in
      (ap is_full (body ∙ ap listed gone), refl);
}

-- The node that has deleted the volume.
abbrev deleting : Run (Client Bdevs) (Unit {0})
deleting = delete_volume storage "lvs/pvc-1" (final creating)

abbrev node : NodeNvmf
node = record {
  rpc_url = "http://10.0.0.1:9009";
  target_type = "TCP";
  target_addr = "10.0.0.1";
  target_port = "4420";
}

deleting_lem : deleting ≡ done tt (final deleting)
unfolding delete_volume delete_lvol sentinel create_volume unless_exists create_lvol get_volume
    first_volume first_result checked call read_answer read_response next_id error_matches to_lower
    lower_text small_letter contains has_prefix trim_prefix drop_prefix trim_space
deleting_lem = refl

abbrev answered : Result (HttpResponse (ℕ × List BDev)) × Bdevs
answered =
    storage.post (request storage "bdev_get_bdevs" (Params.name "lvs/pvc-1") (final deleting))
      (final deleting).world

publish-delete_volume_example :
    (get_volume storage "lvs/pvc-1" (final deleting)
      ≡ failed no_such_device (after storage (final deleting) answered.1))
    × (publish_volume storage node "lvs/pvc-1" (final deleting)
        ≡ failed volume_deleted (after storage (final deleting) answered.1))
    × (unpublish_volume storage node "lvs/pvc-1" (final deleting)
        ≡ failed volume_deleted (after storage (final deleting) answered.1))
publish-delete_volume_example =
    publish-delete_volume storage deletion node "lvs/pvc-1" (final creating) deleting_lem refl
      (omega arith) refl refl
