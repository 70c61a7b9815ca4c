-- ===== src/Spdk/Deletion.antt =====
-- util/nvmf.go: `DeleteVolume`, and the requests for a volume that is gone. As in Volumes, the laws are those
-- of the node's JSON-RPC methods.
use nvmeof_csi.Base.{
  ℕ, String, ◌<>◌, ◌<◌, ◌≡◌, refl, true, false, none, ok, plain, arith, done, failed, nat_eq,
  on_error-eq-done,
}
use nvmeof_csi.Base.Text.{
  to_lower, lower_text, small_letter, contains, has_prefix, trim_prefix, drop_prefix, trim_space,
}
use nvmeof_csi.Rpc.Call.{
  Transport, Client, HttpResponse, Params, call, checked, read_answer, read_response, next_id,
  no_such_device, volume_deleted, error_matches,
}
use nvmeof_csi.Rpc.Volumes.{
  get_volume, first_volume, is_volume_created, is_no_such_device, delete_lvol, sentinel,
}
use nvmeof_csi.Rpc.Laws.{request, after, checked-call_iff}
use nvmeof_csi.Spdk.Node.{NodeNvmf, delete_volume}
use nvmeof_csi.Spdk.Publishing.{publish_volume, unpublish_volume, published_volume}
use nvmeof_csi.Spdk.Target.{IsAnswered}
use nvmeof_csi.Spdk.Volumes.{BdevView}

-- What a node answers when it deletes a bdev, and when it is asked for one that it does not have.
pub record DeletionView (T : Transport) (V : BdevView T) : Type 0 where
  pub deleted :
      (id : ℕ) (name : String) (w : T.State) {v : T.State}
      → IsAnswered T T.decode_nothing
          (record { ver = "2.0"; id = id; method = "bdev_lvol_delete"; params = Params.name name })
          w
          tt
          v
      → V.bdev v name ≡ none
  pub absent :
      (id : ℕ) (name : String) (w : T.State) {resp : HttpResponse T.Body} {v : T.State}
      → V.bdev w name ≡ none
      → T.post
          (record { ver = "2.0"; id = id; method = "bdev_get_bdevs"; params = Params.name name })
          w
        ≡ (ok resp, v)
      → ((T.decode_bdevs resp.body).error_code_zero ≡ false)
        × ((T.decode_bdevs resp.body).error_message ≡ "No such device")

module _ (T : Transport) {V : BdevView T} (D : DeletionView T V) where
  delete_volume-bdev :
      (id : String) (c : Client T.State) {t : Client T.State}
      → delete_volume T id c ≡ done tt t
      → V.bdev t.world id ≡ none
  unfolding delete_volume delete_lvol
  delete_volume-bdev id c {t} h =
      let answered =
        on_error-eq-done (sentinel no_such_device)
          (checked T (call T tt T.decode_nothing "bdev_lvol_delete" (Params.name id))) c h in
      let (resp, w, sent, moved, status, rest) =
        (checked-call_iff T tt T.decode_nothing "bdev_lvol_delete" (Params.name id) c tt t).0
          answered in
      D.deleted (next_id T c) id c.world (resp, ground (arith, sent, moved), status, rest)

  error_matches-no_such_device :
      (text : String)
      → text ≡ "No such device"
      → error_matches
          (plain ("bdev_get_bdevs" <> (": json response error: " <> text)))
          no_such_device
        ≡ true
  unfolding error_matches to_lower lower_text small_letter contains has_prefix trim_prefix
      drop_prefix trim_space
  error_matches-no_such_device text e = rw e refl

  -- A bdev that the node does not have is found missing.
  get_volume-missing :
      (id : String) (c : Client T.State) {resp : HttpResponse T.Body} {w : T.State}
      → V.bdev c.world id ≡ none
      → T.post (request T "bdev_get_bdevs" (Params.name id) c) c.world ≡ (ok resp, w)
      → resp.status_code < 400
      → (T.decode_bdevs resp.body).decode_error ≡ none
      → (T.decode_bdevs resp.body).id ≡ next_id T c
      → get_volume T id c ≡ failed no_such_device (after T c w)
  unfolding get_volume first_volume call read_answer read_response
  get_volume-missing id c {resp} {w} gone answered status decodes same =
      let (code, text) = D.absent (next_id T c) id c.world gone answered in
      ground
        (arith, error_matches-no_such_device (T.decode_bdevs resp.body).error_message text, code)

  -- After a `DeleteVolume` that succeeds, where the node answers the request for the volume with a
  -- status under 400 and a body that decodes and carries the request's ID: the lookup of that
  -- volume fails with "No such device", and `PublishVolume` and `UnpublishVolume` fail with
  -- `ErrVolumeDeleted` after this one request.
  pub publish-delete_volume :
      (node : NodeNvmf) (id : String) (c : Client T.State) {t : Client T.State}
      {resp : HttpResponse T.Body} {w : T.State}
      → delete_volume T id c ≡ done tt t
      → T.post (request T "bdev_get_bdevs" (Params.name id) t) t.world ≡ (ok resp, w)
      → resp.status_code < 400
      → (T.decode_bdevs resp.body).decode_error ≡ none
      → (T.decode_bdevs resp.body).id ≡ next_id T t
      → (get_volume T id t ≡ failed no_such_device (after T t w))
        × (publish_volume T node id t ≡ failed volume_deleted (after T t w))
        × (unpublish_volume T node id t ≡ failed volume_deleted (after T t w))
  unfolding publish_volume unpublish_volume published_volume is_volume_created is_no_such_device
  publish-delete_volume node id c {t} deleted answered status decodes same =
      let missing =
        get_volume-missing id t (delete_volume-bdev id c deleted) answered status decodes same in
      (missing, ground (arith, missing), ground (arith, missing))
