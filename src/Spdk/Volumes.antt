-- ===== src/Spdk/Volumes.antt =====
-- util/nvmf.go: `CreateVolume` of a volume that exists. What a storage node answers about its bdevs is not
-- part of the program; the laws are those of its JSON-RPC methods.
use nvmeof_csi.Base.{
  ℕ, String, Bool, ◌≡◌, refl, Option, some, List, [], ◌∷◌, ok, err, arith, done, failed, halted,
  true, Result, on_error-eq-done,
}
use nvmeof_csi.Base.Int.{ℤ, pos, mul_int64}
use nvmeof_csi.Rpc.Call.{
  Answer, Transport, Client, HttpResponse, Params, lvol_create, BDev, call, checked, read_answer,
  read_response, next_id, no_space_left,
}
use nvmeof_csi.Rpc.Volumes.{get_volume, first_volume, first_result, create_lvol, sentinel}
use nvmeof_csi.Rpc.Laws.{request, after, checked-call_iff}
use nvmeof_csi.Spdk.Node.{alias, create_volume, unless_exists}
use nvmeof_csi.Spdk.Target.{IsAnswered}

-- The bdev of each name and of each alias.
pub record BdevView (T : Transport) : Type 0 where
  pub bdev : T.State → String → Option BDev
  pub queried :
      (id : ℕ) (name : String) (w : T.State) {resp : HttpResponse T.Body} {v : T.State} {b : BDev}
      {rest : List BDev}
      → T.post
          (record { ver = "2.0"; id = id; method = "bdev_get_bdevs"; params = Params.name name })
          w
        ≡ (ok resp, v)
      → (T.decode_bdevs resp.body).result ≡ b ∷ rest
      → (bdev w name ≡ some b) × (bdev v name ≡ some b)
  pub created :
      (id : ℕ) (lvol_name lvs_name clear_method : String) (size : ℤ) (thin : Bool) (w : T.State)
      {uuid : String} {v : T.State}
      → IsAnswered T T.decode_text
          (record {
            ver = "2.0";
            id = id;
            method = "bdev_lvol_create";
            params = Params.lvol_create lvol_name size lvs_name clear_method thin;
          })
          w
          uuid
          v
      → (b : BDev) × (bdev v (alias lvs_name lvol_name) ≡ some b) × (b.uuid ≡ uuid)

module _ (T : Transport) (V : BdevView T) where
  -- What `getVolume` makes of an answer.
  first_volume-result :
      (a : Answer (List BDev)) (c : Client T.State) {b : BDev} {t : Client T.State}
      → first_volume a c ≡ done b t
      → (rest : List BDev) × (a.result ≡ b ∷ rest) × (c ≡ t)
  unfolding first_volume first_result
  first_volume-result a c {b} {t} h =
      elim a.result
          as (λ ls. a.result ≡ ls → (rest : List BDev) × (a.result ≡ b ∷ rest) × (c ≡ t)) [
            | [] ↦ λ e. absurd (ground (arith, h, e))
            | d ∷ rest ↦ λ e. (rest, ground (arith, h, e), ground (arith, h, e))
          ]
        refl

  read_answer-result :
      (id : ℕ) (r : Result (HttpResponse T.Body)) {b : BDev} {rest : List BDev}
      → (read_answer "bdev_get_bdevs" [] T.decode_bdevs id r).result ≡ b ∷ rest
      → (resp : HttpResponse T.Body) × (r ≡ ok resp)
        × ((T.decode_bdevs resp.body).result ≡ b ∷ rest)
  unfolding read_answer read_response
  read_answer-result id (err e) h = absurd (ground (arith, h))
  read_answer-result id (ok resp) h = (resp, refl, ground (arith, h))

  get_volume-posts :
      (name : String) (c : Client T.State) {b : BDev} {t : Client T.State}
      → get_volume T name c ≡ done b t
      → (resp : HttpResponse T.Body) × (rest : List BDev) × (T.post
            (request T "bdev_get_bdevs" (Params.name name) c)
            c.world
          ≡ (ok resp, t.world))
        × ((T.decode_bdevs resp.body).result ≡ b ∷ rest)
  unfolding get_volume call
  get_volume-posts name c {b} {t} h =
      let p = T.post (request T "bdev_get_bdevs" (Params.name name) c) c.world in
      let (rest, found, same) =
        first_volume-result (read_answer "bdev_get_bdevs" [] T.decode_bdevs (next_id T c) p.0)
          (after T c p.1) h in
      let (resp, answered, listed) = read_answer-result (next_id T c) p.0 found in
      (resp, rest, ground (arith, answered, same), listed)

  get_volume-bdev :
      (name : String) (c : Client T.State) {b : BDev} {t : Client T.State}
      → get_volume T name c ≡ done b t
      → (V.bdev c.world name ≡ some b) × (V.bdev t.world name ≡ some b)
  get_volume-bdev name c h =
      let (resp, rest, answered, listed) = get_volume-posts name c h in
      V.queried (next_id T c) name c.world answered listed

  create_lvol-bdev :
      (lvol_name lvs_name : String) (size_mib : ℤ) (c : Client T.State) {uuid : String}
      {t : Client T.State}
      → create_lvol T lvol_name lvs_name size_mib c ≡ done uuid t
      → (b : BDev) × (V.bdev t.world (alias lvs_name lvol_name) ≡ some b) × (b.uuid ≡ uuid)
  unfolding create_lvol
  create_lvol-bdev lvol_name lvs_name size_mib c {uuid} {t} h =
      let size = mul_int64 (mul_int64 size_mib (pos 1024)) (pos 1024) in
      let ps = lvol_create lvol_name size lvs_name "unmap" true in
      let answered =
        on_error-eq-done (sentinel no_space_left)
          (checked T (call T "" T.decode_text "bdev_lvol_create" ps)) c h in
      let (resp, w, sent, moved, status, rest) =
        (checked-call_iff T "" T.decode_text "bdev_lvol_create" ps c uuid t).0 answered in
      V.created (next_id T c) lvol_name lvs_name "unmap" size true c.world
        (resp, ground (arith, sent, moved), status, rest)

  -- The volume that `CreateVolume` returned is there.
  create_volume-bdev :
      (lvol_name lvs_name : String) (size_mib : ℤ) (c : Client T.State) {uuid : String}
      {t : Client T.State}
      → create_volume T lvol_name lvs_name size_mib c ≡ done uuid t
      → (b : BDev) × (V.bdev t.world (alias lvs_name lvol_name) ≡ some b) × (b.uuid ≡ uuid)
  unfolding create_volume unless_exists
  create_volume-bdev lvol_name lvs_name size_mib c {uuid} {t} h =
      elim (get_volume T (alias lvs_name lvol_name) c)
          as (λ r.
            get_volume T (alias lvs_name lvol_name) c ≡ r
            → (b : BDev) × (V.bdev t.world (alias lvs_name lvol_name) ≡ some b) × (b.uuid ≡ uuid)) [
              | done b u ↦ λ e.
                  let (before, there) = get_volume-bdev (alias lvs_name lvol_name) c e in
                  (b, ground (arith, h, e, there), ground (arith, h, e))
              | failed x u ↦ λ e.
                  create_lvol-bdev lvol_name lvs_name size_mib u {uuid = uuid} {t = t}
                    (ground (arith, h, e))
              | halted k u ↦ λ e. absurd (ground (arith, h, e))
            ]
        refl

  -- After a `CreateVolume` that succeeds, a second one with the same names, whatever its size, returns the same
  -- UUID, where the node answers with the volume; and it sends no request but that for the volume.
  pub create_volume_idempotent :
      (lvol_name lvs_name : String) (size_mib other : ℤ) (c : Client T.State) {uuid : String}
      {t : Client T.State} {b : BDev} {u : Client T.State}
      → create_volume T lvol_name lvs_name size_mib c ≡ done uuid t
      → get_volume T (alias lvs_name lvol_name) t ≡ done b u
      → create_volume T lvol_name lvs_name other t ≡ done uuid u
  unfolding create_volume unless_exists
  create_volume_idempotent lvol_name lvs_name size_mib other c {uuid} {t} {b} {u} made asked =
      let (d, there, named) = create_volume-bdev lvol_name lvs_name size_mib c made in
      let (before, after) = get_volume-bdev (alias lvs_name lvol_name) t asked in
      ground (arith, asked, there, named, before)
