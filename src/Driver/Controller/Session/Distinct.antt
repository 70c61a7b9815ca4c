-- ===== src/Driver/Controller/Session/Distinct.antt =====
-- driver/controllerserver.go: the volume IDs that a controller gives out.
use nvmeof_csi.Base.{
  ℕ, String, true, false, Bool-cases, inl, inr, List, [], ◌∷◌, ◌≡◌, ◌≢◌, refl, sym, subst, ap, ◌∙◌,
  Result, ok, err, arith, nat_eq, string_eq, ◌==◌, Action, done, final,
}
use nvmeof_csi.Base.Dict.{index}
use nvmeof_csi.Locks.{Server, with_lock}
use nvmeof_csi.Locks.Laws.{
  AllFree, relocked, relocked-AllFree, with_lock_runs, final-served, with_lock-eq-done,
}
use nvmeof_csi.Driver.Gateway.{Gateway, NsidStatus}
use nvmeof_csi.Driver.Controller.VolumeId.{
  Json, IsLawful, VolumeIdentifier, encode_volume_id, decode_volume_id, decode-encode_volume_id,
}
use nvmeof_csi.Driver.Controller.Create.{
  CreateVolumeRequest, Volume, namespace_add_req, create_volume, created, create_volume_locked,
  handle_create_volume,
}
use nvmeof_csi.Driver.Controller.Create.Laws.{identifier, create_volume_done, create_volume_fails}
use nvmeof_csi.Driver.Controller.Delete.{delete_volume, handle_delete_volume}
use nvmeof_csi.Driver.Controller.Publish.{ControllerPublishVolumeRequest, controller_publish_volume}
use nvmeof_csi.Driver.Controller.Session.{
  NamespaceView, Request, creates, deletes, publishes, attempt, attempt_all, NeverDeleted,
}

module _ (G : Gateway) (J : Json) (N : NamespaceView G) where
  -- A `CreateVolume` that succeeds was answered with a namespace, whose identifier is the volume ID.
  create_volume_locked-eq-done :
      (req : CreateVolumeRequest) (g : G.State) (a : Result NsidStatus) {g' : G.State} {v : Volume}
      {t : G.State}
      → G.namespace_add (namespace_add_req req) g ≡ (a, g')
      → create_volume_locked G J req g ≡ done v t
      → (resp : NsidStatus) × (a ≡ ok resp)
        × (resp.status ≡ 0)
        × (encode_volume_id J (identifier req resp) ≡ ok v.volume_id)
        × (t ≡ g')
  create_volume_locked-eq-done req g (err e) asked h =
      let (text, bad) = create_volume_fails G J req g (err e) asked (λ resp k. cc) in
      absurd (ground (arith, bad, h))
  create_volume_locked-eq-done req g (ok resp) asked h = elim (Bool-cases (resp.status == 0)) [
    | inl zero ↦
        let (id, encoded, runs) = create_volume_done G J req g asked (ground (arith, zero)) in
        (
          resp,
          refl,
          ground (arith, zero),
          ground (arith, encoded, runs, h),
          ground (arith, runs, h),
        )
    | inr other ↦
        let (text, bad) =
          create_volume_fails G J req g (ok resp) asked (λ r k. ground (arith, other, k)) in
        absurd (ground (arith, bad, h))
  ]

  -- What `CreateVolume` leaves is what the gateway's call leaves.
  create_volume_locked-final :
      (req : CreateVolumeRequest) (g : G.State)
      → final (create_volume_locked G J req g) ≡ (G.namespace_add (namespace_add_req req) g).1
  unfolding create_volume_locked create_volume created
  create_volume_locked-final req g = ground arith

  delete_volume-final :
      (v : VolumeIdentifier) (g : G.State)
      → final (delete_volume G J v g)
        ≡ (G.namespace_delete (record { nsid = v.nsid; subsystem_nqn = v.nqn }) g).1
  unfolding delete_volume
  delete_volume-final v g = ground arith

  controller_publish_volume-final :
      (req : ControllerPublishVolumeRequest) (g : G.State)
      → final (controller_publish_volume G req g)
        ≡ (G.list_namespaces (index "nqn" req.volume_context) g).1
  unfolding controller_publish_volume
  controller_publish_volume-final req g = ground arith

  with_lock-final :
      {A : Type 0} (k : String) (body : Action G.State A) (s : Server G.State)
      → AllFree s.locks
      → (final (with_lock k body s)
          ≡ record { locks = relocked k s.locks; world = final (body s.world) })
  with_lock-final k body s free =
      ap final (with_lock_runs k body s free) ∙ final-served (relocked k s.locks) (body s.world)

  -- A namespace that a state of the server has.
  abbrev Keeps : String → ℕ → Server G.State → Type 0
  Keeps nqn nsid s = (N.present s.world nqn nsid ≡ true) × AllFree s.locks

  locked-Keeps :
      {A : Type 0} (nqn : String) (nsid : ℕ) (k : String) (body : Action G.State A)
      (s : Server G.State)
      → AllFree s.locks
      → N.present (final (body s.world)) nqn nsid ≡ true
      → Keeps nqn nsid (final (with_lock k body s))
  locked-Keeps nqn nsid k body s free h =
      subst (Keeps nqn nsid) (sym (with_lock-final k body s free))
        (h, relocked-AllFree k s.locks free)

  delete-Keeps :
      (id nqn : String) (nsid : ℕ) (s : Server G.State)
      → ((w : VolumeIdentifier) → decode_volume_id J id ≡ ok w → w.nqn ≡ nqn → w.nsid ≡ nsid → ⊥)
      → Keeps nqn nsid s
      → Keeps nqn nsid (final (handle_delete_volume G J id s))
  unfolding handle_delete_volume
  delete-Keeps id nqn nsid s spared (there, free) = elim (Bool-cases (id == "")) [
    | inl empty ↦
        let same : s ≡ final (handle_delete_volume G J id s) = ground (arith, empty) in
        subst (Keeps nqn nsid) same (there, free)
    | inr filled ↦
        elim (decode_volume_id J id)
            as (λ r.
              decode_volume_id J id ≡ r → Keeps nqn nsid (final (handle_delete_volume G J id s))) [
                | err x ↦ λ e.
                    let same : s ≡ final (handle_delete_volume G J id s) =
                      ground (arith, filled, e) in
                    subst (Keeps nqn nsid) same (there, free)
                | ok w ↦ λ e.
                    let run : with_lock w.volume_name (delete_volume G J w) s
                        ≡ handle_delete_volume G J id s =
                      ground (arith, filled, e) in
                    let kept =
                      N.delete_keeps (record { nsid = w.nsid; subsystem_nqn = w.nqn }) s.world nqn
                        nsid there (spared w e) in
                    subst (λ r. Keeps nqn nsid (final r)) run
                      (locked-Keeps nqn nsid w.volume_name (delete_volume G J w) s free
                        (ap (λ g. N.present g nqn nsid) (delete_volume-final w s.world) ∙ kept))
              ]
          refl
  ]

  attempt-Keeps :
      (r : Request) (nqn : String) (nsid : ℕ) (s : Server G.State)
      → NeverDeleted G J nqn nsid (r ∷ [])
      → Keeps nqn nsid s
      → Keeps nqn nsid (attempt G J r s)
  unfolding attempt handle_create_volume
  attempt-Keeps (creates req) nqn nsid s spared (there, free) =
      locked-Keeps nqn nsid req.name (create_volume_locked G J req) s free (
        ap (λ g. N.present g nqn nsid) (create_volume_locked-final req s.world)
        ∙ N.add_keeps (namespace_add_req req) s.world nqn nsid there)
  attempt-Keeps (deletes id) nqn nsid s (spared, _) k = delete-Keeps id nqn nsid s spared k
  attempt-Keeps (publishes req) nqn nsid s spared (there, free) = (
    ap (λ g. N.present g nqn nsid) (controller_publish_volume-final req s.world)
        ∙ N.list_keeps (index "nqn" req.volume_context) s.world nqn nsid there,
    free,
  )

  attempt_all-Keeps :
      (rs : List Request) (nqn : String) (nsid : ℕ) (s : Server G.State)
      → NeverDeleted G J nqn nsid rs
      → Keeps nqn nsid s
      → Keeps nqn nsid (attempt_all G J rs s)
  unfolding attempt_all
  attempt_all-Keeps [] nqn nsid s spared k = k
  attempt_all-Keeps (creates req ∷ rs) nqn nsid s spared k =
      attempt_all-Keeps rs nqn nsid _ spared (attempt-Keeps (creates req) nqn nsid s tt k)
  attempt_all-Keeps (deletes id ∷ rs) nqn nsid s (apart, spared) k =
      attempt_all-Keeps rs nqn nsid _ spared (attempt-Keeps (deletes id) nqn nsid s (apart, tt) k)
  attempt_all-Keeps (publishes req ∷ rs) nqn nsid s spared k =
      attempt_all-Keeps rs nqn nsid _ spared (attempt-Keeps (publishes req) nqn nsid s tt k)

  -- A volume that `CreateVolume` returns has a namespace that the gateway did not have before.
  handle_create_volume_fresh :
      (req : CreateVolumeRequest) (s : Server G.State) {v : Volume} {t : Server G.State}
      → IsLawful J
      → AllFree s.locks
      → handle_create_volume G J req s ≡ done v t
      → (i : VolumeIdentifier) × (decode_volume_id J v.volume_id ≡ ok i)
        × (N.present s.world i.nqn i.nsid ≡ false)
        × Keeps i.nqn i.nsid t
  unfolding handle_create_volume namespace_add_req
  handle_create_volume_fresh req s {v} {t} L free h =
      let (ran, free') = with_lock-eq-done req.name (create_volume_locked G J req) s free h in
      let p = G.namespace_add (namespace_add_req req) s.world in
      let (resp, answer, zero, encoded, same) =
        create_volume_locked-eq-done req s.world p.0 refl ran in
      let (small, fresh, there) =
        N.added (namespace_add_req req) s.world {resp = resp} {g' = t.world}
          (ground (arith, answer, same)) zero in
      (
        identifier req resp,
        decode-encode_volume_id J L (identifier req resp) small encoded,
        fresh,
        (there, free'),
      )

  -- With a gateway that gives a new namespace an unused ID of 32 bits and keeps it, and a lawful
  -- JSON codec, started with every mutex free: a volume that `CreateVolume` returns has another ID
  -- than one that it returned earlier, whatever requests were made between them and however these
  -- ended, provided that none of them deleted the namespace of the earlier volume.
  pub volume_ids_distinct :
      (req other : CreateVolumeRequest) (reqs : List Request) (s : Server G.State) {v w : Volume}
      {t u : Server G.State}
      → IsLawful J
      → AllFree s.locks
      → handle_create_volume G J req s ≡ done v t
      → ((i : VolumeIdentifier)
          → decode_volume_id J v.volume_id ≡ ok i
          → NeverDeleted G J i.nqn i.nsid reqs)
      → handle_create_volume G J other (attempt_all G J reqs t) ≡ done w u
      → v.volume_id ≢ w.volume_id
  volume_ids_distinct req other reqs s {t = t} L free first never second same =
      let (i, decoded, _, held) = handle_create_volume_fresh req s L free first in
      let (there, free') = attempt_all-Keeps reqs i.nqn i.nsid t (never i decoded) held in
      let (j, decoded', fresh, _) =
        handle_create_volume_fresh other (attempt_all G J reqs t) L free' second in
      ground (arith, decoded, decoded', same, there, fresh)
