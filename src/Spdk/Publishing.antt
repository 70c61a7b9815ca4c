-- ===== src/Spdk/Publishing.antt =====
-- util/nvmf.go: how a volume is exported through the NVMe-oF target, and taken back.
use nvmeof_csi.Base.{
  ℕ, String, Bool, true, false, Option, none, some, List, [], ◌∷◌, ◌==◌, string_eq, if◌then◌else◌,
  ◌&&◌, plain, message, done, failed, halted, pure, fail, ◌>>=◌, attempt, ok, err,
}
use nvmeof_csi.Base.Text.{contains, codes as text_codes}
use nvmeof_csi.Rpc.Call.{
  error_matches, invalid_parameters, volume_deleted, no_params, nqn, subsystem, add_ns,
  add_listener, remove_ns, transport, Transport, call, checked, Listener, Namespace, Subsystem,
}
use nvmeof_csi.Rpc.Volumes.{Call, is_volume_created}
use nvmeof_csi.Spdk.Node.{NodeNvmf, volume_nqn, volume_model}

-- The test of the loop in `isVolumePublished`.
unfoldable pub is_own_listener : NodeNvmf → Listener → Bool
is_own_listener node l =
    l.trtype == node.target_type
    && l.traddr == node.target_addr
    && l.trsvcid == node.target_port
    && l.adrfam == "IPv4"

unfoldable pub has_own_listener : NodeNvmf → List Listener → Bool
has_own_listener node [] = false
has_own_listener node (l ∷ rest) =
    if is_own_listener node l then true else has_own_listener node rest

-- The inner loop of `subsystemGetNsID`.
unfoldable pub find_namespace : String → List Namespace → Option ℕ
find_namespace id [] = none
find_namespace id (n ∷ rest) = if n.bdev_name == id then some n.nsid else find_namespace id rest

-- Both loops of `subsystemGetNsID`.
unfoldable pub find_ns_id : String → List Subsystem → Option ℕ
find_ns_id id [] = none
find_ns_id id (s ∷ rest) =
    let later = find_ns_id id rest in
    if s.nqn == volume_nqn id
    then elim (find_namespace id s.namespaces) [ some n ↦ some n | none ↦ later ]
    else later

module _ (T : Transport) (node : NodeNvmf) where
  -- `isVolumePublished`
  unfoldable pub is_volume_published : String → Call T Bool
  is_volume_published id = do
    a ← call T [] T.decode_listeners "nvmf_subsystem_get_listeners" (nqn (volume_nqn id))
    elim a.error [
      | some e ↦ if error_matches e invalid_parameters then pure false else fail e
      | none ↦ pure (has_own_listener node a.result)
    ]

  -- `createSubsystem`
  unfoldable pub create_subsystem : String → Call T (Unit {0})
  create_subsystem id = checked T (
      call T tt T.decode_nothing "nvmf_create_subsystem"
        (subsystem (volume_nqn id) true "spdkcsi-sn" (volume_model id)))

  -- `subsystemAddNs`
  unfoldable pub subsystem_add_ns : String → Call T ℕ
  subsystem_add_ns id =
      checked T (call T 0 T.decode_number "nvmf_subsystem_add_ns" (add_ns (volume_nqn id) id))

  -- `subsystemGetNsID`
  unfoldable pub subsystem_get_ns_id : String → Call T ℕ
  subsystem_get_ns_id id = do
    results ← checked T (call T [] T.decode_subsystems "nvmf_get_subsystems" no_params)
    elim (find_ns_id id results) [ some n ↦ pure n | none ↦ fail (plain "no such namespace") ]

  -- `subsystemAddListener`
  unfoldable pub subsystem_add_listener : String → Call T (Unit {0})
  subsystem_add_listener id = checked T (
      call T tt T.decode_nothing "nvmf_subsystem_add_listener"
        (add_listener (volume_nqn id) node.target_type "IPv4" node.target_addr node.target_port))

  -- `subsystemRemoveNs`
  unfoldable pub subsystem_remove_ns : String → Call T (Unit {0})
  subsystem_remove_ns id = do
    ns_id ← subsystem_get_ns_id id
    checked T
        (call T tt T.decode_nothing "nvmf_subsystem_remove_ns" (remove_ns (volume_nqn id) ns_id))

  -- `deleteSubsystem`
  unfoldable pub delete_subsystem : String → Call T (Unit {0})
  delete_subsystem id =
      checked T (call T tt T.decode_nothing "nvmf_delete_subsystem" (nqn (volume_nqn id)))

  -- `createTransport` without the fast path.
  unfoldable pub request_transport : Call T (Unit {0})
  request_transport c =
      elim (call T tt T.decode_nothing "nvmf_create_transport" (transport node.target_type) c) [
        | done a t ↦ elim a.error [
          | none ↦ done tt (record t { trans_created = true })
          | some e ↦
              if contains (text_codes (message e)) (text_codes "already exists")
              then done tt (record t { trans_created = true })
              else failed e t
        ]
        | failed e t ↦ failed e t
        | halted h t ↦ halted h t
      ]

  -- `createTransport`
  unfoldable pub create_transport : Call T (Unit {0})
  create_transport c = if c.trans_created then done tt c else request_transport c

  -- A call whose error is dropped.
  abbrev pub ignored : {A : Type 0} → Call T A → Call T (Unit {0})
  ignored m = attempt m >>= λ _. pure tt

  -- `PublishVolume` from `subsystemAddListener` on.
  unfoldable pub publish_listener : String → Call T (Unit {0})
  publish_listener id = do
    listening ← attempt (subsystem_add_listener id)
    elim listening [
      | ok _ ↦ pure tt
      | err e ↦ do _ ← ignored (subsystem_remove_ns id); _ ← ignored (delete_subsystem id); fail e
    ]

  -- `PublishVolume` from `subsystemAddNs` on.
  unfoldable pub publish_namespace : String → Call T (Unit {0})
  publish_namespace id = do
    added ← attempt (subsystem_add_ns id)
    elim added [ ok _ ↦ publish_listener id | err e ↦ do _ ← ignored (delete_subsystem id); fail e ]

  -- `PublishVolume` for a volume that is not published.
  unfoldable pub publish_new : String → Call T (Unit {0})
  publish_new id = do _ ← create_transport; _ ← create_subsystem id; publish_namespace id

  -- The guards of `PublishVolume` and `UnpublishVolume`: the volume exists; is it published?
  unfoldable pub published_volume : String → Call T Bool
  published_volume id = do
    exists ← is_volume_created T id
    if exists then is_volume_published id else fail volume_deleted

  -- `PublishVolume`
  unfoldable pub publish_volume : String → Call T (Unit {0})
  publish_volume id = do
    published ← published_volume id
    if published then pure tt else publish_new id

  -- `UnpublishVolume` for a published volume.
  unfoldable pub unpublish_existing : String → Call T (Unit {0})
  unpublish_existing id = do _ ← ignored (subsystem_remove_ns id); delete_subsystem id

  -- `UnpublishVolume`
  unfoldable pub unpublish_volume : String → Call T (Unit {0})
  unpublish_volume id = do
    published ← published_volume id
    if published then unpublish_existing id else pure tt
