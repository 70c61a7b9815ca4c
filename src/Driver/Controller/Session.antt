-- ===== src/Driver/Controller/Session.antt =====
-- driver/controllerserver.go: the requests to a controller one after another, with the namespaces that its
-- gateway holds.
pub mod Distinct
use nvmeof_csi.Base.{
  ℕ, ◌^◌, ◌<◌, String, Bool, true, false, List, [], ◌∷◌, ◌≡◌, Result, ok, err, final, Run, Action,
}
use nvmeof_csi.Locks.{Server}
use nvmeof_csi.Driver.Gateway.{
  Gateway, NamespaceAddReq, NamespaceDeleteReq, NsidStatus, ReqStatus, NamespacesInfo,
}
use nvmeof_csi.Driver.Controller.VolumeId.{Json, VolumeIdentifier, decode_volume_id}
use nvmeof_csi.Driver.Controller.Create.{CreateVolumeRequest, handle_create_volume}
use nvmeof_csi.Driver.Controller.Delete.{handle_delete_volume}
use nvmeof_csi.Driver.Controller.Publish.{ControllerPublishVolumeRequest, controller_publish_volume}

-- A gateway gives a namespace an ID of 32 bits that its subsystem does not use, and keeps a namespace until it
-- is asked to delete it.
pub record NamespaceView (G : Gateway) : Type 0 where
  pub present : G.State → (nqn : String) → (nsid : ℕ) → Bool
  pub added :
      (req : NamespaceAddReq) (g : G.State) {resp : NsidStatus} {g' : G.State}
      → G.namespace_add req g ≡ (ok resp, g')
      → resp.status ≡ 0
      → (resp.nsid < 2 ^ 32)
        × (present g req.subsystem_nqn resp.nsid ≡ false)
        × (present g' req.subsystem_nqn resp.nsid ≡ true)
  pub add_keeps :
      (req : NamespaceAddReq) (g : G.State) (nqn : String) (nsid : ℕ)
      → present g nqn nsid ≡ true
      → present (G.namespace_add req g).1 nqn nsid ≡ true
  pub delete_keeps :
      (req : NamespaceDeleteReq) (g : G.State) (nqn : String) (nsid : ℕ)
      → present g nqn nsid ≡ true
      → (req.subsystem_nqn ≡ nqn → req.nsid ≡ nsid → ⊥)
      → present (G.namespace_delete req g).1 nqn nsid ≡ true
  pub list_keeps :
      (subsystem : String) (g : G.State) (nqn : String) (nsid : ℕ)
      → present g nqn nsid ≡ true
      → present (G.list_namespaces subsystem g).1 nqn nsid ≡ true

pub data Request : Type 0 where
  creates : CreateVolumeRequest → Request
  deletes : (volume_id : String) → Request
  publishes : ControllerPublishVolumeRequest → Request

module _ (G : Gateway) (J : Json) where
  -- A handler without a lock.
  abbrev unlocked_run : {A : Type 0} → Action G.State A → Server G.State → Server G.State
  unlocked_run m s = record s { world = final (m s.world) }

  -- The state after a request, whether it succeeds or fails.
  unfoldable pub attempt : Request → Server G.State → Server G.State
  attempt (creates req) s = final (handle_create_volume G J req s)
  attempt (deletes id) s = final (handle_delete_volume G J id s)
  attempt (publishes req) s = unlocked_run (controller_publish_volume G req) s

  unfoldable pub attempt_all : List Request → Server G.State → Server G.State
  unfolding attempt
  attempt_all [] s = s
  attempt_all (r ∷ rs) s = attempt_all rs (attempt r s)

  -- No request deletes the namespace.
  abbrev pub NeverDeleted : (nqn : String) → (nsid : ℕ) → List Request → Type 0
  NeverDeleted nqn nsid [] = Unit
  NeverDeleted nqn nsid (deletes id ∷ rs) =
      ((w : VolumeIdentifier) → decode_volume_id J id ≡ ok w → w.nqn ≡ nqn → w.nsid ≡ nsid → ⊥)
      × NeverDeleted nqn nsid rs
  NeverDeleted nqn nsid (creates req ∷ rs) = NeverDeleted nqn nsid rs
  NeverDeleted nqn nsid (publishes req ∷ rs) = NeverDeleted nqn nsid rs
