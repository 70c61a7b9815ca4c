-- ===== src/Driver/Gateway.antt =====
-- proto/gateway.proto: the messages that the controller exchanges with the NVMe-oF gateway, and the
-- gateway itself, which is not part of the program.
use nvmeof_csi.Base.{ℕ, String, Bool, List, Result}

-- namespace_add_req, the fields that the driver sets.
pub record NamespaceAddReq : Type 0 where
  pub rbd_pool_name : String
  pub rbd_image_name : String
  pub subsystem_nqn : String
  pub block_size : ℕ
  pub create_image : Bool
  pub size : ℕ
  pub no_auto_visible : Bool
  pub disable_auto_resize : Bool

-- nsid_status. `status` is 0 on success; an int32 whose sign nothing reads.
pub record NsidStatus : Type 0 where
  pub status : ℕ
  pub error_message : String
  pub nsid : ℕ

pub record NamespaceDeleteReq : Type 0 where
  pub nsid : ℕ
  pub subsystem_nqn : String

pub record ReqStatus : Type 0 where
  pub status : ℕ
  pub error_message : String

-- namespace_cli, the fields that the driver reads.
pub record NamespaceCli : Type 0 where
  pub rbd_image_name : String
  pub uuid : String

pub record NamespacesInfo : Type 0 where
  pub status : ℕ
  pub error_message : String
  pub namespaces : List NamespaceCli

-- `gatewaypb.GatewayClient`: each call returns a response or an error, and may change the gateway.
pub record Gateway : Type 1 where
  pub State : Type 0
  pub namespace_add : NamespaceAddReq → State → Result NsidStatus × State
  pub namespace_delete : NamespaceDeleteReq → State → Result ReqStatus × State
  pub list_namespaces : (subsystem : String) → State → Result NamespacesInfo × State
