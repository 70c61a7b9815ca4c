-- ===== src/Rpc/Volumes.antt =====
-- util/jsonrpc.go: the volume calls of `rpcClient`.
use nvmeof_csi.Base.{
  String, ◌<>◌, Bool, true, false, Option, none, some, List, [], ◌∷◌, map, ◌==◌, string_eq,
  if◌then◌else◌, Error, plain, wrapped, not_exist, status, Action, done, failed, halted, panic,
  pure, fail, ◌>>=◌, on_error,
}
use nvmeof_csi.Base.Int.{ℤ, pos, mul_int64, quotient}
use nvmeof_csi.Rpc.Call.{
  error_matches, no_space_left, no_such_device, Params, no_params, lvol_create, lvol_clone,
  lvol_snapshot, Transport, Client, Answer, call, checked, BDev, LvStoreInfo,
}

pub record LvStore : Type 0 where
  pub name : String
  pub uuid : String
  pub total_size_mib : ℤ
  pub free_size_mib : ℤ

-- The body of the loop in `lvStores`.
unfoldable pub lv_store : LvStoreInfo → LvStore
lv_store r = record {
  name = r.name;
  uuid = r.uuid;
  total_size_mib = quotient (quotient (mul_int64 r.total_clusters r.cluster_size) 1024) 1024;
  free_size_mib = quotient (quotient (mul_int64 r.free_clusters r.cluster_size) 1024) 1024;
}

-- errors.Is(err, ErrJSONNoSuchDevice)
unfoldable pub is_no_such_device : Error → Bool
is_no_such_device (plain t) = t == "json: No such device"
is_no_such_device (not_exist t) = false
is_no_such_device (wrapped prefix cause) = is_no_such_device cause
is_no_such_device (status c t) = false

-- A matching error is replaced by its sentinel.
unfoldable pub sentinel : Error → Error → Error
sentinel json e = if error_matches e json then json else e

-- The name of the first store with the UUID.
unfoldable pub find_store : String → List LvStore → Option String
find_store uuid [] = none
find_store uuid (l ∷ rest) = if l.uuid == uuid then some l.name else find_store uuid rest

-- `&result[0]`
unfoldable pub first_result : {S : Type 0} → List BDev → Action S BDev
first_result [] s = halted panic s
first_result (b ∷ _) s = done b s

-- The end of `getVolume`: `&result[0]` panics on an empty list, and the only error that keeps the
-- code from it is "No such device".
unfoldable pub first_volume : {S : Type 0} → Answer (List BDev) → Action S BDev
unfolding first_result
first_volume a = elim a.error [
  | some e ↦ if error_matches e no_such_device then fail no_such_device else first_result a.result
  | none ↦ first_result a.result
]

module _ (T : Transport) where
  abbrev pub Call : Type 0 → Type 0
  Call A = Action (Client T.State) A

  -- `lvStores`
  unfoldable pub lv_stores : Call (List LvStore)
  lv_stores = do
    result ← checked T (call T [] T.decode_lvstores "bdev_lvol_get_lvstores" no_params)
    pure (map lv_store result)

  -- `rpcClient.createVolume`
  unfoldable pub create_lvol : (lvol_name lvs_name : String) → ℤ → Call String
  create_lvol lvol_name lvs_name size_mib = on_error (sentinel no_space_left) (
      checked T (
        call T "" T.decode_text "bdev_lvol_create" (
          lvol_create lvol_name (mul_int64 (mul_int64 size_mib (pos 1024)) (pos 1024)) lvs_name
            "unmap" true)))

  -- `rpcClient.cloneVolume`
  unfoldable pub clone_lvol : (lvol_name snapshot_name : String) → Call String
  clone_lvol lvol_name snapshot_name =
      checked T (call T "" T.decode_text "bdev_lvol_clone" (lvol_clone lvol_name snapshot_name))

  -- `getVolume`
  unfoldable pub get_volume : String → Call BDev
  get_volume id = call T [] T.decode_bdevs "bdev_get_bdevs" (Params.name id) >>= first_volume

  -- `rpcClient.isVolumeCreated`
  unfoldable pub is_volume_created : String → Call Bool
  is_volume_created id c = elim (get_volume id c) [
    | done b t ↦ done true t
    | failed e t ↦ if is_no_such_device e then done false t else failed e t
    | halted h t ↦ halted h t
  ]

  -- `rpcClient.deleteVolume`
  unfoldable pub delete_lvol : String → Call (Unit {0})
  delete_lvol id =
      on_error (sentinel no_such_device)
        (checked T (call T tt T.decode_nothing "bdev_lvol_delete" (Params.name id)))

  -- `rpcClient.snapshot`
  unfoldable pub snapshot : (lvol_name snapshot_name : String) → Call String
  snapshot lvol_name snapshot_name =
      checked T
        (call T "" T.decode_text "bdev_lvol_snapshot" (lvol_snapshot lvol_name snapshot_name))

  -- The end of `getLvstore`.
  unfoldable pub store_name : (id store_uuid : String) → Call String
  store_name id store_uuid = do
    stores ← lv_stores
    elim (find_store store_uuid stores) [
      | some name ↦ pure name
      | none ↦ fail (plain ("lvstore for " <> (id <> " not found")))
    ]

  -- `getLvstore`
  unfoldable pub get_lvstore : String → Call String
  get_lvstore id = do
    lvol ← get_volume id
    elim lvol.driver_specific [
      | none ↦ fail (plain ("no driver_specific for " <> id))
      | some uuid ↦ store_name id uuid
    ]
