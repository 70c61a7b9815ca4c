-- ===== src/Driver/Controller/Create/Order.antt =====
-- driver/controllerserver.go `CreateVolume`: the order in which Go ranges over the parameters.
use mathlib.Core.Quot
use mathlib.Core.Quot.{Quot, Quot-set}
use nvmeof_csi.Base.{
  String, ◌≡◌, refl, sym, ap, ◌∙◌, status, internal, message, Option, ok, err, arith, Run, done,
  failed, halted,
}
use nvmeof_csi.Base.Int.{ℤ}
use nvmeof_csi.Base.Dict.{Dict, lookup, index, NodupKeys, lookup-merge, merge}
use nvmeof_csi.Driver.Gateway.{Gateway, NsidStatus}
use nvmeof_csi.Driver.Controller.VolumeId.{Json, encode_volume_id}
use nvmeof_csi.Driver.Controller.Create.{
  CreateVolumeRequest, Volume, volume_size, namespace_add_req, base_context, created, create_volume,
  with_parameters, create_volume_locked,
}

-- Two lists of entries are the same Go map.
abbrev pub SameEntries : Dict → Dict → Type 0
SameEntries m n = (k : String) → lookup k m ≡ lookup k n

-- A Go map without the order of its entries.
abbrev pub GoMap : Type 0
GoMap = Quot SameEntries

-- A volume whose context has no order.
pub record UnorderedVolume : Type 0 where
  pub volume_id : String
  pub capacity_bytes : ℤ
  pub volume_context : GoMap
  pub content_source : Option String

abbrev pub forget_order : Volume → UnorderedVolume
forget_order v = record {
  volume_id = v.volume_id;
  capacity_bytes = v.capacity_bytes;
  volume_context = Quot.mk v.volume_context;
  content_source = v.content_source;
}

-- What a call returns, with the volume's context as a Go map.
abbrev pub unordered : {S : Type 0} → Run S Volume → Run S UnorderedVolume
unordered (done v s) = done (forget_order v) s
unordered (failed e s) = failed e s
unordered (halted h s) = halted h s

index-SameEntries : (m n : Dict) → SameEntries m n → (k : String) → index k m ≡ index k n
unfolding index
index-SameEntries m n h k = ground (arith, h k)

merge-SameEntries :
    (m n onto : Dict)
    → NodupKeys m
    → NodupKeys n
    → SameEntries m n
    → SameEntries (merge m onto) (merge n onto)
merge-SameEntries m n onto u v h k =
    ground (arith, lookup-merge m onto k u, lookup-merge n onto k v, h k)

module _ (G : Gateway) (J : Json) (req : CreateVolumeRequest) (n : Dict) where
  abbrev reordered : CreateVolumeRequest
  reordered = record req { parameters = n }

  namespace_add_req-reordered :
      SameEntries req.parameters n → namespace_add_req req ≡ namespace_add_req reordered
  unfolding namespace_add_req volume_size
  namespace_add_req-reordered h = ground (
    arith,
    index-SameEntries req.parameters n h "RbdPoolName",
    index-SameEntries req.parameters n h "SubsystemNqn",
  )

  base_context-reordered : SameEntries req.parameters n → base_context req ≡ base_context reordered
  unfolding base_context
  base_context-reordered h = rw (
    index-SameEntries req.parameters n h "transport",
    index-SameEntries req.parameters n h "trsvcid",
    index-SameEntries req.parameters n h "traddr",
    index-SameEntries req.parameters n h "SubsystemNqn",
  )

  created-reordered :
      (resp : NsidStatus)
      → SameEntries req.parameters n
      → created G J req resp ≡ created G J reordered resp
  unfolding created volume_size encode_volume_id
  created-reordered resp h = rw (namespace_add_req-reordered h, base_context-reordered h)

  create_volume-reordered :
      (g : G.State)
      → SameEntries req.parameters n
      → create_volume G J req g ≡ create_volume G J reordered g
  unfolding create_volume
  create_volume-reordered g h =
      elim (G.namespace_add (namespace_add_req reordered) g).0
          as (λ a.
            (G.namespace_add (namespace_add_req reordered) g).0 ≡ a
            → create_volume G J req g ≡ create_volume G J reordered g) [
              | err e ↦ λ q. ground (arith, namespace_add_req-reordered h, q)
              | ok resp ↦
                  λ q. ground (arith, namespace_add_req-reordered h, q, created-reordered resp h)
            ]
        refl

  unordered-with_parameters :
      (v : Volume)
      → NodupKeys req.parameters
      → NodupKeys n
      → SameEntries req.parameters n
      → forget_order (with_parameters G J req v) ≡ forget_order (with_parameters G J reordered v)
  unfolding with_parameters
  unordered-with_parameters v u w h =
      ap
        (λ m. record {
          volume_id = v.volume_id;
          capacity_bytes = v.capacity_bytes;
          volume_context = m;
          content_source = v.content_source;
        })
        (Quot.sound (merge-SameEntries req.parameters n v.volume_context u w h))

  -- The rest of `CreateVolume`, on what `createVolume` returned.
  abbrev finished : CreateVolumeRequest → Run G.State Volume → Run G.State Volume
  finished r (done v g) = done (with_parameters G J r v) g
  finished r (failed e g) = failed (status internal (message e)) g
  finished r (halted k g) = halted k g

  create_volume_locked-finished :
      (r : CreateVolumeRequest) (g : G.State)
      → create_volume_locked G J r g ≡ finished r (create_volume G J r g)
  unfolding create_volume_locked
  create_volume_locked-finished r g = ground arith

  unordered-finished :
      (r : Run G.State Volume)
      → NodupKeys req.parameters
      → NodupKeys n
      → SameEntries req.parameters n
      → unordered (finished req r) ≡ unordered (finished reordered r)
  unordered-finished (done v g) u w h = ap (λ x. done x g) (unordered-with_parameters v u w h)
  unordered-finished (failed e g) u w h = refl
  unordered-finished (halted k g) u w h = refl

  -- Two lists of parameters that are the same Go map make `CreateVolume` behave alike: it leaves the same
  -- state of the gateway and returns the same error, or the same volume once the order of the
  -- entries of its context is forgotten.
  pub create_volume_order :
      (g : G.State)
      → NodupKeys req.parameters
      → NodupKeys n
      → SameEntries req.parameters n
      → unordered (create_volume_locked G J req g)
        ≡ unordered (create_volume_locked G J reordered g)
  create_volume_order g u w h =
      ap unordered (create_volume_locked-finished req g)
      ∙ unordered-finished (create_volume G J req g) u w h
      ∙ ap (λ r. unordered (finished reordered r)) (create_volume-reordered g h)
      ∙ ap unordered (sym (create_volume_locked-finished reordered g))
