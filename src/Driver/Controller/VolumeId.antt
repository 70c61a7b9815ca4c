-- ===== src/Driver/Controller/VolumeId.antt =====
-- driver/controllerserver.go: `VolumeIdentifier` and the volume ID that carries it.
use nvmeof_csi.Base.{
  ℕ, ◌^◌, ◌<◌, String, ◌≡◌, ◌≢◌, none, some, List, ◌∷◌, Result, ok, err, plain, wrapped, arith,
}
use nvmeof_csi.Base.Base64
use nvmeof_csi.Base.Base64.Laws.{AreBytes, decode-encode}

pub record VolumeIdentifier : Type 0 where
  pub nsid : ℕ
  pub nqn : String
  pub volume_name : String

-- encoding/json on `VolumeIdentifier`, with the field tags of the struct.
pub record Json : Type 0 where
  pub marshal : VolumeIdentifier → List ℕ
  pub unmarshal : List ℕ → Result VolumeIdentifier

-- What encoding/json documents: `Marshal` writes the bytes of an object, which begin
-- with a brace, and `Unmarshal` reads back a struct of a
-- uint32 and valid texts that `Marshal` wrote.
pub record IsLawful (J : Json) : Type 0 where
  pub marshal-AreBytes : (v : VolumeIdentifier) → AreBytes (J.marshal v)
  pub marshal_object : (v : VolumeIdentifier) → (rest : List ℕ) × (J.marshal v ≡ b'{' ∷ rest)
  pub unmarshal-marshal :
      (v : VolumeIdentifier) → v.nsid < 2 ^ 32 → J.unmarshal (J.marshal v) ≡ ok v

module _ (J : Json) where
  -- `encodeVolumeID`. `Marshal` has no error for this struct.
  unfoldable pub encode_volume_id : VolumeIdentifier → Result String
  encode_volume_id v = ok (Base64.encode (J.marshal v))

  -- `decodeVolumeID`
  unfoldable pub decode_volume_id : String → Result VolumeIdentifier
  decode_volume_id id = elim (Base64.decode id) [
    | none ↦ err (wrapped "failed to decode volume ID" (plain "illegal base64 data"))
    | some bytes ↦ elim (J.unmarshal bytes) [
      | err e ↦ err (wrapped "failed to unmarshal volume identifier" e)
      | ok v ↦ ok v
    ]
  ]

  -- Every identifier with a 32-bit namespace ID is decoded from the volume ID that it was encoded to.
  pub decode-encode_volume_id :
      IsLawful J
      → (v : VolumeIdentifier) {id : String} → v.nsid < 2 ^ 32
      → encode_volume_id v ≡ ok id
      → decode_volume_id id ≡ ok v
  unfolding encode_volume_id decode_volume_id
  decode-encode_volume_id L v small h =
      ground
        (arith, decode-encode (J.marshal v) (L.marshal-AreBytes v), L.unmarshal-marshal v small)

  -- A volume ID is never the empty text, which `DeleteVolume` refuses.
  pub encode_volume_id-ne-nil :
      IsLawful J → (v : VolumeIdentifier) {id : String} → encode_volume_id v ≡ ok id → id ≢ ""
  unfolding encode_volume_id
  encode_volume_id-ne-nil L v h e =
      let (rest, begins) = L.marshal_object v in
      Base64.Laws.encode-cons_ne-nil b'{' rest (ground (arith, begins))
