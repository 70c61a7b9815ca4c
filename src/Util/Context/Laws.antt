-- ===== src/Util/Context/Laws.antt =====
-- util/util.go: what LookupVolumeContext finds after StashVolumeContext and after CleanUpVolumeContext.
use nvmeof_csi.Base.{
  String, ◌≡◌, refl, Option, none, some, List, [], ◌∷◌, ok, Error, plain, arith, done, failed,
  wrapped, on_error, returned, lift, Action, ◌>>◌, ◌<>◌, >>=-eq-done, on_error-eq-done,
  lift-eq-done, returned-eq-done,
}
use nvmeof_csi.Base.Dict.{Dict, lookup, merge, insert, NodupKeys, lookup-merge, lookup-nil}
use nvmeof_csi.Base.FilePath.{join}
use nvmeof_csi.Host.{Host}
use nvmeof_csi.Host.Laws.{FileView}
use nvmeof_csi.Util.Context.{
  Item, text, Content, object, no_object, ContextCodec, convert_entries, convert_interface_to_map,
  volume_context_file_name, clean_up_volume_context, clean_up_context, stash_context,
  lookup_context, stash_volume_context, lookup_volume_context, make_folder,
}

-- A decoded object all of whose values are texts.
unfoldable pub text_items : Dict → List (String × Item)
text_items [] = []
text_items ((k, v) ∷ m) = (k, text v) ∷ text_items m

-- The JSON text of a Go map decodes to an object with the same entries, in some order; that of a nil map is
-- the text `null`, which is no object.
pub record ContextView (J : ContextCodec) : Type 0 where
  pub decoded :
      (m : Dict) {encoded : String}
      → J.marshal (some m) ≡ ok encoded
      → (n : Dict) × (J.unmarshal encoded ≡ ok (object (text_items n)))
        × NodupKeys n
        × ((k : String) → lookup k n ≡ lookup k m)
  pub decoded_nil :
      {encoded : String} → J.marshal none ≡ ok encoded → J.unmarshal encoded ≡ ok no_object

convert_entries-text_items :
    (n onto : Dict) → convert_entries (text_items n) onto ≡ ok (merge n onto)
unfolding convert_entries text_items merge
convert_entries-text_items [] onto = refl
convert_entries-text_items ((k, v) ∷ n) onto = convert_entries-text_items n (insert k v onto)

module _ (H : Host) (F : FileView H) where
  clean_up-removes :
      (path : String) (s : H.State) {r : Unit {0}} {t : H.State}
      → clean_up_volume_context H path s ≡ done r t
      → H.remove (join path volume_context_file_name) s ≡ (ok r, t)
  unfolding clean_up_volume_context clean_up_context
  clean_up-removes path s h = ground arith

  module _ (J : ContextCodec) where
    abbrev file : String → String
    file path = join path volume_context_file_name

    abbrev write_error : String → Error → Error
    write_error path = wrapped ("failed to marshall context JSON at path (" <> (file path <> ")"))

    abbrev write_in : (path encoded : String) → Action H.State (Unit {0})
    write_in path encoded = on_error (write_error path) (lift (H.write_file (file path) encoded))

    stash-writes :
        (m : Option Dict) (path : String) (s : H.State) {r : Unit {0}} {t : H.State}
        → stash_volume_context H J m path s ≡ done r t
        → (encoded : String) × (u : H.State) × (J.marshal m ≡ ok encoded)
          × (H.write_file (join path volume_context_file_name) encoded u ≡ (ok r, t))
    unfolding stash_volume_context stash_context
    stash-writes m path s {r} {t} h =
        let (encoded, u, marshalled, rest) =
          >>=-eq-done
            (on_error (wrapped "failed to marshall context JSON") (returned (J.marshal m)))
            (λ encoded. make_folder H path >> write_in path encoded) s h in
        let (none_left, v, made, last) =
          >>=-eq-done (make_folder H path) (λ _. write_in path encoded) u rest in
        (
          encoded,
          v,
          returned-eq-done (J.marshal m) s (
              on_error-eq-done (wrapped "failed to marshall context JSON") (returned (J.marshal m))
                s marshalled),
          lift-eq-done (H.write_file (file path) encoded) v (
              on_error-eq-done (write_error path) (lift (H.write_file (file path) encoded)) v last),
        )

    lookup-reads :
        (path : String) (s : H.State) {encoded : String} {content : Content}
        → H.read_file (join path volume_context_file_name) s ≡ ok encoded
        → J.unmarshal encoded ≡ ok content
        → lookup_context H J path volume_context_file_name s ≡ done content s
    unfolding lookup_context
    lookup-reads path s h k = ground (arith, h, k)

    -- If `StashVolumeContext` of a map that is not nil succeeds, `LookupVolumeContext` of the same path then
    -- returns a map with the same entries, and changes nothing.
    pub lookup-stash_volume_context :
        (V : ContextView J) (m : Dict) (path : String) (s : H.State) {r : Unit {0}} {t : H.State}
        → stash_volume_context H J (some m) path s ≡ done r t
        → (n : Dict) × (lookup_volume_context H J path t ≡ done n t)
          × ((k : String) → lookup k n ≡ lookup k m)
    unfolding lookup_volume_context convert_interface_to_map
    lookup-stash_volume_context V m path s {r} {t} h =
        let (encoded, u, marshalled, written) = stash-writes (some m) path s h in
        let (n, decodes, nodup, same) = V.decoded m marshalled in
        let read = lookup-reads path t (F.write_reads (file path) encoded u written) decodes in
        (
          merge n [],
          ground (arith, read, convert_entries-text_items n []),
          λ k. ground (arith, lookup-merge n [] k nodup, lookup-nil k, same k),
        )

    -- If `StashVolumeContext` of a nil map succeeds, `LookupVolumeContext` of the same path then fails.
    lookup-stash_volume_context_nil :
        (V : ContextView J) (path : String) (s : H.State) {r : Unit {0}} {t : H.State}
        → stash_volume_context H J none path s ≡ done r t
        → lookup_volume_context H J path t
          ≡ failed (plain "the data is not a map[string]interface{}") t
    unfolding lookup_volume_context convert_interface_to_map
    lookup-stash_volume_context_nil V path s {r} {t} h =
        let (encoded, u, marshalled, written) = stash-writes none path s h in
        let read =
          lookup-reads path t (F.write_reads (file path) encoded u written)
            (V.decoded_nil marshalled) in
        ground (arith, read)

    -- If `CleanUpVolumeContext` succeeds, `LookupVolumeContext` of the same path then finds no file, and a
    -- second `CleanUpVolumeContext` fails; both change nothing.
    lookup-clean_up_volume_context :
        (path : String) (s : H.State) {r : Unit {0}} {t : H.State}
        → clean_up_volume_context H path s ≡ done r t
        → (lookup_volume_context H J path t ≡ failed (plain "volume context JSON file not found") t)
          × ((e : Error) × (clean_up_volume_context H path t ≡ failed e t))
    unfolding lookup_volume_context lookup_context clean_up_volume_context clean_up_context
    lookup-clean_up_volume_context path s {r} {t} h =
        let removed = clean_up-removes path s h in
        let (e, unread, missing) = F.removed_unread (file path) s removed in
        let (d, again) = F.unread_remove (file path) t unread missing in
        (
          ground (arith, unread, missing),
          (
            wrapped ("failed to cleanup volume context stash (" <> (file path <> ")")) d,
            ground (arith, again),
          ),
        )
