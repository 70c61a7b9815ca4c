-- ===== src/Util/Context.antt =====
-- util/util.go: the volume context that is kept in a JSON file.
pub mod Laws
use nvmeof_csi.Base.{
  String, ◌<>◌, Bool, true, false, Option, none, some, List, [], ◌∷◌, if◌then◌else◌, Result, ok,
  err, Error, plain, wrapped, Action, Run, done, failed, halted, pure, ◌>>=◌, ◌>>◌, on_error,
  returned, lift,
}
use nvmeof_csi.Base.Dict.{Dict, insert}
use nvmeof_csi.Base.FilePath.{join}
use nvmeof_csi.Host.{Host, is_not_exist}

-- A value under a key of a decoded JSON object: a text, or anything else.
pub data Item : Type 0 where
  text : String → Item
  no_text : Item

-- What json.Unmarshal puts into an `interface{}`: a `map[string]interface{}`, or anything else.
pub data Content : Type 0 where
  object : List (String × Item) → Content
  no_object : Content

-- encoding/json for a `map[string]string`; `none` is a nil map.
pub record ContextCodec : Type 0 where
  pub marshal : Option Dict → Result String
  pub unmarshal : String → Result Content

-- The loop of `ConvertInterfaceToMap`.
unfoldable pub convert_entries : List (String × Item) → Dict → Result Dict
convert_entries [] str_map = ok str_map
convert_entries ((k, text v) ∷ rest) str_map = convert_entries rest (insert k v str_map)
convert_entries ((k, no_text) ∷ rest) str_map =
    err (plain ("the value for key " <> (k <> " is not a string")))

-- `ConvertInterfaceToMap`
unfoldable pub convert_interface_to_map : Content → Result Dict
unfolding convert_entries
convert_interface_to_map (object items) = convert_entries items []
convert_interface_to_map no_object = err (plain "the data is not a map[string]interface{}")

abbrev pub volume_context_file_name : String
volume_context_file_name = "volume-context.json"

module _ (H : Host) where
  -- The directory is made if `os.Stat` says that it does not exist.
  unfoldable pub make_folder : String → Action H.State (Unit {0})
  unfolding is_not_exist
  make_folder folder s = elim (H.stat folder s) [
    | none ↦ done tt s
    | some e ↦ if is_not_exist e then lift (H.mkdir_all folder) s else done tt s
  ]

  -- `appendContentToFile`
  unfoldable append_content_to_file : (file_name content : String) → Action H.State (Unit {0})
  append_content_to_file file_name content =
      lift (H.open_append file_name) >> lift (H.append_text file_name content)

  -- `cleanUpContext`
  unfoldable pub clean_up_context : (folder file_name : String) → Action H.State (Unit {0})
  unfolding join
  clean_up_context folder file_name =
      let path = join folder file_name in
      on_error (wrapped ("failed to cleanup volume context stash (" <> (path <> ")")))
        (lift (H.remove path))

  -- `CleanUpVolumeContext`
  unfoldable pub clean_up_volume_context : String → Action H.State (Unit {0})
  clean_up_volume_context path = clean_up_context path volume_context_file_name

  module _ (J : ContextCodec) where
    -- `stashContext`
    unfoldable pub stash_context :
        Option Dict → (folder file_name : String) → Action H.State (Unit {0})
    unfolding join
    stash_context data_map folder file_name = do
      encoded ← on_error (wrapped "failed to marshall context JSON") (returned (J.marshal data_map))
      make_folder folder
      let path = join folder file_name
      on_error (wrapped ("failed to marshall context JSON at path (" <> (path <> ")")))
          (lift (H.write_file path encoded))

    -- `lookupContext`
    unfoldable pub lookup_context : (folder file_name : String) → Action H.State Content
    unfolding join is_not_exist
    lookup_context folder file_name s =
        let path = join folder file_name in
        elim (H.read_file path s) [
          | err e ↦
              if is_not_exist e
              then failed (plain "volume context JSON file not found") s
              else failed
                  (wrapped ("failed to read stashed context JSON from path (" <> (path <> ")")) e) s
          | ok encoded ↦
              on_error
                (wrapped ("failed to unmarshall stashed context JSON from path (" <> (path <> ")")))
                (returned (J.unmarshal encoded)) s
        ]

    -- `StashVolumeContext`
    unfoldable pub stash_volume_context : Option Dict → String → Action H.State (Unit {0})
    stash_volume_context volume_context path =
        stash_context volume_context path volume_context_file_name

    -- `LookupVolumeContext`
    unfoldable pub lookup_volume_context : String → Action H.State Dict
    lookup_volume_context path = do
      content ← lookup_context path volume_context_file_name
      returned (convert_interface_to_map content)
