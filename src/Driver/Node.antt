-- ===== src/Driver/Node.antt =====
-- NodePublishVolume and NodeUnpublishVolume of pkg/driver/node.go, over a mounter. What the
-- operating system answers to the calls about the temporary KMIP file is a parameter; the calls
-- themselves are recorded in the order in which they are made, each with its answer.
pub mod Trace
pub mod Cleanup
pub mod Unpublish
pub mod Publish
pub mod Encryption
pub mod Safety
pub mod Mounts
use panfs_container_storage.Base.{
  String, ◌<>◌, Bool, true, false, not, ◌&&◌, Option, none, some, List, [], ◌∷◌, ◌++◌, str_eq,
  if◌then◌else◌,
}
use panfs_container_storage.Base.Texts.{Text, codes}
use panfs_container_storage.Base.GoMap.{GoMap, find, value_at}
use panfs_container_storage.Base.Results.{Error}
use panfs_container_storage.Utils.Context.{get_sc_key}
use panfs_container_storage.Utils.Context.Secret
use panfs_container_storage.Driver.Csi.{
  Code, Reply, reply, status, panicked, AccessType, mount, VolumeCapability,
  NodePublishVolumeRequest, NodeUnpublishVolumeRequest,
}
use panfs_container_storage.Driver.Controller.{is_supported_capability}
use panfs_container_storage.Driver.Mounter.{PanMounter}
use panfs_container_storage.Driver.Validators.{validate_req_secrets}

-- The answers of os.MkdirAll, CreateTemp, os.Chmod, and the file's Write, Close and os.Remove.
pub record Os : Type 0 where
  pub mkdir_all : Option Text
  pub create_temp : Text × Option String
  pub chmod : Option Text
  pub write : Option Text
  pub remove : Option Text
  pub close : Option Text

-- A call that the handler made. A failed CreateTemp leaves no file behind.
pub data Event : Type 0 where
  made_dir : Option Text → Event
  created : String → Event
  chmodded : String → Option Text → Event
  wrote : String → String → Option Text → Event
  mounted : String → String → List String → Option Error → Event
  removed : String → Option Text → Event
  closed : String → Option Text → Event

-- The reply, the calls, and the mounter's state.
abbrev pub Run : PanMounter → Type 0
Run M = Reply (Unit {0}) × List Event × M.State

abbrev pub mount_flags : VolumeCapability → List String
mount_flags c = elim c.access_type [ mount flags ↦ flags | _ ↦ [] ]

-- The requested mount flags, and "ro" for a read-only volume.
unfoldable pub mount_options : NodePublishVolumeRequest → VolumeCapability → List String
mount_options req c = if req.readonly then mount_flags c ++ ("ro" ∷ []) else mount_flags c

-- The volume context asks for encryption.
unfoldable pub is_encrypted : GoMap → Bool
unfolding find
is_encrypted context = elim (find (get_sc_key "encryption") context) [
  | none ↦ false
  | some val ↦ not (str_eq val "none") && not (str_eq val "")
]

abbrev pub is_ephemeral : GoMap → Bool
is_ephemeral context = elim (find "csi.storage.k8s.io/ephemeral" context) [
  | none ↦ false
  | some val ↦ str_eq val "true"
]

module _ (M : PanMounter) (os : Os) where
  -- The mount and the reply: the calls so far, and behind the mount those of the deferred functions.
  unfoldable pub mount_volume :
      NodePublishVolumeRequest → List String → List Event → List Event → M.State → Run M
  unfolding value_at
  mount_volume req options before deferred s =
      let source =
        "panfs://" <> value_at Secret.realm_address req.secrets <> "/" <> req.volume_id in
      let done = M.mount source req.target_path options s in
      let events = before ++ (mounted source req.target_path options done.0 ∷ deferred) in
      (
        elim done.0 [
          | none ↦ reply tt
          | some e ↦ status Code.internal (codes "Failed to publish volume: " ++ e.message)
        ],
        events,
        done.1,
      )

  -- Deferred calls run last in, first out.
  abbrev cleanup : String → List Event
  cleanup file = removed file os.remove ∷ closed file os.close ∷ []

  -- From the temporary file on, which stands under the name `file`.
  unfoldable pub with_kmip_file :
      NodePublishVolumeRequest → List String → String → List Event → M.State → Run M
  unfolding mount_volume
  with_kmip_file req options file before s = elim os.chmod [
    | some e ↦ (
      status Code.internal (codes "Failed to set '0700' permissions on KMIP config file: " ++ e),
      before ++ (chmodded file (some e) ∷ cleanup file),
      s,
    )
    | none ↦
        let config = value_at Secret.kmip_config_data req.secrets in
        let ready = before ++ (chmodded file none ∷ []) in
        if str_eq config ""
        then (
          status Code.invalid_argument (codes "KMIP secret must be provided for encrypted volumes"),
          ready ++ cleanup file,
          s,
        )
        else elim os.write [
          | some e ↦ (
            status Code.internal
                (codes "Failed to write KMIP config data to temporary file: " ++ e),
            ready ++ (wrote file config (some e) ∷ cleanup file),
            s,
          )
          | none ↦
              mount_volume req (options ++ (("kmip-config-file=" <> file) ∷ []))
                (ready ++ (wrote file config none ∷ [])) (cleanup file) s
        ]
  ]

  -- The branch for an encrypted volume.
  unfoldable pub publish_encrypted : NodePublishVolumeRequest → List String → M.State → Run M
  unfolding with_kmip_file
  publish_encrypted req options s = elim os.mkdir_all [
    | some e ↦ (
      status Code.internal (codes "Failed to create temp directory for KMIP config file: " ++ e),
      made_dir (some e) ∷ [],
      s,
    )
    | none ↦ elim os.create_temp.1 [
      | none ↦ (
        status Code.internal (codes "Failed to create KMIP config file: " ++ os.create_temp.0),
        made_dir none ∷ [],
        s,
      )
      | some file ↦ with_kmip_file req options file (made_dir none ∷ created file ∷ []) s
    ]
  ]

  -- NodePublishVolume behind the test that the capability is not nil.
  unfoldable pub publish_capability : NodePublishVolumeRequest → VolumeCapability → M.State → Run M
  unfolding is_supported_capability mount_options is_encrypted publish_encrypted
  publish_capability req c s =
      if not (is_supported_capability c)
      then (status Code.failed_precondition (codes "unsupported volume capability provided"), [], s)
      else if is_ephemeral req.volume_context
      then (
        status Code.failed_precondition
            (codes "Ephemeral volumes are not supported by this driver"),
        [],
        s,
      )
      else if is_encrypted req.volume_context
      then publish_encrypted req (mount_options req c) s
      else mount_volume req (mount_options req c) [] [] s

  unfoldable pub node_publish_volume : NodePublishVolumeRequest → M.State → Run M
  unfolding publish_capability
  node_publish_volume req s =
      if str_eq req.volume_id ""
      then (status Code.invalid_argument (codes "Volume id must be provided"), [], s)
      else elim (validate_req_secrets req.secrets) [
        | some _ ↦ (status Code.invalid_argument (codes "Invalid request secrets"), [], s)
        | none ↦
            if str_eq req.target_path ""
            then (status Code.invalid_argument (codes "Target Path must be provided"), [], s)
            else elim req.volume_capability [
              | none ↦
                  (status Code.invalid_argument (codes "Volume Capability must be provided"), [], s)
              | some c ↦ publish_capability req c s
            ]
      ]

module _ (M : PanMounter) where
  unfoldable pub node_unpublish_volume :
      NodeUnpublishVolumeRequest → M.State → Reply (Unit {0}) × M.State
  node_unpublish_volume req s =
      if str_eq req.volume_id ""
      then (status Code.invalid_argument (codes "Volume id must be provided"), s)
      else if str_eq req.target_path ""
      then (status Code.invalid_argument (codes "Target Path must be provided"), s)
      else (let done = M.unmount req.target_path s in
          (
            elim done.0 [
              | none ↦ reply tt
              | some e ↦ status Code.internal (codes "Failed to unpublish volume: " ++ e.message)
            ],
            done.1,
          ))
