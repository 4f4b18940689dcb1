-- ===== src/Driver/Node/Publish.antt =====
-- NodePublishVolume of pkg/driver/node.go: the checks before the node is touched.
use panfs_container_storage.Base.{
  String, ◌<>◌, ◌≡◌, ◌≢◌, refl, ◌⊎◌, inl, inr, false, some, [], if◌then◌else◌, Option-cases,
  Bool-cases,
}
use panfs_container_storage.Base.Texts.{Text, codes, str_eq-cases}
use panfs_container_storage.Base.GoMap.{value_at}
use panfs_container_storage.Utils.Context.Secret
use panfs_container_storage.Driver.Csi.{Code, status, VolumeCapability, NodePublishVolumeRequest}
use panfs_container_storage.Driver.Controller.{is_supported_capability}
use panfs_container_storage.Driver.Controller.Create.{IsMount, is_supported_capability_iff}
use panfs_container_storage.Driver.Mounter.{PanMounter}
use panfs_container_storage.Driver.Validators.{validate_req_secrets}
use panfs_container_storage.Driver.Validators.Requests.{HasValidSecrets, validate_req_secrets_iff}
use panfs_container_storage.Driver.Node.{
  Os, Run, mount_options, is_encrypted, is_ephemeral, mount_volume, publish_encrypted,
  publish_capability, node_publish_volume,
}

-- What NodePublishVolume asks of a request before it touches the node.
abbrev pub IsPublishable : NodePublishVolumeRequest → VolumeCapability → Type 0
IsPublishable req c =
    (req.volume_id ≢ "")
    × HasValidSecrets req.secrets
    × (req.target_path ≢ "")
    × (req.volume_capability ≡ some c)
    × IsMount c
    × (is_ephemeral req.volume_context ≡ false)

-- The realm's address and the volume's name.
abbrev pub source_of : NodePublishVolumeRequest → String
source_of req = "panfs://" <> value_at Secret.realm_address req.secrets <> "/" <> req.volume_id

abbrev pub config_of : NodePublishVolumeRequest → String
config_of req = value_at Secret.kmip_config_data req.secrets

module _ (M : PanMounter) (os : Os) (req : NodePublishVolumeRequest) where
  -- The answer to a request that does not pass.
  abbrev pub IsTurnedAway : Type 0
  IsTurnedAway =
      (code : Code) × (message : Text) × ((code ≡ Code.invalid_argument)
        ⊎ (code ≡ Code.failed_precondition))
      × ((s : M.State) → node_publish_volume M os req s ≡ (status code message, [], s))

  abbrev pub passed : VolumeCapability → M.State → Run M
  passed c s =
      if is_encrypted req.volume_context
      then publish_encrypted M os req (mount_options req c) s
      else mount_volume M os req (mount_options req c) [] [] s

  publish_capability-gate :
      (c : VolumeCapability)
      → (IsMount c
          × (is_ephemeral req.volume_context ≡ false)
          × ((s : M.State) → publish_capability M os req c s ≡ passed c s))
        ⊎ ((message : Text) × ((s : M.State)
              → publish_capability M os req c s ≡ (status Code.failed_precondition message, [], s)))
  unfolding publish_capability
  publish_capability-gate c = elim (Bool-cases (is_supported_capability c)) [
    | inr n ↦ inr (codes "unsupported volume capability provided", λ s. rw n refl)
    | inl y ↦ elim (Bool-cases (is_ephemeral req.volume_context)) [
      | inl e ↦
          inr (codes "Ephemeral volumes are not supported by this driver", λ s. rw (y, e) refl)
      | inr n ↦ inl ((is_supported_capability_iff c).0 y, n, λ s. rw (y, n) refl)
    ]
  ]

  -- The node is touched only for a publishable request; any other is answered with InvalidArgument
  -- or FailedPrecondition, without a call.
  pub node_publish_volume-gate :
      ((c : VolumeCapability) × IsPublishable req c
        × ((s : M.State) → node_publish_volume M os req s ≡ passed c s))
      ⊎ IsTurnedAway
  unfolding node_publish_volume
  node_publish_volume-gate = elim (str_eq-cases req.volume_id "") [
    | inl (t, _) ↦
        inr (Code.invalid_argument, codes "Volume id must be provided", inl refl, λ s. rw t refl)
    | inr (f, named) ↦ elim (Option-cases (validate_req_secrets req.secrets)) [
      | inr (m, e) ↦
          inr
            (Code.invalid_argument, codes "Invalid request secrets", inl refl, λ s. rw (f, e) refl)
      | inl e ↦ elim (str_eq-cases req.target_path "") [
        | inl (t, _) ↦ inr (
          Code.invalid_argument,
          codes "Target Path must be provided",
          inl refl,
          λ s. rw (f, e, t) refl,
        )
        | inr (g, targeted) ↦ elim (Option-cases req.volume_capability) [
          | inl n ↦ inr (
            Code.invalid_argument,
            codes "Volume Capability must be provided",
            inl refl,
            λ s. rw (f, e, g, n) refl,
          )
          | inr (c, k) ↦ elim (publish_capability-gate c) [
            | inr (m, turned) ↦
                inr (Code.failed_precondition, m, inr refl, λ s. rw (f, e, g, k) (turned s))
            | inl (mount, lasting, on) ↦ inl (
              c,
              (named, (validate_req_secrets_iff req.secrets).0 e, targeted, k, mount, lasting),
              λ s. rw (f, e, g, k) (on s),
            )
          ]
        ]
      ]
    ]
  ]
