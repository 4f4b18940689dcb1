-- ===== src/Driver/Controller/Confirm.antt =====
-- ValidateVolumeCapabilities of pkg/driver/controller.go over any provider.
use panfs_container_storage.Base.{
  ◌≡◌, ◌≢◌, refl, inl, inr, Option, List, [], arith, is_empty, Option-cases, Bool-cases, All,
}
use panfs_container_storage.Base.Texts.{Text}
use panfs_container_storage.Base.Results.{Result, ok, err, panic, is_not_found}
use panfs_container_storage.Utils.Parser.{Volume}
use panfs_container_storage.Driver.Csi.{reply, VolumeCapability, ValidateVolumeCapabilitiesRequest}
use panfs_container_storage.Driver.Provider.{StorageProvider}
use panfs_container_storage.Driver.Controller.{
  validate_volume_capabilities, answer_validate, validate_capabilities,
}
use panfs_container_storage.Driver.Controller.Create.{IsMount, validate_volume_capabilities_iff}
use panfs_container_storage.Driver.Controller.Lifecycle.{IsIdentified, IsIdentified-cases}

answer_validate-reply :
    (caps : List VolumeCapability) (answer : Result (Option Volume))
    (confirmed : List VolumeCapability)
    → answer_validate caps answer ≡ reply confirmed
    → ((vol : Option Volume) × (answer ≡ ok vol)) × (confirmed ≡ caps)
unfolding answer_validate
answer_validate-reply caps (ok vol) confirmed h = ((vol, refl), ground arith)
answer_validate-reply caps (err e) confirmed h = elim (Bool-cases (is_not_found e)) [
  | inl y ↦ absurd (ground arith)
  | inr n ↦ absurd (ground arith)
]
answer_validate-reply caps panic confirmed h = cc

-- The request names a volume and at least one capability, and all of them are mounts.
abbrev pub IsConfirmable : ValidateVolumeCapabilitiesRequest → Type 0
IsConfirmable req =
    IsIdentified req.volume_id req.secrets
    × (req.volume_capabilities ≢ [])
    × All IsMount req.volume_capabilities

module _ (P : StorageProvider) (show : VolumeCapability → Text)
    (req : ValidateVolumeCapabilitiesRequest) where
  -- ValidateVolumeCapabilities confirms exactly the requested capabilities: of an identified volume
  -- that the provider finds, at least one of them, and all of them mounts.
  pub validate_capabilities-reply :
      (s s' : P.State) (confirmed : List VolumeCapability)
      → validate_capabilities P show req s ≡ (reply confirmed, s')
      → IsIdentified req.volume_id req.secrets
        × (confirmed ≡ req.volume_capabilities)
        × (confirmed ≢ [])
        × All IsMount confirmed
        × ((vol : Option Volume) × (P.get_volume req.volume_id req.secrets s ≡ (ok vol, s')))
  unfolding validate_capabilities
  validate_capabilities-reply s s' confirmed h =
      elim (IsIdentified-cases req.volume_id req.secrets) [
        | inr (_, inl t) ↦ absurd (ground arith)
        | inr (_, inr (f, (m, e))) ↦ absurd (ground arith)
        | inl (i, f, e) ↦
            elim (Option-cases (validate_volume_capabilities show req.volume_capabilities)) [
              | inr (m, bad) ↦ absurd (ground arith)
              | inl good ↦ elim (Bool-cases (is_empty req.volume_capabilities)) [
                | inl none_given ↦ absurd (ground arith)
                | inr given ↦
                    let found = P.get_volume req.volume_id req.secrets s in
                    let ((vol, g), same) =
                      answer_validate-reply req.volume_capabilities found.0 confirmed
                        (ground arith) in
                    (
                      i,
                      same,
                      λ empty. absurd (ground arith),
                      rw same ((validate_volume_capabilities_iff show _).0 good),
                      (vol, ground arith),
                    )
              ]
            ]
      ]
