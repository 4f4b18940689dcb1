-- ===== src/Driver/Controller/Create.antt =====
-- CreateVolume of pkg/driver/controller.go: the checks before the provider is called.
use panfs_container_storage.Base.{
  String, ◌≡◌, refl, ◌↔◌, ◌⊎◌, inl, inr, true, Option, none, some, List, [], ◌∷◌, arith, Bool-cases,
  All,
}
use panfs_container_storage.Base.Texts.{Text}
use panfs_container_storage.Driver.Csi.{Code, status, mount, VolumeCapability, CreateVolumeRequest}
use panfs_container_storage.Driver.Provider.{StorageProvider}
use panfs_container_storage.Driver.Validators.{validate_create_volume_request, validate_req_secrets}
use panfs_container_storage.Driver.Validators.Rules.{HasValidParameters}
use panfs_container_storage.Driver.Validators.Requests.{
  HasValidFields, HasValidSecrets, validate_create_volume_request_iff, validate_req_secrets_iff,
}
use panfs_container_storage.Driver.Controller.{
  is_supported_capability, validate_volume_capabilities, provision, create_volume,
}

-- The access type is a mount.
abbrev pub IsMount : VolumeCapability → Type 0
IsMount c = (flags : List String) × (c.access_type ≡ mount flags)

pub is_supported_capability_iff :
    (c : VolumeCapability) → (is_supported_capability c ≡ true) ↔ IsMount c
unfolding is_supported_capability
is_supported_capability_iff c = ground arith

pub validate_volume_capabilities_iff :
    (show : VolumeCapability → Text) (caps : List VolumeCapability)
    → (validate_volume_capabilities show caps ≡ none) ↔ All IsMount caps
unfolding validate_volume_capabilities
validate_volume_capabilities_iff show [] = (λ _. tt, λ _. refl)
validate_volume_capabilities_iff show (c ∷ caps) =
    let (sound, complete) = is_supported_capability_iff c in
    let (later, back) = validate_volume_capabilities_iff show caps in
    elim (Bool-cases (is_supported_capability c)) [
      | inl e ↦ rw e (λ h. (sound e, later h), λ (m, h). back h)
      | inr e ↦ rw e (λ h. cc, λ (m, h). cc (complete m))
    ]

-- What CreateVolume asks of a request before it turns to the provider.
pub record IsAcceptable (req : CreateVolumeRequest) : Type 0 where
  pub fields : HasValidFields req
  pub parameters : HasValidParameters req.parameters
  pub capabilities : All IsMount req.volume_capabilities
  pub secrets : HasValidSecrets req.secrets

module _ (P : StorageProvider) (show : VolumeCapability → Text) (req : CreateVolumeRequest) where
  passes :
      validate_create_volume_request req ≡ none
      → validate_volume_capabilities show req.volume_capabilities ≡ none
      → validate_req_secrets req.secrets ≡ none
      → IsAcceptable req
  passes v c s =
      let (fields, parameters) = (validate_create_volume_request_iff req).0 v in
      record {
        fields = fields;
        parameters = parameters;
        capabilities = (validate_volume_capabilities_iff show req.volume_capabilities).0 c;
        secrets = (validate_req_secrets_iff req.secrets).0 s;
      }

  checks :
      IsAcceptable req
      → (validate_create_volume_request req ≡ none)
        × (validate_volume_capabilities show req.volume_capabilities ≡ none)
        × (validate_req_secrets req.secrets ≡ none)
  checks a = (
    (validate_create_volume_request_iff req).1 (a.fields, a.parameters),
    (validate_volume_capabilities_iff show req.volume_capabilities).1 a.capabilities,
    (validate_req_secrets_iff req.secrets).1 a.secrets,
  )

  pub create_volume_of_IsAcceptable :
      (s : P.State) → IsAcceptable req → create_volume P show req s ≡ provision P req s
  unfolding create_volume
  create_volume_of_IsAcceptable s a = let (v, c, x) = checks a in rw (v, c, x)

  -- The answer to a request that does not pass.
  abbrev pub IsRefused : Type 0
  IsRefused =
      (message : Text) × ((s : P.State)
        → create_volume P show req s ≡ (status Code.invalid_argument message, s))

  refused :
      (v c x : Option Text)
      → validate_create_volume_request req ≡ v
      → validate_volume_capabilities show req.volume_capabilities ≡ c
      → validate_req_secrets req.secrets ≡ x
      → ((v ≡ none) × (c ≡ none) × (x ≡ none))
        ⊎ ((¬ ((v ≡ none) × (c ≡ none) × (x ≡ none))) × IsRefused)
  unfolding create_volume
  refused none none none v c x = inl (refl, refl, refl)
  refused (some m) b d v c x = inr (λ (e, _, _). cc, (m, λ s. rw v))
  refused none (some m) d v c x = inr (λ (_, e, _). cc, (m, λ s. rw (v, c)))
  refused none none (some m) v c x = inr (λ (_, _, e). cc, (m, λ s. rw (v, c, x)))

  -- CreateVolume turns to the provider exactly for an acceptable request: one with valid fields,
  -- parameters and secrets, whose capabilities are all mounts. Any other is answered with
  -- InvalidArgument, and the provider's state stays as it is.
  pub create_volume-gate :
      (IsAcceptable req × ((s : P.State) → create_volume P show req s ≡ provision P req s))
      ⊎ ((¬ IsAcceptable req) × IsRefused)
  create_volume-gate = elim (refused _ _ _ refl refl refl) [
    | inl (v, c, x) ↦ let a = passes v c x in inl (a, λ s. create_volume_of_IsAcceptable s a)
    | inr (fails, r) ↦ inr (λ a. fails (checks a), r)
  ]
