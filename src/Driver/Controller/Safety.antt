-- ===== src/Driver/Controller/Safety.antt =====
-- The controller's handlers over a safe provider.
use panfs_container_storage.Base.{
  ◌≢◌, refl, sym, ◌∙◌, ap, inl, inr, Option, none, some, List, arith, str_eq, is_empty,
  Option-cases, Bool-cases,
}
use panfs_container_storage.Base.Texts.{Text}
use panfs_container_storage.Base.Int.{ℤ, pos, ltb_ℤ}
use panfs_container_storage.Base.Results.{Result, ok, err, panic, is_not_found, is_already_exist}
use panfs_container_storage.Utils.Parser.{Volume}
use panfs_container_storage.Driver.Csi.{
  Reply, panicked, VolumeCapability, CreateVolumeRequest, DeleteVolumeRequest,
  ValidateVolumeCapabilitiesRequest, ControllerExpandVolumeRequest,
}
use panfs_container_storage.Driver.Provider.{StorageProvider}
use panfs_container_storage.Driver.Provider.Safety.{IsSafe}
use panfs_container_storage.Driver.Validators.{validate_volume_capacity}
use panfs_container_storage.Driver.Controller.{
  validate_volume_capabilities, reply_existing, answer_delete, answer_validate, answer_expand,
  answer_create, provision, create_volume, delete_volume, validate_capabilities, expand_in_range,
  controller_expand_volume, quota_parameters,
}
use panfs_container_storage.Driver.Controller.Create.{create_volume-gate}
use panfs_container_storage.Driver.Controller.Lifecycle.{IsIdentified-cases}

reply_existing-total :
    (req : CreateVolumeRequest) (found : Result (Option Volume))
    → found ≢ panic
    → reply_existing req found ≢ panicked
unfolding reply_existing
reply_existing-total req (ok none) t h = cc
reply_existing-total req (ok (some vol)) t h =
    elim (Option-cases (validate_volume_capacity req.capacity_range vol)) [
      | inl e ↦ absurd (ground arith)
      | inr (m, e) ↦ absurd (ground arith)
    ]
reply_existing-total req (err e) t h = cc
reply_existing-total req panic t h = t refl

answer_delete-total : (r : Result (Unit {0})) → r ≢ panic → answer_delete r ≢ panicked
unfolding answer_delete
answer_delete-total (ok t) n h = cc
answer_delete-total (err e) n h = elim (Bool-cases (is_not_found e)) [
  | inl y ↦ absurd (ground arith)
  | inr f ↦ absurd (ground arith)
]
answer_delete-total panic n h = n refl

answer_validate-total :
    (caps : List VolumeCapability) (r : Result (Option Volume))
    → r ≢ panic
    → answer_validate caps r ≢ panicked
unfolding answer_validate
answer_validate-total caps (ok v) n h = cc
answer_validate-total caps (err e) n h = elim (Bool-cases (is_not_found e)) [
  | inl y ↦ absurd (ground arith)
  | inr f ↦ absurd (ground arith)
]
answer_validate-total caps panic n h = n refl

answer_expand-total :
    (required : ℤ) (r : Result (Unit {0})) → r ≢ panic → answer_expand required r ≢ panicked
unfolding answer_expand
answer_expand-total required (ok t) n h = cc
answer_expand-total required (err e) n h = elim (Bool-cases (is_not_found e)) [
  | inl y ↦ absurd (ground arith)
  | inr f ↦ absurd (ground arith)
]
answer_expand-total required panic n h = n refl

module _ (P : StorageProvider) (safe : IsSafe P) where
  answer_create-total :
      (req : CreateVolumeRequest) (answer : Result (Option Volume)) (s : P.State)
      → answer ≢ panic
      → answer ≢ ok none
      → (answer_create P req answer s).0 ≢ panicked
  unfolding answer_create
  answer_create-total req (ok (some vol)) s a b h = cc
  answer_create-total req (ok none) s a b h = b refl
  answer_create-total req panic s a b h = a refl
  answer_create-total req (err e) s a b h = elim (Bool-cases (is_already_exist e)) [
    | inl y ↦
        reply_existing-total req (P.get_volume req.name req.secrets s).0
          (safe.get req.name req.secrets s) (ground arith)
    | inr n ↦ absurd (ground arith)
  ]

  -- CreateVolume never panics over a safe provider: no nil volume is dereferenced.
  pub create_volume-ne-panicked :
      (show : VolumeCapability → Text) (req : CreateVolumeRequest) (s : P.State)
      → (create_volume P show req s).0 ≢ panicked
  unfolding provision
  create_volume-ne-panicked show req s h = elim (create_volume-gate P show req) [
    | inr (_, (m, turned)) ↦ absurd (cc (turned s))
    | inl (_, on) ↦
        let (a, b) = safe.create req.name (quota_parameters req) req.secrets s in
        answer_create-total req _ _ a b (ap (λ (r : Reply _ × P.State). r.0) (sym (on s)) ∙ h)
  ]

  pub delete_volume-ne-panicked :
      (req : DeleteVolumeRequest) (s : P.State) → (delete_volume P req s).0 ≢ panicked
  unfolding delete_volume
  delete_volume-ne-panicked req s = elim (IsIdentified-cases req.volume_id req.secrets) [
    | inr (_, inl t) ↦ rw t (λ h. cc)
    | inr (_, inr (f, (m, e))) ↦ rw (f, e) (λ h. cc)
    | inl (_, f, e) ↦ rw (f, e) (answer_delete-total _ (safe.delete req.volume_id req.secrets s))
  ]

  pub validate_capabilities-ne-panicked :
      (show : VolumeCapability → Text) (req : ValidateVolumeCapabilitiesRequest) (s : P.State)
      → (validate_capabilities P show req s).0 ≢ panicked
  unfolding validate_capabilities
  validate_capabilities-ne-panicked show req s =
      elim (Bool-cases (is_empty req.volume_capabilities)) [
        | inl none_given ↦ elim (Bool-cases (str_eq req.volume_id "")) [
          | inl t ↦ rw t (λ h. cc)
          | inr f ↦ rw (f, none_given) (λ h. cc)
        ]
        | inr given ↦ elim (IsIdentified-cases req.volume_id req.secrets) [
          | inr (_, inl t) ↦ rw t (λ h. cc)
          | inr (_, inr (f, (m, e))) ↦ rw (f, given, e) (λ h. cc)
          | inl (_, f, e) ↦
              elim (Option-cases (validate_volume_capabilities show req.volume_capabilities)) [
                | inr (m, bad) ↦ rw (f, given, e, bad) (λ h. cc)
                | inl good ↦
                    rw (f, given, e, good)
                      (answer_validate-total req.volume_capabilities _
                        (safe.get req.volume_id req.secrets s))
              ]
        ]
      ]

  pub controller_expand_volume-ne-panicked :
      (req : ControllerExpandVolumeRequest) (s : P.State)
      → (controller_expand_volume P req s).0 ≢ panicked
  unfolding controller_expand_volume expand_in_range
  controller_expand_volume-ne-panicked req s = elim (IsIdentified-cases req.volume_id req.secrets) [
    | inr (_, inl t) ↦ rw t (λ h. cc)
    | inr (_, inr (f, (m, e))) ↦ elim (Option-cases req.capacity_range) [
      | inl n ↦ rw (f, n) (λ h. cc)
      | inr (range, r) ↦ rw (f, r, e) (λ h. cc)
    ]
    | inl (_, f, e) ↦ elim (Option-cases req.capacity_range) [
      | inl n ↦ rw (f, n) (λ h. cc)
      | inr (range, r) ↦ elim (Bool-cases (ltb_ℤ range.required_bytes (pos 1))) [
        | inl small ↦ rw (f, r, e, small) (λ h. cc)
        | inr big ↦
            rw (f, r, e, big)
              (answer_expand-total range.required_bytes _
                (safe.expand req.volume_id range.required_bytes req.secrets s))
      ]
    ]
  ]
