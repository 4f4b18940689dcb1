-- ===== src/Driver/Server/Volumes/Confirmed.antt =====
-- ValidateVolumeCapabilities and ControllerExpandVolume of the sanity mode keep the promise about
-- volumes.
use panfs_container_storage.Base.{
  ℕ, String, ◌≡◌, refl, inl, inr, arith, str_eq, is_empty, Option-cases, Bool-cases,
}
use panfs_container_storage.Base.Texts.{Text}
use panfs_container_storage.Base.Int.{pos, ltb_ℤ}
use panfs_container_storage.Pancli.Fake.{Fake, find_volume}
use panfs_container_storage.Pancli.Fake.Laws.{HasUniqueNames}
use panfs_container_storage.Pancli.Fake.Operations.{
  get_volume_found, get_volume_missing, written, expand_volume_found, expand_volume_missing,
}
use panfs_container_storage.Driver.Csi.{
  Code, status, VolumeCapability, ValidateVolumeCapabilitiesRequest, ControllerExpandVolumeRequest,
}
use panfs_container_storage.Driver.Provider.{fake_provider}
use panfs_container_storage.Driver.Controller
use panfs_container_storage.Driver.Controller.{
  answer_validate, answer_expand, expand_in_range, validate_volume_capabilities as validate_each,
}
use panfs_container_storage.Driver.Controller.Create.{validate_volume_capabilities_iff}
use panfs_container_storage.Driver.Controller.Confirm.{IsConfirmable}
use panfs_container_storage.Driver.Controller.Expand.{IsExpandable, below_one}
use panfs_container_storage.Driver.Validators.Requests.{caps-test}
use panfs_container_storage.Driver.Controller.Lifecycle.{IsIdentified-cases}
use panfs_container_storage.Driver.Server.{VolumeCall, Answer}
use panfs_container_storage.Driver.Server.Volumes.{
  Serves, validated, not_validated, resized, not_resized,
}
use panfs_container_storage.Driver.Server.Volumes.Handlers.{view}

not_confirmable-Serves :
    (req : ValidateVolumeCapabilitiesRequest) (s : Fake) (message : Text)
    → ¬ IsConfirmable req
    → Serves
        (VolumeCall.validate_volume_capabilities req)
        (Answer.confirmed (status Code.invalid_argument message))
        (view s)
        (view s)
not_confirmable-Serves req s message bad =
    not_validated req Code.invalid_argument message (inl (refl, bad)) (λ n. refl)

not_expandable-Serves :
    (req : ControllerExpandVolumeRequest) (s : Fake) (message : Text)
    → ¬ IsExpandable req
    → Serves
        (VolumeCall.controller_expand_volume req)
        (Answer.expanded (status Code.invalid_argument message))
        (view s)
        (view s)
not_expandable-Serves req s message bad =
    not_resized req Code.invalid_argument message (inl (refl, bad)) (λ n. refl)

module _ (uuid : ℕ → String) where
  pub validate_capabilities-Serves :
      (show : VolumeCapability → Text) (req : ValidateVolumeCapabilitiesRequest) (s : Fake)
      → let answered = Controller.validate_capabilities (fake_provider uuid) show req s in
        Serves
          (VolumeCall.validate_volume_capabilities req)
          (Answer.confirmed answered.0)
          (view s)
          (view answered.1)
        × (answered.1 ≡ s)
  unfolding Controller.validate_capabilities answer_validate
  validate_capabilities-Serves show req s = elim (Bool-cases (is_empty req.volume_capabilities)) [
    | inl none_given ↦
        let bad : ¬ IsConfirmable req =
          λ (_, given, _). cc ((caps-test req.volume_capabilities).1 given) in
        elim (Bool-cases (str_eq req.volume_id "")) [
          | inl t ↦ rw t (not_confirmable-Serves req s _ (bad), refl)
          | inr f ↦ rw (f, none_given) (not_confirmable-Serves req s _ (bad), refl)
        ]
    | inr given ↦ elim (IsIdentified-cases req.volume_id req.secrets) [
      | inr (bad, inl t) ↦ rw t (not_confirmable-Serves req s _ (λ (i, _, _). bad i), refl)
      | inr (bad, inr (f, (m, e))) ↦
          rw (f, given, e) (not_confirmable-Serves req s m (λ (i, _, _). bad i), refl)
      | inl (i, f, e) ↦ elim (Option-cases (validate_each show req.volume_capabilities)) [
        | inr (m, bad) ↦
            let fails : ¬ IsConfirmable req = λ (_, _, all).
              cc ((validate_volume_capabilities_iff show req.volume_capabilities).1 all) in
            rw (f, given, e, bad) (not_confirmable-Serves req s _ (fails), refl)
        | inl good ↦
            let c : IsConfirmable req = (
              i,
              (caps-test req.volume_capabilities).0 given,
              (validate_volume_capabilities_iff show req.volume_capabilities).0 good,
            ) in
            elim (Option-cases (find_volume req.volume_id s.volumes)) [
              | inl n ↦
                  rw (f, given, e, good, get_volume_missing req.volume_id req.secrets s n)
                    (not_validated req Code.not_found _ (inr (refl, c, n)) (λ name. refl), refl)
              | inr (w, x) ↦
                  rw (f, given, e, good, get_volume_found req.volume_id req.secrets s w x)
                    (validated req w c x (λ n. refl), refl)
            ]
      ]
    ]
  ]

  pub expand_volume-Serves :
      (req : ControllerExpandVolumeRequest) (s : Fake)
      → HasUniqueNames s.volumes
      → let answered = Controller.controller_expand_volume (fake_provider uuid) req s in
        Serves
          (VolumeCall.controller_expand_volume req)
          (Answer.expanded answered.0)
          (view s)
          (view answered.1)
  unfolding Controller.controller_expand_volume expand_in_range answer_expand
  expand_volume-Serves req s u = elim (IsIdentified-cases req.volume_id req.secrets) [
    | inr (bad, inl t) ↦ rw t (not_expandable-Serves req s _ (λ (i, _). bad i))
    | inr (bad, inr (f, (m, e))) ↦ elim (Option-cases req.capacity_range) [
      | inl n ↦ simp (f, n) (not_expandable-Serves req s _ (λ (i, _). bad i))
      | inr (range, r) ↦ simp (f, r, e) (not_expandable-Serves req s m (λ (i, _). bad i))
    ]
    | inl (i, f, e) ↦ elim (Option-cases req.capacity_range) [
      | inl n ↦
          simp (f, n)
            (not_expandable-Serves req s _ (λ (_, (other, (o, _))). absurd (ground arith)))
      | inr (range, r) ↦ elim (Bool-cases (ltb_ℤ range.required_bytes (pos 1))) [
        | inl small ↦
            simp (f, r, e, small)
              (not_expandable-Serves req s _ (λ (_, sized). below_one req range r small sized))
        | inr big ↦
            let able : IsExpandable req = (i, (range, (r, ground arith))) in
            elim (Option-cases (find_volume req.volume_id s.volumes)) [
              | inl n ↦
                  simp
                    (
                      f,
                      r,
                      e,
                      big,
                      expand_volume_missing req.volume_id range.required_bytes req.secrets s n,
                    )
                    (not_resized req Code.not_found _ (inr (refl, able, n)) (λ n. refl))
              | inr (w, x) ↦
                  let done =
                    expand_volume_found req.volume_id range.required_bytes req.secrets s w x in
                  simp (f, r, e, big, done)
                    (resized req w range i able.1.1 x
                      (λ other. written other req.volume_id range.required_bytes s.volumes w x))
            ]
      ]
    ]
  ]
