-- ===== src/Driver/Controller/Expand.antt =====
-- ControllerExpandVolume of pkg/driver/controller.go over any provider: its replies and failures.
use panfs_container_storage.Base.{
  ◌≡◌, refl, ◌⊎◌, inl, inr, true, false, some, arith, Option-cases, Bool-cases,
}
use panfs_container_storage.Base.Texts.{Text}
use panfs_container_storage.Base.Int.{ℤ, pos, ◌≤ℤ◌, ltb_ℤ}
use panfs_container_storage.Base.Results.{Error, Result, ok, err, panic, is_not_found}
use panfs_container_storage.Driver.Csi.{
  Code, reply, status, CapacityRange, ControllerExpandVolumeRequest, ControllerExpandVolumeResponse,
}
use panfs_container_storage.Driver.Provider.{StorageProvider}
use panfs_container_storage.Driver.Controller.{
  answer_expand, expand_in_range, controller_expand_volume,
}
use panfs_container_storage.Driver.Controller.Lifecycle.{IsIdentified, IsIdentified-cases}

answer_expand-reply :
    (required : ℤ) (answer : Result (Unit {0})) (v : ControllerExpandVolumeResponse)
    → answer_expand required answer ≡ reply v
    → (answer ≡ ok tt) × (v.capacity_bytes ≡ required) × (v.node_expansion_required ≡ false)
unfolding answer_expand
answer_expand-reply required (ok t) v h = (refl, ground arith, ground arith)
answer_expand-reply required (err e) v h = elim (Bool-cases (is_not_found e)) [
  | inl y ↦ absurd (ground arith)
  | inr n ↦ absurd (ground arith)
]
answer_expand-reply required panic v h = cc

answer_expand-status :
    (required : ℤ) (answer : Result (Unit {0})) (code : Code) (message : Text)
    → answer_expand required answer ≡ status code message
    → (e : Error) × (answer ≡ err e)
      × (((code ≡ Code.not_found) × (is_not_found e ≡ true))
          ⊎ ((code ≡ Code.internal) × (is_not_found e ≡ false)))
unfolding answer_expand
answer_expand-status required (ok t) code message h = cc
answer_expand-status required (err e) code message h = elim (Bool-cases (is_not_found e)) [
  | inl y ↦ (e, refl, inl (ground arith, y))
  | inr n ↦ (e, refl, inr (ground arith, n))
]
answer_expand-status required panic code message h = cc

-- The request asks for a size of at least one byte.
abbrev pub IsSized : ControllerExpandVolumeRequest → CapacityRange → Type 0
IsSized req range = (req.capacity_range ≡ some range) × (pos 1 ≤ℤ range.required_bytes)

abbrev pub IsExpandable : ControllerExpandVolumeRequest → Type 0
IsExpandable req =
    IsIdentified req.volume_id req.secrets × ((range : CapacityRange) × IsSized req range)

pub below_one :
    (req : ControllerExpandVolumeRequest) (range : CapacityRange)
    → req.capacity_range ≡ some range
    → ltb_ℤ range.required_bytes (pos 1) ≡ true
    → ¬ ((other : CapacityRange) × IsSized req other)
below_one req range r small (other, (o, sized)) =
    let same : other ≡ range = cc in
    let size : pos 1 ≤ℤ range.required_bytes = rw same at sized in absurd (ground arith)

module _ (P : StorageProvider) (req : ControllerExpandVolumeRequest) where
  -- ControllerExpandVolume succeeds only for an identified volume and a size of at least one byte
  -- that the provider has set; the response has the required size, whatever the limit, and asks the
  -- node for nothing.
  pub controller_expand_volume-reply :
      (s s' : P.State) (v : ControllerExpandVolumeResponse)
      → controller_expand_volume P req s ≡ (reply v, s')
      → IsIdentified req.volume_id req.secrets
        × ((range : CapacityRange) × IsSized req range
            × (P.expand_volume req.volume_id range.required_bytes req.secrets s ≡ (ok tt, s'))
            × (v.capacity_bytes ≡ range.required_bytes)
            × (v.node_expansion_required ≡ false))
  unfolding controller_expand_volume expand_in_range
  controller_expand_volume-reply s s' v h = elim (IsIdentified-cases req.volume_id req.secrets) [
    | inr (_, inl t) ↦ absurd (ground arith)
    | inr (_, inr (f, (m, e))) ↦ elim (Option-cases req.capacity_range) [
      | inl n ↦ absurd (ground arith)
      | inr (range, r) ↦ absurd (ground arith)
    ]
    | inl (i, f, e) ↦ elim (Option-cases req.capacity_range) [
      | inl n ↦ absurd (ground arith)
      | inr (range, r) ↦ elim (Bool-cases (ltb_ℤ range.required_bytes (pos 1))) [
        | inl small ↦ absurd (ground arith)
        | inr big ↦
            let done = P.expand_volume req.volume_id range.required_bytes req.secrets s in
            let (a, size, node) =
              answer_expand-reply range.required_bytes done.0 v (ground arith) in
            (i, (range, (r, ground arith), ground arith, size, node))
      ]
    ]
  ]

  -- The failures of ControllerExpandVolume: InvalidArgument, the state unchanged, only for a request
  -- that is not identified or asks for no size of at least one byte; else NotFound or Internal for
  -- an error of the provider, as that says that there is no such volume or not.
  pub controller_expand_volume-status :
      (s s' : P.State) (code : Code) (message : Text)
      → controller_expand_volume P req s ≡ (status code message, s')
      → ((code ≡ Code.invalid_argument) × (s ≡ s') × (¬ IsExpandable req))
        ⊎ ((range : CapacityRange) × (e : Error) × IsSized req range
            × (P.expand_volume req.volume_id range.required_bytes req.secrets s ≡ (err e, s'))
            × (((code ≡ Code.not_found) × (is_not_found e ≡ true))
                ⊎ ((code ≡ Code.internal) × (is_not_found e ≡ false))))
  unfolding controller_expand_volume expand_in_range
  controller_expand_volume-status s s' code message h =
      elim (IsIdentified-cases req.volume_id req.secrets) [
        | inr (bad, inl t) ↦ inl (ground arith, ground arith, λ (i, _). bad i)
        | inr (bad, inr (f, (m, e))) ↦ elim (Option-cases req.capacity_range) [
          | inl n ↦ inl (ground arith, ground arith, λ (i, _). bad i)
          | inr (range, r) ↦ inl (ground arith, ground arith, λ (i, _). bad i)
        ]
        | inl (i, f, e) ↦ elim (Option-cases req.capacity_range) [
          | inl n ↦ inl (ground arith, ground arith, λ (_, (other, (o, _))). absurd (ground arith))
          | inr (range, r) ↦ elim (Bool-cases (ltb_ℤ range.required_bytes (pos 1))) [
            | inl small ↦
                inl (ground arith, ground arith, λ (_, sized). below_one req range r small sized)
            | inr big ↦
                let done = P.expand_volume req.volume_id range.required_bytes req.secrets s in
                let (x, a, kind) =
                  answer_expand-status range.required_bytes done.0 code message (ground arith) in
                inr (range, x, (r, ground arith), ground arith, kind)
          ]
        ]
      ]
