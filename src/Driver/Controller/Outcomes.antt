-- ===== src/Driver/Controller/Outcomes.antt =====
-- CreateVolume of pkg/driver/controller.go over any provider: its replies and failures.
use panfs_container_storage.Base.{
  ◌≡◌, refl, sym, ◌∙◌, ◌⊎◌, inl, inr, true, Option, none, some, arith, Option-cases, Bool-cases,
}
use panfs_container_storage.Base.Texts.{Text}
use panfs_container_storage.Base.Results.{Error, Result, ok, err, panic, is_already_exist}
use panfs_container_storage.Utils.Parser.{Volume}
use panfs_container_storage.Driver.Csi.{
  Code, reply, status, VolumeCapability, CreateVolumeRequest, CsiVolume,
}
use panfs_container_storage.Driver.Provider.{StorageProvider}
use panfs_container_storage.Driver.Validators.{validate_volume_capacity}
use panfs_container_storage.Driver.Validators.Requests.{Fits, validate_volume_capacity_iff}
use panfs_container_storage.Driver.Controller.{
  created_volume, reply_existing, answer_create, provision, create_volume, quota_parameters,
}
use panfs_container_storage.Driver.Controller.Create.{IsAcceptable, create_volume-gate}

module _ (P : StorageProvider) (req : CreateVolumeRequest) where
  -- The provider has created the volume, or says that it exists and lists one that fits the range.
  abbrev pub Provides : P.State → Volume → P.State → Type 0
  Provides s vol s' =
      (P.create_volume req.name (quota_parameters req) req.secrets s ≡ (ok (some vol), s'))
      ⊎ ((e : Error) × (t : P.State) × (P.create_volume req.name (quota_parameters req) req.secrets
              s
            ≡ (err e, t))
          × (is_already_exist e ≡ true)
          × (P.get_volume req.name req.secrets t ≡ (ok (some vol), s'))
          × Fits req.capacity_range vol)

  -- The provider says that the volume exists, and lists one that does not fit the range.
  abbrev pub Conflicts : P.State → P.State → Type 0
  Conflicts s s' =
      (e : Error) × (t : P.State) × (vol : Volume) × (P.create_volume req.name
          (quota_parameters req) req.secrets s
        ≡ (err e, t))
      × (is_already_exist e ≡ true)
      × (P.get_volume req.name req.secrets t ≡ (ok (some vol), s'))
      × (¬ Fits req.capacity_range vol)

  -- What the answer to an existing volume rests on.
  reply_existing-reply :
      (found : Result (Option Volume)) (v : CsiVolume)
      → reply_existing req found ≡ reply v
      → (vol : Volume) × (found ≡ ok (some vol))
        × Fits req.capacity_range vol
        × (created_volume req.name vol ≡ v)
  unfolding reply_existing
  reply_existing-reply (ok (some vol)) v h =
      elim (Option-cases (validate_volume_capacity req.capacity_range vol)) [
        | inl e ↦
            (vol, refl, (validate_volume_capacity_iff req.capacity_range vol).0 e, ground arith)
        | inr (m, e) ↦ absurd (ground arith)
      ]
  reply_existing-reply (ok none) v h = cc
  reply_existing-reply (err e) v h = cc
  reply_existing-reply panic v h = cc

  reply_existing-status :
      (found : Result (Option Volume)) (code : Code) (message : Text)
      → reply_existing req found ≡ status code message
      → ((code ≡ Code.already_exists)
          × ((vol : Volume) × (found ≡ ok (some vol)) × (¬ Fits req.capacity_range vol)))
        ⊎ (code ≡ Code.internal)
  unfolding reply_existing
  reply_existing-status (ok (some vol)) code message h =
      elim (Option-cases (validate_volume_capacity req.capacity_range vol)) [
        | inl e ↦ absurd (ground arith)
        | inr (m, e) ↦ inl (
          ground arith,
          (vol, refl, λ f. absurd (cc ((validate_volume_capacity_iff req.capacity_range vol).1 f))),
        )
      ]
  reply_existing-status (ok none) code message h = inr (ground arith)
  reply_existing-status (err e) code message h = inr (ground arith)
  reply_existing-status panic code message h = cc

  answer_create-reply :
      (s t s' : P.State) (answer : Result (Option Volume)) (v : CsiVolume)
      → P.create_volume req.name (quota_parameters req) req.secrets s ≡ (answer, t)
      → answer_create P req answer t ≡ (reply v, s')
      → (vol : Volume) × Provides s vol s' × (created_volume req.name vol ≡ v)
  unfolding answer_create
  answer_create-reply s t s' (ok (some vol)) v c h = (vol, inl (ground arith), ground arith)
  answer_create-reply s t s' (ok none) v c h = cc
  answer_create-reply s t s' panic v c h = cc
  answer_create-reply s t s' (err e) v c h = elim (Bool-cases (is_already_exist e)) [
    | inr n ↦ absurd (ground arith)
    | inl y ↦
        let found = P.get_volume req.name req.secrets t in
        let (vol, g, fits, same) = reply_existing-reply found.0 v (ground arith) in
        (vol, inr (e, t, c, y, ground arith, fits), same)
  ]

  answer_create-status :
      (s t s' : P.State) (answer : Result (Option Volume)) (code : Code) (message : Text)
      → P.create_volume req.name (quota_parameters req) req.secrets s ≡ (answer, t)
      → answer_create P req answer t ≡ (status code message, s')
      → ((code ≡ Code.already_exists) × Conflicts s s') ⊎ (code ≡ Code.internal)
  unfolding answer_create
  answer_create-status s t s' (ok (some vol)) code message c h = cc
  answer_create-status s t s' (ok none) code message c h = cc
  answer_create-status s t s' panic code message c h = cc
  answer_create-status s t s' (err e) code message c h = elim (Bool-cases (is_already_exist e)) [
    | inr n ↦ inr (ground arith)
    | inl y ↦
        let found = P.get_volume req.name req.secrets t in
        elim (reply_existing-status found.0 code message (ground arith)) [
          | inr i ↦ inr i
          | inl (a, (vol, g, misfit)) ↦ inl (a, (e, t, vol, c, y, ground arith, misfit))
        ]
  ]

  module _ (show : VolumeCapability → Text) where
    -- A volume is returned only for an acceptable request, for a volume that the provider has
    -- created or that exists and fits the requested range; the response is that volume's.
    pub create_volume-reply :
        (s s' : P.State) (v : CsiVolume)
        → create_volume P show req s ≡ (reply v, s')
        → IsAcceptable req
          × ((vol : Volume) × Provides s vol s' × (created_volume req.name vol ≡ v))
    unfolding provision
    create_volume-reply s s' v h = elim (create_volume-gate P show req) [
      | inr (bad, (m, r)) ↦ cc (r s)
      | inl (a, r) ↦ (a, answer_create-reply s _ s' _ v refl (sym (r s) ∙ h))
    ]

    -- The codes of the failures: InvalidArgument for a request that is not acceptable, with the
    -- state unchanged; AlreadyExists for a volume that exists and does not fit the requested range;
    -- and Internal for all else.
    pub create_volume-status :
        (s s' : P.State) (code : Code) (message : Text)
        → create_volume P show req s ≡ (status code message, s')
        → ((code ≡ Code.invalid_argument) × (¬ IsAcceptable req) × (s ≡ s'))
          ⊎ ((code ≡ Code.already_exists) × IsAcceptable req × Conflicts s s')
          ⊎ ((code ≡ Code.internal) × IsAcceptable req)
    unfolding provision
    create_volume-status s s' code message h = elim (create_volume-gate P show req) [
      | inr (bad, (m, r)) ↦ inl (cc (r s), bad, cc (r s))
      | inl (a, r) ↦ elim (answer_create-status s _ s' _ code message refl (sym (r s) ∙ h)) [
        | inl (k, c) ↦ inr (inl (k, a, c))
        | inr k ↦ inr (inr (k, a))
      ]
    ]
