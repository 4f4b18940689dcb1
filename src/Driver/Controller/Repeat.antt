-- ===== src/Driver/Controller/Repeat.antt =====
-- CreateVolume over the client of the sanity mode: the new volume, and a repeated call.
use panfs_container_storage.Base.{
  ℕ, suc, ◌^◌, ◌<◌, String, ◌≡◌, refl, sym, ◌∙◌, ap, inl, inr, none, some, [], ◌∷◌, ◌++◌, arith,
  eq_refl, Option-cases,
}
use panfs_container_storage.Base.Texts.{Text}
use panfs_container_storage.Base.Int.{abs}
use panfs_container_storage.Base.Results.{Sentinel, ok, err}
use panfs_container_storage.Utils.Convert.{gb_to_bytes}
use panfs_container_storage.Utils.Parser.{Volume, get_soft_quota_bytes}
use panfs_container_storage.Pancli.Fake.{Fake, find_volume, get_volume, new_volume}
use panfs_container_storage.Pancli.Errors.{sentinel}
use panfs_container_storage.Pancli.Fake.Laws.{find_volume-append}
use panfs_container_storage.Pancli.Fake.Operations.{
  created, create_volume_free, create_volume_taken,
}
use panfs_container_storage.Driver.Csi.{
  Reply, reply, get_required_bytes, get_limit_bytes, VolumeCapability, CreateVolumeRequest,
  CsiVolume,
}
use panfs_container_storage.Driver.Provider.{StorageProvider, fake_provider}
use panfs_container_storage.Driver.Validators.Requests.{Fits, validate_volume_capacity_iff}
use panfs_container_storage.Driver.Controller.Create.{IsAcceptable, create_volume_of_IsAcceptable}
use panfs_container_storage.Driver.Controller.Outcomes.{create_volume-reply}
use panfs_container_storage.Driver.Controller.{
  created_volume, reply_existing, answer_create, provision, create_volume, quota_parameters,
}
use panfs_container_storage.Driver.Controller.Quotas.{made-soft, made-hard, made-Fits}

module _ (uuid : ℕ → String) (req : CreateVolumeRequest) where
  abbrev pub P : StorageProvider
  P = fake_provider uuid

  abbrev pub made_by : Fake → Volume
  made_by s = created uuid req.name (quota_parameters req) s

  abbrev pub after : Fake → Fake
  after s = record { volumes = s.volumes ++ (made_by s ∷ []); drawn = suc s.drawn }

  pub provider_free :
      (s : Fake)
      → find_volume req.name s.volumes ≡ none
      → P.create_volume req.name (quota_parameters req) req.secrets s
        ≡ (ok (some (made_by s)), after s)
  provider_free s e =
      rw (create_volume_free uuid req.name (quota_parameters req) req.secrets s e) refl

  pub provider_taken :
      (s : Fake) (w : Volume)
      → find_volume req.name s.volumes ≡ some w
      → P.create_volume req.name (quota_parameters req) req.secrets s
        ≡ (err (sentinel Sentinel.already_exist), s)
  provider_taken s w e =
      rw (create_volume_taken uuid req.name (quota_parameters req) req.secrets s w e) refl

  pub provider_found :
      (s : Fake) (w : Volume)
      → find_volume req.name s.volumes ≡ some w
      → P.get_volume req.name req.secrets s ≡ (ok (some w), s)
  unfolding get_volume
  provider_found s w e = ground arith

  pub provision_free :
      (s : Fake)
      → find_volume req.name s.volumes ≡ none
      → provision P req s ≡ (reply (created_volume req.name (made_by s)), after s)
  unfolding provision answer_create
  provision_free s e = rw (provider_free s e) refl

  pub provision_taken :
      (s : Fake) (w : Volume)
      → find_volume req.name s.volumes ≡ some w
      → provision P req s ≡ (reply_existing req (ok (some w)), s)
  unfolding provision answer_create
  provision_taken s w e = rw (provider_taken s w e) (rw (provider_found s w e) refl)

  capacity : (w : Volume) → (created_volume req.name w).capacity_bytes ≡ gb_to_bytes w.soft
  unfolding created_volume get_soft_quota_bytes
  capacity w = refl

  pub reply_existing_fit :
      (w : Volume)
      → Fits req.capacity_range w
      → reply_existing req (ok (some w)) ≡ reply (created_volume req.name w)
  unfolding reply_existing
  reply_existing_fit w f =
      let e = (validate_volume_capacity_iff req.capacity_range w).1 f in ground arith

  pub after_find :
      (s : Fake)
      → find_volume req.name s.volumes ≡ none
      → find_volume req.name (after s).volumes ≡ some (made_by s)
  unfolding new_volume
  after_find s e = find_volume-append req.name s.volumes (made_by s) e ∙ rw (eq_refl req.name) refl

  module _ (show : VolumeCapability → Text) where
    -- A reply has gone through `provision`.
    replied :
        (s s' : Fake) (v : CsiVolume)
        → create_volume P show req s ≡ (reply v, s')
        → IsAcceptable req × (provision P req s ≡ (reply v, s'))
    replied s s' v h =
        let (a, _) = create_volume-reply P req show s s' v h in
        (a, sym (create_volume_of_IsAcceptable P show req s a) ∙ h)

    replied_free :
        (s s' : Fake) (v : CsiVolume)
        → provision P req s ≡ (reply v, s')
        → find_volume req.name s.volumes ≡ none
        → (v ≡ created_volume req.name (made_by s)) × (s' ≡ after s)
    replied_free s s' v h free =
        let e = sym h ∙ provision_free s free in (cc e, ap (λ (r : Reply CsiVolume × Fake). r.1) e)

    -- In the sanity mode, for a volume under a new name, of sizes below 2^53 bytes: the response of a
    -- successful CreateVolume carries the requested size, and the in-memory client then finds under
    -- the name a volume with the requested quotas.
    pub create_volume-quotas :
        (s s' : Fake) (v : CsiVolume)
        → create_volume (fake_provider uuid) show req s ≡ (reply v, s')
        → find_volume req.name s.volumes ≡ none
        → abs (get_required_bytes req.capacity_range) < 2 ^ 53
        → abs (get_limit_bytes req.capacity_range) < 2 ^ 53
        → (v.capacity_bytes ≡ get_required_bytes req.capacity_range)
          × (vol : Volume) × (find_volume req.name s'.volumes ≡ some vol)
          × (gb_to_bytes vol.soft ≡ get_required_bytes req.capacity_range)
          × (gb_to_bytes vol.hard ≡ get_limit_bytes req.capacity_range)
    create_volume-quotas s s' v h free r l =
        let (_, p) = replied s s' v h in
        let (same, new) = replied_free s s' v p free in
        rw (same, new)
          (
            capacity (made_by s) ∙ made-soft (uuid s.drawn) req r,
            made_by s,
            after_find s free,
            made-soft (uuid s.drawn) req r,
            made-hard (uuid s.drawn) req l,
          )

    -- In the sanity mode CreateVolume is idempotent: a call that succeeded, repeated with the same
    -- request, of sizes below 2^53 bytes, returns the same response and changes nothing. The client
    -- that runs commands on a realm rounds the sizes, and is not meant here.
    pub create_volume-repeat :
        (s s' : Fake) (v : CsiVolume)
        → create_volume (fake_provider uuid) show req s ≡ (reply v, s')
        → abs (get_required_bytes req.capacity_range) < 2 ^ 53
        → abs (get_limit_bytes req.capacity_range) < 2 ^ 53
        → create_volume (fake_provider uuid) show req s' ≡ (reply v, s')
    create_volume-repeat s s' v h r l =
        let (a, p) = replied s s' v h in
        elim (Option-cases (find_volume req.name s.volumes)) [
          | inr (w, e) ↦
              let same : s ≡ s' =
                ap (λ (r : Reply CsiVolume × Fake). r.1) (sym (provision_taken s w e) ∙ p) in
              rw (← same) (h ∙ ap (λ t. (reply v, t)) (sym same))
          | inl free ↦
              let (same, new) = replied_free s s' v p free in
              rw (same, new)
                (create_volume_of_IsAcceptable P show req (after s) a
                  ∙ provision_taken (after s) (made_by s) (after_find s free)
                  ∙ ap (λ x. (x, after s))
                      (reply_existing_fit (made_by s) (made-Fits (uuid s.drawn) req r l)))
        ]
