-- ===== src/Driver/Server/Volumes/Handlers.antt =====
-- CreateVolume and DeleteVolume of the sanity mode keep the promise about volumes.
use panfs_container_storage.Base.{
  ℕ, String, ◌≡◌, ◌≢◌, refl, ◌∙◌, ap, inl, inr, none, some, List, [], ◌∷◌, arith, Option-cases,
}
use panfs_container_storage.Base.Texts.{Text, str_eq-cases}
use panfs_container_storage.Utils.Parser.{Volume}
use panfs_container_storage.Pancli.Fake.{Fake, find_volume, remove_by_id}
use panfs_container_storage.Pancli.Fake.Laws.{HasUniqueNames, remove_by_id-IsWithout}
use panfs_container_storage.Pancli.Fake.Operations.{
  delete_volume_found, delete_volume_missing, create_volume_free, new_volume-name,
  create_volume-find,
}
use panfs_container_storage.Base.Results.{ok}
use panfs_container_storage.Driver.Csi.{VolumeCapability, CreateVolumeRequest, DeleteVolumeRequest}
use panfs_container_storage.Driver.Provider.{fake_provider}
use panfs_container_storage.Driver.Validators.{validate_volume_capacity}
use panfs_container_storage.Driver.Controller
use panfs_container_storage.Driver.Controller.{reply_existing, answer_delete, quota_parameters}
use panfs_container_storage.Driver.Controller.Create.{IsAcceptable, create_volume-gate}
use panfs_container_storage.Driver.Validators.Requests.{validate_volume_capacity_iff}
use panfs_container_storage.Driver.Controller.Repeat.{
  made_by, after, provision_free, provision_taken,
}
use panfs_container_storage.Driver.Controller.Lifecycle.{IsIdentified-cases}
use panfs_container_storage.Driver.Server.{VolumeCall, Answer}
use panfs_container_storage.Driver.Server.Volumes.{
  Catalogue, Serves, created, repeated, mismatched, not_created, deleted, absent, not_deleted,
}

-- What GetVolume finds.
abbrev pub view : Fake → Catalogue
view s name = find_volume name s.volumes

remove_by_id-absent :
    (id name : String) (vs : List Volume) (vol : Volume)
    → remove_by_id id vs ≡ none
    → find_volume name vs ≡ some vol
    → vol.id ≢ id
unfolding remove_by_id find_volume
remove_by_id-absent id name [] vol r f h = cc
remove_by_id-absent id name (v ∷ vs) vol r f h = elim (str_eq-cases v.id id) [
  | inl (t, _) ↦ ground arith
  | inr (n, differs) ↦ elim (Option-cases (remove_by_id id vs)) [
    | inr (rest, e) ↦ ground arith
    | inl e ↦ elim (str_eq-cases v.name name) [
      | inl (t, _) ↦
          let same : v ≡ vol = ground arith in differs (ap (λ (w : Volume). w.id) same ∙ h)
      | inr (m, _) ↦ remove_by_id-absent id name vs vol e (ground arith) h
    ]
  ]
]

pub existing-Serves :
    (req : CreateVolumeRequest) (s : Fake) (w : Volume)
    → IsAcceptable req
    → find_volume req.name s.volumes ≡ some w
    → Serves
        (VolumeCall.create_volume req)
        (Answer.volume (reply_existing req (ok (some w))))
        (view s)
        (view s)
unfolding reply_existing
existing-Serves req s w a e = elim (Option-cases (validate_volume_capacity req.capacity_range w)) [
  | inl fits ↦
      rw (reply_existing, fits)
        (repeated req w a e ((validate_volume_capacity_iff req.capacity_range w).0 fits)
          (λ n. refl))
  | inr (m, misfit) ↦
      rw (reply_existing, misfit)
        (mismatched req w _ a e (λ f. cc ((validate_volume_capacity_iff req.capacity_range w).1 f))
          (λ n. refl))
]

module _ (uuid : ℕ → String) where
  pub create_volume-Serves :
      (show : VolumeCapability → Text) (req : CreateVolumeRequest) (s : Fake)
      → HasUniqueNames s.volumes
      → let answered = Controller.create_volume (fake_provider uuid) show req s in
        Serves (VolumeCall.create_volume req) (Answer.volume answered.0) (view s) (view answered.1)
  create_volume-Serves show req s u = elim (create_volume-gate (fake_provider uuid) show req) [
    | inr (bad, (m, turned)) ↦ rw (turned s) (not_created req m bad (λ n. refl))
    | inl (a, on) ↦ elim (Option-cases (find_volume req.name s.volumes)) [
      | inl free ↦
          let (_, found, _) =
            create_volume-find uuid req.name (quota_parameters req) req.secrets s (after uuid req s)
              (made_by uuid req s) u
              (create_volume_free uuid req.name (quota_parameters req) req.secrets s free) in
          rw (on s, provision_free uuid req s free)
            (created req (made_by uuid req s) a free
              (new_volume-name uuid (uuid s.drawn) req.name (quota_parameters req)) found)
      | inr (w, e) ↦ rw (on s, provision_taken uuid req s w e) (existing-Serves req s w a e)
    ]
  ]

  pub delete_volume-Serves :
      (req : DeleteVolumeRequest) (s : Fake)
      → HasUniqueNames s.volumes
      → let answered = Controller.delete_volume (fake_provider uuid) req s in
        Serves (VolumeCall.delete_volume req) (Answer.empty answered.0) (view s) (view answered.1)
  unfolding Controller.delete_volume answer_delete
  delete_volume-Serves req s u = elim (IsIdentified-cases req.volume_id req.secrets) [
    | inr (bad, inl t) ↦ rw t (not_deleted req _ bad (λ n. refl))
    | inr (bad, inr (f, (m, e))) ↦ rw (f, e) (not_deleted req m bad (λ n. refl))
    | inl (i, f, e) ↦ elim (Option-cases (remove_by_id req.volume_id s.volumes)) [
      | inl n ↦
          rw (f, e, delete_volume_missing req.volume_id req.secrets s n)
            (absent req i (λ name vol. remove_by_id-absent req.volume_id name s.volumes vol n)
              (λ name. refl))
      | inr (rest, r) ↦
          let w = remove_by_id-IsWithout req.volume_id s.volumes rest u r in
          rw (f, e, delete_volume_found req.volume_id req.secrets s rest r)
            (deleted req w.volume i w.listed w.identified w.others)
    ]
  ]
