-- ===== src/Driver/Controller/Sanity.antt =====
-- The controller over the client of the sanity mode: the states that it reaches, expansions and
-- deletions.
use panfs_container_storage.Base.{
  ℕ, ◌^◌, ◌<◌, String, ◌≡◌, ◌≢◌, refl, sym, ◌∙◌, inl, inr, none, some, List, [], ◌∷◌, arith,
  eq_refl, Option-cases, Bool-cases, All,
}
use panfs_container_storage.Base.Texts.{Text, str_eq-cases}
use panfs_container_storage.Base.Int.{pos, abs, ltb_ℤ}
use panfs_container_storage.Utils.Convert.{bytes_to_gb, gb_to_bytes}
use panfs_container_storage.Utils.Convert.RoundTrip.{gb_to_bytes-bytes_to_gb}
use panfs_container_storage.Utils.Parser.{Volume}
use panfs_container_storage.Pancli.Fake.{Fake, new_fake, find_volume, remove_by_id}
use panfs_container_storage.Pancli.Fake
use panfs_container_storage.Pancli.Fake.Laws.{HasUniqueNames}
use panfs_container_storage.Pancli.Fake.Operations.{
  expand_volume-find, delete_volume-HasUniqueNames, expand_volume-HasUniqueNames,
  create_volume_free-HasUniqueNames,
}
use panfs_container_storage.Driver.Csi.{
  reply, VolumeCapability, CreateVolumeRequest, DeleteVolumeRequest, ControllerExpandVolumeRequest,
  ControllerExpandVolumeResponse,
}
use panfs_container_storage.Driver.Provider.{fake_provider}
use panfs_container_storage.Driver.Controller.{
  answer_delete, delete_volume, controller_expand_volume, expand_in_range, create_volume,
  quota_parameters,
}
use panfs_container_storage.Driver.Controller.Create.{create_volume-gate}
use panfs_container_storage.Driver.Controller.Lifecycle.{IsIdentified, IsIdentified-cases}
use panfs_container_storage.Driver.Controller.Expand.{controller_expand_volume-reply}
use panfs_container_storage.Driver.Controller.Repeat.{provision_free, provision_taken}

module _ (uuid : ℕ → String) where
  -- An expansion of a volume to a size below 2^53 bytes: the client then finds under its name a
  -- volume with just the soft quota that the response carries, and every other volume as it was.
  controller_expand_volume-find :
      (req : ControllerExpandVolumeRequest) (s s' : Fake) (v : ControllerExpandVolumeResponse)
      → controller_expand_volume (fake_provider uuid) req s ≡ (reply v, s')
      → HasUniqueNames s.volumes
      → abs v.capacity_bytes < 2 ^ 53
      → ((vol : Volume) × (find_volume req.volume_id s'.volumes ≡ some vol)
          × (gb_to_bytes vol.soft ≡ v.capacity_bytes))
        × ((other : String)
            → other ≢ req.volume_id
            → find_volume other s'.volumes ≡ find_volume other s.volumes)
  controller_expand_volume-find req s s' v h u small =
      let (_, (range, _, done, size, _)) =
        controller_expand_volume-reply (fake_provider uuid) req s s' v h in
      let (vol, _, found, _) =
        expand_volume-find req.volume_id range.required_bytes req.secrets s s' tt u done in
      (
        (
          record vol { soft = bytes_to_gb range.required_bytes },
          found req.volume_id ∙ rw (eq_refl req.volume_id) refl,
          gb_to_bytes-bytes_to_gb range.required_bytes (rw size at small) ∙ sym size,
        ),
        λ other differs. elim (str_eq-cases req.volume_id other) [
          | inl (_, same) ↦ absurd (differs (sym same))
          | inr (f, _) ↦ found other ∙ rw f refl
        ],
      )

  remove_by_id-none :
      (id : String) (vs : List Volume)
      → All (λ (v : Volume). v.id ≢ id) vs
      → remove_by_id id vs ≡ none
  unfolding remove_by_id
  remove_by_id-none id [] a = refl
  remove_by_id-none id (v ∷ vs) (differs, a) = elim (str_eq-cases v.id id) [
    | inl (_, same) ↦ absurd (differs same)
    | inr (f, _) ↦ let rest = remove_by_id-none id vs a in ground (arith, rest)
  ]

  -- In the sanity mode, for a request that names a volume and has valid secrets, and whose volume id
  -- is the identifier of no volume, DeleteVolume reports success and changes nothing, though a volume
  -- may stand under that name.
  pub delete_volume-kept :
      (req : DeleteVolumeRequest) (s : Fake)
      → IsIdentified req.volume_id req.secrets
      → All (λ (v : Volume). v.id ≢ req.volume_id) s.volumes
      → delete_volume (fake_provider uuid) req s ≡ (reply tt, s)
  unfolding delete_volume answer_delete Fake.delete_volume
  delete_volume-kept req s i a = elim (IsIdentified-cases req.volume_id req.secrets) [
    | inr (bad, _) ↦ absurd (bad i)
    | inl (_, f, e) ↦ let kept = remove_by_id-none req.volume_id s.volumes a in ground arith
  ]

  -- The states that the controller's operations lead to, from the empty one.
  pub data Reachable (show : VolumeCapability → Text) : Fake → Type 0 where
    start : Reachable show new_fake
    created :
        (req : CreateVolumeRequest) {s : Fake}
        → Reachable show s
        → Reachable show (create_volume (fake_provider uuid) show req s).1
    deleted :
        (req : DeleteVolumeRequest) {s : Fake}
        → Reachable show s
        → Reachable show (delete_volume (fake_provider uuid) req s).1
    expanded :
        (req : ControllerExpandVolumeRequest) {s : Fake}
        → Reachable show s
        → Reachable show (controller_expand_volume (fake_provider uuid) req s).1

  pub create_volume-keeps :
      (show : VolumeCapability → Text) (req : CreateVolumeRequest) (s : Fake)
      → HasUniqueNames s.volumes
      → HasUniqueNames (create_volume (fake_provider uuid) show req s).1.volumes
  create_volume-keeps show req s u = elim (create_volume-gate (fake_provider uuid) show req) [
    | inr (_, (m, turned)) ↦ rw (turned s) u
    | inl (_, on) ↦ elim (Option-cases (find_volume req.name s.volumes)) [
      | inr (w, e) ↦ rw (on s, provision_taken uuid req s w e) u
      | inl free ↦
          rw (on s, provision_free uuid req s free)
            (create_volume_free-HasUniqueNames uuid req.name (quota_parameters req) s u free)
    ]
  ]

  pub delete_volume-keeps :
      (req : DeleteVolumeRequest) (s : Fake)
      → HasUniqueNames s.volumes
      → HasUniqueNames (delete_volume (fake_provider uuid) req s).1.volumes
  unfolding delete_volume
  delete_volume-keeps req s u = elim (IsIdentified-cases req.volume_id req.secrets) [
    | inr (_, inl t) ↦ rw t u
    | inr (_, inr (f, (m, e))) ↦ rw (f, e) u
    | inl (_, f, e) ↦ rw (f, e) (delete_volume-HasUniqueNames req.volume_id req.secrets s u)
  ]

  pub controller_expand_volume-keeps :
      (req : ControllerExpandVolumeRequest) (s : Fake)
      → HasUniqueNames s.volumes
      → HasUniqueNames (controller_expand_volume (fake_provider uuid) req s).1.volumes
  unfolding controller_expand_volume expand_in_range
  controller_expand_volume-keeps req s u = elim (IsIdentified-cases req.volume_id req.secrets) [
    | inr (_, inl t) ↦ rw t u
    | inr (_, inr (f, (m, e))) ↦ elim (Option-cases req.capacity_range) [
      | inl n ↦ rw (f, n) u
      | inr (range, r) ↦ rw (f, r, e) u
    ]
    | inl (_, f, e) ↦ elim (Option-cases req.capacity_range) [
      | inl n ↦ rw (f, n) u
      | inr (range, r) ↦ elim (Bool-cases (ltb_ℤ range.required_bytes (pos 1))) [
        | inl small ↦ rw (f, r, e, small) u
        | inr big ↦
            rw (f, r, e, big)
              (expand_volume-HasUniqueNames req.volume_id range.required_bytes req.secrets s u)
      ]
    ]
  ]

  -- No two volumes of the sanity mode have one name, in any state that the controller's operations
  -- lead to, whether they succeed or not.
  Reachable-HasUniqueNames :
      (show : VolumeCapability → Text) (s : Fake) → Reachable show s → HasUniqueNames s.volumes
  Reachable-HasUniqueNames show _ start = tt
  Reachable-HasUniqueNames show _ (created req {s} before) =
      create_volume-keeps show req s (Reachable-HasUniqueNames show s before)
  Reachable-HasUniqueNames show _ (deleted req {s} before) =
      delete_volume-keeps req s (Reachable-HasUniqueNames show s before)
  Reachable-HasUniqueNames show _ (expanded req {s} before) =
      controller_expand_volume-keeps req s (Reachable-HasUniqueNames show s before)
