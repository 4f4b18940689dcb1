-- ===== src/Driver/Node/Mounts.antt =====
-- NodePublishVolume of pkg/driver/node.go as at most one mount.
use panfs_container_storage.Base.{
  String, ◌≡◌, ◌≢◌, refl, ◌⊎◌, inl, inr, Option, none, some, List, [], ◌∷◌, ◌++◌, str_eq,
  Option-cases, Bool-cases,
}
use panfs_container_storage.Base.Texts.{Text, str_eq-cases}
use panfs_container_storage.Base.Results.{Error}
use panfs_container_storage.Driver.Csi.{
  Code, Reply, reply, status, VolumeCapability, NodePublishVolumeRequest,
  NodeUnpublishVolumeRequest,
}
use panfs_container_storage.Driver.Mounter.{PanMounter}
use panfs_container_storage.Driver.Node.{
  Os, Event, made_dir, created, chmodded, wrote, removed, closed, Run, mount_options, is_encrypted,
  mount_volume, with_kmip_file, publish_encrypted, node_publish_volume, node_unpublish_volume,
}
use panfs_container_storage.Driver.Node.Publish.{
  IsPublishable, source_of, config_of, node_publish_volume-gate,
}
use panfs_container_storage.Driver.Node.Trace.{with_config}

-- The reply is a success if the mounter reports none, and a status otherwise.
abbrev pub Reports : Reply (Unit {0}) → Option Error → Type 0
Reports answer none = answer ≡ reply tt
Reports answer (some e) = (code : Code) × (message : Text) × (answer ≡ status code message)

abbrev pub IsRefused : Reply (Unit {0}) → Type 0
IsRefused answer = (code : Code) × (message : Text) × (answer ≡ status code message)

module _ (M : PanMounter) (os : Os) (req : NodePublishVolumeRequest) where
  -- The handler refuses with the mounter as it was, or it mounts once and reports what came of it.
  abbrev pub MountsOnce : M.State → Run M → Type 0
  MountsOnce s run =
      (IsRefused run.0 × (run.2 ≡ s))
      ⊎ ((options : List String) × Reports run.0
            (M.mount (source_of req) req.target_path options s).0
          × (run.2 ≡ (M.mount (source_of req) req.target_path options s).1))

  mount_volume-MountsOnce :
      (options : List String) (before deferred : List Event) (s : M.State)
      → MountsOnce s (mount_volume M os req options before deferred s)
  unfolding mount_volume
  mount_volume-MountsOnce options before deferred s =
      elim (Option-cases (M.mount (source_of req) req.target_path options s).0) [
        | inl n ↦ inr (options, rw n refl, refl)
        | inr (e, x) ↦ inr (options, rw x (Code.internal, _, refl), refl)
      ]

  with_kmip_file-MountsOnce :
      (options : List String) (file : String) (before : List Event) (s : M.State)
      → MountsOnce s (with_kmip_file M os req options file before s)
  unfolding with_kmip_file
  with_kmip_file-MountsOnce options file before s = elim (Option-cases os.chmod) [
    | inr (m, e) ↦ rw e (inl ((Code.internal, _, refl), refl))
    | inl e ↦ elim (Bool-cases (str_eq (config_of req) "")) [
      | inl t ↦ rw (e, t) (inl ((Code.invalid_argument, _, refl), refl))
      | inr f ↦ elim (Option-cases os.write) [
        | inr (m, w) ↦ rw (e, f, w) (inl ((Code.internal, _, refl), refl))
        | inl w ↦
            rw (e, f, w)
              (mount_volume-MountsOnce (with_config M os req options file)
                ((before ++ chmodded file none ∷ []) ++ wrote file (config_of req) none ∷ [])
                (removed file os.remove ∷ closed file os.close ∷ []) s)
      ]
    ]
  ]

  publish_encrypted-MountsOnce :
      (options : List String) (s : M.State) → MountsOnce s (publish_encrypted M os req options s)
  unfolding publish_encrypted
  publish_encrypted-MountsOnce options s = elim (Option-cases os.mkdir_all) [
    | inr (m, e) ↦ rw e (inl ((Code.internal, _, refl), refl))
    | inl e ↦ elim (Option-cases os.create_temp.1) [
      | inl n ↦ rw (e, n) (inl ((Code.internal, _, refl), refl))
      | inr (file, t) ↦
          rw (e, t) (with_kmip_file-MountsOnce options file (made_dir none ∷ created file ∷ []) s)
    ]
  ]

  -- A request that is not publishable is refused.
  pub node_publish_volume-MountsOnce :
      (s : M.State)
      → let run = node_publish_volume M os req s in
        (IsRefused run.0 × (run.2 ≡ s))
        ⊎ ((c : VolumeCapability) × IsPublishable req c × MountsOnce s run)
  node_publish_volume-MountsOnce s = elim (node_publish_volume-gate M os req) [
    | inr (code, m, _, turned) ↦ rw (turned s) (inl ((code, m, refl), refl))
    | inl (c, passes, on) ↦ elim (Bool-cases (is_encrypted req.volume_context)) [
      | inl t ↦ rw (on s, t) (inr (c, passes, publish_encrypted-MountsOnce (mount_options req c) s))
      | inr f ↦
          rw (on s, f) (inr (c, passes, mount_volume-MountsOnce (mount_options req c) [] [] s))
    ]
  ]

module _ (M : PanMounter) (req : NodeUnpublishVolumeRequest) where
  abbrev pub UnmountsOnce : M.State → Reply (Unit {0}) × M.State → Type 0
  UnmountsOnce s run =
      (IsRefused run.0 × (run.1 ≡ s))
      ⊎ ((req.volume_id ≢ "")
          × (req.target_path ≢ "")
          × Reports run.0 (M.unmount req.target_path s).0
          × (run.1 ≡ (M.unmount req.target_path s).1))

  pub node_unpublish_volume-UnmountsOnce :
      (s : M.State) → UnmountsOnce s (node_unpublish_volume M req s)
  unfolding node_unpublish_volume
  node_unpublish_volume-UnmountsOnce s = elim (str_eq-cases req.volume_id "") [
    | inl (t, _) ↦ rw t (inl ((Code.invalid_argument, _, refl), refl))
    | inr (f, named) ↦ elim (str_eq-cases req.target_path "") [
      | inl (t, _) ↦ rw (f, t) (inl ((Code.invalid_argument, _, refl), refl))
      | inr (g, targeted) ↦ elim (Option-cases (M.unmount req.target_path s).0) [
        | inl n ↦ rw (f, g, n) (inr (named, targeted, refl, refl))
        | inr (e, x) ↦ rw (f, g, x) (inr (named, targeted, (Code.internal, _, refl), refl))
      ]
    ]
  ]
