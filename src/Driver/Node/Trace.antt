-- ===== src/Driver/Node/Trace.antt =====
-- NodePublishVolume of pkg/driver/node.go: the calls of a success.
use panfs_container_storage.Base.{
  String, ◌<>◌, ◌≡◌, ◌≢◌, ◌⊎◌, inl, inr, true, false, Option, none, some, List, [], ◌∷◌, ◌++◌,
  arith, Option-cases, Bool-cases,
}
use panfs_container_storage.Base.Texts.{str_eq-cases}
use panfs_container_storage.Base.Results.{Error}
use panfs_container_storage.Driver.Csi.{reply, VolumeCapability, NodePublishVolumeRequest}
use panfs_container_storage.Driver.Mounter.{PanMounter}
use panfs_container_storage.Driver.Node.{
  Os, Event, made_dir, created, chmodded, wrote, mounted, removed, closed, mount_options,
  is_encrypted, mount_volume, with_kmip_file, publish_encrypted, node_publish_volume,
}
use panfs_container_storage.Driver.Node.Publish.{
  IsPublishable, source_of, config_of, node_publish_volume-gate,
}

module _ (M : PanMounter) (os : Os) (req : NodePublishVolumeRequest) where
  abbrev pub mount_call : List String → M.State → Option Error × M.State
  mount_call options s = M.mount (source_of req) req.target_path options s

  -- The options of an encrypted mount.
  abbrev pub with_config : List String → String → List String
  with_config options file = options ++ (("kmip-config-file=" <> file) ∷ [])

  -- The calls of a successful publication of an encrypted volume. The configuration is written only
  -- once the file's mode is set, the mount comes behind the write, and the file is removed at the end.
  abbrev pub encrypted_calls : List String → String → List Event
  encrypted_calls options file =
      made_dir none
      ∷ created file
      ∷ chmodded file none
      ∷ wrote file (config_of req) none
      ∷ mounted (source_of req) req.target_path (with_config options file) none
      ∷ removed file os.remove
      ∷ closed file os.close
      ∷ []

  mount_volume-reply :
      (options : List String) (before deferred events : List Event) (s s' : M.State)
      → mount_volume M os req options before deferred s ≡ (reply tt, events, s')
      → (mount_call options s ≡ (none, s'))
        × (events ≡ before ++ (mounted (source_of req) req.target_path options none ∷ deferred))
  unfolding mount_volume
  mount_volume-reply options before deferred events s s' h =
      elim (Option-cases (mount_call options s).0) [
        | inl e ↦ (ground arith, ground arith)
        | inr (m, e) ↦ absurd (ground arith)
      ]

  -- A success of the encrypted branch, or of the plain one.
  abbrev pub IsEncryptedMount : List String → List Event → M.State → M.State → Type 0
  IsEncryptedMount options events s s' =
      (file : String) × (os.create_temp.1 ≡ some file)
      × (config_of req ≢ "")
      × (mount_call (with_config options file) s ≡ (none, s'))
      × (events ≡ encrypted_calls options file)

  with_kmip_file-reply :
      (options : List String) (file : String) (before events : List Event) (s s' : M.State)
      → with_kmip_file M os req options file before s ≡ (reply tt, events, s')
      → (config_of req ≢ "")
        × (mount_call (with_config options file) s ≡ (none, s'))
        × (events
            ≡ ((before ++ (chmodded file none ∷ [])) ++ (wrote file (config_of req) none ∷ []))
              ++ (mounted (source_of req) req.target_path (with_config options file) none
                  ∷ removed file os.remove
                  ∷ closed file os.close
                  ∷ []))
  unfolding with_kmip_file
  with_kmip_file-reply options file before events s s' h = elim (Option-cases os.chmod) [
    | inr (m, e) ↦ absurd (ground arith)
    | inl e ↦ elim (str_eq-cases (config_of req) "") [
      | inl (t, _) ↦ absurd (ground arith)
      | inr (f, given) ↦ elim (Option-cases os.write) [
        | inr (m, w) ↦ absurd (ground arith)
        | inl w ↦
            let (done, calls) =
              mount_volume-reply (with_config options file) _ _ events s s' (ground arith) in
            (given, done, calls)
      ]
    ]
  ]

  publish_encrypted-reply :
      (options : List String) (events : List Event) (s s' : M.State)
      → publish_encrypted M os req options s ≡ (reply tt, events, s')
      → IsEncryptedMount options events s s'
  unfolding publish_encrypted
  publish_encrypted-reply options events s s' h = elim (Option-cases os.mkdir_all) [
    | inr (m, e) ↦ absurd (ground arith)
    | inl e ↦ elim (Option-cases os.create_temp.1) [
      | inl n ↦ absurd (ground arith)
      | inr (file, t) ↦
          let (given, done, calls) =
            with_kmip_file-reply options file (made_dir none ∷ created file ∷ []) events s s'
              (ground arith) in
          (file, t, given, done, calls)
    ]
  ]

  -- A success of NodePublishVolume: the request is publishable, and the mounter has mounted the
  -- realm's volume at the target. For a volume whose context does not ask for encryption this is
  -- the only call, with the requested options; for any other the calls are those of
  -- `encrypted_calls`, and the mount has the file's name as a further option.
  pub node_publish_volume-reply :
      (s s' : M.State) (events : List Event)
      → node_publish_volume M os req s ≡ (reply tt, events, s')
      → (c : VolumeCapability) × IsPublishable req c
        × (((is_encrypted req.volume_context ≡ false)
              × (mount_call (mount_options req c) s ≡ (none, s'))
              × (events ≡ mounted (source_of req) req.target_path (mount_options req c) none ∷ []))
            ⊎ ((is_encrypted req.volume_context ≡ true)
                × IsEncryptedMount (mount_options req c) events s s'))
  node_publish_volume-reply s s' events h = elim (node_publish_volume-gate M os req) [
    | inr (code, m, _, turned) ↦ absurd (cc (turned s))
    | inl (c, ok, on) ↦ elim (Bool-cases (is_encrypted req.volume_context)) [
      | inr plain ↦
          let (done, calls) =
            mount_volume-reply (mount_options req c) [] [] events s s' (rw (on s, plain) at h) in
          (c, ok, inl (plain, done, calls))
      | inl secret ↦ (
        c,
        ok,
        inr (
          secret,
          publish_encrypted-reply (mount_options req c) events s s' (rw (on s, secret) at h),
        ),
      )
    ]
  ]
