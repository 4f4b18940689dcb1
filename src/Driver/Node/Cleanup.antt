-- ===== src/Driver/Node/Cleanup.antt =====
-- NodePublishVolume of pkg/driver/node.go: its failures, and the temporary file.
use panfs_container_storage.Base.{
  String, ◌≡◌, refl, ◌∙◌, ◌⊎◌, inl, inr, none, some, List, [], ◌∷◌, ◌++◌, arith, str_eq, eq_refl,
  if◌then◌else◌, Option-cases, Bool-cases,
}
use panfs_container_storage.Base.Texts.{Text, str_eq-cases}
use panfs_container_storage.Base.Results.{Error}
use panfs_container_storage.Driver.Csi.{Code, status, NodePublishVolumeRequest}
use panfs_container_storage.Driver.Mounter.{PanMounter}
use panfs_container_storage.Driver.Node.{
  Os, Event, made_dir, created, chmodded, wrote, mounted, removed, closed, mount_options,
  is_encrypted, mount_volume, with_kmip_file, publish_encrypted, node_publish_volume,
}
use panfs_container_storage.Driver.Node.Publish.{config_of, node_publish_volume-gate}
use panfs_container_storage.Driver.Node.Trace.{mount_call, with_config}

drop_file : String → List String → List String
drop_file file [] = []
drop_file file (f ∷ files) =
    let rest = drop_file file files in if str_eq f file then rest else f ∷ rest

-- The temporary files that were created and for which `os.Remove` was not called since.
unfoldable pub left_over : List String → List Event → List String
unfolding drop_file
left_over files [] = files
left_over files (created file ∷ events) = left_over (file ∷ files) events
left_over files (removed file _ ∷ events) = left_over (drop_file file files) events
left_over files (_ ∷ events) = left_over files events

left_over-append :
    (files : List String) (a b : List Event)
    → left_over files (a ++ b) ≡ left_over (left_over files a) b
unfolding left_over
left_over-append files [] b = refl
left_over-append files (made_dir _ ∷ a) b = left_over-append files a b
left_over-append files (created f ∷ a) b = left_over-append (f ∷ files) a b
left_over-append files (chmodded _ _ ∷ a) b = left_over-append files a b
left_over-append files (wrote _ _ _ ∷ a) b = left_over-append files a b
left_over-append files (mounted _ _ _ _ ∷ a) b = left_over-append files a b
left_over-append files (removed f _ ∷ a) b = left_over-append (drop_file f files) a b
left_over-append files (closed _ _ ∷ a) b = left_over-append files a b

module _ (M : PanMounter) (os : Os) (req : NodePublishVolumeRequest) where
  -- The mount itself failed, with some options.
  abbrev pub FailsToMount : M.State → M.State → Type 0
  FailsToMount s s' =
      (options : List String) × (e : Error) × (mount_call M os req options s ≡ (some e, s'))

  mount_volume-status :
      (options : List String) (before deferred events : List Event) (s s' : M.State) (code : Code)
      (message : Text)
      → mount_volume M os req options before deferred s ≡ (status code message, events, s')
      → (code ≡ Code.internal) × ((e : Error) × (mount_call M os req options s ≡ (some e, s')))
  unfolding mount_volume
  mount_volume-status options before deferred events s s' code message h =
      elim (Option-cases (mount_call M os req options s).0) [
        | inl e ↦ absurd (ground arith)
        | inr (m, e) ↦ (ground arith, (m, ground arith))
      ]

  with_kmip_file-status :
      (options : List String) (file : String) (before events : List Event) (s s' : M.State)
      (code : Code) (message : Text)
      → with_kmip_file M os req options file before s ≡ (status code message, events, s')
      → (s ≡ s') ⊎ ((code ≡ Code.internal) × FailsToMount s s')
  unfolding with_kmip_file
  with_kmip_file-status options file before events s s' code message h =
      elim (Option-cases os.chmod) [
        | inr (m, e) ↦ inl (ground arith)
        | inl e ↦ elim (str_eq-cases (config_of req) "") [
          | inl (t, _) ↦ inl (ground arith)
          | inr (f, given) ↦ elim (Option-cases os.write) [
            | inr (m, w) ↦ inl (ground arith)
            | inl w ↦
                let (k, (x, failed)) =
                  mount_volume-status (with_config M os req options file)
                    ((before ++ chmodded file none ∷ []) ++ wrote file (config_of req) none ∷ [])
                    (removed file os.remove ∷ closed file os.close ∷ []) events s s' code message
                    (ground arith) in
                inr (k, (with_config M os req options file, x, failed))
          ]
        ]
      ]

  publish_encrypted-status :
      (options : List String) (events : List Event) (s s' : M.State) (code : Code) (message : Text)
      → publish_encrypted M os req options s ≡ (status code message, events, s')
      → (s ≡ s') ⊎ ((code ≡ Code.internal) × FailsToMount s s')
  unfolding publish_encrypted
  publish_encrypted-status options events s s' code message h = elim (Option-cases os.mkdir_all) [
    | inr (m, e) ↦ inl (ground arith)
    | inl e ↦ elim (Option-cases os.create_temp.1) [
      | inl n ↦ inl (ground arith)
      | inr (file, t) ↦
          with_kmip_file-status options file (made_dir none ∷ created file ∷ []) events s s' code
            message (ground arith)
    ]
  ]

  -- A failure of NodePublishVolume leaves the mounter's state as it was, or is the failure of the
  -- mounter's own mount, with the code Internal.
  pub node_publish_volume-status :
      (s s' : M.State) (events : List Event) (code : Code) (message : Text)
      → node_publish_volume M os req s ≡ (status code message, events, s')
      → (s ≡ s') ⊎ ((code ≡ Code.internal) × FailsToMount s s')
  node_publish_volume-status s s' events code message h = elim (node_publish_volume-gate M os req) [
    | inr (k, m, _, turned) ↦ inl (cc (turned s))
    | inl (c, ok, on) ↦ elim (Bool-cases (is_encrypted req.volume_context)) [
      | inr plain ↦
          let (k, (x, failed)) =
            mount_volume-status (mount_options req c) [] [] events s s' code message
              (rw (on s, plain) at h) in
          inr (k, (mount_options req c, x, failed))
      | inl secret ↦
          publish_encrypted-status (mount_options req c) events s s' code message
            (rw (on s, secret) at h)
    ]
  ]

  mount_volume-left_over :
      (options files : List String) (before deferred : List Event) (s : M.State)
      → left_over files (mount_volume M os req options before deferred s).1
        ≡ left_over (left_over files before) deferred
  unfolding mount_volume left_over
  mount_volume-left_over options files before deferred s = left_over-append files before _

  with_kmip_file-left_over :
      (options : List String) (file : String) (before : List Event) (s : M.State)
      → left_over [] before ≡ file ∷ []
      → left_over [] (with_kmip_file M os req options file before s).1 ≡ []
  unfolding with_kmip_file left_over
  with_kmip_file-left_over options file before s h =
      let ready : left_over [] (before ++ chmodded file none ∷ []) ≡ file ∷ [] =
        left_over-append [] before (chmodded file none ∷ []) ∙ h in
      elim (Option-cases os.chmod) [
        | inr (m, e) ↦ rw e (left_over-append [] before _ ∙ rw (h, eq_refl file) refl)
        | inl e ↦ elim (Bool-cases (str_eq (config_of req) "")) [
          | inl t ↦
              rw (e, t)
                (left_over-append [] (before ++ chmodded file none ∷ []) _
                  ∙ rw (ready, eq_refl file) refl)
          | inr f ↦ elim (Option-cases os.write) [
            | inr (m, w) ↦
                rw (e, f, w)
                  (left_over-append [] (before ++ chmodded file none ∷ []) _
                    ∙ rw (ready, eq_refl file) refl)
            | inl w ↦
                rw (e, f, w)
                  (mount_volume-left_over (with_config M os req options file) []
                      ((before ++ chmodded file none ∷ []) ++ wrote file (config_of req) none ∷ [])
                      _ s
                    ∙ rw
                        (
                          left_over-append [] (before ++ chmodded file none ∷ [])
                              (wrote file (config_of req) none ∷ []),
                          ready,
                          eq_refl file,
                        )
                        refl)
          ]
        ]
      ]

  publish_encrypted-left_over :
      (options : List String) (s : M.State)
      → left_over [] (publish_encrypted M os req options s).1 ≡ []
  unfolding publish_encrypted left_over
  publish_encrypted-left_over options s = elim (Option-cases os.mkdir_all) [
    | inr (m, e) ↦ rw e refl
    | inl e ↦ elim (Option-cases os.create_temp.1) [
      | inl n ↦ rw (e, n) refl
      | inr (file, t) ↦
          rw (e, t)
            (with_kmip_file-left_over options file (made_dir none ∷ created file ∷ []) s refl)
    ]
  ]

  -- No temporary file with KMIP data is left over: whatever NodePublishVolume answers, it has called
  -- os.Remove for each file that it created.
  pub node_publish_volume-left_over :
      (s : M.State) → left_over [] (node_publish_volume M os req s).1 ≡ []
  unfolding left_over
  node_publish_volume-left_over s = elim (node_publish_volume-gate M os req) [
    | inr (k, m, _, turned) ↦ rw (turned s) refl
    | inl (c, ok, on) ↦ elim (Bool-cases (is_encrypted req.volume_context)) [
      | inr plain ↦ rw (on s, plain) (mount_volume-left_over (mount_options req c) [] [] [] s)
      | inl secret ↦ rw (on s, secret) (publish_encrypted-left_over (mount_options req c) s)
    ]
  ]
