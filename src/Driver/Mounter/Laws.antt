-- ===== src/Driver/Mounter/Laws.antt =====
-- PanFSMounter.Mount: what it does to a target that is mounted, that is a directory, and that is
-- missing.
use panfs_container_storage.Base.{
  String, ◌≡◌, refl, ◌⊎◌, inl, inr, Bool, true, false, Option, none, some, List, arith,
  Option-cases, Bool-cases,
}
use panfs_container_storage.Driver.Mounter.{
  OsError, MountInterface, made, make_dir, mount_unless, mount_checked, mount,
}

module _ (M : MountInterface) (source target : String) (options : List String) where
  -- What the check of the target says: whether it is no mount point, and the check's error.
  abbrev pub Finds : M.State → Bool → Option OsError → Type 0
  Finds s not_mnt e = M.is_likely_not_mount_point target s ≡ (not_mnt, e)

  -- The directory is there, or could be made: makeDir passes over an error that says it exists.
  abbrev pub IsMade : M.State → M.State → Type 0
  IsMade s t =
      (M.mkdir_all target s ≡ (none, t))
      ⊎ ((e : OsError) × (M.mkdir_all target s ≡ (some e, t)) × (e.is_exist ≡ true))

  -- The target is no mount point, and panfs is mounted there.
  abbrev pub Mounts : M.State → M.State → Type 0
  Mounts s s' = M.mount source target "panfs" options s ≡ (none, s')

  mount_unless-success :
      (not_mnt : Bool) (s s' : M.State)
      → mount_unless M not_mnt source target options s ≡ (none, s')
      → ((not_mnt ≡ false) × (s ≡ s')) ⊎ ((not_mnt ≡ true) × Mounts s s')
  unfolding mount_unless
  mount_unless-success true s s' h = inr (refl, h)
  mount_unless-success false s s' h = inl (refl, ground arith)

  made-success :
      (s t : M.State) (answer : Option OsError)
      → M.mkdir_all target s ≡ (answer, t)
      → made answer ≡ none
      → IsMade s t
  made-success s t none d m = inl d
  made-success s t (some e) d m = elim (Bool-cases e.is_exist) [
    | inl y ↦ inr (e, d, y)
    | inr n ↦ absurd (ground arith)
  ]

  -- A success of Mount: the target was a mount point already and nothing was done, or panfs was
  -- mounted on it. Either is preceded by the making of the directory exactly when the check of the
  -- target says that it does not exist.
  pub mount-success :
      (s s' : M.State)
      → mount M source target options s ≡ (none, s')
      → (not_mnt : Bool) × (e : Option OsError) × (t : M.State) × Finds s not_mnt e
        × (((e ≡ none) × (s ≡ t))
            ⊎ ((x : OsError) × (e ≡ some x) × (x.is_not_exist ≡ true) × IsMade s t))
        × (((not_mnt ≡ false) × (t ≡ s')) ⊎ ((not_mnt ≡ true) × Mounts t s'))
  unfolding mount mount_checked make_dir
  mount-success s s' h =
      let found = M.is_likely_not_mount_point target s in
      elim (Option-cases found.1) [
        | inl e ↦ (
          found.0,
          none,
          s,
          ground arith,
          inl (refl, refl),
          mount_unless-success found.0 s s' (ground arith),
        )
        | inr (x, e) ↦ elim (Bool-cases x.is_not_exist) [
          | inr n ↦ absurd (ground arith)
          | inl y ↦
              let done = M.mkdir_all target s in
              elim (Option-cases (made done.0)) [
                | inr (m, d) ↦ absurd (ground arith)
                | inl d ↦ (
                  found.0,
                  some x,
                  done.1,
                  ground arith,
                  inr (x, refl, y, made-success s done.1 done.0 refl d),
                  mount_unless-success found.0 done.1 s' (ground arith),
                )
              ]
        ]
      ]

  -- A target that is a mount point already is left alone, whatever the source and the options are.
  mount-mounted : (s : M.State) → Finds s false none → mount M source target options s ≡ (none, s)
  unfolding mount mount_checked mount_unless
  mount-mounted s h = ground arith
