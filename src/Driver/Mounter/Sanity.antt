-- ===== src/Driver/Mounter/Sanity.antt =====
-- PanFSFakeMounter of pkg/driver/mounter.go, which the sanity mode uses: it asks the node for mount
-- points and makes directories, and mounts only in mount.FakeMounter, which is a parameter.
use panfs_container_storage.Base.{
  String, ◌≡◌, Bool, true, false, Option, none, some, List, [], ◌∷◌, ◌++◌, arith, if◌then◌else◌,
}
use panfs_container_storage.Base.Results.{Error}
use panfs_container_storage.Driver.Mounter.{
  OsError, MountInterface, PanMounter, make_dir, after_make_dir,
}

-- mount.FakeMounter, on the node's state. Its Unmount is the clean-up of the mount path.
pub record FakeMounter (S : Type 0) : Type 0 where
  pub mount : String → String → String → List String → S → Option Error × S
  pub unmount : String → S → Option Error × S

module _ (M : MountInterface) (F : FakeMounter M.State) where
  -- The end of Mount: the mount itself, unless the target is one already.
  unfoldable pub fake_mount_unless :
      Bool → String → String → List String → M.State → Option Error × M.State
  fake_mount_unless false source target options s = F.mount source target "panfs" options s
  fake_mount_unless true source target options s = (none, s)

  unfoldable pub fake_mount_checked :
      Bool → Option OsError → String → String → List String → M.State → Option Error × M.State
  unfolding make_dir fake_mount_unless
  fake_mount_checked is_mnt none source target options s =
      fake_mount_unless is_mnt source target options s
  fake_mount_checked is_mnt (some e) source target options s =
      if e.is_not_exist
      then (let done = make_dir M target s in
          after_make_dir M done.0 (fake_mount_unless is_mnt source target options) done.1)
      else fake_mount_unless is_mnt source target options s

  -- PanFSFakeMounter.Mount
  unfoldable pub fake_mount : String → String → List String → M.State → Option Error × M.State
  unfolding fake_mount_checked
  fake_mount source target options s =
      let found = M.is_mount_point target s in
      fake_mount_checked found.0 found.1 source target options s

  -- PanFSFakeMounter.BindMount
  unfoldable pub fake_bind_mount : String → String → List String → M.State → Option Error × M.State
  unfolding fake_mount
  fake_bind_mount source target options s = fake_mount source target (options ++ ("bind" ∷ [])) s

  -- PanFSFakeMounter.Unmount
  unfoldable pub fake_unmount : String → M.State → Option Error × M.State
  fake_unmount target s = F.unmount target s

  abbrev pub sanity_mounter : PanMounter
  sanity_mounter = record {
    State = M.State;
    mount = fake_mount;
    bind_mount = fake_bind_mount;
    unmount = fake_unmount;
  }

  -- Where PanFSMounter gives up, since the target cannot be checked, this mounter goes on: an error
  -- other than a missing target does not keep it from mounting.
  fake_mount_unchecked :
      (source target : String) (options : List String) (s : M.State) (e : OsError)
      → M.is_mount_point target s ≡ (false, some e)
      → e.is_not_exist ≡ false
      → fake_mount source target options s ≡ F.mount source target "panfs" options s
  unfolding fake_mount
  fake_mount_unchecked source target options s e h n = ground arith
