-- ===== src/Driver/Mounter.antt =====
-- PanFSMounter of pkg/driver/mounter.go, over mount.Interface of k8s.io/mount-utils and the file
-- system, whose state is one parameter; and the interface PanMounter of pkg/driver/driver.go.
pub mod Laws
pub mod Sanity
use panfs_container_storage.Base.{
  String, Bool, true, false, Option, none, some, List, [], ◌∷◌, ◌++◌, if◌then◌else◌,
}
use panfs_container_storage.Base.Texts.{Text, codes}
use panfs_container_storage.Base.Results.{Sentinel, Error, plain}

-- An error of the operating system, with what os.IsNotExist and os.IsExist say of it.
pub record OsError : Type 0 where
  pub is_not_exist : Bool
  pub is_exist : Bool
  pub message : Text

pub record MountInterface : Type 1 where
  pub State : Type 0
  pub is_likely_not_mount_point : String → State → Bool × Option OsError
  pub is_mount_point : String → State → Bool × Option OsError
  pub mount : String → String → String → List String → State → Option Error × State
  -- mount.CleanupMountPoint(target, …, false): unmounts, and removes the directory
  pub cleanup_mount_point : String → State → Option Error × State
  -- os.MkdirAll(path, 0755)
  pub mkdir_all : String → State → Option OsError × State

pub record PanMounter : Type 1 where
  pub State : Type 0
  pub mount : String → String → List String → State → Option Error × State
  pub bind_mount : String → String → List String → State → Option Error × State
  pub unmount : String → State → Option Error × State

abbrev os_error : OsError → Error
os_error e = plain e.message

-- makeDir: an error that says that the directory exists is none.
abbrev made : Option OsError → Option Error
made none = none
made (some e) = if e.is_exist then none else some (os_error e)

module _ (M : MountInterface) where
  unfoldable pub make_dir : String → M.State → Option Error × M.State
  make_dir path s = let done = M.mkdir_all path s in (made done.0, done.1)

  -- The end of Mount: the mount itself, unless the target is one already.
  unfoldable pub mount_unless :
      Bool → String → String → List String → M.State → Option Error × M.State
  mount_unless true source target options s = M.mount source target "panfs" options s
  mount_unless false source target options s = (none, s)

  abbrev pub after_make_dir :
      Option Error → (M.State → Option Error × M.State) → M.State → Option Error × M.State
  after_make_dir (some e) rest s = (some e, s)
  after_make_dir none rest s = rest s

  unfoldable pub mount_checked :
      Bool → Option OsError → String → String → List String → M.State → Option Error × M.State
  unfolding make_dir mount_unless
  mount_checked not_mnt none source target options s = mount_unless not_mnt source target options s
  mount_checked not_mnt (some e) source target options s =
      if e.is_not_exist
      then (let done = make_dir target s in
          after_make_dir done.0 (mount_unless not_mnt source target options) done.1)
      else (some (plain (codes "failed to check mount path: " ++ e.message)), s)

  -- PanFSMounter.Mount
  unfoldable pub mount : String → String → List String → M.State → Option Error × M.State
  unfolding mount_checked
  mount source target options s =
      let found = M.is_likely_not_mount_point target s in
      mount_checked found.0 found.1 source target options s

  -- PanFSMounter.BindMount
  unfoldable pub bind_mount : String → String → List String → M.State → Option Error × M.State
  unfolding mount
  bind_mount source target options s = mount source target (options ++ ("bind" ∷ [])) s

  -- PanFSMounter.Unmount
  unfoldable pub unmount : String → M.State → Option Error × M.State
  unmount target s = M.cleanup_mount_point target s

abbrev pub panfs_mounter : MountInterface → PanMounter
panfs_mounter M = record {
  State = M.State;
  mount = mount M;
  bind_mount = bind_mount M;
  unmount = unmount M;
}
