-- ===== src/Driver/Startup.antt =====
-- CreateDriver of pkg/driver/driver.go and main of cmd/csi-plugin/main.go: how the process starts and
-- with what code it ends. What the operating system and the Kubernetes library answer is a parameter.
pub mod Laws
use panfs_container_storage.Base.{
  ℕ, String, ◌<>◌, Bool, true, false, not, ◌&&◌, Option, none, some, ◌++◌, str_eq, if◌then◌else◌,
}
use panfs_container_storage.Base.Texts.{Text, codes}
use panfs_container_storage.Pancli.Client.{SshRunner, Unmarshal}
use panfs_container_storage.Driver.Mounter.{OsError, MountInterface, PanMounter, panfs_mounter}
use panfs_container_storage.Driver.Mounter.Sanity.{FakeMounter, sanity_mounter}
use panfs_container_storage.Driver.Provider.{StorageProvider, ssh_provider, fake_provider}
use panfs_container_storage.Driver.Server.{Driver}

-- os.Getenv("CSI_SANITY_MODE"), and the answers of os.Hostname, rest.InClusterConfig and
-- kubernetes.NewForConfig: their errors, and the host's name.
pub record Environment : Type 0 where
  pub csi_sanity_mode : String
  pub host : String
  pub hostname : Option Text
  pub in_cluster_config : Option Text
  pub new_for_config : Option Text

abbrev pub is_sanity : Environment → Bool
is_sanity env = str_eq env.csi_sanity_mode "true"

-- A nil *Driver is `none`.
unfoldable pub create_driver :
    Environment → String → String → String → StorageProvider → PanMounter → Option Driver
create_driver env version driver_name endpoint panfs mounter =
    let driver : Bool → Driver = λ has_client. record {
      name = driver_name;
      version = version;
      host = env.host;
      endpoint = endpoint;
      panfs = panfs;
      mounter = mounter;
      has_client = has_client;
    } in
    elim env.hostname [
      | some e ↦ none
      | none ↦ if is_sanity env then some (driver false) else elim env.in_cluster_config [
        | some e ↦ none
        | none ↦ elim env.new_for_config [ some e ↦ none | none ↦ some (driver true) ]
      ]
    ]

-- The flags endpoint and driverName, and the version that is linked in.
pub record Config : Type 0 where
  pub endpoint : String
  pub driver_name : String
  pub version : String

-- The clients and the mounters that main chooses between.
pub record Parts : Type 1 where
  pub uuid : ℕ → String
  pub runner : SshRunner
  pub unmarshal : Unmarshal
  pub mount : MountInterface
  pub fake_mount : FakeMounter mount.State

unfoldable pub main_driver : Parts → Config → Environment → Option Driver
unfolding create_driver
main_driver p cfg env =
    if is_sanity env
    then create_driver env cfg.version cfg.driver_name cfg.endpoint (fake_provider p.uuid)
        (sanity_mounter p.mount p.fake_mount)
    else create_driver env cfg.version cfg.driver_name cfg.endpoint
        (ssh_provider p.runner p.unmarshal) (panfs_mounter p.mount)

-- How the process ends: with a code, or with a run-time panic.
pub data Exit : Type 0 where
  exited : ℕ → Exit
  crashed : Exit

-- The end of main, from the driver and from what its Run returned. Run reads a field of the driver
-- first, so a nil driver is a panic.
unfoldable pub main_exit : Option Driver → Option Text → Exit
main_exit none result = crashed
main_exit (some d) none = exited 0
main_exit (some d) (some e) = exited 1

-- Run as far as net.Listen: the error it returns, if any.
unfoldable pub listen : Driver → Option OsError → Option Text → Option Text
listen d remove answer = elim remove [
  | some e ↦
      if e.is_not_exist
      then listening answer
      else some (codes ("failed to remove address " <> d.endpoint <> ": ") ++ e.message)
  | none ↦ listening answer
]
  where
    listening : Option Text → Option Text
    listening none = none
    listening (some e) = some (codes "failed to listen: " ++ e)
