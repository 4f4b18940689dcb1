-- ===== src/Tests/Inputs.antt =====
-- The requests, the clients and the node that the tests run on.
use panfs_container_storage.Base.{ℕ, String, true, false, none, some, List, [], ◌∷◌}
use panfs_container_storage.Base.Texts.{Text}
use panfs_container_storage.Base.Int.{pos}
use panfs_container_storage.Base.GoMap.{GoMap}
use panfs_container_storage.Base.Results.{plain, ok}
use panfs_container_storage.Pancli.Client.{SshRunner, Unmarshal}
use panfs_container_storage.Pancli.Fake.{Fake, new_volume}
use panfs_container_storage.Utils.Parser.{VolumeList}
use panfs_container_storage.Driver.Csi.{
  mount, VolumeCapability, CreateVolumeRequest, DeleteVolumeRequest, ControllerExpandVolumeRequest,
  CapacityRange, ValidateVolumeCapabilitiesRequest, NodePublishVolumeRequest,
}
use panfs_container_storage.Driver.Mounter.{PanMounter}
use panfs_container_storage.Driver.Node.{Os}
use panfs_container_storage.Driver.Provider.{StorageProvider, fake_provider}

abbrev pub uuid : ℕ → String
uuid n = "123e4567"

abbrev pub show : VolumeCapability → Text
show c = []

abbrev pub sanity : StorageProvider
sanity = fake_provider uuid

abbrev pub empty_fake : Fake
empty_fake = record { volumes = []; drawn = 0 }

abbrev pub secrets : GoMap
secrets = some (("realm_ip", "10.0.0.1") ∷ ("user", "admin") ∷ ("password", "pw") ∷ [])

abbrev pub sizes : CapacityRange
sizes = record { required_bytes = pos 2147483648; limit_bytes = pos 4294967296 }

abbrev pub capability : VolumeCapability
capability = record { access_type = mount ("noatime" ∷ []) }

abbrev pub pvc : CreateVolumeRequest
pvc = record {
  name = "pvc-1";
  capacity_range = some sizes;
  volume_capabilities = capability ∷ [];
  parameters = some (("panfs.csi.vdura.com/bladeset", "Set 2") ∷ []);
  secrets = secrets;
  has_content_source = false;
}

abbrev pub unnamed : CreateVolumeRequest
unnamed = record pvc { name = "" }

abbrev pub removal : DeleteVolumeRequest
removal = record { volume_id = "pvc-1"; secrets = secrets }

abbrev pub growth : ControllerExpandVolumeRequest
growth = record { volume_id = "pvc-1"; capacity_range = some sizes; secrets = secrets }

abbrev pub question : ValidateVolumeCapabilitiesRequest
question = record { volume_id = "pvc-1"; volume_capabilities = capability ∷ []; secrets = secrets }

-- A mounter that keeps the mounted targets.
abbrev pub mounter : PanMounter
mounter = record {
  State = List String;
  mount = λ source target options s. (none, target ∷ s);
  bind_mount = λ source target options s. (none, target ∷ s);
  unmount = λ target s. (none, []);
}

-- A mounter that cannot mount.
abbrev pub broken_mounter : PanMounter
broken_mounter = record mounter { mount = λ source target options s. (some (plain []), s) }

abbrev pub os : Os
os = record {
  mkdir_all = none;
  create_temp = ([], some "/tmp/kmip-1.conf");
  chmod = none;
  write = none;
  remove = none;
  close = none;
}

abbrev pub publication : NodePublishVolumeRequest
publication = record {
  volume_id = "pvc-1";
  target_path = "/mnt/pvc-1";
  volume_capability = some capability;
  readonly = true;
  volume_context = some (("panfs.csi.vdura.com/encryption", "on") ∷ []);
  secrets = some (
      ("realm_ip", "10.0.0.1")
      ∷ ("user", "admin")
      ∷ ("password", "pw")
      ∷ ("kmip_config_data", "server=kmip")
      ∷ []);
}

-- A realm whose commands succeed, and whose listings have one volume.
abbrev pub listing : VolumeList
listing = record { version = "6.0"; volumes = new_volume "1" "pvc-1" [] ∷ []; supported_urls = [] }

abbrev pub runner : SshRunner
runner = record { State = Unit {0}; run_command = λ secrets args s. (ok "", s) }

abbrev pub unmarshal : Unmarshal
unmarshal out = ok listing
