-- ===== src/Pancli/Client.antt =====
-- PancliSSHClient of pkg/pancli/pancli_ssh.go, over its interface SSHRunner and over the decoder of
-- XML listings (ParseListVolumes of pkg/utils/parser.go).
pub mod Laws
pub mod Listing
use panfs_container_storage.Base.{
  String, ◌<>◌, Option, none, some, List, [], ◌∷◌, ◌++◌, is_empty, if◌then◌else◌,
}
use panfs_container_storage.Base.Texts.{codes}
use panfs_container_storage.Base.Int.{ℤ}
use panfs_container_storage.Base.GoMap.{Entries, GoMap}
use panfs_container_storage.Base.Results.{
  Sentinel, Error, plain, Result, ok, err, panic, Exec, pure, lift, ◌>>=◌,
}
use panfs_container_storage.Utils.Convert.{bytes_to_gb, format_2}
use panfs_container_storage.Utils.Parser.{Volume, VolumeList, volume_name}
use panfs_container_storage.Pancli.Errors.{sentinel}
use panfs_container_storage.Pancli.Options.{get_optional_parameters}

-- SSHRunner
pub record SshRunner : Type 1 where
  pub State : Type 0
  pub run_command : GoMap → List String → Exec State String

-- xml.Unmarshal on the output of a listing, where the name of a volume is the content of its element.
abbrev pub Unmarshal : Type 0
Unmarshal = String → Result VolumeList

-- A volume whose name is read through VolumeName.UnmarshalXML.
unfoldable pub named : Volume → Volume
unfolding volume_name
named v = record v { name = volume_name v.name }

unfoldable pub all_named : List Volume → List Volume
unfolding named
all_named [] = []
all_named (v ∷ volumes) = named v ∷ all_named volumes

-- ParseListVolumes: xml.Unmarshal, which calls VolumeName.UnmarshalXML for each volume's name.
unfoldable pub parse_list_volumes : Unmarshal → String → Result VolumeList
unfolding all_named
parse_list_volumes unmarshal volumes = elim (unmarshal volumes) [
  | ok list ↦ ok (record list { volumes = all_named list.volumes })
  | err e ↦ err e
  | panic ↦ panic
]

unfoldable pub decode : Unmarshal → String → String → Result VolumeList
unfolding parse_list_volumes
decode unmarshal caller out = elim (parse_list_volumes unmarshal out) [
  | ok list ↦ ok list
  | err e ↦ err (plain (codes (caller <> ": Cannot parse pancli response: ") ++ e.message))
  | panic ↦ panic
]

-- The tests of ListVolumes and GetVolume on a decoded listing.
unfoldable pub checked_list : VolumeList → Result VolumeList
checked_list list =
    if is_empty list.supported_urls then ok list else err (sentinel Sentinel.invalid_argument)

unfoldable pub first_volume : List Volume → Result Volume
first_volume [] = err (sentinel Sentinel.not_found)
first_volume (v ∷ more) = ok v

module _ (R : SshRunner) (unmarshal : Unmarshal) where
  unfoldable pub list_volumes : GoMap → Exec R.State VolumeList
  unfolding checked_list decode
  list_volumes secrets = do
    out ← R.run_command secrets ("pasxml" ∷ "volumes" ∷ [])
    list ← lift (decode unmarshal "ListVolumes" out)
    lift (checked_list list)

  unfoldable pub get_volume : String → GoMap → Exec R.State Volume
  unfolding checked_list first_volume decode
  get_volume volume_name secrets = do
    out ← R.run_command secrets ("pasxml" ∷ "volumes" ∷ "volume" ∷ volume_name ∷ [])
    list ← lift (decode unmarshal "GetVolume" out)
    checked ← lift (checked_list list)
    lift (first_volume checked.volumes)

  unfoldable pub create_volume : String → Entries → GoMap → Exec R.State Volume
  unfolding get_volume
  create_volume volume_name params secrets = do
    _ ← R.run_command secrets ("volume" ∷ "create" ∷ volume_name ∷ get_optional_parameters params)
    get_volume volume_name secrets

  unfoldable pub delete_volume : String → GoMap → Exec R.State (Unit {0})
  delete_volume volume_name secrets = do
    _ ← R.run_command secrets ("volume" ∷ "delete" ∷ "-f" ∷ volume_name ∷ [])
    pure tt

  unfoldable pub expand_volume : String → ℤ → GoMap → Exec R.State (Unit {0})
  expand_volume volume_name size_bytes secrets = do
    _ ←
        R.run_command secrets
          ("volume" ∷ "set" ∷ "soft-quota" ∷ volume_name ∷ format_2 (bytes_to_gb size_bytes) ∷ [])
    pure tt
