-- ===== src/Pancli/Fake.antt =====
-- pkg/pancli/pancli_fake.go: the client of the sanity mode, which keeps its volumes in memory. The
-- package github.com/google/uuid is a parameter: a stream of names, drawn one after another. The
-- field ActionLog is never written and is left out.
pub mod Laws
pub mod Operations
use mathlib.Core.Option
use panfs_container_storage.Base.{
  ℕ, suc, String, Option, none, some, List, [], ◌∷◌, ◌++◌, str_eq, if◌then◌else◌,
}
use panfs_container_storage.Base.Texts.{codes}
use panfs_container_storage.Base.Int.{ℤ}
use panfs_container_storage.Base.GoMap.{Entries, GoMap, lookup, value_at}
use panfs_container_storage.Base.Results.{
  Sentinel, Error, Result, ok, err, panic, Exec, pure, lift, ◌>>=◌,
}
use panfs_container_storage.Utils.Context.{get_sc_key}
use panfs_container_storage.Utils.Convert.{bytes_to_gb, bytes_string_to_gb}
use panfs_container_storage.Utils.Parser.{Volume, VolumeList}
use panfs_container_storage.Pancli.Errors.{sentinel, wrapped}

-- FakePancliSSHClient, and how many UUIDs were drawn.
pub record Fake : Type 0 where
  pub volumes : List Volume
  pub drawn : ℕ

-- NewFakePancliSSHClient
abbrev pub new_fake : Fake
new_fake = record { volumes = []; drawn = 0 }

-- The loop of getVolume.
unfoldable pub find_volume : String → List Volume → Option Volume
find_volume name [] = none
find_volume name (v ∷ more) = if str_eq v.name name then some v else find_volume name more

unfoldable pub get_volume : String → GoMap → Exec Fake Volume
unfolding find_volume
get_volume name secrets c = elim (find_volume name c.volumes) [
  | some v ↦ (ok v, c)
  | none ↦ (err (wrapped Sentinel.not_found (codes name)), c)
]

abbrev pub or_default : String → String → String
or_default value default = if str_eq value "" then default else value

-- The volume that CreateVolume makes, with the identifier that was drawn.
unfoldable pub new_volume : String → String → Entries → Volume
unfolding value_at
new_volume id name params = record {
  id = id;
  name = name;
  state = "Online";
  soft = bytes_string_to_gb (or_default (value_at (get_sc_key "soft") (some params)) "0");
  hard = bytes_string_to_gb (or_default (value_at (get_sc_key "hard") (some params)) "0");
  bset = record {
    id = "1";
    name = or_default (value_at (get_sc_key "bladeset") (some params)) "Set 1";
  };
  encryption = elim (lookup (get_sc_key "encryption") params) [
    | some value ↦ value
    | none ↦ "none"
  ];
}

-- The loop of DeleteVolume, which compares identifiers.
unfoldable pub remove_by_id : String → List Volume → Option (List Volume)
remove_by_id id [] = none
remove_by_id id (v ∷ more) =
    if str_eq v.id id then some more else Option.map (λ rest. v ∷ rest) (remove_by_id id more)

-- The write through the pointer that getVolume returned.
unfoldable pub set_soft : String → ℤ → List Volume → List Volume
set_soft name size [] = []
set_soft name size (v ∷ more) =
    if str_eq v.name name
    then record v { soft = bytes_to_gb size } ∷ more
    else v ∷ set_soft name size more

unfoldable pub delete_volume : String → GoMap → Exec Fake (Unit {0})
unfolding remove_by_id
delete_volume id secrets c = elim (remove_by_id id c.volumes) [
  | some rest ↦ (ok tt, record c { volumes = rest })
  | none ↦ (err (wrapped Sentinel.not_found []), c)
]

unfoldable pub expand_volume : String → ℤ → GoMap → Exec Fake (Unit {0})
unfolding find_volume set_soft
expand_volume name size secrets c = elim (find_volume name c.volumes) [
  | some v ↦ (ok tt, record c { volumes = set_soft name size c.volumes })
  | none ↦ (err (wrapped Sentinel.not_found (codes name)), c)
]

unfoldable pub list_volumes : GoMap → Exec Fake VolumeList
list_volumes secrets c = (ok (record { version = ""; volumes = []; supported_urls = [] }), c)

module _ (uuid : ℕ → String) where
  unfoldable pub create_volume : String → Entries → GoMap → Exec Fake Volume
  unfolding find_volume new_volume
  create_volume name params secrets c = elim (find_volume name c.volumes) [
    | some v ↦ (err (sentinel Sentinel.already_exist), c)
    | none ↦
        let vol = new_volume (uuid c.drawn) name params in
        (ok vol, record { volumes = c.volumes ++ (vol ∷ []); drawn = suc c.drawn })
  ]
