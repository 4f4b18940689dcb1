-- ===== src/Driver/Provider.antt =====
-- The interface StorageProviderClient of pkg/driver/driver.go. A `*utils.Volume` that comes back may
-- be nil, which is `none`. The two clients of pkg/pancli implement it.
pub mod Safety
use Prim.Native.Nat.{ℕ}
use panfs_container_storage.Base.{String, Option, some}
use panfs_container_storage.Base.Int.{ℤ}
use panfs_container_storage.Base.GoMap.{Entries, GoMap}
use panfs_container_storage.Base.Results.{Exec, pure, ◌>>=◌}
use panfs_container_storage.Utils.Parser.{Volume, VolumeList}
use panfs_container_storage.Pancli.Client
use panfs_container_storage.Pancli.Client.{SshRunner, Unmarshal}
use panfs_container_storage.Pancli.Fake
use panfs_container_storage.Pancli.Fake.{Fake}

-- StorageProviderClient
pub record StorageProvider : Type 1 where
  pub State : Type 0
  pub create_volume : String → Entries → GoMap → Exec State (Option Volume)
  pub delete_volume : String → GoMap → Exec State (Unit {0})
  pub expand_volume : String → ℤ → GoMap → Exec State (Unit {0})
  pub list_volumes : GoMap → Exec State (Option VolumeList)
  pub get_volume : String → GoMap → Exec State (Option Volume)

-- A pointer that is not nil.
abbrev pub pointer : {S A : Type 0} → Exec S A → Exec S (Option A)
pointer m = m >>= λ a. pure (some a)

abbrev pub ssh_provider : SshRunner → Unmarshal → StorageProvider
ssh_provider R unmarshal = record {
  State = R.State;
  create_volume =
      λ name params secrets. pointer (Client.create_volume R unmarshal name params secrets);
  delete_volume = Client.delete_volume R unmarshal;
  expand_volume = Client.expand_volume R unmarshal;
  list_volumes = λ secrets. pointer (Client.list_volumes R unmarshal secrets);
  get_volume = λ name secrets. pointer (Client.get_volume R unmarshal name secrets);
}

abbrev pub fake_provider : (ℕ → String) → StorageProvider
fake_provider uuid = record {
  State = Fake.Fake;
  create_volume = λ name params secrets. pointer (Fake.create_volume uuid name params secrets);
  delete_volume = Fake.delete_volume;
  expand_volume = Fake.expand_volume;
  list_volumes = λ secrets. pointer (Fake.list_volumes secrets);
  get_volume = λ name secrets. pointer (Fake.get_volume name secrets);
}
