-- ===== src/Driver/Provider/Safety.antt =====
-- Providers whose answers the controller can use without a panic.
use panfs_container_storage.Base.{ℕ, String, ◌≢◌, refl, inl, inr, none, arith, Option-cases}
use panfs_container_storage.Base.Int.{ℤ}
use panfs_container_storage.Base.GoMap.{Entries, GoMap}
use panfs_container_storage.Base.Results.{Result, ok, err, panic, Exec, continue}
use panfs_container_storage.Pancli.Client.Laws.{Result-cases}
use panfs_container_storage.Pancli.Fake
use panfs_container_storage.Pancli.Fake.{Fake, find_volume, remove_by_id}
use panfs_container_storage.Driver.Provider.{StorageProvider, pointer, fake_provider}

-- Code that does not panic, in any state.
abbrev pub IsTotal : {S A : Type 0} → Exec S A → Type 0
IsTotal {S} m = (s : S) → (m s).0 ≢ panic

-- No operation panics, and CreateVolume does not return a nil volume without an error.
pub record IsSafe (P : StorageProvider) : Type 0 where
  pub create :
      (name : String) (params : Entries) (secrets : GoMap) (s : P.State)
      → ((P.create_volume name params secrets s).0 ≢ panic)
        × ((P.create_volume name params secrets s).0 ≢ ok none)
  pub delete : (name : String) (secrets : GoMap) → IsTotal (P.delete_volume name secrets)
  pub expand :
      (name : String) (size : ℤ) (secrets : GoMap) → IsTotal (P.expand_volume name size secrets)
  pub get : (name : String) (secrets : GoMap) → IsTotal (P.get_volume name secrets)

continue-total :
    {S A B : Type 0} (r : Result A) (f : A → Exec S B) (s : S)
    → r ≢ panic
    → ((a : A) → (f a s).0 ≢ panic)
    → (continue r f s).0 ≢ panic
continue-total (ok a) f s r g = g a
continue-total (err e) f s r g = λ h. cc
continue-total panic f s r g = absurd (r refl)

pointer-IsTotal : {S A : Type 0} (m : Exec S A) → IsTotal m → IsTotal (pointer m)
pointer-IsTotal m t s = continue-total (m s).0 _ (m s).1 (t s) (λ a h. cc)

pointer-ne-nil : {S A : Type 0} (m : Exec S A) (s : S) → (pointer m s).0 ≢ ok none
pointer-ne-nil m s h = elim (Result-cases (m s).0) [
  | inl (a, e) ↦ absurd (ground arith)
  | inr (inl (x, e)) ↦ absurd (ground arith)
  | inr (inr e) ↦ absurd (ground arith)
]

module _ (uuid : ℕ → String) where
  fake_create-IsTotal :
      (name : String) (params : Entries) (secrets : GoMap)
      → IsTotal (Fake.create_volume uuid name params secrets)
  unfolding Fake.create_volume
  fake_create-IsTotal name params secrets c h = elim (Option-cases (find_volume name c.volumes)) [
    | inl e ↦ absurd (ground arith)
    | inr (v, e) ↦ absurd (ground arith)
  ]

  fake_delete-IsTotal :
      (name : String) (secrets : GoMap) → IsTotal (Fake.delete_volume name secrets)
  unfolding Fake.delete_volume
  fake_delete-IsTotal name secrets c h = elim (Option-cases (remove_by_id name c.volumes)) [
    | inl e ↦ absurd (ground arith)
    | inr (v, e) ↦ absurd (ground arith)
  ]

  fake_expand-IsTotal :
      (name : String) (size : ℤ) (secrets : GoMap) → IsTotal (Fake.expand_volume name size secrets)
  unfolding Fake.expand_volume
  fake_expand-IsTotal name size secrets c h = elim (Option-cases (find_volume name c.volumes)) [
    | inl e ↦ absurd (ground arith)
    | inr (v, e) ↦ absurd (ground arith)
  ]

  fake_get-IsTotal : (name : String) (secrets : GoMap) → IsTotal (Fake.get_volume name secrets)
  unfolding Fake.get_volume
  fake_get-IsTotal name secrets c h = elim (Option-cases (find_volume name c.volumes)) [
    | inl e ↦ absurd (ground arith)
    | inr (v, e) ↦ absurd (ground arith)
  ]

  pub fake_provider-IsSafe : IsSafe (fake_provider uuid)
  fake_provider-IsSafe = record {
    create = λ name params secrets s.
        let m = Fake.create_volume uuid name params secrets in
        (pointer-IsTotal m (fake_create-IsTotal name params secrets) s, pointer-ne-nil m s);
    delete = fake_delete-IsTotal;
    expand = fake_expand-IsTotal;
    get = λ name secrets.
        pointer-IsTotal (Fake.get_volume name secrets) (fake_get-IsTotal name secrets);
  }
