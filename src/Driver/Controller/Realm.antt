-- ===== src/Driver/Controller/Realm.antt =====
-- CreateVolume of pkg/driver/controller.go over the client that runs commands on a realm.
use panfs_container_storage.Base.{String, ◌≡◌, ◌⊎◌, inl, inr, true, some, ◌∷◌, arith}
use panfs_container_storage.Base.Texts.{Text}
use panfs_container_storage.Base.Results.{Error, ok, err, is_already_exist, Exec}
use panfs_container_storage.Utils.Parser.{Volume}
use panfs_container_storage.Pancli.Options.{get_optional_parameters}
use panfs_container_storage.Pancli.Client
use panfs_container_storage.Pancli.Client.{SshRunner, Unmarshal}
use panfs_container_storage.Pancli.Client.Laws.{
  Result-cases, Lists, get_volume-Lists, create_volume-Lists,
}
use panfs_container_storage.Driver.Csi.{reply, VolumeCapability, CreateVolumeRequest, CsiVolume}
use panfs_container_storage.Driver.Provider.{pointer, ssh_provider}
use panfs_container_storage.Driver.Validators.Requests.{Fits}
use panfs_container_storage.Driver.Controller.{create_volume, created_volume, quota_parameters}
use panfs_container_storage.Driver.Controller.Create.{IsAcceptable}
use panfs_container_storage.Driver.Controller.Outcomes.{create_volume-reply}

pointer-ok :
    {S A : Type 0} (m : Exec S A) (s t : S) (a : A)
    → pointer m s ≡ (ok (some a), t)
    → m s ≡ (ok a, t)
pointer-ok m s t a h = elim (Result-cases (m s).0) [
  | inl (b, e) ↦ ground arith
  | inr (inl (x, e)) ↦ absurd (ground arith)
  | inr (inr e) ↦ absurd (ground arith)
]

pointer-err :
    {S A : Type 0} (m : Exec S A) (s t : S) (x : Error)
    → pointer m s ≡ (err x, t)
    → m s ≡ (err x, t)
pointer-err m s t x h = elim (Result-cases (m s).0) [
  | inl (b, e) ↦ absurd (ground arith)
  | inr (inl (y, e)) ↦ ground arith
  | inr (inr e) ↦ absurd (ground arith)
]

module _ (R : SshRunner) (unmarshal : Unmarshal) (req : CreateVolumeRequest) where
  -- PanFS accepted `volume create` with the options, and then lists the volume.
  abbrev pub CreatesOnRealm : R.State → Volume → R.State → Type 0
  CreatesOnRealm s vol s' =
      (out : String) × (t : R.State) × (R.run_command req.secrets
          ("volume" ∷ "create" ∷ req.name ∷ get_optional_parameters (quota_parameters req)) s
        ≡ (ok out, t))
      × Lists R unmarshal req.name req.secrets t vol s'

  -- The creation ended with an error that says that the volume exists, and PanFS lists it.
  abbrev pub FindsOnRealm : R.State → Volume → R.State → Type 0
  FindsOnRealm s vol s' =
      (e : Error) × (t : R.State) × (Client.create_volume R unmarshal req.name
          (quota_parameters req) req.secrets s
        ≡ (err e, t))
      × (is_already_exist e ≡ true)
      × Lists R unmarshal req.name req.secrets t vol s'

  -- A success of CreateVolume on a realm is for an acceptable request, and rests on what PanFS lists
  -- under the name: either after it accepted `volume create` with the request's options and quotas,
  -- or after it said that the volume exists, and then the volume fits the requested range.
  pub create_volume-realm :
      (show : VolumeCapability → Text) (s s' : R.State) (v : CsiVolume)
      → create_volume (ssh_provider R unmarshal) show req s ≡ (reply v, s')
      → IsAcceptable req
        × ((vol : Volume) × (created_volume req.name vol ≡ v)
            × (CreatesOnRealm s vol s' ⊎ (FindsOnRealm s vol s' × Fits req.capacity_range vol)))
  create_volume-realm show s s' v h =
      let create = Client.create_volume R unmarshal req.name (quota_parameters req) req.secrets in
      let get = Client.get_volume R unmarshal req.name req.secrets in
      let (a, (vol, provided, same)) =
        create_volume-reply (ssh_provider R unmarshal) req show s s' v h in
      (
        a,
        (
          vol,
          same,
          elim provided [
            | inl c ↦ inl (
                create_volume-Lists R unmarshal req.name (quota_parameters req) req.secrets s s' vol
                  (pointer-ok create s s' vol c))
            | inr (e, t, c, y, g, fits) ↦ inr (
              (
                e,
                t,
                pointer-err create s t e c,
                y,
                get_volume-Lists R unmarshal req.name req.secrets t s' vol
                    (pointer-ok get t s' vol g),
              ),
              fits,
            )
          ],
        ),
      )
