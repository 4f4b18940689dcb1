-- ===== src/Driver/Controller/Lifecycle.antt =====
-- DeleteVolume of pkg/driver/controller.go over any provider: its replies and failures.
use panfs_container_storage.Base.{
  String, ◌≡◌, ◌≢◌, refl, ◌⊎◌, inl, inr, true, false, none, some, arith, str_eq, Option-cases,
  Bool-cases,
}
use panfs_container_storage.Base.Texts.{Text, str_eq-cases}
use panfs_container_storage.Base.GoMap.{GoMap}
use panfs_container_storage.Base.Results.{Error, Result, ok, err, panic, is_not_found}
use panfs_container_storage.Driver.Csi.{Code, reply, status, DeleteVolumeRequest}
use panfs_container_storage.Driver.Provider.{StorageProvider}
use panfs_container_storage.Driver.Validators.{validate_req_secrets}
use panfs_container_storage.Driver.Validators.Requests.{HasValidSecrets, validate_req_secrets_iff}
use panfs_container_storage.Driver.Controller.{answer_delete, delete_volume}

-- A request names a volume and carries the credentials.
abbrev pub IsIdentified : String → GoMap → Type 0
IsIdentified id secrets = (id ≢ "") × HasValidSecrets secrets

pub IsIdentified-cases :
    (id : String) (secrets : GoMap)
    → (IsIdentified id secrets × (str_eq id "" ≡ false) × (validate_req_secrets secrets ≡ none))
      ⊎ ((¬ IsIdentified id secrets)
          × ((str_eq id "" ≡ true)
              ⊎ ((str_eq id "" ≡ false) × ((m : Text) × (validate_req_secrets secrets ≡ some m)))))
IsIdentified-cases id secrets = elim (str_eq-cases id "") [
  | inl (t, same) ↦ inr (λ (other, _). other same, inl t)
  | inr (f, other) ↦ elim (Option-cases (validate_req_secrets secrets)) [
    | inl e ↦ inl ((other, (validate_req_secrets_iff secrets).0 e), f, e)
    | inr (m, e) ↦ inr (λ (_, h). cc ((validate_req_secrets_iff secrets).1 h), inr (f, (m, e)))
  ]
]

answer_delete-reply :
    (answer : Result (Unit {0}))
    → answer_delete answer ≡ reply tt
    → (answer ≡ ok tt) ⊎ ((e : Error) × (answer ≡ err e) × (is_not_found e ≡ true))
unfolding answer_delete
answer_delete-reply (ok t) h = inl refl
answer_delete-reply (err e) h = elim (Bool-cases (is_not_found e)) [
  | inl y ↦ inr (e, refl, y)
  | inr n ↦ absurd (ground arith)
]
answer_delete-reply panic h = cc

answer_delete-status :
    (answer : Result (Unit {0})) (code : Code) (message : Text)
    → answer_delete answer ≡ status code message
    → (code ≡ Code.internal) × ((e : Error) × (answer ≡ err e) × (is_not_found e ≡ false))
unfolding answer_delete
answer_delete-status (ok t) code message h = cc
answer_delete-status (err e) code message h = elim (Bool-cases (is_not_found e)) [
  | inl y ↦ absurd (ground arith)
  | inr n ↦ (ground arith, (e, refl, n))
]
answer_delete-status panic code message h = cc

module _ (P : StorageProvider) (req : DeleteVolumeRequest) where
  -- The provider has deleted the volume, or says that there is none.
  abbrev pub IsGone : P.State → P.State → Type 0
  IsGone s s' =
      (P.delete_volume req.volume_id req.secrets s ≡ (ok tt, s'))
      ⊎ ((e : Error) × (P.delete_volume req.volume_id req.secrets s ≡ (err e, s'))
          × (is_not_found e ≡ true))

  -- DeleteVolume succeeds only for a request that names a volume and has valid secrets, and when
  -- the provider has deleted the volume or says that it does not exist.
  pub delete_volume-reply :
      (s s' : P.State)
      → delete_volume P req s ≡ (reply tt, s')
      → IsIdentified req.volume_id req.secrets × IsGone s s'
  unfolding delete_volume
  delete_volume-reply s s' h = elim (IsIdentified-cases req.volume_id req.secrets) [
    | inr (_, inl t) ↦ absurd (ground arith)
    | inr (_, inr (f, (m, e))) ↦ absurd (ground arith)
    | inl (i, f, e) ↦
        let done = P.delete_volume req.volume_id req.secrets s in
        (
          i,
          elim (answer_delete-reply done.0 (ground arith)) [
            | inl a ↦ inl (ground arith)
            | inr (x, a, y) ↦ inr (x, ground arith, y)
          ],
        )
  ]

  -- DeleteVolume fails with InvalidArgument for any other request, the state unchanged, and with
  -- Internal for any other error of the provider.
  pub delete_volume-status :
      (s s' : P.State) (code : Code) (message : Text)
      → delete_volume P req s ≡ (status code message, s')
      → ((code ≡ Code.invalid_argument) × (¬ IsIdentified req.volume_id req.secrets) × (s ≡ s'))
        ⊎ ((code ≡ Code.internal)
            × IsIdentified req.volume_id req.secrets
            × ((e : Error) × (P.delete_volume req.volume_id req.secrets s ≡ (err e, s'))
                × (is_not_found e ≡ false)))
  unfolding delete_volume
  delete_volume-status s s' code message h = elim (IsIdentified-cases req.volume_id req.secrets) [
    | inr (bad, inl t) ↦ inl (ground arith, bad, ground arith)
    | inr (bad, inr (f, (m, e))) ↦ inl (ground arith, bad, ground arith)
    | inl (i, f, e) ↦
        let done = P.delete_volume req.volume_id req.secrets s in
        let (k, (x, a, n)) = answer_delete-status done.0 code message (ground arith) in
        inr (k, i, (x, ground arith, n))
  ]
