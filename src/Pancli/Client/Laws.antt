-- ===== src/Pancli/Client/Laws.antt =====
-- What a success of the client says about the commands that it ran.
use panfs_container_storage.Base.{
  String, ◌≡◌, refl, ◌∙◌, ap, ◌⊎◌, inl, inr, false, List, [], ◌∷◌, arith, is_empty,
}
use panfs_container_storage.Base.GoMap.{Entries, GoMap}
use panfs_container_storage.Base.Results.{Error, Result, ok, err, panic}
use panfs_container_storage.Utils.Parser.{Volume, VolumeList}
use panfs_container_storage.Pancli.Options.{get_optional_parameters}
use panfs_container_storage.Pancli.Client.{
  SshRunner, Unmarshal, parse_list_volumes, decode, checked_list, first_volume, get_volume,
  create_volume,
}

pub Result-cases :
    {A : Type 0} (r : Result A) → ((a : A) × (r ≡ ok a)) ⊎ ((e : Error) × (r ≡ err e)) ⊎ (r ≡ panic)
Result-cases (ok a) = inl (a, refl)
Result-cases (err e) = inr (inl (e, refl))
Result-cases panic = inr (inr refl)

empty-cases : (xs : List String) → (xs ≡ []) ⊎ (is_empty xs ≡ false)
empty-cases [] = inl refl
empty-cases (x ∷ xs) = inr refl

checked_list-ok :
    (list checked : VolumeList)
    → checked_list list ≡ ok checked
    → (list.supported_urls ≡ []) × (list ≡ checked)
unfolding checked_list
checked_list-ok list checked h = elim (empty-cases list.supported_urls) [
  | inl e ↦ (e, ground arith)
  | inr f ↦ absurd (ground arith)
]

first_volume-ok :
    (volumes : List Volume) (vol : Volume)
    → first_volume volumes ≡ ok vol
    → (more : List Volume) × (volumes ≡ vol ∷ more)
unfolding first_volume
first_volume-ok [] vol h = cc
first_volume-ok (v ∷ more) vol h = (more, ground arith)

module _ (R : SshRunner) (unmarshal : Unmarshal) where
  -- The output of the listing of the volume decodes to a list that starts with it.
  abbrev pub Lists : String → GoMap → R.State → Volume → R.State → Type 0
  Lists name secrets s vol s' =
      (out : String) × (list : VolumeList) × (more : List Volume) × (R.run_command secrets
          ("pasxml" ∷ "volumes" ∷ "volume" ∷ name ∷ []) s
        ≡ (ok out, s'))
      × (parse_list_volumes unmarshal out ≡ ok list)
      × (list.supported_urls ≡ [])
      × (list.volumes ≡ vol ∷ more)

  -- A success of GetVolume is the first volume of what PanFS lists under the name, in a list without
  -- supported URLs.
  pub get_volume-Lists :
      (name : String) (secrets : GoMap) (s s' : R.State) (vol : Volume)
      → get_volume R unmarshal name secrets s ≡ (ok vol, s')
      → Lists name secrets s vol s'
  unfolding get_volume decode
  get_volume-Lists name secrets s s' vol h =
      let done = R.run_command secrets ("pasxml" ∷ "volumes" ∷ "volume" ∷ name ∷ []) s in
      elim (Result-cases done.0) [
        | inr (inl (e, d)) ↦ absurd (ground arith)
        | inr (inr d) ↦ absurd (ground arith)
        | inl (out, d) ↦ elim (Result-cases (parse_list_volumes unmarshal out)) [
          | inr (inl (e, u)) ↦ absurd (ground arith)
          | inr (inr u) ↦ absurd (ground arith)
          | inl (list, u) ↦ elim (Result-cases (checked_list list)) [
            | inr (inl (e, c)) ↦ absurd (ground arith)
            | inr (inr c) ↦ absurd (ground arith)
            | inl (checked, c) ↦
                let (urls, same) = checked_list-ok list checked c in
                let (more, first) = first_volume-ok checked.volumes vol (ground arith) in
                (
                  out,
                  list,
                  more,
                  ground arith,
                  u,
                  urls,
                  ap (λ (l : VolumeList). l.volumes) same ∙ first,
                )
          ]
        ]
      ]

  -- A success of CreateVolume: PanFS accepted the command with all options, and then lists the
  -- volume that is returned.
  pub create_volume-Lists :
      (name : String) (params : Entries) (secrets : GoMap) (s s' : R.State) (vol : Volume)
      → create_volume R unmarshal name params secrets s ≡ (ok vol, s')
      → (out : String) × (t : R.State) × (R.run_command secrets
            ("volume" ∷ "create" ∷ name ∷ get_optional_parameters params)
            s
          ≡ (ok out, t))
        × Lists name secrets t vol s'
  unfolding create_volume
  create_volume-Lists name params secrets s s' vol h =
      let done =
        R.run_command secrets ("volume" ∷ "create" ∷ name ∷ get_optional_parameters params) s in
      elim (Result-cases done.0) [
        | inr (inl (e, d)) ↦ absurd (ground arith)
        | inr (inr d) ↦ absurd (ground arith)
        | inl (out, d) ↦
            (out, done.1, ground arith, get_volume-Lists name secrets done.1 s' vol (ground arith))
      ]
