-- ===== src/Pancli/Fake/Operations.antt =====
-- What the operations of the fake client do to the volume that is found under a name.
use panfs_container_storage.Base.{
  ℕ, suc, String, ◌≡◌, refl, sym, ◌∙◌, ap, inl, inr, none, some, List, [], ◌∷◌, ◌++◌, arith, str_eq,
  if◌then◌else◌, Option-cases,
}
use panfs_container_storage.Base.Texts.{codes, str_eq-cases}
use panfs_container_storage.Base.Int.{ℤ}
use panfs_container_storage.Base.GoMap.{Entries, GoMap}
use panfs_container_storage.Base.Results.{Sentinel, Result, ok, err}
use panfs_container_storage.Utils.Convert.{bytes_to_gb}
use panfs_container_storage.Utils.Parser.{Volume}
use panfs_container_storage.Pancli.Errors.{sentinel, wrapped}
use panfs_container_storage.Pancli.Fake.{
  Fake, find_volume, new_volume, remove_by_id, set_soft, get_volume, delete_volume, expand_volume,
  create_volume,
}
use panfs_container_storage.Pancli.Fake.Laws.{
  HasUniqueNames, find_volume-append, find_volume-append_found, append-HasUniqueNames,
  find_volume-set_soft, set_soft-HasUniqueNames, IsWithout, remove_by_id-IsWithout,
}

module _ (uuid : ℕ → String) where
  abbrev pub created : String → Entries → Fake → Volume
  created name params c = new_volume (uuid c.drawn) name params

  pub create_volume_free :
      (name : String) (params : Entries) (secrets : GoMap) (c : Fake)
      → find_volume name c.volumes ≡ none
      → create_volume uuid name params secrets c ≡ (
        ok (created name params c),
        record { volumes = c.volumes ++ (created name params c ∷ []); drawn = suc c.drawn },
      )
  unfolding create_volume
  create_volume_free name params secrets c e = ground arith

  pub create_volume_taken :
      (name : String) (params : Entries) (secrets : GoMap) (c : Fake) (v : Volume)
      → find_volume name c.volumes ≡ some v
      → create_volume uuid name params secrets c ≡ (err (sentinel Sentinel.already_exist), c)
  unfolding create_volume
  create_volume_taken name params secrets c v e = ground arith

  pub new_volume-name :
      (id name : String) (params : Entries) → (new_volume id name params).name ≡ name
  unfolding new_volume
  new_volume-name id name params = refl

  pub create_volume_free-HasUniqueNames :
      (name : String) (params : Entries) (c : Fake)
      → HasUniqueNames c.volumes
      → find_volume name c.volumes ≡ none
      → HasUniqueNames (c.volumes ++ created name params c ∷ [])
  create_volume_free-HasUniqueNames name params c u e =
      append-HasUniqueNames c.volumes (created name params c) u
        (rw (new_volume-name (uuid c.drawn) name params) e)

  find_volume-created :
      (other name : String) (vs : List Volume) (v : Volume)
      → v.name ≡ name
      → find_volume name vs ≡ none
      → find_volume other (vs ++ v ∷ [])
        ≡ (if str_eq name other then some v else find_volume other vs)
  find_volume-created other name vs v n free = elim (Option-cases (find_volume other vs)) [
    | inl e ↦ find_volume-append other vs v e ∙ rw (n, e) refl
    | inr (w, e) ↦ find_volume-append_found other vs v w e ∙ elim (str_eq-cases name other) [
      | inl (t, same) ↦ cc (ap (λ k. find_volume k vs) same)
      | inr (f, _) ↦ rw (f, e) refl
    ]
  ]

  -- A volume is created only under a free name. It is then found under that name, and under every
  -- other name there is what there was; the names stay unique.
  pub create_volume-find :
      (name : String) (params : Entries) (secrets : GoMap) (c c' : Fake) (vol : Volume)
      → HasUniqueNames c.volumes
      → create_volume uuid name params secrets c ≡ (ok vol, c')
      → (find_volume name c.volumes ≡ none)
        × ((other : String)
            → find_volume other c'.volumes
              ≡ (if str_eq name other then some vol else find_volume other c.volumes))
        × HasUniqueNames c'.volumes
  create_volume-find name params secrets c c' vol u h =
      elim (Option-cases (find_volume name c.volumes)) [
        | inr (v, e) ↦ cc (create_volume_taken name params secrets c v e)
        | inl e ↦
            let done = create_volume_free name params secrets c e in
            let v : created name params c ≡ vol = cc in
            let s : c.volumes ++ created name params c ∷ [] ≡ c'.volumes =
              ap (λ (r : Result Volume × Fake). r.1.volumes) (sym done ∙ h) in
            let n = new_volume-name (uuid c.drawn) name params in
            rw (← s, ← v)
              (
                e,
                λ other. find_volume-created other name c.volumes (created name params c) n e,
                append-HasUniqueNames c.volumes (created name params c) u (rw n e),
              )
      ]

pub expand_volume_found :
    (name : String) (size : ℤ) (secrets : GoMap) (c : Fake) (v : Volume)
    → find_volume name c.volumes ≡ some v
    → expand_volume name size secrets c
      ≡ (ok tt, record c { volumes = set_soft name size c.volumes })
unfolding expand_volume
expand_volume_found name size secrets c v e = ground arith

pub expand_volume_missing :
    (name : String) (size : ℤ) (secrets : GoMap) (c : Fake)
    → find_volume name c.volumes ≡ none
    → expand_volume name size secrets c ≡ (err (wrapped Sentinel.not_found (codes name)), c)
unfolding expand_volume
expand_volume_missing name size secrets c e = ground arith

pub written :
    (other name : String) (size : ℤ) (vs : List Volume) (v : Volume)
    → find_volume name vs ≡ some v
    → find_volume other (set_soft name size vs) ≡ (
        if str_eq name other
        then some (record v { soft = bytes_to_gb size })
        else find_volume other vs)
written other name size vs v e =
    find_volume-set_soft other name size vs ∙ elim (str_eq-cases name other) [
      | inl (t, same) ↦ rw (t, ← same, e) refl
      | inr (f, _) ↦ rw f refl
    ]

-- An expansion finds a volume under the name and writes its soft quota; everything else stays.
pub expand_volume-find :
    (name : String) (size : ℤ) (secrets : GoMap) (c c' : Fake) (t : Unit {0})
    → HasUniqueNames c.volumes
    → expand_volume name size secrets c ≡ (ok t, c')
    → (v : Volume) × (find_volume name c.volumes ≡ some v)
      × ((other : String)
          → find_volume other c'.volumes ≡ (
              if str_eq name other
              then some (record v { soft = bytes_to_gb size })
              else find_volume other c.volumes))
      × HasUniqueNames c'.volumes
expand_volume-find name size secrets c c' t u h = elim (Option-cases (find_volume name c.volumes)) [
  | inl e ↦ cc (expand_volume_missing name size secrets c e)
  | inr (v, e) ↦
      let done = expand_volume_found name size secrets c v e in
      let s : set_soft name size c.volumes ≡ c'.volumes =
        ap (λ (r : Result (Unit {0}) × Fake). r.1.volumes) (sym done ∙ h) in
      rw (← s) (
        v,
        e,
        λ other. written other name size c.volumes v e,
        set_soft-HasUniqueNames name size c.volumes u,
      )
]

pub delete_volume_found :
    (id : String) (secrets : GoMap) (c : Fake) (rest : List Volume)
    → remove_by_id id c.volumes ≡ some rest
    → delete_volume id secrets c ≡ (ok tt, record c { volumes = rest })
unfolding delete_volume
delete_volume_found id secrets c rest e = ground arith

pub delete_volume_missing :
    (id : String) (secrets : GoMap) (c : Fake)
    → remove_by_id id c.volumes ≡ none
    → delete_volume id secrets c ≡ (err (wrapped Sentinel.not_found []), c)
unfolding delete_volume
delete_volume_missing id secrets c e = ground arith

pub get_volume_found :
    (name : String) (secrets : GoMap) (c : Fake) (v : Volume)
    → find_volume name c.volumes ≡ some v
    → get_volume name secrets c ≡ (ok v, c)
unfolding get_volume
get_volume_found name secrets c v e = ground arith

pub get_volume_missing :
    (name : String) (secrets : GoMap) (c : Fake)
    → find_volume name c.volumes ≡ none
    → get_volume name secrets c ≡ (err (wrapped Sentinel.not_found (codes name)), c)
unfolding get_volume
get_volume_missing name secrets c e = ground arith

-- A deletion takes away the one volume with the identifier, and changes nothing else.
delete_volume-find :
    (id : String) (secrets : GoMap) (c c' : Fake) (t : Unit {0})
    → HasUniqueNames c.volumes
    → delete_volume id secrets c ≡ (ok t, c')
    → IsWithout id c.volumes c'.volumes
unfolding delete_volume
delete_volume-find id secrets c c' t u h = elim (Option-cases (remove_by_id id c.volumes)) [
  | inl e ↦ ground arith
  | inr (rest, e) ↦
      let s : rest ≡ c'.volumes = ground arith in
      rw (← s) (remove_by_id-IsWithout id c.volumes rest u e)
]

pub delete_volume-HasUniqueNames :
    (id : String) (secrets : GoMap) (c : Fake)
    → HasUniqueNames c.volumes
    → HasUniqueNames (delete_volume id secrets c).1.volumes
delete_volume-HasUniqueNames id secrets c u = elim (Option-cases (remove_by_id id c.volumes)) [
  | inl n ↦ rw (delete_volume_missing id secrets c n) u
  | inr (rest, e) ↦
      rw (delete_volume_found id secrets c rest e)
        ((remove_by_id-IsWithout id c.volumes rest u e).unique)
]

pub expand_volume-HasUniqueNames :
    (name : String) (size : ℤ) (secrets : GoMap) (c : Fake)
    → HasUniqueNames c.volumes
    → HasUniqueNames (expand_volume name size secrets c).1.volumes
expand_volume-HasUniqueNames name size secrets c u =
    elim (Option-cases (find_volume name c.volumes)) [
      | inl n ↦ rw (expand_volume_missing name size secrets c n) u
      | inr (v, e) ↦
          rw (expand_volume_found name size secrets c v e)
            (set_soft-HasUniqueNames name size c.volumes u)
    ]
