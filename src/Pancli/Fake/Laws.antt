-- ===== src/Pancli/Fake/Laws.antt =====
-- The volume list of the fake client as a map from names to volumes.
use mathlib.Core.Option
use panfs_container_storage.Base.{
  String, ◌≡◌, refl, ◌∙◌, inl, inr, none, some, List, [], ◌∷◌, ◌++◌, arith, str_eq, eq_iff, eq_refl,
  if◌then◌else◌,
}
use panfs_container_storage.Base.Texts.{str_eq-cases}
use panfs_container_storage.Base.Int.{ℤ}
use panfs_container_storage.Utils.Convert.{bytes_to_gb}
use panfs_container_storage.Utils.Parser.{Volume}
use panfs_container_storage.Pancli.Fake.{find_volume, remove_by_id, set_soft}

-- Every name is found once.
abbrev pub HasUniqueNames : List Volume → Type 0
HasUniqueNames [] = Unit
HasUniqueNames (v ∷ more) = (find_volume v.name more ≡ none) × HasUniqueNames more

pub find_volume-append :
    (name : String) (vs : List Volume) (v : Volume)
    → find_volume name vs ≡ none
    → find_volume name (vs ++ v ∷ []) ≡ (if str_eq v.name name then some v else none)
unfolding find_volume
find_volume-append name [] v h = refl
find_volume-append name (w ∷ vs) v h = ground (arith, find_volume-append name vs v)

pub find_volume-append_found :
    (name : String) (vs : List Volume) (v found : Volume)
    → find_volume name vs ≡ some found
    → find_volume name (vs ++ v ∷ []) ≡ some found
unfolding find_volume
find_volume-append_found name [] v found h = cc
find_volume-append_found name (w ∷ vs) v found h =
    ground (arith, find_volume-append_found name vs v found)

pub append-HasUniqueNames :
    (vs : List Volume) (v : Volume)
    → HasUniqueNames vs
    → find_volume v.name vs ≡ none
    → HasUniqueNames (vs ++ v ∷ [])
unfolding find_volume
append-HasUniqueNames [] v u h = (refl, tt)
append-HasUniqueNames (w ∷ vs) v (fresh, u) h = (
  find_volume-append w.name vs v fresh ∙ ground (arith, eq_iff v.name w.name, eq_iff w.name v.name),
  append-HasUniqueNames vs v u (ground arith),
)

-- set_soft keeps the names, and changes what is found under one of them.
pub find_volume-set_soft :
    (other name : String) (size : ℤ) (vs : List Volume)
    → find_volume other (set_soft name size vs) ≡ (
        if str_eq name other
        then Option.map
            (λ (v : Volume). record v { soft = bytes_to_gb size })
            (find_volume other vs)
        else find_volume other vs)
unfolding find_volume set_soft
find_volume-set_soft other name size [] = ground arith
find_volume-set_soft other name size (v ∷ vs) = ground (
  arith,
  eq_iff v.name name,
  eq_iff v.name other,
  eq_iff name other,
  find_volume-set_soft other name size vs,
)

pub set_soft-HasUniqueNames :
    (name : String) (size : ℤ) (vs : List Volume)
    → HasUniqueNames vs
    → HasUniqueNames (set_soft name size vs)
unfolding set_soft
set_soft-HasUniqueNames name size [] u = tt
set_soft-HasUniqueNames name size (v ∷ vs) (fresh, u) = ground (
  arith,
  eq_iff v.name name,
  eq_iff name v.name,
  find_volume-set_soft v.name name size vs,
  set_soft-HasUniqueNames name size vs u,
)

-- `rest` is `vs` without one volume, which has the identifier.
pub record IsWithout (id : String) (vs rest : List Volume) : Type 0 where
  pub volume : Volume
  pub identified : volume.id ≡ id
  pub listed : find_volume volume.name vs ≡ some volume
  pub others :
      (name : String)
      → find_volume name rest ≡ (if str_eq volume.name name then none else find_volume name vs)
  pub unique : HasUniqueNames rest

IsWithout-head :
    (id : String) (v : Volume) (vs : List Volume)
    → v.id ≡ id
    → find_volume v.name vs ≡ none
    → HasUniqueNames vs
    → IsWithout id (v ∷ vs) vs
unfolding find_volume
IsWithout-head id v vs same fresh u = record {
  volume = v;
  identified = same;
  listed = ground (arith, eq_refl v.name);
  others = λ name. ground (arith, eq_iff v.name name, fresh);
  unique = u;
}

IsWithout-cons :
    (id : String) (v : Volume) (vs rest : List Volume)
    → find_volume v.name vs ≡ none
    → IsWithout id vs rest
    → IsWithout id (v ∷ vs) (v ∷ rest)
unfolding find_volume
IsWithout-cons id v vs rest fresh w = record {
  volume = w.volume;
  identified = w.identified;
  listed = ground (arith, w.listed, eq_iff v.name w.volume.name);
  others = λ name.
      ground (arith, w.others name, w.listed, eq_iff v.name name, eq_iff w.volume.name name, fresh);
  unique = (ground (arith, w.others v.name, fresh), w.unique);
}

pub remove_by_id-IsWithout :
    (id : String) (vs rest : List Volume)
    → HasUniqueNames vs
    → remove_by_id id vs ≡ some rest
    → IsWithout id vs rest
unfolding remove_by_id
remove_by_id-IsWithout id [] rest u h = cc
remove_by_id-IsWithout id (v ∷ vs) rest (fresh, u) h = elim (str_eq-cases v.id id) [
  | inl (t, same) ↦
      let e : vs ≡ rest = ground arith in rw (← e) (IsWithout-head id v vs same fresh u)
  | inr (f, _) ↦
      let (r, removed, same) =
        (Option.map-eq-some_iff (λ (x : List Volume). v ∷ x) (remove_by_id id vs)).0
          (rw (f, remove_by_id) at h) in
      rw (← same) (IsWithout-cons id v vs r fresh (remove_by_id-IsWithout id vs r u removed))
]
