-- ===== src/Base/Texts/Search.antt =====
-- What a search for a phrase finds.
use panfs_container_storage.Base.{
  ◌≡◌, refl, ◌↔◌, inl, inr, ap, true, [], ◌∷◌, ◌++◌, arith, Bool-cases,
}
use panfs_container_storage.Base.Texts.{Text, begins, contains}

-- The text holds the phrase somewhere.
abbrev pub Holds : Text → Text → Type 0
Holds s t = (before : Text) × (after : Text) × (s ≡ before ++ (t ++ after))

begins_sound : (s t : Text) → begins s t ≡ true → (after : Text) × (s ≡ t ++ after)
unfolding begins
begins_sound s [] h = (s, refl)
begins_sound [] (d ∷ t) h = cc
begins_sound (c ∷ s) (d ∷ t) h =
    let (after, e) = begins_sound s t (ground arith) in
    let same : c ≡ d = ground arith in (after, cc)

begins_complete : (t after : Text) → begins (t ++ after) t ≡ true
unfolding begins
begins_complete [] [] = refl
begins_complete [] (c ∷ s) = refl
begins_complete (c ∷ t) after = ground (arith, begins_complete t after)

contains_sound : (s t : Text) → contains s t ≡ true → Holds s t
unfolding contains
contains_sound [] t h = let (after, e) = begins_sound [] t h in ([], after, e)
contains_sound (c ∷ s) t h = elim (Bool-cases (begins (c ∷ s) t)) [
  | inl here ↦ let (after, e) = begins_sound (c ∷ s) t here in ([], after, e)
  | inr later ↦
      let (before, after, e) = contains_sound s t (ground arith) in
      (c ∷ before, after, ap (λ r. c ∷ r) e)
]

contains_of_begins : (s t : Text) → begins s t ≡ true → contains s t ≡ true
unfolding contains
contains_of_begins [] t h = h
contains_of_begins (c ∷ s) t h = ground arith

contains_complete : (before t after : Text) → contains (before ++ (t ++ after)) t ≡ true
unfolding contains
contains_complete [] t after = contains_of_begins (t ++ after) t (begins_complete t after)
contains_complete (c ∷ before) t after = ground (arith, contains_complete before t after)

-- strings.Contains finds a phrase exactly if the text holds it.
pub contains_iff : (s t : Text) → (contains s t ≡ true) ↔ Holds s t
contains_iff s t =
    (contains_sound s t, λ (before, after, e). rw e (contains_complete before t after))
