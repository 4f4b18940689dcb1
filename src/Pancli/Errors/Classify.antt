-- ===== src/Pancli/Errors/Classify.antt =====
-- Which sentinel error the output of a command stands for.
use panfs_container_storage.Base.{
  String, ◌≡◌, ◌≢◌, refl, sym, ◌∙◌, ◌↔◌, ◌⊎◌, inl, inr, Bool, true, false, ◌||◌, Option, none, some,
  arith, if◌then◌else◌,
}
use panfs_container_storage.Base.Texts.{Text, codes, contains, to_lower}
use panfs_container_storage.Base.Texts.Search.{Holds, contains_iff}
use panfs_container_storage.Base.Results.{
  Sentinel, already_exist, not_found, invalid_argument, unavailable, internal, Error,
}
use panfs_container_storage.Pancli.Errors.{parse_error_string}

-- The output holds the phrase, in capitals or not.
abbrev pub Mentions : Text → String → Type 0
Mentions output phrase = Holds (to_lower output) (codes phrase)

abbrev pub wraps_of : Option Error → Option Sentinel
wraps_of none = none
wraps_of (some e) = some e.wraps

-- The sentinel, by the answers to the searches in their order.
kind : Bool → Bool → Bool → Bool → Bool → Bool → Bool → Bool → Option Sentinel
kind exists no_volume success listing missing invalid range lost =
    if exists
    then some already_exist
    else if no_volume
    then some not_found
    else if success
    then none
    else if listing
    then none
    else if missing
    then some not_found
    else if invalid
    then some invalid_argument
    else if range
    then some invalid_argument
    else if lost
    then some unavailable
    else some internal

kind_of : Text → Option Sentinel
kind_of s =
    kind (contains s (codes "already exists")) (contains s (codes "no volume with name"))
      (contains s (codes "successfully")) (contains s (codes "<volumes>"))
      (contains s (codes "do not exist"))
      (contains s (codes "must be one of") || contains s (codes "invalid string"))
      (contains s (codes "should be")) (contains s (codes "status 255"))

wraps_of-if :
    (b : Bool) (x y : Option Error)
    → wraps_of (if b then x else y) ≡ (if b then wraps_of x else wraps_of y)
wraps_of-if true x y = refl
wraps_of-if false x y = refl

parse_error_string-kind :
    (output : Text) → wraps_of (parse_error_string output) ≡ kind_of (to_lower output)
unfolding parse_error_string kind_of kind
parse_error_string-kind output = simp wraps_of-if

-- The outcomes that the driver tells apart, by the same answers.
kind-cases :
    (exists no_volume success listing missing invalid range lost : Bool)
    → let k = kind exists no_volume success listing missing invalid range lost in
      ((k ≡ some already_exist) ↔ (exists ≡ true))
      × ((k ≡ some not_found) ↔ (
          (exists ≢ true)
          × ((no_volume ≡ true) ⊎ ((success ≢ true) × (listing ≢ true) × (missing ≡ true)))))
      × ((k ≡ none)
          ↔ ((exists ≢ true) × (no_volume ≢ true) × ((success ≡ true) ⊎ (listing ≡ true))))
unfolding kind
kind-cases true no_volume success listing missing invalid range lost = ground arith
kind-cases false true success listing missing invalid range lost = ground arith
kind-cases false false true listing missing invalid range lost = ground arith
kind-cases false false false true missing invalid range lost = ground arith
kind-cases false false false false true invalid range lost = ground arith
kind-cases false false false false false invalid range lost = ground arith

module _ (output : Text) where
  -- The outcomes of parseErrorString, by what the output says.
  abbrev pub Exists : Type 0
  Exists = Mentions output "already exists"

  abbrev pub Missing : Type 0
  Missing =
      (¬ Exists)
      × (Mentions output "no volume with name"
          ⊎ ((¬ Mentions output "successfully")
              × (¬ Mentions output "<volumes>")
              × Mentions output "do not exist"))

  abbrev pub Succeeds : Type 0
  Succeeds =
      (¬ Exists)
      × (¬ Mentions output "no volume with name")
      × (Mentions output "successfully" ⊎ Mentions output "<volumes>")

  found :
      (phrase : String)
      → (contains (to_lower output) (codes phrase) ≡ true) ↔ Mentions output phrase
  found phrase = contains_iff (to_lower output) (codes phrase)

  not_found_iff :
      (phrase : String)
      → (contains (to_lower output) (codes phrase) ≢ true) ↔ (¬ Mentions output phrase)
  not_found_iff phrase = (λ h m. h ((found phrase).1 m), λ h e. h ((found phrase).0 e))

  -- An output stands for ErrorAlreadyExist exactly if it says "already exists"; for ErrorNotFound
  -- exactly if it does not and says "no volume with name", or "do not exist" without
  -- "successfully" and "<volumes>"; and for a success exactly if it says "successfully" or
  -- "<volumes>" without "already exists" and "no volume with name". Capitals do not matter.
  pub parse_error_string-classes :
      ((wraps_of (parse_error_string output) ≡ some already_exist) ↔ Exists)
      × ((wraps_of (parse_error_string output) ≡ some not_found) ↔ Missing)
      × ((wraps_of (parse_error_string output) ≡ none) ↔ Succeeds)
  unfolding kind_of
  parse_error_string-classes =
      let (existing, missing, success) = kind-cases _ _ _ _ _ _ _ _ in
      let e = parse_error_string-kind output in
      let exists_iff = found "already exists" in
      let absent_iff = not_found_iff "already exists" in
      let no_volume_iff = not_found_iff "no volume with name" in
      let volume_iff = found "no volume with name" in
      let success_iff = found "successfully" in
      let listing_iff = found "<volumes>" in
      (
        (λ h. exists_iff.0 (existing.0 (sym e ∙ h)), λ m. e ∙ existing.1 (exists_iff.1 m)),
        (
          λ h.
              let (a, r) = missing.0 (sym e ∙ h) in
              (
                absent_iff.0 a,
                elim r [
                  | inl v ↦ inl (volume_iff.0 v)
                  | inr (s, l, m) ↦ inr (
                    (not_found_iff "successfully").0 s,
                    (not_found_iff "<volumes>").0 l,
                    (found "do not exist").0 m,
                  )
                ],
              ),
          λ (a, r).
              e
              ∙ missing.1 (
                absent_iff.1 a,
                elim r [
                  | inl v ↦ inl (volume_iff.1 v)
                  | inr (s, l, m) ↦ inr (
                    (not_found_iff "successfully").1 s,
                    (not_found_iff "<volumes>").1 l,
                    (found "do not exist").1 m,
                  )
                ],
              ),
        ),
        (
          λ h.
              let (a, v, r) = success.0 (sym e ∙ h) in
              (
                absent_iff.0 a,
                no_volume_iff.0 v,
                elim r [ inl s ↦ inl (success_iff.0 s) | inr l ↦ inr (listing_iff.0 l) ],
              ),
          λ (a, v, r).
              e
              ∙ success.1 (
                absent_iff.1 a,
                no_volume_iff.1 v,
                elim r [ inl s ↦ inl (success_iff.1 s) | inr l ↦ inr (listing_iff.1 l) ],
              ),
        ),
      )

-- Every error of parseErrorString wraps one of five sentinels.
parse_error_string-known :
    (output : Text) (e : Error)
    → parse_error_string output ≡ some e
    → (e.wraps ≡ already_exist)
      ⊎ (e.wraps ≡ not_found)
      ⊎ (e.wraps ≡ invalid_argument)
      ⊎ (e.wraps ≡ unavailable)
      ⊎ (e.wraps ≡ internal)
unfolding parse_error_string
parse_error_string-known output e h = ground arith
