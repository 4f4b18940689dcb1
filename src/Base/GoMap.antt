-- ===== src/Base/GoMap.antt =====
-- Go's maps with string keys: a map's entries stand in some order, with one entry for a key. A
-- `GoMap` is a map[string]string, `none` the nil map.
use mathlib.Core.Option.{get_or}
use panfs_container_storage.Base.{
  String, ◌≡◌, refl, Option, none, some, List, [], ◌∷◌, arith, str_eq, eq_iff, eq_refl, ◌≢◌,
  if◌then◌else◌,
}

abbrev pub EntriesOf {ℓ} : Type ℓ → Type ℓ
EntriesOf V = List (String × V)

module _ {ℓ} {V : Type ℓ} where
  -- v, ok := m[k]
  unfoldable pub lookup : String → EntriesOf V → Option V
  lookup k [] = none
  lookup k ((j, v) ∷ m) = if str_eq j k then some v else lookup k m

  -- m[k] = v
  unfoldable pub insert : String → V → EntriesOf V → EntriesOf V
  insert k v [] = (k, v) ∷ []
  insert k v ((j, w) ∷ m) = if str_eq j k then (k, v) ∷ m else (j, w) ∷ insert k v m

  abbrev pub NodupKeys : EntriesOf V → Type ℓ
  NodupKeys [] = Unit
  NodupKeys ((k, v) ∷ m) = (lookup k m ≡ none) × NodupKeys m

  pub lookup-insert :
      (j k : String) (v : V) (m : EntriesOf V)
      → lookup j (insert k v m) ≡ (if str_eq k j then some v else lookup j m)
  unfolding lookup insert
  lookup-insert j k v [] = refl
  lookup-insert j k v ((i, w) ∷ m) =
      ground (arith, eq_iff k j, eq_iff i k, eq_iff i j, lookup-insert j k v m)

  pub lookup-insert_self : (k : String) (v : V) (m : EntriesOf V) → lookup k (insert k v m) ≡ some v
  lookup-insert_self k v m = simp (lookup-insert, eq_refl)

  pub lookup-insert_ne :
      (j k : String) (v : V) (m : EntriesOf V) → j ≢ k → lookup j (insert k v m) ≡ lookup j m
  lookup-insert_ne j k v m h = rw lookup-insert (ground (arith, eq_iff k j))

  insert-NodupKeys : (k : String) (v : V) (m : EntriesOf V) → NodupKeys m → NodupKeys (insert k v m)
  unfolding insert lookup
  insert-NodupKeys k v [] h = (refl, tt)
  insert-NodupKeys k v ((j, w) ∷ m) (fresh, h) =
      ground (arith, eq_iff j k, eq_iff k j, lookup-insert j k v m, insert-NodupKeys k v m h)

abbrev pub Entries : Type 0
Entries = EntriesOf String

abbrev pub GoMap : Type 0
GoMap = Option Entries

-- A nil map reads as an empty one.
unfoldable pub find : String → GoMap → Option String
unfolding lookup
find k none = none
find k (some m) = lookup k m

-- m[k] with no `ok`: the empty string if there is no entry.
unfoldable pub value_at : String → GoMap → String
unfolding find
value_at k m = get_or (find k m) ""
