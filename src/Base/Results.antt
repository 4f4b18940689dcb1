-- ===== src/Base/Results.antt =====
-- Go's errors and the (value, error) results.
use panfs_container_storage.Base.{Bool, true, false}
use panfs_container_storage.Base.Texts.{Text}

-- The sentinel of pkg/pancli/errors.go that an error wraps, which errors.Is asks for; `other`
-- wraps none of them.
pub data Sentinel : Type 0 where
  not_implemented already_exist not_found invalid_argument : Sentinel
  unauthenticated unavailable internal other : Sentinel

pub record Error : Type 0 where
  pub wraps : Sentinel
  pub message : Text

-- What a call of type (value, error) comes back with. `panic` is a run-time panic, such as the use
-- of a nil pointer; the driver recovers from none, so it ends the process.
pub data Result {ℓ} (A : Type ℓ) : Type ℓ where
  ok : A → Result A
  err : Error → Result A
  panic : Result A

abbrev pub is_not_found : Error → Bool
is_not_found e = elim e.wraps [ not_found ↦ true | _ ↦ false ]

abbrev pub is_already_exist : Error → Bool
is_already_exist e = elim e.wraps [ already_exist ↦ true | _ ↦ false ]

-- fmt.Errorf without %w.
abbrev pub plain : Text → Error
plain message = record { wraps = other; message = message }

-- Code that changes a state and may fail: what was written before an error stays written.
abbrev pub Exec {ℓ κ} : Type ℓ → Type κ → Type (ℓ ⊔ κ)
Exec S A = S → Result A × S

module _ {ℓ κ} {S : Type ℓ} {A : Type κ} where
  abbrev pub pure : A → Exec S A
  pure a s = (ok a, s)

  abbrev pub fail : Error → Exec S A
  fail e s = (err e, s)

  abbrev pub lift : Result A → Exec S A
  lift r s = (r, s)

module _ {ℓ κ μ} {S : Type ℓ} {A : Type κ} {B : Type μ} where
  abbrev pub continue : Result A → (A → Exec S B) → Exec S B
  continue (ok a) f s = f a s
  continue (err e) f s = (err e, s)
  continue panic f s = (panic, s)

  infixl 5 ◌>>=◌
  abbrev pub ◌>>=◌ : Exec S A → (A → Exec S B) → Exec S B
  ◌>>=◌ m f s = continue (m s).0 f (m s).1
