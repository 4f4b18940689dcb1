-- ===== src/Driver/Validators/Check.antt =====
-- Chains of `if …; err != nil { return err }`: the first message ends the chain.
use panfs_container_storage.Base.{
  String, ◌≡◌, refl, ◌↔◌, Bool, true, false, Option, none, some, arith,
}
use panfs_container_storage.Base.Texts.{Text}
use panfs_container_storage.Base.GoMap.{GoMap, find}

infixl 5 ◌>>◌
abbrev pub ◌>>◌ : Option Text → Option Text → Option Text
some message >> more = some message
none >> more = more

abbrev pub refuse_if : Bool → Text → Option Text
refuse_if true message = some message
refuse_if false message = none

-- if val, exist := m[key]; exist { … }
abbrev pub if_present : String → GoMap → (String → Option Text) → Option Text
if_present key m check = elim (find key m) [ none ↦ none | some val ↦ check val ]

-- What a chain lets pass is what every link lets pass.
pub both :
    {a b : Option Text} {P Q : Type 0} → (a ≡ none) ↔ P → (b ≡ none) ↔ Q → (a >> b ≡ none) ↔ (P × Q)
both {a = none} p q = (λ e. (p.0 refl, q.0 e), λ (x, y). q.1 y)
both {a = some message} p q = (λ e. cc, λ (x, y). absurd (cc (p.1 x)))

pub refuse_if-eq-none : (b : Bool) (message : Text) → (refuse_if b message ≡ none) ↔ (b ≡ false)
refuse_if-eq-none b message = ground arith

pub if_present-eq-none :
    (key : String) (m : GoMap) (check : String → Option Text) (P : String → Type 0)
    → ((val : String) → (check val ≡ none) ↔ P val)
    → (if_present key m check ≡ none) ↔ ((val : String) → find key m ≡ some val → P val)
if_present-eq-none key m check P h = go (find key m)
  where
    go :
        (o : Option String)
        → (elim o [ none ↦ none | some val ↦ check val ] ≡ none)
          ↔ ((val : String) → o ≡ some val → P val)
    go none = (λ e val f. absurd (cc f), λ _. refl)
    go (some v) = (λ e val f. (h val).0 (cc), λ k. (h v).1 (k v refl))
