-- ===== src/Pancli/Ssh/Words.antt =====
-- The command line of RunCommand in pkg/pancli/pancli_ssh.go, which joins the arguments with blanks.
use Prim.Native.Char.{char}
use text.Mathlib.TextLemmas.{nil-append, cons-append}
use mathlib.Core.List.{flat_map}
use panfs_container_storage.Base.{
  sym, append-nil, Char, code, String, ◌<>◌, ◌≡◌, ◌≢◌, refl, ap, ◌∙◌, List, [], ◌∷◌, ◌++◌, ◌==◌,
  inl, inr, if◌then◌else◌, Bool-cases,
}
use panfs_container_storage.Base.Texts.{codes, join}
use panfs_container_storage.Base.GoMap.{GoMap}
use panfs_container_storage.Base.Results.{ok}
use panfs_container_storage.Pancli.Errors.Classify.{Succeeds}
use panfs_container_storage.Pancli.Ssh.{Ssh, Clients, get_ssh_connection, run_command}
use panfs_container_storage.Pancli.Ssh.Run.{run_command-Succeeds}

abbrev extend : Char → List String → List String
extend c [] = String.◌∷◌ c "" ∷ []
extend c (w ∷ words) = String.◌∷◌ c w ∷ words

-- The words of a command line between its blanks.
unfoldable pub split : String → List String
split String.[] = "" ∷ []
split (String.◌∷◌ c s) = let rest = split s in if code c == b' ' then "" ∷ rest else extend c rest

split-cons : (s : String) → (w : String) × (words : List String) × (split s ≡ w ∷ words)
unfolding split
split-cons String.[] = ("", [], refl)
split-cons (String.◌∷◌ c s) =
    let (w, words, e) = split-cons s in
    elim (Bool-cases (code c == b' ')) [
      | inl t ↦ ("", split s, rw t refl)
      | inr f ↦ (String.◌∷◌ c w, words, rw (f, e) refl)
    ]

extend-append :
    (c : Char) (s : String) (words : List String)
    → extend c (split s ++ words) ≡ extend c (split s) ++ words
extend-append c s words = let (w, more, e) = split-cons s in rw e refl

blank : (t : String) → " " <> t ≡ String.◌∷◌ (char 32 tt) t
blank t = cons-append (char 32 tt) "" t ∙ ap (λ u. String.◌∷◌ (char 32 tt) u) (nil-append t)

split-append : (s t : String) → split (s <> " " <> t) ≡ split s ++ split t
unfolding split
split-append String.[] t = rw (nil-append, blank t) refl
split-append (String.◌∷◌ c s) t = elim (Bool-cases (code c == b' ')) [
  | inl blank ↦ rw (cons-append, split, blank, split-append s t) refl
  | inr other ↦ rw (cons-append, split, other, split-append s t) (extend-append c s (split t))
]

split-join : (args : List String) → args ≢ [] → split (join args " ") ≡ flat_map split args
unfolding join flat_map
split-join [] n = absurd (n refl)
split-join (a ∷ []) n = sym (append-nil (split a))
split-join (a ∷ (b ∷ more)) n =
    split-append a (join (b ∷ more) " ")
    ∙ ap (λ words. split a ++ words) (split-join (b ∷ more) (λ h. cc))

module _ {Client Signer : Type 0} (ssh : Ssh Client Signer) where
  -- An output that RunCommand returns is what a command line printed on the realm, and it says that
  -- the command succeeded: it mentions "successfully" or "<volumes>", and neither "already exists"
  -- nor "no volume with name". The command line consists of the words of the arguments, in their
  -- order: an argument without a blank arrives whole, and one with blanks, such as a volume's name,
  -- falls apart at them.
  pub run_command-words :
      (secrets : GoMap) (args : List String) (clients new : Clients Client) (out : String)
      → args ≢ []
      → run_command ssh secrets args clients ≡ (ok out, new)
      → (client : Client) × (get_ssh_connection ssh secrets clients ≡ (ok client, new))
        × ((cmd : String) × (ssh.combined_output client cmd ≡ ok out)
            × (split cmd ≡ flat_map split args))
        × Succeeds (codes out)
  run_command-words secrets args clients new out n h =
      let ((client, found, printed), success) =
        run_command-Succeeds ssh secrets args clients new out h in
      (client, found, (join args " ", printed, split-join args n), success)
